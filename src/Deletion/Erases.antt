-- ===== src/Deletion/Erases.antt =====
-- Erasures as a step relation on the maps of a store, wherever they are kept, and what a sequence of
-- them does to the content.
use utxo_z.Common.{
  ◌≡◌, ◌≢◌, refl, sym, ◌∙◌, ap, Bool, true, false, List, [], ◌∷◌, ◌++◌, Option, none, some,
  if◌then◌else◌, Bool-cases, inl, inr, All, ◌⊎◌,
}
use mathlib.Core.Path.{subst, fun_ext}
use utxo_z.FlatMap.{Key, FlatMap}
use utxo_z.Merge.View.{ContentOf}
use utxo_z.Deletion.{Request, is_empty}

-- The places that hold a map, told apart by a test.
pub record Places (N : Type 0) : Type 0 where
  pub same : N → N → Bool
  pub same-true : (p q : N) → same p q ≡ true → p ≡ q
  pub same-refl : (p : N) → same p p ≡ true

module _ {N Map : Type 0} (P : Places N) where
  abbrev pub update : N → Map → (N → Option Map) → N → Option Map
  update p m g q = if P.same p q then some m else g q

  pub update_again :
      (p : N) (x y : Map) (g : N → Option Map) → update p x (update p y g) ≡ update p x g
  update_again p x y g = fun_ext (λ q. twice (P.same p q) (g q))
    where
      twice :
          (b : Bool) (z : Option Map)
          → (if b then some x else if b then some y else z) ≡ (if b then some x else z)
      twice true z = refl
      twice false z = refl

pub if-none : {A : Type 0} (b : Bool) (x : Option A) → x ≡ none → (if b then none else x) ≡ none
if-none true x e = refl
if-none false x e = e

pub All-map :
    {A : Type 0} {P Q : A → Type 0} (xs : List A) → ((x : A) → P x → Q x) → All P xs → All Q xs
All-map [] h a = tt
All-map (x ∷ xs) h a = (h x a.0, All-map xs h a.1)

pub empty-All : {A : Type 0} (P : A → Type 0) (xs : List A) → is_empty xs ≡ true → All P xs
unfolding is_empty
empty-All P [] h = tt
empty-All P (x ∷ xs) h = cc h

module _ {K V : Type 0} ⦃key : Key K⦄ (F : FlatMap K V) where
  abbrev pub without_key : K → (K → Option V) → K → Option V
  without_key k f j = if key.beq k j then none else f j

  -- The map that is left when a batch of keys is deleted, one after another.
  unfoldable pub minus : (K → Option V) → List (Request K) → K → Option V
  minus f [] = f
  minus f (r ∷ rs) = minus (without_key r.key f) rs

  pub minus-append :
      (f : K → Option V) (xs ys : List (Request K)) → minus f (xs ++ ys) ≡ minus (minus f xs) ys
  unfolding minus
  minus-append f [] ys = refl
  minus-append f (x ∷ xs) ys = minus-append (without_key x.key f) xs ys

  -- Deleting takes away only.
  pub minus-some :
      (f : K → Option V) (rs : List (Request K)) (k : K) (v : V)
      → minus f rs k ≡ some v
      → f k ≡ some v
  unfolding minus
  minus-some f [] k v h = h
  minus-some f (r ∷ rs) k v h =
      kept (key.beq r.key k) (f k) (minus-some (without_key r.key f) rs k v h)
    where
      kept : (b : Bool) (x : Option V) → (if b then none else x) ≡ some v → x ≡ some v
      kept true x e = cc e
      kept false x e = e

  -- and only the keys of the batch.
  pub minus_other :
      (f : K → Option V) (rs : List (Request K)) (k : K)
      → All (λ r. key.beq r.key k ≡ false) rs
      → minus f rs k ≡ f k
  unfolding minus
  minus_other f [] k a = refl
  minus_other f (r ∷ rs) k a = minus_other (without_key r.key f) rs k a.1 ∙ rw a.0

  module _ {N : Type 0} (P : Places N) where
    -- Each key of the batch is erased from a map that holds it.
    pub data Erases : (N → Option F.Map) → List (Request K) → (N → Option F.Map) → Type 0 where
      stop : {g h : N → Option F.Map} → h ≡ g → Erases g [] h
      erase :
          {g : N → Option F.Map} (r : Request K) (rs : List (Request K)) (h : N → Option F.Map)
          (p : N) (m : F.Map) (v : V)
          → g p ≡ some m
          → F.find m r.key ≡ some v
          → Erases (update P p (F.erase m r.key) g) rs h
          → Erases g (r ∷ rs) h

    pub Erases-append :
        (g h k : N → Option F.Map) (xs ys : List (Request K))
        → Erases g xs h
        → Erases h ys k
        → Erases g (xs ++ ys) k
    Erases-append g h k [] ys (stop e) b = subst (λ x. Erases x ys k) e b
    Erases-append g h k (x ∷ xs) ys (erase r rs h' p m v at has a) b =
        erase x (xs ++ ys) k p m v at has
          (Erases-append (update P p (F.erase m x.key) g) h k xs ys a b)

    module _ (g : N → Option F.Map) (p : N) (m : F.Map) (at : g p ≡ some m) (k : K) where
      abbrev after : N → Option F.Map
      after = update P p (F.erase m k) g

      -- Where an entry of the new maps comes from, and where one of the old maps goes.
      came_from :
          (q : N) (m' : F.Map) (j : K) (v : V)
          → after q ≡ some m'
          → F.find m' j ≡ some v
          → (m₀ : F.Map) × (g q ≡ some m₀)
            × (F.find m₀ j ≡ some v)
            × ((key.beq k j ≡ false) ⊎ (P.same p q ≡ false))
      came_from q m' j v e has = elim (Bool-cases (P.same p q)) [
        | inl hit ↦
            let this : some (F.erase m k) ≡ some m' = rw hit at e in
            let found : F.find (F.erase m k) j ≡ some v = cc (this, has) in
            elim (Bool-cases (key.beq k j)) [
              | inl gone ↦
                  let found' : F.find (F.erase m k) j ≡ none = F.find-erase m k j ∙ rw gone in
                  absurd (cc (found, found'))
              | inr stays ↦ (
                m,
                ap g (sym (P.same-true p q hit)) ∙ at,
                cc (found, rw stays at (F.find-erase m k j)),
                inl stays,
              )
            ]
        | inr miss ↦ (m', rw miss at e, has, inr miss)
      ]

      goes_to :
          (q : N) (m₀ : F.Map) (j : K) (v : V)
          → g q ≡ some m₀
          → F.find m₀ j ≡ some v
          → key.beq k j ≡ false
          → (m' : F.Map) × (after q ≡ some m') × (F.find m' j ≡ some v)
      goes_to q m₀ j v e has stays = elim (Bool-cases (P.same p q)) [
        | inl hit ↦
            let same_map : some m ≡ some m₀ = sym at ∙ ap g (P.same-true p q hit) ∙ e in
            (F.erase m k, rw hit, F.find-erase m k j ∙ rw stays (cc (same_map, has)))
        | inr miss ↦ (m₀, rw miss e, has)
      ]

      -- Erasing a key that a map holds deletes it from the content.
      pub erase-ContentOf :
          (f : K → Option V) (v : V)
          → F.find m k ≡ some v
          → ContentOf F g f
          → ContentOf F after (without_key k f)
      erase-ContentOf f v here c = record {
        sound = λ q m' j w e has.
            let (m₀, e₀, has₀, why) = came_from q m' j w e has in
            elim (Bool-cases (key.beq k j)) [
              | inl hit ↦ elim why [
                | inl stays ↦ cc (hit, stays)
                | inr elsewhere ↦
                    let j_here : F.find m j ≡ some v = rw (← (key.beq_iff k j).0 hit) here in
                    let pq : p ≡ q = c.apart p q m m₀ j v w at e₀ j_here has₀ in
                    let again : P.same p q ≡ true = ap (P.same p) (sym pq) ∙ P.same-refl p in
                    cc (again, elsewhere)
              ]
              | inr miss ↦ rw miss (c.sound q m₀ j w e₀ has₀)
            ];
        complete = λ j w e. elim (Bool-cases (key.beq k j)) [
          | inl hit ↦ let none_some : none ≡ some w = rw hit at e in cc none_some
          | inr miss ↦
              let e' : f j ≡ some w = rw miss at e in
              let (q, m₀, e₀, has₀) = c.complete j w e' in
              let (m', e₁, has₁) = goes_to q m₀ j w e₀ has₀ miss in (q, m', e₁, has₁)
        ];
        apart = λ q q' m₁ m₂ j w w' e e' has has'.
            let (n, en, hn, _) = came_from q m₁ j w e has in
            let (n', en', hn', _) = came_from q' m₂ j w' e' has' in
            c.apart q q' n n' j w w' en en' hn hn';
      }

    pub Erases-ContentOf :
        (g : N → Option F.Map) (rs : List (Request K)) (h : N → Option F.Map) (f : K → Option V)
        → Erases g rs h
        → ContentOf F g f
        → ContentOf F h (minus f rs)
    unfolding minus
    Erases-ContentOf g [] h f (stop e) c = subst (λ x. ContentOf F x f) (sym e) c
    Erases-ContentOf g (r ∷ rs) h f (erase r' rs' h' p m v at has a) c =
        Erases-ContentOf (update P p (F.erase m r.key) g) rs h (without_key r.key f) a
          (erase-ContentOf g p m at r.key f v has c)

    -- Only keys that are stored are erased.
    pub Erases-found :
        (g : N → Option F.Map) (rs : List (Request K)) (h : N → Option F.Map) (f : K → Option V)
        → Erases g rs h
        → ContentOf F g f
        → All (λ r. f r.key ≢ none) rs
    Erases-found g [] h f (stop e) c = tt
    Erases-found g (r ∷ rs) h f (erase r' rs' h' p m v at has a) c = (
      (λ gone. let is : f r.key ≡ some v = c.sound p m r.key v at has in cc (gone, is)),
      All-map rs (λ q there gone. there (if-none (key.beq r.key q.key) (f q.key) gone))
          (Erases-found (update P p (F.erase m r.key) g) rs h (without_key r.key f) a
            (erase-ContentOf g p m at r.key f v has c)),
    )

    -- No map gains a key.
    pub Erases-shrinks :
        (g : N → Option F.Map) (rs : List (Request K)) (h : N → Option F.Map) (q : N) (m' : F.Map)
        → Erases g rs h
        → h q ≡ some m'
        → (m₀ : F.Map) × (g q ≡ some m₀) × ((k : K) → F.find m₀ k ≡ none → F.find m' k ≡ none)
    Erases-shrinks g [] h q m' (stop e) at' =
        (m', ap (λ (x : N → Option F.Map). x q) (sym e) ∙ at', (λ k z. z))
    Erases-shrinks g (r ∷ rs) h q m' (erase r' rs' h' p m v at has a) at' =
        let (m₁, e₁, s₁) = Erases-shrinks (update P p (F.erase m r.key) g) rs h q m' a at' in
        elim (Bool-cases (P.same p q)) [
          | inl hit ↦
              let this : some (F.erase m r.key) ≡ some m₁ = rw hit at e₁ in
              (
                m,
                ap g (sym (P.same-true p q hit)) ∙ at,
                (λ k z. s₁ k (stays_none m r.key k m₁ this z)),
              )
          | inr miss ↦ (m₁, rw miss at e₁, s₁)
        ]
      where
        stays_none :
            (m : F.Map) (j k : K) (m₁ : F.Map)
            → some (F.erase m j) ≡ some m₁
            → F.find m k ≡ none
            → F.find m₁ k ≡ none
        stays_none m j k m₁ this z =
            let e : F.find (F.erase m j) k ≡ none =
              F.find-erase m j k ∙ if-none (key.beq j k) (F.find m k) z in
            cc (this, e)
