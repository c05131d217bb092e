-- ===== src/Merge/View.antt =====
-- What a directory stores for one container, apart from how: the entries of the version files, and
-- what of them is left once the sources of a merge are set aside.
use utxo_z.Common.{
  ℕ, ◌≡◌, ◌≢◌, ◌⊎◌, ==_iff, ==_refl, refl, sym, ◌∙◌, ap, true, false, List, [], ◌∷◌, ◌++◌, Option,
  none, some, if◌then◌else◌, ◌==◌, arith, Bool-cases, inl, inr,
}
use mathlib.Core.Path.{fun_ext}
use utxo_z.Sidecar.{contains}
use utxo_z.FlatMap.{Key, FlatMap}
use utxo_z.Dir.{
  Dir, name, same_name, Kind, affix, data_file, Content, segment, raw, file_at, unlink, write,
  file_at-unlink, file_at-write,
}

module _ {Map : Type 0} where
  pub files : Kind → ℕ → Dir Map → ℕ → Option (Content Map)
  files kind c d v = file_at (name kind c v) d

  pub files-file_at :
      (kind : Kind) (c v : ℕ) (d : Dir Map) → files kind c d v ≡ file_at (name kind c v) d
  unfolding files
  files-file_at kind c v d = refl

  abbrev pub map_of : Option (Content Map) → Option Map
  map_of (some (segment id m)) = some m
  map_of (some (raw bytes)) = none
  map_of none = none

  -- The readable version files.
  abbrev pub view : ℕ → Dir Map → ℕ → Option Map
  view c d v = map_of (files data_file c d v)

  -- The same files of a kind, whatever else changed.
  pub files-unlink :
      (kind k : Kind) (c v : ℕ) (d : Dir Map)
      → (affix k == affix kind) ≡ false
      → files kind c (unlink (name k c v) d) ≡ files kind c d
  unfolding files same_name
  files-unlink kind k c v d h = fun_ext (λ n. rw file_at-unlink (ground arith))

  -- Those of another container are the same.
  pub files-unlink_other :
      (kind k : Kind) (c c' v : ℕ) (d : Dir Map)
      → (c == c') ≡ false
      → files kind c' (unlink (name k c v) d) ≡ files kind c' d
  unfolding files same_name
  files-unlink_other kind k c c' v d h = fun_ext (λ n. rw file_at-unlink (ground arith))

  pub files-write :
      (kind k : Kind) (c v : ℕ) (x : Content Map) (d : Dir Map)
      → (affix k == affix kind) ≡ false
      → files kind c (write (name k c v) x d) ≡ files kind c d
  unfolding files same_name
  files-write kind k c v x d h = fun_ext (λ n. rw file_at-write (ground arith))

  pub files-unlink_self :
      (kind : Kind) (c v : ℕ) (d : Dir Map) (n : ℕ)
      → files kind c (unlink (name kind c v) d) n ≡ (if v == n then none else files kind c d n)
  unfolding files same_name
  files-unlink_self kind c v d n = rw file_at-unlink (ground arith)

  pub files-write_self :
      (kind : Kind) (c v : ℕ) (x : Content Map) (d : Dir Map) (n : ℕ)
      → files kind c (write (name kind c v) x d) n ≡ (if v == n then some x else files kind c d n)
  unfolding files same_name
  files-write_self kind c v x d n = rw file_at-write (ground arith)

  abbrev pub aside : List ℕ → (ℕ → Option Map) → ℕ → Option Map
  aside sources g n = if contains sources n then none else g n

pub contains_middle :
    (n s : ℕ) (xs ys : List ℕ) → contains (s ∷ (xs ++ ys)) n ≡ contains (xs ++ (s ∷ ys)) n
unfolding contains
contains_middle n s [] ys = refl
contains_middle n s (x ∷ xs) ys = ground (arith, contains_middle n s xs ys)

pub contains-append_nil : (n : ℕ) (xs : List ℕ) → contains xs n ≡ contains (xs ++ []) n
unfolding contains
contains-append_nil n [] = refl
contains-append_nil n (x ∷ xs) = ground (arith, contains-append_nil n xs)

module _ {K V : Type 0} ⦃key : Key K⦄ (F : FlatMap K V) where
  -- The maps hold exactly the entries of `f`, each in one map only.
  pub record ContentOf {N : Type 0} (g : N → Option F.Map) (f : K → Option V) : Type 0 where
    pub sound :
        (n : N) (m : F.Map) (k : K) (v : V) → g n ≡ some m → F.find m k ≡ some v → f k ≡ some v
    pub complete :
        (k : K) (v : V)
        → f k ≡ some v
        → (n : N) × (m : F.Map) × (g n ≡ some m) × (F.find m k ≡ some v)
    pub apart :
        (n n' : N) (m m' : F.Map) (k : K) (v v' : V)
        → g n ≡ some m
        → g n' ≡ some m'
        → F.find m k ≡ some v
        → F.find m' k ≡ some v'
        → n ≡ n'

  -- `t` holds what the maps of the listed versions hold.
  pub record Merged (g : ℕ → Option F.Map) (sources : List ℕ) (t : F.Map) : Type 0 where
    pub from :
        (k : K) (v : V)
        → F.find t k ≡ some v
        → (s : ℕ) × (m : F.Map) × (contains sources s ≡ true)
          × (g s ≡ some m)
          × (F.find m k ≡ some v)
    pub to :
        (s : ℕ) (m : F.Map) (k : K) (v : V)
        → contains sources s ≡ true
        → g s ≡ some m
        → F.find m k ≡ some v
        → F.find t k ≡ some v
    pub there : (s : ℕ) → contains sources s ≡ true → g s ≢ none

  pub Merged-congr :
      (g : ℕ → Option F.Map) (xs ys : List ℕ) (t : F.Map)
      → ((n : ℕ) → contains ys n ≡ contains xs n)
      → Merged g xs t
      → Merged g ys t
  Merged-congr g xs ys t e m = record {
    from = λ k v h. let (s, m', is, at, has) = m.from k v h in (s, m', e s ∙ is, at, has);
    to = λ s m' k v is. m.to s m' k v (sym (e s) ∙ is);
    there = λ s is. m.there s (sym (e s) ∙ is);
  }

  pub Merged-view :
      (g h : ℕ → Option F.Map) (xs : List ℕ) (t : F.Map)
      → ((n : ℕ) → h n ≡ g n)
      → Merged g xs t
      → Merged h xs t
  Merged-view g h xs t e m = record {
    from = λ k v has. let (s, m', is, at, r) = m.from k v has in (s, m', is, e s ∙ at, r);
    to = λ s m' k v is at. m.to s m' k v is (sym (e s) ∙ at);
    there = λ s is gone. m.there s is (sym (e s) ∙ gone);
  }

  pub ContentOf-congr :
      {N : Type 0} (g h : N → Option F.Map) (f : K → Option V)
      → ((n : N) → h n ≡ g n)
      → ContentOf g f
      → ContentOf h f
  ContentOf-congr g h f e c = record {
    sound = λ n m k v p q. c.sound n m k v (sym (e n) ∙ p) q;
    complete = λ k v p. let (n, m, q, r) = c.complete k v p in (n, m, e n ∙ q, r);
    apart =
        λ n n' m m' k v v' p q r s. c.apart n n' m m' k v v' (sym (e n) ∙ p) (sym (e n') ∙ q) r s;
  }

  -- Publishing the merged map under a free identity, with the sources set aside, keeps the content.
  module _ (g h : ℕ → Option F.Map) (f : K → Option V) (sources : List ℕ) (target : ℕ) (t : F.Map)
      (c : ContentOf g f) (free : g target ≡ none) (merged : Merged g sources t)
      (e : (n : ℕ) → h n ≡ (if target == n then some t else g n)) where
    pub target_not_source : contains sources target ≡ false
    target_not_source = elim (Bool-cases (contains sources target)) [
      | inl is ↦ absurd (merged.there target is free)
      | inr not ↦ not
    ]

    -- Where an entry of the new view comes from.
    origin :
        (n : ℕ) (m : F.Map) (k : K) (v : V)
        → aside sources h n ≡ some m
        → F.find m k ≡ some v
        → ((n ≡ target) × (F.find t k ≡ some v)) ⊎ ((contains sources n ≡ false) × (g n ≡ some m))
    origin n m k v p q = elim (Bool-cases (contains sources n)) [
      | inl is ↦ cc (rw is at p)
      | inr not ↦
          let r : h n ≡ some m = rw not at p in
          elim (Bool-cases (target == n)) [
            | inl hit ↦
                let same : some t ≡ some m = rw hit at (sym (e n) ∙ r) in
                inl (sym ((==_iff target n).0 hit), cc)
            | inr miss ↦ inr (not, (rw miss at (sym (e n) ∙ r)))
          ]
    ]

    target_holds : aside sources h target ≡ some t
    target_holds = rw (target_not_source, e target, ==_refl target)

    kept :
        (n : ℕ) (m : F.Map) → contains sources n ≡ false → g n ≡ some m → aside sources h n ≡ some m
    kept n m not p = elim (Bool-cases (target == n)) [
      | inl hit ↦ let is : target ≡ n = (==_iff target n).0 hit in absurd (cc (free, is, p))
      | inr miss ↦ rw (not, e n, miss) p
    ]

    pub publish-ContentOf : ContentOf (aside sources h) f
    publish-ContentOf = record { sound = sound; complete = complete; apart = apart }
      where
        sound :
            (n : ℕ) (m : F.Map) (k : K) (v : V)
            → aside sources h n ≡ some m
            → F.find m k ≡ some v
            → f k ≡ some v
        sound n m k v p q = elim (origin n m k v p q) [
          | inl (_, r) ↦ let (s, m', _, at, has) = merged.from k v r in c.sound s m' k v at has
          | inr (_, r) ↦ c.sound n m k v r q
        ]

        complete :
            (k : K) (v : V)
            → f k ≡ some v
            → (n : ℕ) × (m : F.Map) × (aside sources h n ≡ some m) × (F.find m k ≡ some v)
        complete k v p =
            let (n, m, at, has) = c.complete k v p in
            elim (Bool-cases (contains sources n)) [
              | inl is ↦ (target, t, target_holds, merged.to n m k v is at has)
              | inr not ↦ (n, m, kept n m not at, has)
            ]

        mixed :
            (n : ℕ) (m : F.Map) (k : K) (v v' : V)
            → contains sources n ≡ false
            → g n ≡ some m
            → F.find m k ≡ some v
            → F.find t k ≡ some v'
            → ⊥
        mixed n m k v v' not at has r =
            let (s, m', is, at', has') = merged.from k v' r in
            let same : n ≡ s = c.apart n s m m' k v v' at at' has has' in
            cc (ap (contains sources) same, not, is)

        apart :
            (n n' : ℕ) (m m' : F.Map) (k : K) (v v' : V)
            → aside sources h n ≡ some m
            → aside sources h n' ≡ some m'
            → F.find m k ≡ some v
            → F.find m' k ≡ some v'
            → n ≡ n'
        apart n n' m m' k v v' p q r s = elim (origin n m k v p r) [
          | inl (a, x) ↦ elim (origin n' m' k v' q s) [
            | inl (b, _) ↦ a ∙ sym b
            | inr (not, at) ↦ absurd (mixed n' m' k v' v not at s x)
          ]
          | inr (not, at) ↦ elim (origin n' m' k v' q s) [
            | inl (_, y) ↦ absurd (mixed n m k v v' not at r y)
            | inr (_, at') ↦ c.apart n n' m m' k v v' at at' r s
          ]
        ]
