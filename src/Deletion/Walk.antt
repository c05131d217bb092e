-- ===== src/Deletion/Walk.antt =====
-- One pass over a file.
use utxo_z.Common.{
  ℕ, zero, suc, ◌+◌, ◌≡◌, refl, sym, ◌∙◌, ap, Bool, true, false, ◌&&◌, List, [], ◌∷◌, ◌++◌, Option,
  none, some, Bool-cases, inl, inr, arith, All, ◌==◌, ==_iff, ==_refl,
}
use mathlib.Core.Path.{subst, fun_ext}
use mathlib.Core.List.{Perm, perm_middle}
use mathlib.Core.List.Perm
use utxo_z.FlatMap.{Key, FlatMap}
use utxo_z.Deletion.{Request, Stepped, is_some, applied_one, kept_one, step_over_file}
use utxo_z.Deletion.Erases.{Places, update, update_again, Erases, stop, erase, if-none}

-- Where the entries of a store are: in the open version of a class, or in a file behind it.
pub data Place : Type 0 where
  open_version : ℕ → Place
  behind : ℕ → ℕ → Place

unfoldable pub same_place : Place → Place → Bool
same_place (open_version c) (open_version d) = c == d
same_place (behind c v) (behind d u) = c == d && v == u
same_place (open_version c) (behind d u) = false
same_place (behind c v) (open_version d) = false

pub same_place-true : (p q : Place) → same_place p q ≡ true → p ≡ q
unfolding same_place
same_place-true (open_version c) (open_version d) h = ap open_version ((==_iff c d).0 h)
same_place-true (behind c v) (behind d u) h = ground arith
same_place-true (open_version c) (behind d u) h = cc h
same_place-true (behind c v) (open_version d) h = cc h

pub same_place_refl : (p : Place) → same_place p p ≡ true
unfolding same_place
same_place_refl (open_version c) = ==_refl c
same_place_refl (behind c v) = rw (==_refl c, ==_refl v)

abbrev pub places : Places Place
places = record { same = same_place; same-true = same_place-true; same-refl = same_place_refl }

pub some-is : {A : Type 0} (x : Option A) → is_some x ≡ true → (a : A) × (x ≡ some a)
unfolding is_some
some-is none h = cc h
some-is (some a) h = (a, refl)

pub none-is : {A : Type 0} (x : Option A) → is_some x ≡ false → x ≡ none
unfolding is_some
none-is none h = refl
none-is (some a) h = cc h

module _ {K V : Type 0} ⦃key : Key K⦄ (F : FlatMap K V) where
  -- What one pass has done, and not done.
  pub record Passed (m : F.Map) (rs : List (Request K)) (x : Stepped K F.Map) : Type 1 where
    pub erases :
        (g : Place → Option F.Map) (p : Place)
        → g p ≡ some m
        → Erases F places g x.applied (update places p x.map g)
    pub perm : Perm (x.applied ++ x.kept) rs
    pub shrinks : (k : K) → F.find m k ≡ none → F.find x.map k ≡ none
    pub clear : x.thrown ≡ false → All (λ r. F.find x.map r.key ≡ none) x.kept
    pub keeps : (P : Request K → Type 0) → All P rs → All P x.kept

  update_self :
      (g : Place → Option F.Map) (p : Place) (m : F.Map) → g p ≡ some m → update places p m g ≡ g
  update_self g p m at = fun_ext (λ q. elim (Bool-cases (same_place p q)) [
    | inl hit ↦ rw hit (sym at ∙ ap g (same_place-true p q hit))
    | inr miss ↦ rw miss
  ])

  update_at : (g : Place → Option F.Map) (p : Place) (m : F.Map) → update places p m g p ≡ some m
  update_at g p m = rw (same_place_refl p)

  done_Passed :
      (m : F.Map)
      → Passed m [] (record { map = m; kept = []; applied = []; recorded = 0; thrown = false })
  done_Passed m = record {
    erases = λ g p at. stop (update_self g p m at);
    perm = Perm.refl [];
    shrinks = λ k z. z;
    clear = λ _. tt;
    keeps = λ P a. tt;
  }

  kept-Passed :
      (m : F.Map) (r : Request K) (rs : List (Request K)) (x : Stepped K F.Map)
      → F.find m r.key ≡ none
      → Passed m rs x
      → Passed m (r ∷ rs) (kept_one F r x)
  unfolding kept_one
  kept-Passed m r rs x z p = record {
    erases = p.erases;
    perm = Perm.trans (perm_middle x.applied x.kept) (Perm.cons r p.perm);
    shrinks = p.shrinks;
    clear = λ ok. (p.shrinks r.key z, p.clear ok);
    keeps = λ P a. (a.0, p.keeps P a.1);
  }

  -- One deletion, and then the rest of the pass over the map that is left.
  applied-Passed :
      (m : F.Map) (r : Request K) (rs : List (Request K)) (x : Stepped K F.Map) (n : ℕ) (v : V)
      → F.find m r.key ≡ some v
      → Passed (F.erase m r.key) rs x
      → Passed m (r ∷ rs) (record x { applied = r ∷ x.applied; recorded = n })
  applied-Passed m r rs x n v has p = record {
    erases = λ g q at. erase r x.applied (update places q x.map g) q m v at has (
        subst (λ h. Erases F places (update places q (F.erase m r.key) g) x.applied h)
          (update_again places q x.map (F.erase m r.key) g)
          (p.erases (update places q (F.erase m r.key) g) q (update_at g q (F.erase m r.key))));
    perm = Perm.cons r p.perm;
    shrinks =
        λ k z. p.shrinks k (F.find-erase m r.key k ∙ if-none (key.beq r.key k) (F.find m k) z);
    clear = p.clear;
    keeps = λ P a. p.keeps P a.1;
  }

  thrown-Passed :
      (m : F.Map) (r : Request K) (rs : List (Request K)) (v : V)
      → F.find m r.key ≡ some v
      → Passed m (r ∷ rs) (record {
        map = F.erase m r.key;
        kept = rs;
        applied = r ∷ [];
        recorded = 0;
        thrown = true;
      })
  thrown-Passed m r rs v has = record {
    erases = λ g q at. erase r [] (update places q (F.erase m r.key) g) q m v at has (stop refl);
    perm = Perm.refl (r ∷ rs);
    shrinks = λ k z. F.find-erase m r.key k ∙ if-none (key.beq r.key k) (F.find m k) z;
    clear = λ ok. cc ok;
    keeps = λ P a. a.1;
  }

  -- The pass goes on over the map that is left, unless recording the deletion throws.
  applied_one-Passed :
      (m : F.Map) (r : Request K) (rs : List (Request K)) (v : V)
      (rest : Option ℕ → Stepped K F.Map)
      → F.find m r.key ≡ some v
      → ((j : Option ℕ) → Passed (F.erase m r.key) rs (rest j))
      → (n : Option ℕ) → Passed m (r ∷ rs) (applied_one F r n (F.erase m r.key) rs rest)
  unfolding applied_one
  applied_one-Passed m r rs v rest has p none =
      applied-Passed m r rs (rest none) ((rest none).recorded + 1) v has (p none)
  applied_one-Passed m r rs v rest has p (some (suc j)) =
      applied-Passed m r rs (rest (some j)) ((rest (some j)).recorded + 1) v has (p (some j))
  applied_one-Passed m r rs v rest has p (some zero) = thrown-Passed m r rs v has

  pub step_over_file-Passed :
      (n : Option ℕ) (m : F.Map) (rs : List (Request K)) → Passed m rs (step_over_file F n m rs)
  unfolding step_over_file
  step_over_file-Passed n m [] = done_Passed m
  step_over_file-Passed n m (r ∷ rs) = elim (Bool-cases (is_some (F.find m r.key))) [
    | inl hit ↦
        let (v, has) = some-is (F.find m r.key) hit in
        rw hit (
          applied_one-Passed m r rs v (λ j. step_over_file F j (F.erase m r.key) rs) has
            (λ j. step_over_file-Passed j (F.erase m r.key) rs) n)
    | inr miss ↦ rw miss (
        kept-Passed m r rs (step_over_file F n m rs) (none-is (F.find m r.key) miss)
          (step_over_file-Passed n m rs))
  ]
