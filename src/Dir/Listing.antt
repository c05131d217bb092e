-- ===== src/Dir/Listing.antt =====
-- What `enumerate_versions` of src/detail/version_catalog.hpp lists.
use utxo_z.Common.{
  ℕ, ◌≡◌, refl, sym, ◌∙◌, true, false, ◌||◌, List, [], ◌∷◌, ◌==◌, ==_iff, ==_refl, ltb, arith,
  Bool-cases, inl, inr, All,
}
use utxo_z.Sidecar.{contains}
use utxo_z.Dir.{
  Kind, name, same_name, Dir, insert_sorted, sort, unique, exists_in, file_at, collect,
}

contains-insert_sorted :
    (v n : ℕ) (vs : List ℕ) → contains (insert_sorted v vs) n ≡ (v == n || contains vs n)
unfolding contains insert_sorted
contains-insert_sorted v n [] = refl
contains-insert_sorted v n (w ∷ ws) = ground (arith, contains-insert_sorted v n ws)

contains-sort : (vs : List ℕ) (n : ℕ) → contains (sort vs) n ≡ contains vs n
unfolding contains sort
contains-sort [] n = refl
contains-sort (v ∷ vs) n = rw (contains-insert_sorted v n (sort vs), contains-sort vs n)

contains-unique : (vs : List ℕ) (n : ℕ) → contains (unique vs) n ≡ contains vs n
unfolding contains unique
contains-unique [] n = refl
contains-unique (v ∷ []) n = refl
contains-unique (v ∷ w ∷ ws) n = ground (arith, contains-unique (w ∷ ws) n)

pub contains-collect :
    {Map : Type 0} (k : Kind) (c n : ℕ) (d : Dir Map)
    → contains (collect k c d) n ≡ exists_in (file_at (name k c n) d)
unfolding contains collect file_at exists_in same_name
contains-collect k c n [] = refl
contains-collect k c n ((m, x) ∷ d) = ground (arith, contains-collect k c n d)

pub contains-listed :
    {Map : Type 0} (k : Kind) (c n : ℕ) (d : Dir Map)
    → contains (unique (sort (collect k c d))) n ≡ exists_in (file_at (name k c n) d)
contains-listed k c n d =
    contains-unique (sort (collect k c d)) n
    ∙ contains-sort (collect k c d) n
    ∙ contains-collect k c n d

-- A list whose members are all the same is listed as that one.
insert-All :
    (t v : ℕ) (vs : List ℕ) → v ≡ t → All (λ n. n ≡ t) vs → All (λ n. n ≡ t) (insert_sorted v vs)
unfolding insert_sorted
insert-All t v [] e a = (e, tt)
insert-All t v (w ∷ ws) e a = elim (Bool-cases (ltb w v)) [
  | inl h ↦ rw h (a.0, insert-All t v ws e a.1)
  | inr h ↦ rw h (e, a)
]

sort-All : (t : ℕ) (vs : List ℕ) → All (λ n. n ≡ t) vs → All (λ n. n ≡ t) (sort vs)
unfolding sort
sort-All t [] a = tt
sort-All t (v ∷ vs) a = insert-All t v (sort vs) a.0 (sort-All t vs a.1)

unique-All : (t v : ℕ) (vs : List ℕ) → All (λ n. n ≡ t) (v ∷ vs) → unique (v ∷ vs) ≡ t ∷ []
unfolding unique
unique-All t v [] a = rw a.0
unique-All t v (w ∷ ws) a =
    let e = unique-All t w ws a.1 in
    let h : (v == w) ≡ true = (==_iff v w).1 (cc (a.0, a.1.0)) in rw (h, e)

All-same : (t : ℕ) (vs : List ℕ) → ((n : ℕ) → contains vs n ≡ true → n ≡ t) → All (λ n. n ≡ t) vs
unfolding contains
All-same t [] h = tt
All-same t (v ∷ vs) h =
    (h v (ground (arith, ==_refl v)), All-same t vs (λ n is. h n (ground (arith, is))))

unique_one : (t : ℕ) (vs : List ℕ) → All (λ n. n ≡ t) vs → contains vs t ≡ true → unique vs ≡ t ∷ []
unfolding contains
unique_one t [] a h = cc h
unique_one t (v ∷ vs) a h = unique-All t v vs a

pub listed_one :
    (t : ℕ) (vs : List ℕ) → ((n : ℕ) → contains vs n ≡ (t == n)) → unique (sort vs) ≡ t ∷ []
listed_one t vs h =
    unique_one t (sort vs)
      (sort-All t vs (All-same t vs (λ n is. sym ((==_iff t n).0 (sym (h n) ∙ is)))))
      (contains-sort vs t ∙ h t ∙ ==_refl t)

pub listed_none : (vs : List ℕ) → ((n : ℕ) → contains vs n ≡ false) → unique (sort vs) ≡ []
unfolding contains sort unique
listed_none [] h = refl
listed_none (v ∷ vs) h = let e = h v in absurd (ground (arith, ==_refl v))
