-- ===== src/FlatMap/Reference.antt =====
-- A list of entries with a fixed number of buckets meets the laws of the map: it shows that they
-- can hold, and the tests run on it.
use utxo_z.Common.{
  ℕ, ◌+◌, ◌≡◌, ◌≢◌, refl, List, [], ◌∷◌, none, some, if◌then◌else◌, arith, length, leb, nat_eq,
  ◌==◌, ==_iff, ltb,
}
use utxo_z.FlatMap.{Key, FlatMap, Emplaced, present, refused, added, lookup}

instance abbrev pub nat_key : Key ℕ
nat_key = record { beq = ◌==◌; beq_iff = ==_iff; less = ltb }

module _ {V : Type 0} where
  unfoldable pub without : ℕ → List (ℕ × V) → List (ℕ × V)
  without k [] = []
  without k ((j, v) ∷ es) = if j == k then without k es else (j, v) ∷ without k es

  unfoldable pub place : ℕ → List (ℕ × V) → ℕ → V → Emplaced (List (ℕ × V))
  place room es k v = elim (lookup k es) [
    | some w ↦ present
    | none ↦ if leb room (length es) then refused else added ((k, v) ∷ es)
  ]

  pub place_present :
      (room : ℕ) (es : List (ℕ × V)) (k : ℕ) (v : V)
      → lookup k es ≢ none
      → place room es k v ≡ present
  unfolding place
  place_present room es k v h = ground arith

  pub place_absent :
      (room : ℕ) (es : List (ℕ × V)) (k : ℕ) (v : V)
      → place room es k v ≡ present
      → lookup k es ≢ none
  unfolding place
  place_absent room es k v h = ground arith

  pub place_added :
      (room : ℕ) (es : List (ℕ × V)) (k : ℕ) (v : V) (es' : List (ℕ × V))
      → place room es k v ≡ added es'
      → (length es' ≡ length es + 1)
        × ((j : ℕ) → lookup j es' ≡ (if k == j then some v else lookup j es))
  unfolding place lookup
  place_added room es k v es' h =
      let e : es' ≡ (k, v) ∷ es = ground arith in rw e ((omega arith), (λ j. refl))

  pub lookup-without :
      (es : List (ℕ × V)) (k j : ℕ)
      → lookup j (without k es) ≡ (if k == j then none else lookup j es)
  unfolding lookup without
  lookup-without [] k j = ground arith
  lookup-without ((i, v) ∷ es) k j = ground (arith, lookup-without es k j)

  pub find-nil : (n k : ℕ) → lookup {V = V} k [] ≡ none
  unfolding lookup
  find-nil n k = refl

  abbrev pub list_map : ℕ → FlatMap ℕ V
  list_map room = record {
    Map = List (ℕ × V);
    entries = λ m. m;
    find = λ m k. lookup k m;
    size = length;
    bucket_count = λ m. 15;
    max_load = λ m. room;
    construct = λ n. [];
    emplace = place room;
    erase = λ m k. without k m;
    find-entries = λ m k. refl;
    find-construct = find-nil;
    emplace_present = place_present room;
    emplace_absent = place_absent room;
    emplace_added = place_added room;
    find-erase = lookup-without;
  }
