-- ===== src/Sidecar/Coherent.antt =====
-- What a valid plan is, apart from the code that checks it: a marker that is not empty, sources in
-- strictly ascending order, and a target that is not among them.
use utxo_z.Common.{ℕ, ◌≤◌, ◌<◌, ◌≡◌, ◌≢◌, refl, true, false, List, [], ◌∷◌, arith, All, length}
use utxo_z.Sidecar.{Plan, is_empty, contains, supersedes, adjacent_find, is_sorted, coherent}
use utxo_z.Sidecar.Bytes.{IsWord}

abbrev pub Ascending : List ℕ → Type 0
Ascending [] = Unit
Ascending (x ∷ []) = Unit
Ascending (x ∷ y ∷ rest) = (x < y) × Ascending (y ∷ rest)

pub record IsCoherent (p : Plan) : Type 0 where
  pub marked : ¬ ((p.id.high ≡ 0) × (p.id.low ≡ 0))
  pub apart : All (λ s. s ≢ p.target) p.sources
  pub ascending : Ascending p.sources

-- What fits in the record.
pub record Fits (p : Plan) : Type 0 where
  pub container_word : IsWord p.container
  pub target_word : IsWord p.target
  pub high_word : IsWord p.id.high
  pub low_word : IsWord p.id.low
  pub source_words : All IsWord p.sources
  pub some_source : 1 ≤ length p.sources
  pub few_sources : length p.sources ≤ 64

pub contains→ne : (ss : List ℕ) (v : ℕ) → contains ss v ≡ false → All (λ s. s ≢ v) ss
unfolding contains
contains→ne [] v h = tt
contains→ne (s ∷ ss) v h = (ground arith, contains→ne ss v (ground arith))

ne→contains : (ss : List ℕ) (v : ℕ) → All (λ s. s ≢ v) ss → contains ss v ≡ false
unfolding contains
ne→contains [] v a = refl
ne→contains (s ∷ ss) v a = let e = a.0 in ground (arith, ne→contains ss v a.1)

ascending→tests : (ss : List ℕ) → Ascending ss → (adjacent_find ss ≡ false) × (is_sorted ss ≡ true)
unfolding adjacent_find is_sorted
ascending→tests [] a = (refl, refl)
ascending→tests (x ∷ []) a = (refl, refl)
ascending→tests (x ∷ y ∷ rest) a = ground (arith, ascending→tests (y ∷ rest) a.1)

tests→ascending : (ss : List ℕ) → adjacent_find ss ≡ false → is_sorted ss ≡ true → Ascending ss
unfolding adjacent_find is_sorted
tests→ascending [] p q = tt
tests→ascending (x ∷ []) p q = tt
tests→ascending (x ∷ y ∷ rest) p q = ground (arith, tests→ascending (y ∷ rest))

pub coherent_of : (p : Plan) → IsCoherent p → coherent p ≡ true
unfolding coherent is_empty supersedes
coherent_of p c =
    ground (
      arith,
      ne→contains p.sources p.target c.apart,
      ascending→tests p.sources c.ascending,
      c.marked,
    )

pub of_coherent : (p : Plan) → coherent p ≡ true → IsCoherent p
unfolding coherent is_empty supersedes
of_coherent p h = record {
  marked = ground arith;
  apart = contains→ne p.sources p.target (ground arith);
  ascending = tests→ascending p.sources (ground arith) (ground arith);
}
