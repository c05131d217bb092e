-- ===== src/FlatMap.antt =====
-- What the store uses of `boost::unordered_flat_map` inside a segment: a parameter of the model,
-- with the documented behaviour as laws. A reference map meets the laws.
pub mod Reference
use utxo_z.Common.{
  ℕ, suc, ◌+◌, ◌≡◌, ◌≢◌, ◌↔◌, Bool, true, false, List, [], ◌∷◌, Option, none, some, if◌then◌else◌,
}

-- Outpoints: their equality and the byte order.
pub record Key (K : Type 0) : Type 0 where
  pub beq : K → K → Bool
  pub beq_iff : (a b : K) → (beq a b ≡ true) ↔ (a ≡ b)
  pub less : K → K → Bool

-- `emplace`: the key was there, the entry is in, or the allocation threw and nothing changed.
pub data Emplaced (Map : Type 0) : Type 0 where
  present refused : Emplaced Map
  added : Map → Emplaced Map

module _ {K V : Type 0} ⦃key : Key K⦄ where
  unfoldable pub lookup : K → List (K × V) → Option V
  lookup k [] = none
  lookup k ((j, v) ∷ es) = if key.beq j k then some v else lookup k es

pub record FlatMap (K V : Type 0) ⦃key : Key K⦄ : Type 1 where
  pub Map : Type 0
  pub entries : Map → List (K × V)
  pub find : Map → K → Option V
  pub size : Map → ℕ
  pub bucket_count : Map → ℕ
  pub max_load : Map → ℕ
  pub construct : ℕ → Map
  pub emplace : Map → K → V → Emplaced Map
  pub erase : Map → K → Map
  -- Iteration visits what `find` finds.
  pub find-entries : (m : Map) (k : K) → find m k ≡ lookup k (entries m)
  -- A map just constructed is empty.
  pub find-construct : (n : ℕ) (k : K) → find (construct n) k ≡ none
  -- A key that is there is never written again, and one that is not there is what goes in.
  pub emplace_present : (m : Map) (k : K) (v : V) → find m k ≢ none → emplace m k v ≡ present
  pub emplace_absent : (m : Map) (k : K) (v : V) → emplace m k v ≡ present → find m k ≢ none
  pub emplace_added :
      (m : Map) (k : K) (v : V) (m' : Map)
      → emplace m k v ≡ added m'
      → (size m' ≡ size m + 1) × ((j : K) → find m' j ≡ (if key.beq k j then some v else find m j))
  pub find-erase :
      (m : Map) (k j : K) → find (erase m k) j ≡ (if key.beq k j then none else find m j)
