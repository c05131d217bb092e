-- ===== src/Insert/Choice.antt =====
-- Which class a value goes to.
use utxo_z.Common.{
  ℕ, zero, suc, ◌≤◌, ◌<◌, ◌≡◌, false, List, [], ◌∷◌, Option, none, some, leb, length, arith,
  Bool-cases, inl, inr,
}
use utxo_z.Insert.{get_index_from_size}

pub get_elem? : List ℕ → ℕ → Option ℕ
get_elem? [] n = none
get_elem? (c ∷ cs) zero = some c
get_elem? (c ∷ cs) (suc n) = get_elem? cs n

-- The class chosen for a size is one that the size fits in, and the size fits in no class before it;
-- a size that fits in none gets the number of classes, which is no class.
pub get_index_from_size-least :
    (cs : List ℕ) (size : ℕ)
    → ((n c : ℕ) → get_elem? cs n ≡ some c → n < get_index_from_size cs size → c < size)
      × ((c : ℕ) → get_elem? cs (get_index_from_size cs size) ≡ some c → size ≤ c)
      × (get_index_from_size cs size ≤ length cs)
unfolding get_index_from_size get_elem?
get_index_from_size-least [] size = ((λ n c e h. cc e), (λ c e. cc e), omega arith)
get_index_from_size-least (c ∷ cs) size =
    let (before, here, within) = get_index_from_size-least cs size in
    elim (Bool-cases (leb size c)) [
      | inl fits ↦
          rw fits (
            (λ n c' e h. absurd (omega (arith, h))),
            (λ c' e. ground (arith, fits, e)),
            omega arith,
          )
      | inr not ↦ rw not (earlier not before, here, omega (arith, within))
    ]
  where
    earlier :
        leb size c ≡ false
        → ((n c' : ℕ) → get_elem? cs n ≡ some c' → n < get_index_from_size cs size → c' < size)
        → (n c' : ℕ) → get_elem? (c ∷ cs) n ≡ some c'
        → n < suc (get_index_from_size cs size)
        → c' < size
    earlier not before zero c' e h = ground (arith, not, e)
    earlier not before (suc n) c' e h = before n c' e (omega (arith, h))
