-- ===== src/Census.antt =====
-- src/detail/census_arithmetic.hpp: arithmetic on figures that came out of a file, with refusals.
pub mod Exact
use utxo_z.Common.{
  ℕ, zero, suc, ◌+◌, ◌-◌, ◌*◌, ◌/◌, ◌%◌, Bool, true, false, ◌&&◌, not, List, [], ◌∷◌, Option, none,
  some, ltb, ◌==◌, if◌then◌else◌, u64_mod, u64_max,
}

-- The out parameter is the result, `none` where the function answers false.
unfoldable pub checked_mul : ℕ → ℕ → Option ℕ
checked_mul a b = if not (a == 0) && ltb (u64_max / a) b then none else some ((a * b) % u64_mod)

unfoldable pub checked_add : ℕ → ℕ → Option ℕ
checked_add accumulator value =
    if ltb (u64_max - accumulator) value then none else some ((accumulator + value) % u64_mod)

-- `struct summing`, with the accumulator it is applied to: a refused addition leaves the
-- accumulator as it was and clears the flag.
pub record Summing : Type 0 where
  pub ok : Bool
  pub accumulator : ℕ

unfoldable pub summing_add : Summing → ℕ → Summing
summing_add s value = elim (checked_add s.accumulator value) [
  | none ↦ record s { ok = false }
  | some total ↦ record s { accumulator = total }
]

unfoldable pub sum_all : Summing → List ℕ → Summing
sum_all s [] = s
sum_all s (v ∷ vs) = sum_all (summing_add s v) vs

unfoldable pub group_metadata_model : ℕ → Option ℕ
group_metadata_model bucket_count = elim (checked_add (bucket_count / 15) 1) [
  | none ↦ none
  | some groups ↦ checked_mul groups 16
]

-- `true` where the counts are accepted, `false` for `error_code::entry_corrupt`.
unfoldable pub validate_generation_counts : ℕ → ℕ → Bool
validate_generation_counts entries bucket_count = if ltb bucket_count entries then false else true

unfoldable pub validate_payload_length : ℕ → ℕ → Bool
validate_payload_length recorded capacity = if ltb capacity recorded then false else true
