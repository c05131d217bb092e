-- ===== src/Census/Exact.antt =====
-- The checked operations against the width of a word.
use native.Mathlib.Decide.{dec_lt}
use utxo_z.Common.{
  ℕ, zero, suc, ◌+◌, ◌*◌, ◌/◌, ◌^◌, ◌≤◌, ◌<◌, ◌≡◌, refl, ◌∙◌, true, false, List, [], ◌∷◌, none,
  some, arith, u64_max,
}
use utxo_z.Census.{Summing, checked_mul, checked_add, summing_add, sum_all, group_metadata_model}

pub checked_add-some : (a v : ℕ) → a < 2 ^ 64 → a + v < 2 ^ 64 → checked_add a v ≡ some (a + v)
unfolding checked_add
checked_add-some a v ha h = ground arith

pub checked_add-none : (a v : ℕ) → a < 2 ^ 64 → 2 ^ 64 ≤ a + v → checked_add a v ≡ none
unfolding checked_add
checked_add-none a v ha h = ground arith

-- `b ≤ max / a` is `a * b ≤ max`.
mul_le_of_le_div : (a b m : ℕ) → 0 < a → b ≤ m / a → a * b ≤ m
mul_le_of_le_div a b m ha h = grind arith

le_div_of_mul_le : (a b m : ℕ) → 0 < a → a * b ≤ m → b ≤ m / a
le_div_of_mul_le a b m ha h = grind arith

pub checked_mul-some : (a b : ℕ) → a * b < 2 ^ 64 → checked_mul a b ≡ some (a * b)
unfolding checked_mul
checked_mul-some zero b h = ground arith
checked_mul-some (suc a) b h =
    ground (arith, le_div_of_mul_le (suc a) b u64_max (omega arith) (omega arith))

pub checked_mul-none : (a b : ℕ) → 2 ^ 64 ≤ a * b → checked_mul a b ≡ none
unfolding checked_mul
checked_mul-none zero b h = ground arith
checked_mul-none (suc a) b h = ground (arith, mul_le_of_le_div (suc a) b u64_max)

-- Multiplication and addition of 64-bit figures answer the exact result when a 64-bit word holds
-- it, and refuse when it does not; they never answer a wrapped number.
pub checked_exact :
    (a b : ℕ)
    → a < 2 ^ 64
    → b < 2 ^ 64
    → (a * b < 2 ^ 64 → checked_mul a b ≡ some (a * b))
      × (2 ^ 64 ≤ a * b → checked_mul a b ≡ none)
      × (a + b < 2 ^ 64 → checked_add a b ≡ some (a + b))
      × (2 ^ 64 ≤ a + b → checked_add a b ≡ none)
checked_exact a b ha hb =
    (checked_mul-some a b, checked_mul-none a b, checked_add-some a b ha, checked_add-none a b ha)

pub total : List ℕ → ℕ
total [] = 0
total (v ∷ vs) = v + total vs

step_ok :
    (s : Summing) (v : ℕ)
    → s.accumulator + v < 2 ^ 64
    → summing_add s v ≡ record { ok = s.ok; accumulator = s.accumulator + v }
unfolding summing_add
step_ok s v h = rw (checked_add-some s.accumulator v (omega arith) h, summing_add)

step_bad :
    (s : Summing) (v : ℕ)
    → s.accumulator < 2 ^ 64
    → 2 ^ 64 ≤ s.accumulator + v
    → summing_add s v ≡ record { ok = false; accumulator = s.accumulator }
unfolding summing_add
step_bad s v ha h = rw (checked_add-none s.accumulator v ha h, summing_add)

stays_bad :
    (vs : List ℕ) (s : Summing) → s.accumulator < 2 ^ 64 → s.ok ≡ false → (sum_all s vs).ok ≡ false
unfolding sum_all
stays_bad [] s ha h = h
stays_bad (v ∷ vs) s ha h = elim (dec_lt (s.accumulator + v) (2 ^ 64)) [
  | yes fits ↦ rw (step_ok s v fits, sum_all) (stays_bad vs _ fits h)
  | no over ↦ rw (step_bad s v ha (omega arith), sum_all) (stays_bad vs _ ha refl)
]

sum_fits :
    (vs : List ℕ) (s : Summing)
    → s.accumulator + total vs < 2 ^ 64
    → sum_all s vs ≡ record { ok = s.ok; accumulator = s.accumulator + total vs }
unfolding sum_all total
sum_fits [] s h = ground arith
sum_fits (v ∷ vs) s h =
    rw (step_ok s v (omega arith), sum_all)
      (ground (arith, sum_fits vs (record { ok = s.ok; accumulator = s.accumulator + v })))

sum_overflows :
    (vs : List ℕ) (s : Summing)
    → s.accumulator < 2 ^ 64
    → 2 ^ 64 ≤ s.accumulator + total vs
    → (sum_all s vs).ok ≡ false
unfolding sum_all total
sum_overflows [] s ha h = absurd (omega arith)
sum_overflows (v ∷ vs) s ha h = elim (dec_lt (s.accumulator + v) (2 ^ 64)) [
  | yes fits ↦ rw (step_ok s v fits, sum_all) (sum_overflows vs _ fits (omega arith))
  | no over ↦ rw (step_bad s v ha (omega arith), sum_all) (stays_bad vs _ ha refl)
]

abbrev pub fresh : Summing
fresh = record { ok = true; accumulator = 0 }

-- A fold of additions from zero ends with its flag set and the accumulator holding the true total
-- when that total fits in 64 bits, and with the flag cleared when it does not.
pub sum_all_exact :
    (vs : List ℕ)
    → (total vs < 2 ^ 64 → sum_all fresh vs ≡ record { ok = true; accumulator = total vs })
      × (2 ^ 64 ≤ total vs → (sum_all fresh vs).ok ≡ false)
sum_all_exact vs = (
  (λ h. sum_fits vs fresh (omega arith) ∙ ground arith),
  (λ h. sum_overflows vs fresh (omega arith) (omega arith)),
)

-- Up to 2^63 buckets the group metadata is one 16-byte descriptor for each full group of fifteen
-- and one more, and for a larger 64-bit count whose figure no 64-bit word holds it is refused.
pub group_metadata_model_exact :
    (n : ℕ)
    → n < 2 ^ 64
    → (n ≤ 2 ^ 63 → group_metadata_model n ≡ some ((n / 15 + 1) * 16))
      × (2 ^ 64 ≤ (n / 15 + 1) * 16 → group_metadata_model n ≡ none)
unfolding group_metadata_model
group_metadata_model_exact n h = (
  (λ small.
      rw (checked_add-some (n / 15) 1 (omega arith) (omega arith), group_metadata_model)
        (checked_mul-some (n / 15 + 1) 16 (omega arith))),
  (λ big.
      rw (checked_add-some (n / 15) 1 (omega arith) (omega arith), group_metadata_model)
        (checked_mul-none (n / 15 + 1) 16 big)),
)
