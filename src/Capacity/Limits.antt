-- ===== src/Capacity/Limits.antt =====
-- The thresholds against the growth point of the map, and what the growth watch counts.
use utxo_z.Common.{
  ℕ, suc, ◌+◌, ◌*◌, ◌/◌, ◌%◌, ◌^◌, ◌≤◌, ◌<◌, ◌≡◌, ◌≢◌, refl, List, [], ◌∷◌, arith, All, u64_mod,
  ◌==◌, if◌then◌else◌,
}
use utxo_z.Capacity.{
  bucket_step, next_bucket_step, max_size_without_rehash, max_entries_for, effective_insert_limit,
  CapacityEntry, production_capacity, production_reference, testing_capacity, RehashWatch, reset,
  detect_rehash, watch_all,
}
use native.Mathlib.Nat.{pow-suc, pow-le-pow_right, one-le-pow}

-- For every 64-bit bucket count the growth point is exactly seven eighths of it rounded down,
-- although the code divides before it multiplies.
pub max_size_without_rehash_exact : (n : ℕ) → n < 2 ^ 64 → max_size_without_rehash n ≡ 7 * n / 8
unfolding max_size_without_rehash
max_size_without_rehash_exact n h = omega arith

-- For every bucket count from 23 up to 2^56 the operating threshold lies strictly below the
-- growth point of a fresh map, and the effective limit is at most the live growth point and strictly
-- below that of a fresh map.
pub effective_insert_limit_below_growth :
    (n live : ℕ)
    → 23 ≤ n
    → n ≤ 2 ^ 56
    → (max_entries_for n < max_size_without_rehash n)
      × (effective_insert_limit n live ≤ live)
      × (effective_insert_limit n live < max_size_without_rehash n)
unfolding max_size_without_rehash effective_insert_limit
effective_insert_limit_below_growth n live lo hi = ground arith

-- For every step up to the sixtieth the bucket count is 15 * 2^k - 1 without wrapping, and the step
-- that a growth moves to is the next one of the series.
pub bucket_step_series :
    (k : ℕ)
    → k < 60
    → (bucket_step k + 1 ≡ 15 * 2 ^ k) × (next_bucket_step (bucket_step k) ≡ bucket_step (suc k))
unfolding bucket_step next_bucket_step
bucket_step_series k h =
    let low : 1 ≤ 2 ^ k = one-le-pow k 2 (omega arith) in
    let high : 2 ^ suc k ≤ 2 ^ 60 = pow-le-pow_right (omega arith) {j = 60} (omega arith) in
    let next : 2 ^ suc k ≡ 2 ^ k * 2 = pow-suc 2 k in (omega arith, omega arith)

-- A table entry is operated below its growth point: it asks for a bucket count of the series, gets
-- what it asks for, and rotates strictly before a fresh map of that size would grow.
abbrev IsSound : CapacityEntry → Type 0
IsSound e =
    (e.capacity ≡ e.bucket_count)
    × (max_entries_for e.bucket_count < max_size_without_rehash e.bucket_count)
    × ((k : ℕ) × (bucket_step k ≡ e.bucket_count))

tables-IsSound :
    All IsSound production_capacity × All IsSound testing_capacity × IsSound production_reference
unfolding max_entries_for max_size_without_rehash bucket_step
tables-IsSound = (
  (
    (refl, omega arith, (20, refl)),
    (
      (refl, omega arith, (18, refl)),
      (
        (refl, omega arith, (18, refl)),
        ((refl, omega arith, (13, refl)), ((refl, omega arith, (6, refl)), tt)),
      ),
    ),
  ),
  (
    (refl, omega arith, (13, refl)),
    (
      (refl, omega arith, (12, refl)),
      (
        (refl, omega arith, (12, refl)),
        ((refl, omega arith, (11, refl)), ((refl, omega arith, (6, refl)), tt)),
      ),
    ),
  ),
  (refl, omega arith, (19, refl)),
)

-- How often the value changes along the list, from a first one on.
unfoldable pub changes : ℕ → List ℕ → ℕ
changes last [] = 0
changes last (n ∷ ns) = (if n == last then 0 else 1) + changes n ns

watch_counts :
    (ns : List ℕ) (w : RehashWatch)
    → w.at_open ≢ 0
    → w.rehashes_observed + changes w.last_reported ns < 2 ^ 64
    → ((watch_all w ns).rehashes_observed ≡ w.rehashes_observed + changes w.last_reported ns)
      × ((watch_all w ns).at_open ≡ w.at_open)
unfolding watch_all detect_rehash changes
watch_counts [] w h fits = (omega arith, refl)
watch_counts (n ∷ ns) w h fits = ground (
  arith,
  watch_counts ns w h,
  watch_counts ns
      (record w { last_reported = n; rehashes_observed = (w.rehashes_observed + 1) % u64_mod }) h,
)

-- Over any sequence of bucket counts that later inserts see, a generation opened with a non-zero
-- count reports once for each time the count changes and never again for the same one, and the
-- baseline it was opened with stays as it was.
pub watch_all_exact :
    (w : RehashWatch) (buckets : ℕ) (ns : List ℕ)
    → buckets ≢ 0
    → w.rehashes_observed + changes buckets ns < 2 ^ 64
    → ((watch_all (reset w buckets) ns).rehashes_observed
        ≡ w.rehashes_observed + changes buckets ns)
      × ((watch_all (reset w buckets) ns).at_open ≡ buckets)
unfolding reset
watch_all_exact w buckets ns h fits = watch_counts ns (reset w buckets) h fits
