-- ===== src/Capacity.antt =====
-- src/detail/capacity_policy.hpp, the limit of src/detail/insert_transition.hpp, and the growth
-- detection of src/utils.cpp. The atomic counter of growths is a field of the observer's state.
pub mod Limits
use utxo_z.Common.{
  ℕ, zero, suc, ◌+◌, ◌-◌, ◌*◌, ◌/◌, ◌%◌, ◌^◌, Bool, true, false, ◌||◌, List, [], ◌∷◌, ltb, ◌==◌,
  if◌then◌else◌, u64_mod,
}

-- `(size_t(15) << k) - 1`, on 64-bit words.
unfoldable pub bucket_step : ℕ → ℕ
bucket_step k = ((15 * 2 ^ k) % u64_mod + u64_mod - 1) % u64_mod

unfoldable pub next_bucket_step : ℕ → ℕ
next_bucket_step n = (n * 2 + 1) % u64_mod

unfoldable pub max_size_without_rehash : ℕ → ℕ
max_size_without_rehash bucket_count = (bucket_count / 8 * 7 + bucket_count % 8 * 7 / 8) % u64_mod

abbrev pub rotation_numerator : ℕ
rotation_numerator = 133

abbrev pub rotation_denominator : ℕ
rotation_denominator = 160

unfoldable pub max_entries_for : ℕ → ℕ
max_entries_for bucket_count = (bucket_count * rotation_numerator) % u64_mod / rotation_denominator

unfoldable pub effective_insert_limit : ℕ → ℕ → ℕ
unfolding max_entries_for
effective_insert_limit bucket_count live_max_load =
    if ltb live_max_load (max_entries_for bucket_count)
    then live_max_load
    else max_entries_for bucket_count

-- `struct capacity_entry`; the certification flag decides nothing.
pub record CapacityEntry : Type 0 where
  pub file_size : ℕ
  pub capacity : ℕ
  pub bucket_count : ℕ
  pub certified : Bool

abbrev pub mib : ℕ
mib = 2 ^ 20

abbrev pub production_capacity : List CapacityEntry
production_capacity =
    record {
      file_size = 1340 * mib;
      capacity = 15728639;
      bucket_count = 15728639;
      certified = true;
    }
    ∷ record {
      file_size = 500 * mib;
      capacity = 3932159;
      bucket_count = 3932159;
      certified = false;
    }
    ∷ record {
      file_size = 1024 * mib;
      capacity = 3932159;
      bucket_count = 3932159;
      certified = false;
    }
    ∷ record { file_size = 50 * mib; capacity = 122879; bucket_count = 122879; certified = false }
    ∷ record { file_size = 10 * mib; capacity = 959; bucket_count = 959; certified = false }
    ∷ []

abbrev pub production_reference : CapacityEntry
production_reference = record {
  file_size = 4096 * mib;
  capacity = 7864319;
  bucket_count = 7864319;
  certified = false;
}

abbrev pub testing_capacity : List CapacityEntry
testing_capacity =
    record { file_size = 10 * mib; capacity = 122879; bucket_count = 122879; certified = true }
    ∷ record { file_size = 10 * mib; capacity = 61439; bucket_count = 61439; certified = true }
    ∷ record { file_size = 10 * mib; capacity = 61439; bucket_count = 61439; certified = true }
    ∷ record { file_size = 10 * mib; capacity = 30719; bucket_count = 30719; certified = true }
    ∷ record { file_size = 10 * mib; capacity = 959; bucket_count = 959; certified = true }
    ∷ []

-- `struct rehash_watch`, with the process-wide counter `rehashes_observed`.
pub record RehashWatch : Type 0 where
  pub at_open : ℕ
  pub last_reported : ℕ
  pub rehashes_observed : ℕ

unfoldable pub reset : RehashWatch → ℕ → RehashWatch
reset w buckets = record w { at_open = buckets; last_reported = buckets }

unfoldable pub detect_rehash : RehashWatch → ℕ → RehashWatch × Bool
detect_rehash w now = if w.at_open == 0 || now == w.last_reported then (w, false) else (
  record w { last_reported = now; rehashes_observed = (w.rehashes_observed + 1) % u64_mod },
  true,
)

-- The watch over the bucket counts that successive inserts see.
unfoldable pub watch_all : RehashWatch → List ℕ → RehashWatch
watch_all w [] = w
watch_all w (now ∷ later) = watch_all (detect_rehash w now).0 later
