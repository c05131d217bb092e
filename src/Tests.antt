-- ===== src/Tests.antt =====
-- The properties applied where their hypotheses hold.
pub mod Merging
pub mod Storing
pub mod Deleting
pub mod Facing
pub mod Recording
use utxo_z.Common.{
  ℕ, zero, suc, ◌+◌, ◌*◌, ◌^◌, ◌/◌, ◌<◌, ◌≤◌, ◌≡◌, ◌≢◌, ◌⊎◌, ◌↔◌, refl, Bool, true, false, ◌&&◌,
  ◌||◌, not, List, [], ◌∷◌, Option, none, some, if◌then◌else◌, ◌==◌, All, arith, length, inr,
}
use utxo_z.Budget.{Meter, Request, acquires, releases, new, acquire, release, run}
use utxo_z.Budget.Invariant.{Inv, new-Inv, run_within_ceiling, acquire_exact, release_fails_closed}
use utxo_z.Capacity.{
  max_size_without_rehash, max_entries_for, effective_insert_limit, bucket_step, next_bucket_step,
  RehashWatch, reset, watch_all,
}
use utxo_z.Capacity.Limits.{
  max_size_without_rehash_exact, effective_insert_limit_below_growth, bucket_step_series, changes,
  watch_all_exact,
}
use utxo_z.Census.{checked_mul, checked_add, Summing, sum_all, group_metadata_model}
use utxo_z.Census.Exact.{checked_exact, total, fresh, sum_all_exact, group_metadata_model_exact}
use utxo_z.Catalog.{Catalog, has_version, no_versions, add, remove, contains, next_version}
use utxo_z.Catalog.Order.{IsOrdered, add-remove-exact}
use utxo_z.Catalog.Issued.{Change, adds, removes, change_all, next_version-above}
use utxo_z.Sidecar.{Marker, Plan, encode_merge_plan, decode_merge_plan}
use utxo_z.Sidecar.Coherent.{IsCoherent, Fits}
use utxo_z.Sidecar.RoundTrip.{decode-encode, decode_merge_plan_sound}

run_within_ceiling_example :
    ((run (new 100) (acquires 60 ∷ acquires 50 ∷ releases 20 ∷ [])).outstanding
      ≤ (run (new 100) (acquires 60 ∷ acquires 50 ∷ releases 20 ∷ [])).peak)
    × ((run (new 100) (acquires 60 ∷ acquires 50 ∷ releases 20 ∷ [])).peak ≤ 100)
run_within_ceiling_example =
    run_within_ceiling 100 (acquires 60 ∷ acquires 50 ∷ releases 20 ∷ []) (omega arith)

acquire_exact_example :
    (((acquire (new 100) 60).1 ≡ true)
      ↔ (((new 100).unbalanced ≡ false) × ((new 100).outstanding + 60 ≤ (new 100).ceiling)))
    × ((acquire (new 100) 60).1 ≡ true
        → (acquire (new 100) 60).0.outstanding ≡ (new 100).outstanding + 60)
    × ((acquire (new 100) 60).1 ≡ false
        → (acquire (new 100) 60).0.outstanding ≡ (new 100).outstanding)
acquire_exact_example = acquire_exact (new 100) 60 (new-Inv 100 (omega arith))

release_fails_closed_example :
    (acquire (run (release (new 100) 8) (releases 0 ∷ acquires 1 ∷ [])) 1).1 ≡ false
unfolding new
release_fails_closed_example =
    release_fails_closed (new 100) 8 (releases 0 ∷ acquires 1 ∷ []) 1 (omega arith)

max_size_without_rehash_exact_example : max_size_without_rehash 15728639 ≡ 7 * 15728639 / 8
max_size_without_rehash_exact_example = max_size_without_rehash_exact 15728639 (omega arith)

effective_insert_limit_below_growth_example :
    (max_entries_for 959 < max_size_without_rehash 959)
    × (effective_insert_limit 959 700 ≤ 700)
    × (effective_insert_limit 959 700 < max_size_without_rehash 959)
effective_insert_limit_below_growth_example =
    effective_insert_limit_below_growth 959 700 (omega arith) (omega arith)

bucket_step_series_example :
    (bucket_step 20 + 1 ≡ 15 * 2 ^ 20) × (next_bucket_step (bucket_step 20) ≡ bucket_step (suc 20))
bucket_step_series_example = bucket_step_series 20 (omega arith)

abbrev unopened : RehashWatch
unopened = record { at_open = 0; last_reported = 0; rehashes_observed = 0 }

watch_all_exact_example :
    ((watch_all (reset unopened 959) (959 ∷ 1919 ∷ 1919 ∷ [])).rehashes_observed
      ≡ unopened.rehashes_observed + changes 959 (959 ∷ 1919 ∷ 1919 ∷ []))
    × ((watch_all (reset unopened 959) (959 ∷ 1919 ∷ 1919 ∷ [])).at_open ≡ 959)
unfolding changes
watch_all_exact_example =
    watch_all_exact unopened 959 (959 ∷ 1919 ∷ 1919 ∷ []) (λ e. omega (arith, e)) (omega arith)

checked_exact_example :
    (2 ^ 40 * 2 ^ 30 < 2 ^ 64 → checked_mul (2 ^ 40) (2 ^ 30) ≡ some (2 ^ 40 * 2 ^ 30))
    × (2 ^ 64 ≤ 2 ^ 40 * 2 ^ 30 → checked_mul (2 ^ 40) (2 ^ 30) ≡ none)
    × (2 ^ 40 + 2 ^ 30 < 2 ^ 64 → checked_add (2 ^ 40) (2 ^ 30) ≡ some (2 ^ 40 + 2 ^ 30))
    × (2 ^ 64 ≤ 2 ^ 40 + 2 ^ 30 → checked_add (2 ^ 40) (2 ^ 30) ≡ none)
checked_exact_example = checked_exact (2 ^ 40) (2 ^ 30) (omega arith) (omega arith)

sum_all_exact_example :
    (total (2 ^ 63 ∷ 2 ^ 63 ∷ []) < 2 ^ 64
      → sum_all fresh (2 ^ 63 ∷ 2 ^ 63 ∷ [])
        ≡ record { ok = true; accumulator = total (2 ^ 63 ∷ 2 ^ 63 ∷ []) })
    × (2 ^ 64 ≤ total (2 ^ 63 ∷ 2 ^ 63 ∷ []) → (sum_all fresh (2 ^ 63 ∷ 2 ^ 63 ∷ [])).ok ≡ false)
sum_all_exact_example = sum_all_exact (2 ^ 63 ∷ 2 ^ 63 ∷ [])

group_metadata_model_exact_example :
    (959 ≤ 2 ^ 63 → group_metadata_model 959 ≡ some ((959 / 15 + 1) * 16))
    × (2 ^ 64 ≤ (959 / 15 + 1) * 16 → group_metadata_model 959 ≡ none)
group_metadata_model_exact_example = group_metadata_model_exact 959 (omega arith)

abbrev two_versions : Catalog ℕ
two_versions = record { versions = 1 ∷ 4 ∷ []; metadata = []; highest_issued = 6 }

two_versions-IsOrdered : IsOrdered two_versions
two_versions-IsOrdered = record {
  ordered = ((omega arith, tt), (tt, tt));
  issued = (omega arith, (omega arith, tt));
}

add-remove-exact_example :
    (IsOrdered (add two_versions 4)
      × ((n : ℕ) → contains (add two_versions 4) n ≡ (4 == n || contains two_versions n)))
    × (IsOrdered (remove two_versions 4)
        × ((n : ℕ)
            → contains (remove two_versions 4) n ≡ (not (4 == n) && contains two_versions n)))
add-remove-exact_example = add-remove-exact two_versions 4 two_versions-IsOrdered

abbrev five : ℕ
five = 5

-- Version five is added and removed again.
abbrev past : List (Change ℕ)
past = adds 0 ∷ adds five ∷ removes five ∷ removes 0 ∷ adds 2 ∷ []

next_version-above_example :
    (five < next_version (change_all past no_versions))
    ⊎ ((five ≡ 0)
        × (next_version (change_all past no_versions) ≡ 0)
        × (contains (change_all past no_versions) five ≡ false))
unfolding has_version
next_version-above_example = next_version-above past five (inr refl)

abbrev pub sample_plan : Plan
sample_plan = record {
  container = 2;
  target = 9;
  id = record { high = 77; low = 0 };
  sources = 3 ∷ 5 ∷ 8 ∷ [];
}

pub sample_plan-Fits : Fits sample_plan
sample_plan-Fits = record {
  container_word = omega arith;
  target_word = omega arith;
  high_word = omega arith;
  low_word = omega arith;
  source_words = (omega arith, (omega arith, (omega arith, tt)));
  some_source = omega arith;
  few_sources = omega arith;
}

pub sample_plan-IsCoherent : IsCoherent sample_plan
sample_plan-IsCoherent = record {
  marked = λ (h, _). omega (arith, h);
  apart = ((λ e. omega (arith, e)), ((λ e. omega (arith, e)), ((λ e. omega (arith, e)), tt)));
  ascending = (omega arith, (omega arith, tt));
}

decode-encode_example : decode_merge_plan (encode_merge_plan sample_plan) ≡ some sample_plan
decode-encode_example = decode-encode sample_plan sample_plan-Fits sample_plan-IsCoherent
