-- ===== src/Tests/Storing.antt =====
-- Records and inserts on small inputs.
use utxo_z.Insert.Typed.{ReferenceValue, reference_insert_typed, reference_find_typed}
use utxo_z.Insert.Found.{insert_in_index-find, reference_find-insert}
use utxo_z.Budget.{new}
use utxo_z.Budget.Allocator.{Event, allocates, frees, serve, held, serve_within_ceiling}
use utxo_z.Common.{
  ◌<◌, ◌≤◌, ◌+◌, length, ℕ, ◌≡◌, refl, Bool, true, false, ◌&&◌, List, [], ◌∷◌, none, some, ltb, All,
  arith,
}
use utxo_z.Sidecar.{body, put, put_sources, checksum, fnv, encode_merge_plan}
use utxo_z.Sidecar.Bytes.{IsByte}
use utxo_z.Sidecar.Coherent.{IsCoherent, Fits}
use utxo_z.Sidecar.RoundTrip.{decode-encode, decode_merge_plan_sound}
use utxo_z.Metadata.{blank, block_in_range}
use utxo_z.Metadata.Range.{insert_all, insert_all-covers}
use utxo_z.Value.{
  Value, zeros, set_data, get_data, data_size, size_bytes, make_outpoint, get_txid,
  get_output_index,
}
use utxo_z.Value.RoundTrip.{get_data-set_data, make_outpoint-parts}
use utxo_z.Tests.{sample_plan, sample_plan-Fits, sample_plan-IsCoherent}
use utxo_z.FlatMap.Reference.{nat_key, list_map}
use utxo_z.Io.{ok}
use utxo_z.Insert.{
  get_index_from_size, Class, Luck, insert_in_index, can_insert_safely, has_memory, holds, rotated,
  rotate_for, new_version, insert_attempts, attempt_insert, try_emplace, emplaced, settle,
  close_container, count,
}
use utxo_z.FlatMap.{lookup}
use utxo_z.FlatMap.Reference.{place}
use utxo_z.Capacity.{effective_insert_limit, max_entries_for}
use utxo_z.Insert.Choice.{get_elem?, get_index_from_size-least}
use utxo_z.Insert.Keeping.{Answered, insert_in_index-keeps}

all_bytes : List ℕ → Bool
all_bytes [] = true
all_bytes (b ∷ bs) = ltb b 256 && all_bytes bs

of_all_bytes : (bs : List ℕ) → all_bytes bs ≡ true → All IsByte bs
unfolding all_bytes
of_all_bytes [] h = tt
of_all_bytes (b ∷ bs) h = (ground arith, of_all_bytes bs (ground arith))

sample-bytes : all_bytes (encode_merge_plan sample_plan) ≡ true
unfolding all_bytes encode_merge_plan body put put_sources checksum fnv
sample-bytes = refl

decode_merge_plan_sound_example :
    Fits sample_plan
    × IsCoherent sample_plan
    × (encode_merge_plan sample_plan ≡ encode_merge_plan sample_plan)
decode_merge_plan_sound_example =
    decode_merge_plan_sound (encode_merge_plan sample_plan) sample_plan
      (of_all_bytes (encode_merge_plan sample_plan) sample-bytes)
      (decode-encode sample_plan sample_plan-Fits sample_plan-IsCoherent)

-- A full generation of two entries.
abbrev full_class : Class ℕ (List (ℕ × ℕ))
full_class = record {
  active = (1, 10) ∷ (2, 20) ∷ [];
  earlier = [];
  serving = true;
  version = 4;
  catalog = record { versions = 4 ∷ []; metadata = []; highest_issued = 4 };
  dirty = [];
  watch = record { at_open = 15; last_reported = 15; rehashes_observed = 0 };
  entries_count = 2;
  preventives = 0;
  capacity_exceptions = 0;
  failures = 0;
  unexpected = 0;
  integrity_latched = none;
}

abbrev good_luck : Luck (List (ℕ × ℕ))
good_luck = record {
  preventive_created = true;
  retry_created = true;
  first_throw = none;
  second_throw = none;
}

insert_in_index-keeps_example :
    Answered
      (list_map {V = ℕ} 2)
      15
      8
      (λ m. some 100)
      full_class
      3
      30
      (insert_in_index (list_map {V = ℕ} 2) 15 8 (λ m. some 100) good_luck full_class 3 30 7)
insert_in_index-keeps_example =
    insert_in_index-keeps (list_map {V = ℕ} 2) 15 8 (λ m. some 100) good_luck full_class 3 30 7 refl
      refl

-- That insert rotates and stores.
rotates :
    (insert_in_index (list_map {V = ℕ} 2) 15 8 (λ m. some 100) good_luck full_class 3 30 7).0
    ≡ ok true
unfolding insert_in_index can_insert_safely has_memory holds rotated rotate_for new_version
    insert_attempts attempt_insert try_emplace emplaced settle lookup place effective_insert_limit
    max_entries_for close_container count
rotates = refl

abbrev counted : List (ℕ × ℕ)
counted = (5, 700) ∷ (3, 650) ∷ []

abbrev old_value : Value
old_value = record { block_height = 9; actual_size = 1; bytes = 5 ∷ [] }

insert_all-covers_example :
    ((insert_all {K = ℕ} blank counted).entry_count ≡ (blank {K = ℕ}).entry_count + length counted)
    × All (λ e. block_in_range (insert_all {K = ℕ} blank counted) e.1 ≡ true) counted
unfolding blank
insert_all-covers_example = insert_all-covers blank counted (omega arith)

make_outpoint-parts_example :
    (get_txid (make_outpoint (zeros 32) 7) ≡ zeros 32)
    × (get_output_index (make_outpoint (zeros 32) 7) ≡ 7)
unfolding zeros
make_outpoint-parts_example = make_outpoint-parts (zeros 32) 7 refl (omega arith)

get_data-set_data_example :
    (get_data (set_data 48 old_value (1 ∷ 2 ∷ [])) ≡ 1 ∷ 2 ∷ [])
    × ((set_data 48 old_value (1 ∷ 2 ∷ [])).block_height ≡ old_value.block_height)
    × (length (set_data 48 old_value (1 ∷ 2 ∷ [])).bytes ≡ data_size 48)
unfolding data_size size_bytes
get_data-set_data_example = get_data-set_data 48 old_value (1 ∷ 2 ∷ []) (omega arith) (omega arith)

abbrev capacities : List ℕ
capacities = 43 ∷ 91 ∷ 123 ∷ 250 ∷ 10234 ∷ []

get_index_from_size-least_example :
    ((n c : ℕ) → get_elem? capacities n ≡ some c → n < get_index_from_size capacities 100 → c < 100)
    × ((c : ℕ) → get_elem? capacities (get_index_from_size capacities 100) ≡ some c → 100 ≤ c)
    × (get_index_from_size capacities 100 ≤ length capacities)
get_index_from_size-least_example = get_index_from_size-least capacities 100

abbrev some_events : List Event
some_events =
    allocates (record { count = 4; size = 8 }) true
    ∷ allocates (record { count = 100; size = 8 }) true
    ∷ allocates (record { count = 2; size = 16 }) false
    ∷ frees 0
    ∷ allocates (record { count = 9; size = 8 }) true
    ∷ []

serve_within_ceiling_example :
    ((serve some_events (record { meter = new 100; live = [] })).meter.outstanding
      ≡ held (serve some_events (record { meter = new 100; live = [] })).live)
    × (held (serve some_events (record { meter = new 100; live = [] })).live ≤ 100)
    × ((serve some_events (record { meter = new 100; live = [] })).meter.unbalanced ≡ false)
serve_within_ceiling_example = serve_within_ceiling 100 some_events (omega arith)

insert_in_index-find_example :
    lookup 3
      (insert_in_index
        (list_map {V = ℕ} 2)
        15
        8
        (λ m. some 100)
        good_luck
        full_class
        3
        30
        7).1.active
    ≡ some 30
insert_in_index-find_example =
    insert_in_index-find (list_map {V = ℕ} 2) 15 8 (λ m. some 100) 3 30 good_luck full_class 7
      rotates

abbrev typed_class : Class ℕ (List (ℕ × ReferenceValue))
typed_class = record {
  active =
      (1, record { height = 2; file_number = 0; offset = 8 })
      ∷ (2, record { height = 3; file_number = 0; offset = 90 })
      ∷ [];
  earlier = [];
  serving = true;
  version = 4;
  catalog = record { versions = 4 ∷ []; metadata = []; highest_issued = 4 };
  dirty = [];
  watch = record { at_open = 15; last_reported = 15; rehashes_observed = 0 };
  entries_count = 2;
  preventives = 0;
  capacity_exceptions = 0;
  failures = 0;
  unexpected = 0;
  integrity_latched = none;
}

abbrev typed_luck : Luck (List (ℕ × ReferenceValue))
typed_luck = record {
  preventive_created = true;
  retry_created = true;
  first_throw = none;
  second_throw = none;
}

stores_typed :
    (reference_insert_typed
      (list_map {V = ReferenceValue} 2)
      15
      16
      (λ m. some 1000)
      typed_luck
      typed_class
      3
      7
      1
      500).0
    ≡ ok true
unfolding reference_insert_typed insert_in_index can_insert_safely has_memory holds rotated
    rotate_for new_version insert_attempts attempt_insert try_emplace emplaced settle lookup place
    effective_insert_limit max_entries_for close_container count
stores_typed = refl

reference_find-insert_example :
    reference_find_typed
      (list_map {V = ReferenceValue} 2)
      15
      16
      (λ m. some 1000)
      (reference_insert_typed
        (list_map {V = ReferenceValue} 2)
        15
        16
        (λ m. some 1000)
        typed_luck
        typed_class
        3
        7
        1
        500).1
      3
    ≡ some (record { height = 7; file_number = 1; offset = 500 })
reference_find-insert_example =
    reference_find-insert (list_map {V = ReferenceValue} 2) 15 16 (λ m. some 1000) typed_luck
      typed_class 3 7 1 500 stores_typed
