-- ===== src/Tests/Facing.antt =====
-- Deletions and lookups through the facade, over the small database of Tests.Deleting.
use utxo_z.Common.{ℕ, ◌≡◌, ◌⊎◌, refl, true, false, List, [], none, some}
use utxo_z.Errors.{ErrorCode}
use utxo_z.Io.{ok}
use utxo_z.FlatMap.{lookup}
use utxo_z.FlatMap.Reference.{nat_key, without}
use utxo_z.Catalog.{below, prefix_below, find_metadata, metadata_of}
use utxo_z.Deletion.{
  Request, Store, reference, is_some, is_empty, step_over_file, applied_one, erase_active,
  erase_in_latest, working_set_of, first_seen, key_in, sort_files, file_in, set_at,
}
use utxo_z.Deletion.Batch.{
  apply_deletes, sweep, classify, walk_classes, walk_versions, walk_cached, walk, erase_in_file,
  open_file, settle_file, set_file, count_out, count_off, none_dirty,
}
use utxo_z.Deletion.Erases.{minus}
use utxo_z.Deletion.Outcome.{Answers}
use utxo_z.Facade.{
  Latches, usable, db_apply_deletes, delete_if, db_find, find_in_latest, first_of, or_not_resolved,
  then_test, refuse_if_unusable, refuse_if_integrity_latched, refuse_if_recovery_pending,
  refuse_if_inspection_only, refusal, db_resolve, outcome_of,
}
use utxo_z.Facade.Lookup.{
  lookup_key, lookup_key_sound, resolve_after, is_not_resolved, answer_of, found_for,
}
use utxo_z.Facade.Deleted.{lookup_key-deleted}
use utxo_z.Facade.Refusal.{IsClear, Refuses, db_apply_deletes-Answers}
use utxo_z.Resolve.{
  resolve, probe_all, probe_classes, probe_versions, probe_cached, probe_file, probe_opened,
  probe_map, probe_one, settle,
}
use utxo_z.Tests.Deleting.{F, held, well, asked, kept, kept-content, held-filed}

abbrev free : Latches
free = record { integrity_latched = none; cleanup_pending = false; inspecting = false }

abbrev inspected : Latches
inspected = record { integrity_latched = none; cleanup_pending = false; inspecting = true }

db_apply_deletes-Answers_example :
    (t : Store ℕ (List (ℕ × ℕ))) × ((db_apply_deletes F reference well [] asked
        (some (record { latches = inspected; store = held }))).1
      ≡ some (record { latches = inspected; store = t }))
    × Answers F reference held asked kept
        (db_apply_deletes F reference well [] asked
          (some (record { latches = inspected; store = held }))).0
        t
    × ((IsClear inspected
          × ((db_apply_deletes F reference well [] asked
                (some (record { latches = inspected; store = held }))).0
              ≡ (apply_deletes F reference well [] asked held).0)
          × (t ≡ (apply_deletes F reference well [] asked held).1))
        ⊎ ((e : ErrorCode) × Refuses inspected e
            × (t ≡ held)
            × ((db_apply_deletes F reference well [] asked
                  (some (record { latches = inspected; store = held }))).0
                ≡ record {
                  erased = [];
                  absent = [];
                  unresolved = working_set_of asked;
                  error = some e;
                })))
db_apply_deletes-Answers_example =
    db_apply_deletes-Answers F reference held asked kept kept-content well [] inspected held-filed

abbrev for_key : ℕ → Request ℕ
for_key k = record { key = k; height = 9 }

-- Key 2 is in the file, and is found there by the resolution.
looks_up :
    lookup_key F reference well [] (for_key 2) (some (record { latches = free; store = held }))
    ≡ ok (some 20)
unfolding lookup_key db_find find_in_latest first_of or_not_resolved then_test usable
    refuse_if_unusable refuse_if_integrity_latched refuse_if_recovery_pending
    refuse_if_inspection_only refusal resolve_after is_not_resolved answer_of found_for db_resolve
    outcome_of resolve probe_all probe_classes probe_versions probe_cached probe_file probe_opened
    probe_map probe_one settle working_set_of first_seen key_in sort_files file_in is_empty below
    prefix_below lookup
looks_up = refl

lookup_key_sound_example : some 20 ≡ kept 2
lookup_key_sound_example =
    lookup_key_sound F reference well [] held kept kept-content (for_key 2) free (some 20)
      held-filed looks_up

-- The batch of Tests.Deleting ends without an error, and then key 2 is not there.
deletes :
    (db_apply_deletes F reference well [] asked
      (some (record { latches = free; store = held }))).0.error
    ≡ none
unfolding db_apply_deletes delete_if usable then_test refuse_if_unusable refuse_if_integrity_latched
    refuse_if_recovery_pending refuse_if_inspection_only refusal apply_deletes sweep classify
    walk_classes walk_versions walk_cached walk erase_in_file open_file settle_file step_over_file
    applied_one erase_active erase_in_latest working_set_of first_seen key_in sort_files file_in
    is_some is_empty below prefix_below set_file set_at count_out count_off none_dirty lookup
    without find_metadata metadata_of
deletes = refl

looks_again :
    lookup_key F reference well []
      (for_key 2)
      (db_apply_deletes F reference well [] asked
        (some (record { latches = free; store = held }))).1
    ≡ ok none
unfolding lookup_key db_find find_in_latest first_of or_not_resolved resolve_after is_not_resolved
    answer_of found_for db_resolve outcome_of resolve probe_all probe_classes probe_versions
    probe_cached probe_file probe_opened probe_map probe_one settle db_apply_deletes delete_if
    usable then_test refuse_if_unusable refuse_if_integrity_latched refuse_if_recovery_pending
    refuse_if_inspection_only refusal apply_deletes sweep classify walk_classes walk_versions
    walk_cached walk erase_in_file open_file settle_file step_over_file applied_one erase_active
    erase_in_latest working_set_of first_seen key_in sort_files file_in is_some is_empty below
    prefix_below set_file set_at count_out count_off none_dirty lookup without find_metadata
    metadata_of
looks_again = refl

lookup_key-deleted_example : none ≡ minus F kept asked 2
lookup_key-deleted_example =
    lookup_key-deleted F reference held free kept kept-content held-filed well well [] [] asked
      deletes (for_key 2) none looks_again
