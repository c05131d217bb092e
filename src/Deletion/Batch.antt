-- ===== src/Deletion/Batch.antt =====
-- The walk of `apply_deletes` over the files behind the open versions, and the batch as a whole.
use utxo_z.Common.{
  ℕ, zero, suc, true, false, ◌&&◌, not, List, [], ◌∷◌, ◌++◌, Option, none, some, if◌then◌else◌, ltb,
  ◌==◌, sub64, length,
}
use utxo_z.Errors.{version_unreadable, catalog_unreadable}
use utxo_z.FlatMap.{Key, FlatMap}
use utxo_z.Catalog.{Catalog, below, find_metadata, set_metadata}
use utxo_z.Metadata.{FileMetadata, update_on_delete}
use utxo_z.Deletion.{
  Request, FileId, reference_sentinel_index, container_count, Mode, full, reference, classes, Store,
  Faults, Sweeping, DeletionProgress, is_empty, sort_files, file_in, working_set_of, Stepped,
  set_at, erase_active, step_over_file,
}

unfoldable pub set_file : {Map : Type 0} → ℕ → ℕ → Map → (ℕ → ℕ → Option Map) → ℕ → ℕ → Option Map
set_file c v m f n u = if c == n && v == u then some m else f n u

unfoldable pub none_dirty : ℕ → List FileId → FileId → List FileId
none_dirty zero files a = files
none_dirty (suc n) files a = if file_in files a then files else a ∷ files

-- Each applied deletion takes one off the count of entries.
unfoldable pub count_off : ℕ → ℕ → ℕ
count_off zero n = n
count_off (suc k) n = count_off k (sub64 n 1)

module _ {K : Type 0} ⦃key : Key K⦄ where
  -- `update_on_delete` on what describes a version, once for each deletion, if anything does.
  unfoldable pub count_out : ℕ → ℕ → Catalog (FileMetadata K) → Catalog (FileMetadata K)
  count_out zero v c = c
  count_out (suc n) v c = elim (find_metadata c v) [
    | none ↦ c
    | some m ↦ count_out n v (set_metadata c v (update_on_delete m))
  ]

module _ {K V : Type 0} ⦃key : Key K⦄ (F : FlatMap K V) where
  -- The map is changed in place, whether or not the pass was cut short.
  unfoldable pub settle_file : ℕ → ℕ → Stepped K F.Map → Sweeping K F.Map → Sweeping K F.Map
  settle_file c v x w = record w {
    store = record w.store {
      file = set_file c v x.map w.store.file;
      catalog = set_at c (count_out x.recorded v (w.store.catalog c)) w.store.catalog;
      dirty = none_dirty x.recorded w.store.dirty (c, v);
      entries_count = count_off (length x.applied) w.store.entries_count;
    };
    pending = x.kept;
    erased = w.erased ++ x.applied;
    complete = w.complete && not x.thrown;
  }

  unfoldable pub incomplete : Sweeping K F.Map → Sweeping K F.Map
  incomplete w = record w { complete = false }

  unfoldable pub open_file : ℕ → ℕ → Option ℕ → Option F.Map → Sweeping K F.Map → Sweeping K F.Map
  open_file c v n none w = incomplete w
  open_file c v n (some m) w = settle_file c v (step_over_file F n m w.pending) w

  -- `erase_in_full_file` and `erase_in_reference_file`.
  unfoldable pub erase_in_file : Faults → ℕ → ℕ → Sweeping K F.Map → Sweeping K F.Map
  unfolding open_file
  erase_in_file faults c v w =
      if faults.opens c v
      then open_file c v (faults.throws_after c v) (w.store.file c v) w
      else incomplete w

  -- A cached file, which is not always of this mode.
  unfoldable pub walk : Mode → Faults → FileId → Sweeping K F.Map → Sweeping K F.Map
  walk reference faults a w =
      if a.0 == reference_sentinel_index then erase_in_file faults a.0 a.1 w else w
  walk full faults a w =
      if a.0 == reference_sentinel_index
      then w
      else if ltb a.0 container_count
      then erase_in_file faults a.0 a.1 w
      else incomplete w

  -- Phase 1.
  unfoldable pub walk_cached : Mode → Faults → List FileId → Sweeping K F.Map → Sweeping K F.Map
  walk_cached mode faults [] w = w
  walk_cached mode faults (a ∷ as_) w =
      if is_empty w.pending then w else walk_cached mode faults as_ (walk mode faults a w)

  unfoldable pub walk_versions :
      Faults → List FileId → ℕ → List ℕ → Sweeping K F.Map → Sweeping K F.Map
  walk_versions faults seen c [] w = w
  walk_versions faults seen c (v ∷ vs) w =
      if is_empty w.pending
      then w
      else if file_in seen (c, v)
      then walk_versions faults seen c vs w
      else walk_versions faults seen c vs (erase_in_file faults c v w)

  -- Phase 2.
  unfoldable pub walk_classes : Faults → List FileId → List ℕ → Sweeping K F.Map → Sweeping K F.Map
  walk_classes faults seen [] w = w
  walk_classes faults seen (c ∷ cs) w =
      if is_empty w.pending
      then w
      else if faults.lists c
      then walk_classes faults seen cs
          (walk_versions faults seen c (below (w.store.catalog c) (w.store.current c)) w)
      else walk_classes faults seen cs (record w { complete = false; failure = catalog_unreadable })

  -- What is left is owed if anything could not be read, and absent otherwise.
  unfoldable pub classify : Sweeping K F.Map → DeletionProgress K × Store K F.Map
  classify w = (
    (if w.complete
        then record { erased = w.erased; absent = w.pending; unresolved = []; error = none }
        else record {
          erased = w.erased;
          absent = [];
          unresolved = w.pending;
          error = some w.failure;
        }),
    w.store,
  )

  unfoldable pub sweep :
      Mode → Faults → List FileId → List (Request K) → Store K F.Map → Sweeping K F.Map
  sweep mode faults cached requests s =
      let start : Sweeping K F.Map = record {
        store = s;
        pending = [];
        erased = [];
        complete = true;
        failure = version_unreadable;
      } in
      walk_classes faults cached (classes mode) (
        walk_cached mode faults (sort_files cached)
          (erase_active F (classes mode) (working_set_of requests) start))

  unfoldable pub apply_deletes :
      Mode
      → Faults
      → List FileId
      → List (Request K)
      → Store K F.Map
      → DeletionProgress K × Store K F.Map
  apply_deletes mode faults cached requests s =
      if is_empty requests
      then (record { erased = []; absent = []; unresolved = []; error = none }, s)
      else classify (sweep mode faults cached requests s)
