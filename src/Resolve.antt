-- ===== src/Resolve.antt =====
-- src/database_impl.cpp, `full_resolve` and `reference_resolve`: a batch of lookups over the files
-- behind the open versions. They only read, so the store is a parameter; the statistics are left out.
pub mod Probe
pub mod Covered
pub mod Outcome
pub mod Complete
use utxo_z.Common.{
  ℕ, Bool, true, false, List, [], ◌∷◌, ◌++◌, Option, none, some, if◌then◌else◌, ltb, ◌==◌,
}
use utxo_z.Errors.{ErrorCode, version_unreadable, catalog_unreadable}
use utxo_z.FlatMap.{Key, FlatMap}
use utxo_z.Catalog.{below}
use utxo_z.Deletion.{
  Request, FileId, Mode, full, reference, reference_sentinel_index, container_count, classes, Store,
  Faults, is_empty, sort_files, file_in, working_set_of,
}

-- Where a batch stands. An entry of `found` is put after the others, and so counts only where the key
-- was not found before, as with `emplace`.
pub record Resolving (K V : Type 0) : Type 0 where
  pub pending : List (Request K)
  pub found : List (K × V)
  pub complete : Bool
  pub failure : ErrorCode

-- `full_resolution` and `reference_resolution`, or the error.
pub data Resolution (K V : Type 0) : Type 0 where
  resolved : List (K × V) → List (Request K) → Resolution K V
  failed : ErrorCode → Resolution K V

module _ {K V : Type 0} ⦃key : Key K⦄ (F : FlatMap K V) (s : Store K F.Map) (faults : Faults) where
  -- A key that is not found stays pending, in its order.
  unfoldable pub probe_one : Request K → Option V → Resolving K V → Resolving K V
  probe_one r none w = record w { pending = r ∷ w.pending }
  probe_one r (some v) w = record w { found = (r.key, v) ∷ w.found }

  unfoldable pub probe_map : F.Map → List (Request K) → Resolving K V
  probe_map m [] = record {
    pending = [];
    found = [];
    complete = true;
    failure = version_unreadable;
  }
  probe_map m (r ∷ rs) = probe_one r (F.find m r.key) (probe_map m rs)

  unfoldable pub incomplete : Resolving K V → Resolving K V
  incomplete w = record w { complete = false }

  unfoldable pub probe_opened : Option F.Map → Resolving K V → Resolving K V
  probe_opened none w = incomplete w
  probe_opened (some m) w =
      let x = probe_map m w.pending in record w { pending = x.pending; found = w.found ++ x.found }

  -- `probe_full_file` and `probe_reference_file`.
  unfoldable pub probe_file : ℕ → ℕ → Resolving K V → Resolving K V
  probe_file c v w = if faults.opens c v then probe_opened (s.file c v) w else incomplete w

  -- A cached file of the other mode, or of no class there is, is passed over.
  unfoldable pub probe_cached_file : Mode → FileId → Resolving K V → Resolving K V
  probe_cached_file reference a w =
      if a.0 == reference_sentinel_index then probe_file a.0 a.1 w else w
  probe_cached_file full a w =
      if a.0 == reference_sentinel_index
      then w
      else if ltb a.0 container_count
      then probe_file a.0 a.1 w
      else w

  -- Phase 1.
  unfoldable pub probe_cached : Mode → List FileId → Resolving K V → Resolving K V
  probe_cached mode [] w = w
  probe_cached mode (a ∷ as_) w =
      if is_empty w.pending then w else probe_cached mode as_ (probe_cached_file mode a w)

  unfoldable pub probe_versions : List FileId → ℕ → List ℕ → Resolving K V → Resolving K V
  probe_versions seen c [] w = w
  probe_versions seen c (v ∷ vs) w =
      if is_empty w.pending
      then w
      else if file_in seen (c, v)
      then probe_versions seen c vs w
      else probe_versions seen c vs (probe_file c v w)

  -- Phase 2.
  unfoldable pub probe_classes : List FileId → List ℕ → Resolving K V → Resolving K V
  probe_classes seen [] w = w
  probe_classes seen (c ∷ cs) w =
      if is_empty w.pending
      then w
      else if faults.lists c
      then probe_classes seen cs (probe_versions seen c (below (s.catalog c) (s.current c)) w)
      else probe_classes seen cs (record w { complete = false; failure = catalog_unreadable })

  unfoldable pub settle : Resolving K V → Resolution K V
  settle w = if w.complete then resolved w.found w.pending else failed w.failure

  unfoldable pub probe_all : Mode → List FileId → List (Request K) → Resolving K V
  probe_all mode cached requests = probe_classes cached (classes mode) (
      probe_cached mode (sort_files cached) (record {
        pending = working_set_of requests;
        found = [];
        complete = true;
        failure = version_unreadable;
      }))

  unfoldable pub resolve : Mode → List FileId → List (Request K) → Resolution K V
  resolve mode cached requests =
      if is_empty requests then resolved [] [] else settle (probe_all mode cached requests)
