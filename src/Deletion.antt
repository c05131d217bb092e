-- ===== src/Deletion.antt =====
-- src/database_impl.cpp, `apply_deletes` with `working_set_of`, `refuse_deletions` and the erasures
-- from the active versions: a batch of deletions over the versions of every container class. The
-- code keeps indices into the caller's batch where the model keeps the requests themselves.
pub mod Batch
pub mod Erases
pub mod Walk
pub mod Sweep
pub mod Files
pub mod Covered
pub mod Working
pub mod Opened
pub mod Outcome
pub mod Complete
pub mod Removed
use utxo_z.Common.{
  ℕ, zero, suc, ◌+◌, ◌-◌, ◌^◌, Bool, true, false, ◌&&◌, ◌||◌, not, List, [], ◌∷◌, ◌++◌, Option,
  none, some, if◌then◌else◌, ltb, ◌==◌, sub64, length,
}
use utxo_z.Errors.{ErrorCode, version_unreadable, catalog_unreadable}
use utxo_z.FlatMap.{Key, FlatMap}
use utxo_z.Catalog.{Catalog, below, find_metadata, set_metadata}
use utxo_z.Metadata.{FileMetadata, update_on_delete}

pub record Request (K : Type 0) : Type 0 where
  pub key : K
  pub height : ℕ

abbrev pub FileId : Type 0
FileId = ℕ × ℕ

-- `SIZE_MAX`, the container index of reference mode, and the number of container classes.
abbrev pub reference_sentinel_index : ℕ
reference_sentinel_index = 2 ^ 64 - 1

abbrev pub container_count : ℕ
container_count = 5

pub data Mode : Type 0 where
  full reference : Mode

abbrev pub classes : Mode → List ℕ
classes full = 0 ∷ 1 ∷ 2 ∷ 3 ∷ 4 ∷ []
classes reference = reference_sentinel_index ∷ []

-- The versions of each class: the one that is open, and the files behind it.
pub record Store (K Map : Type 0) : Type 0 where
  pub active : ℕ → Map
  pub file : ℕ → ℕ → Option Map
  pub catalog : ℕ → Catalog (FileMetadata K)
  pub current : ℕ → ℕ
  pub dirty : List FileId
  pub entries_count : ℕ

-- What goes wrong during a call: files that do not open, catalogues that cannot be listed, and for a
-- file the number of deletions after which recording one throws.
pub record Faults : Type 0 where
  pub opens : ℕ → ℕ → Bool
  pub lists : ℕ → Bool
  pub throws_after : ℕ → ℕ → Option ℕ

-- Where a batch stands: `complete` and `failure` as in the code.
pub record Sweeping (K Map : Type 0) : Type 0 where
  pub store : Store K Map
  pub pending : List (Request K)
  pub erased : List (Request K)
  pub complete : Bool
  pub failure : ErrorCode

-- `deletion_progress`.
pub record DeletionProgress (K : Type 0) : Type 0 where
  pub erased : List (Request K)
  pub absent : List (Request K)
  pub unresolved : List (Request K)
  pub error : Option ErrorCode

unfoldable pub is_some : {A : Type 0} → Option A → Bool
is_some none = false
is_some (some a) = true

unfoldable pub is_empty : {A : Type 0} → List A → Bool
is_empty [] = true
is_empty (x ∷ xs) = false

unfoldable pub same_file : FileId → FileId → Bool
same_file a b = a.0 == b.0 && a.1 == b.1

-- Ascending container, and for each the newest version first.
unfoldable pub before : FileId → FileId → Bool
before a b = if not (a.0 == b.0) then ltb a.0 b.0 else ltb b.1 a.1

unfoldable pub insert_file : FileId → List FileId → List FileId
insert_file a [] = a ∷ []
insert_file a (b ∷ bs) = if before b a then b ∷ insert_file a bs else a ∷ b ∷ bs

unfoldable pub sort_files : List FileId → List FileId
sort_files [] = []
sort_files (a ∷ as_) = insert_file a (sort_files as_)

unfoldable pub file_in : List FileId → FileId → Bool
file_in [] a = false
file_in (b ∷ bs) a = same_file b a || file_in bs a

module _ {K : Type 0} ⦃key : Key K⦄ where
  unfoldable pub key_in : List K → K → Bool
  key_in [] k = false
  key_in (j ∷ js) k = key.beq j k || key_in js k

  unfoldable pub first_seen : List K → List (Request K) → List (Request K)
  first_seen seen [] = []
  first_seen seen (r ∷ rs) =
      if key_in seen r.key then first_seen seen rs else r ∷ first_seen (r.key ∷ seen) rs

  -- The first request for each key.
  unfoldable pub working_set_of : List (Request K) → List (Request K)
  working_set_of requests = first_seen [] requests

  unfoldable pub refuse_deletions : List (Request K) → ErrorCode → DeletionProgress K
  refuse_deletions requests why = record {
    erased = [];
    absent = [];
    unresolved = working_set_of requests;
    error = some why;
  }

-- What one pass over a file leaves: its map, the requests it kept and those it applied, how many
-- deletions were recorded, and whether recording one threw.
pub record Stepped (K Map : Type 0) : Type 0 where
  pub map : Map
  pub kept : List (Request K)
  pub applied : List (Request K)
  pub recorded : ℕ
  pub thrown : Bool

unfoldable pub set_at : {A : Type 0} → ℕ → A → (ℕ → A) → ℕ → A
set_at c x f n = if c == n then x else f n

module _ {K V : Type 0} ⦃key : Key K⦄ (F : FlatMap K V) where
  -- `erase_in_latest_version` and `reference_erase_in_latest`: the first class whose open version
  -- holds the key loses it.
  unfoldable pub erase_in_latest : List ℕ → Store K F.Map → K → Option (Store K F.Map)
  erase_in_latest [] s k = none
  erase_in_latest (c ∷ cs) s k =
      if is_some (F.find (s.active c) k)
      then some (record s { active = set_at c (F.erase (s.active c) k) s.active })
      else erase_in_latest cs s k

  -- Phase 0.
  unfoldable pub erase_active : List ℕ → List (Request K) → Sweeping K F.Map → Sweeping K F.Map
  erase_active cs [] w = w
  erase_active cs (r ∷ rs) w = elim (erase_in_latest cs w.store r.key) [
    | some s ↦ erase_active cs rs (record w {
      store = record s { entries_count = sub64 s.entries_count 1 };
      erased = w.erased ++ (r ∷ []);
    })
    | none ↦ erase_active cs rs (record w { pending = w.pending ++ (r ∷ []) })
  ]

  -- The deletion is recorded after the map has changed, and recording it may throw.
  unfoldable pub applied_one :
      Request K
      → Option ℕ
      → F.Map
      → List (Request K)
      → (Option ℕ → Stepped K F.Map)
      → Stepped K F.Map
  applied_one r none m rs rest =
      let x = rest none in record x { applied = r ∷ x.applied; recorded = x.recorded + 1 }
  applied_one r (some (suc n)) m rs rest =
      let x = rest (some n) in record x { applied = r ∷ x.applied; recorded = x.recorded + 1 }
  applied_one r (some zero) m rs rest = record {
    map = m;
    kept = rs;
    applied = r ∷ [];
    recorded = 0;
    thrown = true;
  }

  kept_one : Request K → Stepped K F.Map → Stepped K F.Map
  kept_one r x = record x { kept = r ∷ x.kept }

  unfoldable pub step_over_file : Option ℕ → F.Map → List (Request K) → Stepped K F.Map
  unfolding kept_one
  step_over_file n m [] = record { map = m; kept = []; applied = []; recorded = 0; thrown = false }
  step_over_file n m (r ∷ rs) =
      if is_some (F.find m r.key)
      then applied_one r n (F.erase m r.key) rs (λ n'. step_over_file n' (F.erase m r.key) rs)
      else kept_one r (step_over_file n m rs)
