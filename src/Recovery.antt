-- ===== src/Recovery.antt =====
-- src/database_impl.cpp, `recover_one` and `recover_pending_merges`, with `read_merge_sidecar` of
-- src/detail/merge_sidecar.hpp: finishing or abandoning an interrupted merge when a database opens.
pub mod Steps
pub mod Safety
pub mod Whole
pub mod Overlong
pub mod Progress
use utxo_z.Common.{
  ℕ, Bool, true, false, ◌&&◌, List, [], ◌∷◌, Option, none, some, if◌then◌else◌, ltb, ◌==◌, length,
  not,
}
use utxo_z.Sidecar.{Marker, Plan, encoded_size_for, max_sources, decode_merge_plan}
use utxo_z.Errors.{ErrorCode, recovery_failed, catalog_unreadable}
use utxo_z.FlatMap.{Key, FlatMap}
use utxo_z.Dir.{
  Kind, Name, name, data_file, metadata_file, building_file, sidecar_file, sidecar_temp, Content,
  segment, raw, sort, unique, collect, file_at,
}
use utxo_z.Io.{M, ◌>>=◌, ◌>>◌, pure, fail, get, syscall, barrier}
use utxo_z.Instance.{State, path_exists, remove_file, read_target_marker}
use utxo_z.Merge.{same_marker}

-- What reading a record answers: it is not there, it cannot be trusted, or it spells a plan.
pub data Reading : Type 0 where
  absent untrusted : Reading
  spells : Plan → Reading

of_decoded : Option Plan → Reading
of_decoded none = untrusted
of_decoded (some plan) = spells plan

pub reading_of : {Map : Type 0} → Option (Content Map) → Reading
reading_of none = absent
reading_of (some (segment id m)) = untrusted
reading_of (some (raw bytes)) =
    if ltb (encoded_size_for max_sources) (length bytes)
    then untrusted
    else of_decoded (decode_merge_plan bytes)

module _ {K Map : Type 0} where
  -- `enumerate_versions`: the whole directory or an error.
  pub enumerate_versions : Kind → ℕ → M (State K Map) (List ℕ)
  enumerate_versions kind c =
      syscall catalog_unreadable (do s ← get; pure (unique (sort (collect kind c s.dir))))

  pub retire_all : Plan → List ℕ → M (State K Map) (Unit {0})
  retire_all plan [] = pure tt
  retire_all plan (s ∷ ss) = if s == plan.target then fail recovery_failed else do
    remove_file (name data_file plan.container s)
    remove_file (name metadata_file plan.container s)
    retire_all plan ss

  -- The target was never published.
  pub abandon : Plan → M (State K Map) (Unit {0})
  abandon plan = do
    remove_file (name building_file plan.container plan.target)
    remove_file (name sidecar_file plan.container plan.target)
    barrier

  -- The target is published, and is the file that the plan means.
  pub conclude_verified : Plan → M (State K Map) (Unit {0})
  conclude_verified plan = do
    retire_all plan plan.sources
    barrier
    remove_file (name sidecar_file plan.container plan.target)
    remove_file (name building_file plan.container plan.target)
    barrier

  pub conclude : Plan → Marker → M (State K Map) (Unit {0})
  conclude plan found =
      if same_marker found plan.id then conclude_verified plan else fail recovery_failed

  pub recover_published : Plan → Bool → M (State K Map) (Unit {0})
  recover_published plan false = abandon plan
  recover_published plan true = do
    found ← read_target_marker (name data_file plan.container plan.target)
    conclude plan found

  pub recover_one : Plan → M (State K Map) (Unit {0})
  recover_one plan = do
    there ← path_exists (name data_file plan.container plan.target)
    recover_published plan there

  pub recover_read : ℕ → ℕ → Reading → M (State K Map) (Unit {0})
  recover_read c target absent = pure tt
  recover_read c target untrusted = fail recovery_failed
  recover_read c target (spells plan) =
      if plan.container == c && plan.target == target
      then recover_one plan
      else fail recovery_failed

  -- `read_merge_sidecar`: one that cannot be read is as bad as one that cannot be trusted.
  pub recover_record : ℕ → ℕ → M (State K Map) (Unit {0})
  recover_record c target = do
    r ←
        syscall recovery_failed
          (do s ← get; pure (reading_of (file_at (name sidecar_file c target) s.dir)))
    recover_read c target r

  pub recover_listed : ℕ → List ℕ → M (State K Map) (Unit {0})
  recover_listed c [] = pure tt
  recover_listed c (target ∷ []) = recover_record c target
  recover_listed c (a ∷ b ∷ more) = fail recovery_failed

  pub remove_each : Kind → ℕ → List ℕ → M (State K Map) (Unit {0})
  remove_each kind c [] = pure tt
  remove_each kind c (v ∷ vs) = do remove_file (name kind c v); remove_each kind c vs

  pub sweep : Kind → ℕ → M (State K Map) (Unit {0})
  sweep kind c = do stray ← enumerate_versions kind c; remove_each kind c stray

  -- One container.
  pub recover_scope : ℕ → M (State K Map) (Unit {0})
  recover_scope c = do
    listed ← enumerate_versions sidecar_file c
    recover_listed c listed
    sweep building_file c
    sweep sidecar_temp c

  pub recover_pending_merges : List ℕ → M (State K Map) (Unit {0})
  recover_pending_merges [] = pure tt
  recover_pending_merges (c ∷ cs) = do recover_scope c; recover_pending_merges cs
