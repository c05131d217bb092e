-- ===== src/Facade.antt =====
-- src/database.cpp, the methods of `db_base`, `full_db` and `reference_db`, with the refusals of
-- src/detail/database_impl.hpp that stand before them.
pub mod Lookup
pub mod Refusal
pub mod Deleted
use utxo_z.Common.{ℕ, Bool, true, false, List, [], ◌∷◌, Option, none, some, if◌then◌else◌}
use utxo_z.Errors.{ErrorCode, closed, not_resolved, recovery_required, inspection_only}
use utxo_z.Io.{Attempt, ok, err}
use utxo_z.FlatMap.{Key, FlatMap}
use utxo_z.Deletion.{
  Request, FileId, Mode, classes, Store, Faults, DeletionProgress, refuse_deletions,
}
use utxo_z.Deletion.Batch.{apply_deletes}
use utxo_z.Resolve.{Resolution, resolved, failed, resolve}

-- What may stand in the way of an operation on an open database.
pub record Latches : Type 0 where
  pub integrity_latched : Option ErrorCode
  pub cleanup_pending : Bool
  pub inspecting : Bool

pub record Handle (S : Type 0) : Type 0 where
  pub latches : Latches
  pub store : S

unfoldable pub refusal : Option ErrorCode → Attempt Unit
refusal none = ok tt
refusal (some e) = err e

unfoldable pub refuse_if_integrity_latched : Latches → Attempt Unit
refuse_if_integrity_latched l = refusal l.integrity_latched

unfoldable pub refuse_if_recovery_pending : Latches → Attempt Unit
refuse_if_recovery_pending l = if l.cleanup_pending then err recovery_required else ok tt

unfoldable pub refuse_if_inspection_only : Latches → Attempt Unit
refuse_if_inspection_only l = if l.inspecting then err inspection_only else ok tt

-- The second test is made when the first passes.
unfoldable pub then_test : {A : Type 0} → Attempt Unit → Attempt A → Attempt A
then_test (ok _) next = next
then_test (err e) next = err e

unfoldable pub refuse_if_unusable : Latches → Attempt Unit
refuse_if_unusable l = then_test (refuse_if_integrity_latched l) (refuse_if_recovery_pending l)

-- The tests before most operations, on an instance that is not closed.
unfoldable pub usable : Latches → Attempt Unit
usable l = then_test (refuse_if_unusable l) (refuse_if_inspection_only l)

-- Before `sync`, and before a census and a verdict on uniqueness.
unfoldable pub may_sync : Latches → Attempt Unit
may_sync l = then_test (refuse_if_integrity_latched l) (refuse_if_inspection_only l)

unfoldable pub may_census : Latches → Attempt Unit
may_census l = refuse_if_integrity_latched l

unfoldable pub may_verify : Latches → Attempt Unit
may_verify l = then_test (refuse_if_integrity_latched l) (refuse_if_recovery_pending l)

unfoldable pub first_of : {A : Type 0} → Option A → Option A → Option A
first_of (some v) next = some v
first_of none next = next

module _ {K V : Type 0} ⦃key : Key K⦄ (F : FlatMap K V) (mode : Mode) (faults : Faults)
    (cached : List FileId) where
  unfoldable pub delete_if :
      Attempt Unit
      → List (Request K)
      → Handle (Store K F.Map)
      → DeletionProgress K × Handle (Store K F.Map)
  delete_if (err e) requests h = (refuse_deletions requests e, h)
  delete_if (ok _) requests h =
      let x = apply_deletes F mode faults cached requests h.store in (x.0, record h { store = x.1 })

  unfoldable pub db_apply_deletes :
      List (Request K)
      → Option (Handle (Store K F.Map))
      → DeletionProgress K × Option (Handle (Store K F.Map))
  db_apply_deletes requests none = (refuse_deletions requests closed, none)
  db_apply_deletes requests (some h) =
      let x = delete_if (usable h.latches) requests h in (x.0, some x.1)

  -- The first class whose open version holds the key.
  unfoldable pub find_in_latest : List ℕ → Store K F.Map → K → Option V
  find_in_latest [] s k = none
  find_in_latest (c ∷ cs) s k = first_of (F.find (s.active c) k) (find_in_latest cs s k)

  -- What the open versions do not have is not resolved, and not yet absent.
  unfoldable pub or_not_resolved : Option V → Attempt V
  or_not_resolved (some v) = ok v
  or_not_resolved none = err not_resolved

  unfoldable pub db_find : K → Option (Handle (Store K F.Map)) → Attempt V
  db_find k none = err closed
  db_find k (some h) =
      then_test (usable h.latches) (or_not_resolved (find_in_latest (classes mode) h.store k))

  unfoldable pub outcome_of : Resolution K V → Attempt (List (K × V) × List (Request K))
  outcome_of (resolved found absent) = ok (found, absent)
  outcome_of (failed e) = err e

  unfoldable pub db_resolve :
      List (Request K) → Option (Handle (Store K F.Map)) → Attempt (List (K × V) × List (Request K))
  db_resolve requests none = err closed
  db_resolve requests (some h) =
      then_test (usable h.latches) (outcome_of (resolve F h.store faults mode cached requests))
