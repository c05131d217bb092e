-- ===== src/Facade/Deleted.antt =====
-- Deletions and then lookups, through the facade.
use utxo_z.Common.{◌≡◌, List, [], Option, none, some, inl, inr}
use mathlib.Core.Path.{subst}
use utxo_z.Io.{ok}
use utxo_z.FlatMap.{Key, FlatMap}
use utxo_z.Merge.View.{ContentOf}
use utxo_z.Deletion.{Request, FileId, Mode, classes, Store, Faults}
use utxo_z.Deletion.Erases.{minus}
use utxo_z.Deletion.Sweep.{maps}
use utxo_z.Deletion.Outcome.{Filed}
use utxo_z.Deletion.Removed.{all_gone}
use utxo_z.Facade.{Latches, db_apply_deletes}
use utxo_z.Facade.Lookup.{lookup_key, lookup_key_sound}
use utxo_z.Facade.Refusal.{db_apply_deletes-Answers}

module _ {K V : Type 0} ⦃key : Key K⦄ (F : FlatMap K V) (mode : Mode) where
  -- For an open database that holds `f`, with its files filed in the catalogues: after a batch of
  -- deletions that reports no error, a lookup either fails or answers by `f` without the keys of the
  -- batch, whatever is cached and whatever goes wrong during either call.
  pub lookup_key-deleted :
      (s : Store K F.Map) (l : Latches) (f : K → Option V)
      → ContentOf F (maps F (classes mode) s) f
      → Filed F mode s
      → (faults later : Faults) (cached cached_later : List FileId) (requests : List (Request K))
      → (db_apply_deletes F mode faults cached requests
          (some (record { latches = l; store = s }))).0.error
        ≡ none
      → (r : Request K) (x : Option V)
      → lookup_key F mode later cached_later r
          (db_apply_deletes F mode faults cached requests
            (some (record { latches = l; store = s }))).1
        ≡ ok x
      → x ≡ minus F f requests r.key
  lookup_key-deleted s l f holds filed faults later cached cached_later requests fine r x answer =
      let (t, left, answers, _) =
        db_apply_deletes-Answers F mode s requests f holds faults cached l filed in
      let settled : (db_apply_deletes F mode faults cached requests
            (some (record { latches = l; store = s }))).0.unresolved
          ≡ [] =
        elim answers.owed [ inl done ↦ done.1 | inr bad ↦ absurd (bad.0 fine) ] in
      let content =
        all_gone F mode s requests f
          (db_apply_deletes F mode faults cached requests
            (some (record { latches = l; store = s }))).0
          t answers settled in
      lookup_key_sound F mode later cached_later t (minus F f requests) content r l x answers.filed
        (subst (λ h. lookup_key F mode later cached_later r h ≡ ok x) left answer)
