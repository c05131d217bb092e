-- ===== src/Facade/Refusal.antt =====
-- A batch of deletions through the facade.
use utxo_z.Common.{◌≡◌, ◌⊎◌, refl, Bool, true, false, List, [], Option, none, some, inl, inr}
use mathlib.Core.List.Perm
use utxo_z.Errors.{ErrorCode, recovery_required, inspection_only}
use utxo_z.Io.{Attempt, ok, err}
use utxo_z.FlatMap.{Key, FlatMap}
use utxo_z.Merge.View.{ContentOf}
use utxo_z.Deletion.{
  Request, FileId, Mode, classes, Store, Faults, refuse_deletions, working_set_of,
}
use utxo_z.Deletion.Batch.{apply_deletes, count_off}
use utxo_z.Deletion.Erases.{minus}
use utxo_z.Deletion.Sweep.{maps}
use utxo_z.Deletion.Outcome.{Filed, Answers, apply_deletes-Answers}
use utxo_z.Facade.{
  Handle, Latches, usable, then_test, refuse_if_unusable, refuse_if_integrity_latched,
  refuse_if_recovery_pending, refuse_if_inspection_only, refusal, delete_if, db_apply_deletes,
}

-- Nothing stands in the way of an operation.
abbrev pub IsClear : Latches → Type 0
IsClear l = (l.integrity_latched ≡ none) × (l.cleanup_pending ≡ false) × (l.inspecting ≡ false)

-- The first thing that stands in the way, and the error it is reported as.
abbrev pub Refuses : Latches → ErrorCode → Type 0
Refuses l e =
    (l.integrity_latched ≡ some e)
    ⊎ (((l.integrity_latched ≡ none) × (l.cleanup_pending ≡ true) × (e ≡ recovery_required))
        ⊎ ((l.integrity_latched ≡ none)
            × (l.cleanup_pending ≡ false)
            × (l.inspecting ≡ true)
            × (e ≡ inspection_only)))

usable-cases :
    (l : Latches)
    → ((usable l ≡ ok tt) × IsClear l) ⊎ ((e : ErrorCode) × (usable l ≡ err e) × Refuses l e)
unfolding usable then_test refuse_if_unusable refuse_if_integrity_latched refuse_if_recovery_pending
    refuse_if_inspection_only refusal
usable-cases l = by l.integrity_latched l.cleanup_pending l.inspecting refl refl refl
  where
    by :
        (i : Option ErrorCode) (c b : Bool)
        → l.integrity_latched ≡ i
        → l.cleanup_pending ≡ c
        → l.inspecting ≡ b
        → ((usable l ≡ ok tt) × IsClear l) ⊎ ((e : ErrorCode) × (usable l ≡ err e) × Refuses l e)
    by (some e) c b p q r = inr (e, rw p, inl p)
    by none true b p q r = inr (recovery_required, rw (p, q), inr (inl (p, q, refl)))
    by none false true p q r = inr (inspection_only, rw (p, q, r), inr (inr (p, q, r, refl)))
    by none false false p q r = inl (rw (p, q, r), (p, q, r))

module _ {K V : Type 0} ⦃key : Key K⦄ (F : FlatMap K V) (mode : Mode) (s : Store K F.Map)
    (requests : List (Request K)) (f : K → Option V)
    (holds : ContentOf F (maps F (classes mode) s) f) where
  -- A refusal leaves the store as it is, and owes every key of the batch.
  refuse_deletions-Answers :
      (e : ErrorCode) → Filed F mode s → Answers F mode s requests f (refuse_deletions requests e) s
  unfolding refuse_deletions minus count_off
  refuse_deletions-Answers e filed = record {
    content = holds;
    perm = Perm.refl (working_set_of requests);
    found = tt;
    missing = tt;
    owed = inr ((λ bad. cc bad), refl);
    counted = refl;
    filed = filed;
  }

  delete_if-Answers :
      (faults : Faults) (cached : List FileId) (a : Attempt Unit) (h : Handle (Store K F.Map))
      → Filed F mode s
      → h.store ≡ s
      → Answers F mode s requests f
          (delete_if F mode faults cached a requests h).0
          (delete_if F mode faults cached a requests h).1.store
  unfolding delete_if
  delete_if-Answers faults cached (err e) h filed at = rw at (refuse_deletions-Answers e filed)
  delete_if-Answers faults cached (ok _) h filed at =
      rw at (apply_deletes-Answers F mode s faults cached requests f holds filed)

  -- For an open database that holds `f`, with its files filed in the catalogues: a batch of deletions
  -- answers by the content of the store it leaves behind and keeps the latches. It goes through when
  -- integrity is not in doubt, no recovery is owed and the database is not open for inspection; if not,
  -- the first of these in that order is the error, the store is as it was and every key of the batch,
  -- each once, is unresolved.
  pub db_apply_deletes-Answers :
      (faults : Faults) (cached : List FileId) (l : Latches)
      → Filed F mode s
      → (t : Store K F.Map) × ((db_apply_deletes F mode faults cached requests
            (some (record { latches = l; store = s }))).1
          ≡ some (record { latches = l; store = t }))
        × Answers F mode s requests f
            (db_apply_deletes F mode faults cached requests
              (some (record { latches = l; store = s }))).0
            t
        × ((IsClear l
              × ((db_apply_deletes F mode faults cached requests
                    (some (record { latches = l; store = s }))).0
                  ≡ (apply_deletes F mode faults cached requests s).0)
              × (t ≡ (apply_deletes F mode faults cached requests s).1))
            ⊎ ((e : ErrorCode) × Refuses l e
                × (t ≡ s)
                × ((db_apply_deletes F mode faults cached requests
                      (some (record { latches = l; store = s }))).0
                    ≡ record {
                      erased = [];
                      absent = [];
                      unresolved = working_set_of requests;
                      error = some e;
                    })))
  unfolding db_apply_deletes delete_if refuse_deletions
  db_apply_deletes-Answers faults cached l filed = elim (usable-cases l) [
    | inl (gate, clear) ↦ rw gate (
      (apply_deletes F mode faults cached requests s).1,
      refl,
      delete_if-Answers faults cached (ok tt) h filed refl,
      inl (clear, refl, refl),
    )
    | inr (e, gate, why) ↦
        rw gate
          (s, refl, delete_if-Answers faults cached (err e) h filed refl, inr (e, why, refl, refl))
  ]
    where
      h : Handle (Store K F.Map)
      h = record { latches = l; store = s }
