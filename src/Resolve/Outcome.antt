-- ===== src/Resolve/Outcome.antt =====
-- What a resolution answers, against the content of the files behind the open versions.
use utxo_z.Common.{
  ◌≢◌, ◌≡◌, sym, ◌∙◌, true, List, [], ◌++◌, Option, none, some, Bool-cases, Option-cases, inl, inr,
  ◌⊎◌, All,
}
use mathlib.Core.Path.{subst}
use mathlib.Core.List.{Perm}
use mathlib.Core.List.Perm
use utxo_z.Errors.{ErrorCode, version_unreadable}
use utxo_z.FlatMap.{Key, FlatMap}
use utxo_z.Deletion.{
  Request, FileId, Mode, classes, Store, Faults, is_empty, sort_files, file_in, working_set_of,
}
use utxo_z.Resolve.{Resolving, probe_cached, probe_classes}
use utxo_z.Resolve.Probe.{Probed, Probed-trans}
use utxo_z.Resolve.{Resolution, resolved, failed, settle, probe_all, resolve}
use utxo_z.Resolve.Probe.{request_keys, found_keys, Stored}
use utxo_z.Resolve.Covered.{Cached, Behind, probe_cached-Probed, probe_classes-Probed}
use utxo_z.Merge.View.{ContentOf}
use utxo_z.Deletion.Erases.{All-map}
use utxo_z.Deletion.Working.{sort_files-file_in, All-Mem, Mem-All}
use utxo_z.Deletion.{first_seen}
use mathlib.Core.HLevel.{¬_prop}
use utxo_z.Deletion.Outcome.{Filed, nil_of}

module _ {K V : Type 0} ⦃key : Key K⦄ (F : FlatMap K V) (mode : Mode) (s : Store K F.Map)
    (faults : Faults) (cached : List FileId) (requests : List (Request K)) (f : K → Option V)
    (holds : ContentOf F (λ (a : FileId). s.file a.0 a.1) f) (filed : Filed F mode s) where
  abbrev start : Resolving K V
  start = record {
    pending = working_set_of requests;
    found = [];
    complete = true;
    failure = version_unreadable;
  }

  abbrev second : Resolving K V
  second = probe_cached F s faults mode (sort_files cached) start

  abbrev third : Resolving K V
  third = probe_classes F s faults cached (classes mode) second

  -- Every file is read.
  all_probed : Probed F s faults start third (λ a. (m : F.Map) × (s.file a.0 a.1 ≡ some m))
  all_probed =
      Probed-trans F s faults start second third (Cached F s faults mode (sort_files cached))
        (Behind F s faults cached (classes mode)) (λ a. (m : F.Map) × (s.file a.0 a.1 ≡ some m))
        which (probe_cached-Probed F s faults mode (sort_files cached) start)
        (probe_classes-Probed F s faults cached (classes mode) second)
    where
      which :
          (a : FileId)
          → (m : F.Map) × (s.file a.0 a.1 ≡ some m)
          → Cached F s faults mode (sort_files cached) a ⊎ Behind F s faults cached (classes mode) a
      which (c, v) (m, at) =
          let (in_, listed) = filed c v m at in
          elim (Bool-cases (file_in cached (c, v))) [
            | inl hit ↦ inl (sort_files-file_in cached (c, v) ∙ hit, in_)
            | inr miss ↦ inr (in_, listed, miss)
          ]

  stored_sound : (x : K × V) → Stored F s faults x → f x.0 ≡ some x.1
  stored_sound (k, w) (c, v, m, at, has) = holds.sound (c, v) m k w at has

  -- After a resolution that is complete, what is pending is in no file.
  third-missing : third.complete ≡ true → All (λ r. f r.key ≡ none) third.pending
  third-missing done = Mem-All third.pending (λ r m. elim (Option-cases (f r.key)) [
    | inl e ↦ e
    | inr (v, e) ↦
        let (a, n, at, has) = holds.complete r.key v e in
        absurd (
          All-Mem {P = λ q. F.find n q.key ≢ some v} (λ q. ¬_prop) third.pending
            (All-map third.pending (λ q z here. cc (z, here))
              (all_probed.clear done a (n, at) n at))
            r m has)
  ])

  -- What an answer means; a failure reports nothing as absent, or at all.
  pub data Answers : Resolution K V → Type 0 where
    answered :
        (found : List (K × V)) (absent : List (Request K))
        → Perm (found_keys found ++ request_keys absent) (request_keys (working_set_of requests))
        → All (λ x. f x.0 ≡ some x.1) found
        → All (λ r. f r.key ≡ none) absent
        → Answers (resolved found absent)
    refused : (e : ErrorCode) → Answers (failed e)

  nothing_asked : is_empty requests ≡ true → Answers (resolved [] [])
  unfolding is_empty working_set_of first_seen
  nothing_asked e =
      answered [] []
        (subst (λ rs. Perm [] (request_keys (working_set_of rs))) (sym (nil_of requests e))
          (Perm.refl []))
        tt tt

  settle-Answers : Answers (settle F s faults third)
  unfolding settle
  settle-Answers = elim (Bool-cases third.complete) [
    | inl done ↦ rw done (
        answered third.found third.pending all_probed.perm
          (All-map third.found stored_sound (all_probed.stored tt)) (third-missing done))
    | inr not_done ↦ rw not_done (refused third.failure)
  ]

  -- For files that hold `f`, filed in the catalogues, and for whatever faults and cached files: a
  -- resolution that does not fail answers every key of the batch once, with its value or as absent.
  pub resolve-Answers : Answers (resolve F s faults mode cached requests)
  unfolding resolve probe_all
  resolve-Answers = elim (Bool-cases (is_empty requests)) [
    | inl none_ ↦ rw none_ (nothing_asked none_)
    | inr some_ ↦ rw some_ settle-Answers
  ]
