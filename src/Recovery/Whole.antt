-- ===== src/Recovery/Whole.antt =====
-- Recovery of all the containers of a database.
use utxo_z.Common.{
  ℕ, ◌≡◌, true, false, List, [], ◌∷◌, Option, none, ◌==◌, ==_iff, Bool-cases, inl, inr,
}
use mathlib.Core.Path.{subst}
use utxo_z.Sidecar.{contains}
use utxo_z.FlatMap.{Key, FlatMap}
use utxo_z.Dir.{Dir, Kind, building_file, sidecar_temp, name, file_at}
use utxo_z.Io.{World}
use utxo_z.Io.Rules.{Ensures, on_done, Ensures-and_then, Ensures-mono}
use utxo_z.Instance.{State}
use utxo_z.Merge.View.{files}
use utxo_z.Merge.States.{Settled, Recoverable, settled}
use utxo_z.Merge.Steps.{Settled-Same, Recoverable-Same}
use utxo_z.Recovery.{recover_scope, recover_pending_merges}
use utxo_z.Recovery.Steps.{Apart, Apart-refl, Apart-Same}
use utxo_z.Recovery.Safety.{recover_scope_ensures}

module _ {K V : Type 0} ⦃key : Key K⦄ (F : FlatMap K V) where
  -- Recovering one container, whichever calls fail or die: if it is done, no merge of the container
  -- is recorded, the version files hold what the interrupted merge was to keep, and no unfinished
  -- build or record is left; if not, what is left can still be recovered. In every case each file of
  -- every other container, of whatever kind, is as it was.
  pub recover_scope-sweeps :
      (f : K → Option V) (c : ℕ) (w : World (State K F.Map))
      → Recoverable F c f w.state.dir
      → Ensures
          (λ _ s.
            (Settled F c f s.dir
              × ((kind : Kind) (c' n : ℕ)
                  → (c == c') ≡ false
                  → file_at (name kind c' n) s.dir ≡ file_at (name kind c' n) w.state.dir))
            × ((n : ℕ) → files building_file c s.dir n ≡ none)
            × ((n : ℕ) → files sidecar_temp c s.dir n ≡ none))
          (λ _ s.
            Recoverable F c f s.dir
            × ((kind : Kind) (c' n : ℕ)
                → (c == c') ≡ false
                → file_at (name kind c' n) s.dir ≡ file_at (name kind c' n) w.state.dir))
          (λ s.
            Recoverable F c f s.dir
            × ((kind : Kind) (c' n : ℕ)
                → (c == c') ≡ false
                → file_at (name kind c' n) s.dir ≡ file_at (name kind c' n) w.state.dir))
          (recover_scope c w)
  recover_scope-sweeps f c w r =
      recover_scope_ensures F f c w.state.dir w (r, Apart-refl c w.state.dir)

  module _ (f : ℕ → K → Option V) where
    abbrev AllRecoverable : Dir F.Map → Type 0
    AllRecoverable d = (c : ℕ) → Recoverable F c (f c) d

    abbrev Keeps : Dir F.Map → Dir F.Map → Type 0
    Keeps d d' = (c : ℕ) → Settled F c (f c) d → Settled F c (f c) d'

    -- From one container to all.
    all_recoverable :
        (c : ℕ) (d d' : Dir F.Map)
        → AllRecoverable d
        → Recoverable F c (f c) d'
        → Apart c d d'
        → AllRecoverable d'
    all_recoverable c d d' all r a c' = elim (Bool-cases (c == c')) [
      | inl e ↦ subst (λ x. Recoverable F x (f x) d') ((==_iff c c').0 e) r
      | inr e ↦ Recoverable-Same F c' (f c') d d' (Apart-Same c c' d d' e a) (all c')
    ]

    keeps_settled : (c : ℕ) (d d' : Dir F.Map) → Settled F c (f c) d' → Apart c d d' → Keeps d d'
    keeps_settled c d d' s a c' s' = elim (Bool-cases (c == c')) [
      | inl e ↦ subst (λ x. Settled F x (f x) d') ((==_iff c c').0 e) s
      | inr e ↦ Settled-Same F c' (f c') d d' (Apart-Same c c' d d' e a) s'
    ]

    abbrev Restored : Dir F.Map → List ℕ → State K F.Map → Type 0
    Restored d cs s =
        AllRecoverable s.dir
        × Keeps d s.dir
        × ((c : ℕ) → contains cs c ≡ true → Settled F c (f c) s.dir)

    more :
        (c : ℕ) (cs : List ℕ) (d d₁ : Dir F.Map) (s : State K F.Map)
        → Settled F c (f c) d₁
        → Keeps d d₁
        → Restored d₁ cs s
        → Restored d (c ∷ cs) s
    unfolding contains
    more c cs d d₁ s here kept (all, k, each) = (
      all,
      (λ c' h. k c' (kept c' h)),
      (λ c' is. elim (Bool-cases (c == c')) [
        | inl e ↦ subst (λ x. Settled F x (f x) s.dir) ((==_iff c c').0 e) (k c here)
        | inr e ↦ each c' (rw e at is)
      ]),
    )

    restores :
        (cs : List ℕ) (w : World (State K F.Map))
        → AllRecoverable w.state.dir
        → Ensures
            (λ _. Restored w.state.dir cs)
            (λ _ s. AllRecoverable s.dir)
            (λ s. AllRecoverable s.dir)
            (recover_pending_merges cs w)
    unfolding recover_pending_merges contains
    restores [] w all = on_done (all, (λ c h. h), (λ c is. cc is))
    restores (c ∷ cs) w all =
        Ensures-and_then
          {Q = λ _ s. Settled F c (f c) s.dir × Keeps w.state.dir s.dir × AllRecoverable s.dir} _
          (Ensures-mono
            (λ _ s ((q, a), _, _). (
              q,
              keeps_settled c w.state.dir s.dir q a,
              all_recoverable c w.state.dir s.dir all (settled q) a,
            ))
            (λ _ s (r, a). all_recoverable c w.state.dir s.dir all r a)
            (λ s (r, a). all_recoverable c w.state.dir s.dir all r a)
            (recover_scope-sweeps (f c) c w (all c)))
          (λ _ w₁ (here, kept, all₁).
            Ensures-mono (λ _ s r. more c cs w.state.dir w₁.state.dir s here kept r) (λ _ _ h. h)
              (λ _ h. h) (restores cs w₁ all₁))

    -- Recovering every container of a database, whichever calls fail or die: if it is done, no merge
    -- of a listed container is recorded and each holds what it did; in every other case each can
    -- still be recovered, so that recovery may be started again.
    pub recover_pending_merges-restores :
        (cs : List ℕ) (w : World (State K F.Map))
        → ((c : ℕ) → Recoverable F c (f c) w.state.dir)
        → Ensures
            (λ _ s. (c : ℕ) → contains cs c ≡ true → Settled F c (f c) s.dir)
            (λ _ s. (c : ℕ) → Recoverable F c (f c) s.dir)
            (λ s. (c : ℕ) → Recoverable F c (f c) s.dir)
            (recover_pending_merges cs w)
    recover_pending_merges-restores cs w all =
        Ensures-mono (λ _ s (_, _, each). each) (λ _ _ h. h) (λ _ h. h) (restores cs w all)
