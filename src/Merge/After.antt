-- ===== src/Merge/After.antt =====
-- From the durable record on: publication, retirement of the sources, and removal of the record.
use utxo_z.Common.{ℕ, ◌≡◌, refl, sym, ◌∙◌, ap, Bool, true, false, Option, none, some}
use mathlib.Core.Path.{subst}
use utxo_z.Sidecar.{Plan}
use utxo_z.Errors.{ErrorCode, recovery_required}
use utxo_z.FlatMap.{Key, FlatMap}
use utxo_z.Dir.{Dir, building_file, Content, segment, unlink, write, file_at}
use utxo_z.Io.{World, Attempt, ok, err, ignore, and_then}
use utxo_z.Io.Rules.{
  Ensures, on_done, on_failed, Ensures-and_then, Ensures-ignore, Ensures-barrier, Ensures-attempt,
  Either,
}
use utxo_z.Instance.{State, remove_file, latch}
use utxo_z.Instance.Rules.{Ensures-remove_file, Ensures-publish_new_file}
use utxo_z.Merge.{
  Policy, data_path, building_path, sidecar_path, refuse_after_latch, require_durable, withdrawn,
  published as published_or, publish,
}
use utxo_z.Merge.View.{view, Merged, Merged-view, map_of, files-file_at}
use utxo_z.Merge.States.{
  Same, Same-refl, Same-unlink, Settled, Pending, Published, Recoverable, settled, pending,
  published,
}
use utxo_z.Merge.Steps.{Settled-Same, Pending-Same, Published-Same, publish_step, abandon_step}
use utxo_z.Merge.Naming.{Rec, Refused, Ready}

module _ {K V : Type 0} ⦃key : Key K⦄ (F : FlatMap K V) (p : Policy K V) (f : K → Option V)
    (d₀ : Dir F.Map) (start : Settled F p.index f d₀) where
  abbrev pub R : State K F.Map → Type 0
  R = Rec F p f d₀ start

  abbrev pub X : ErrorCode → State K F.Map → Type 0
  X = Refused F p f d₀ start

  pub latched :
      {A : Type 0} {Q : A → State K F.Map → Type 0} (e : ErrorCode) (w : World (State K F.Map))
      → R w.state
      → Ensures Q X R (refuse_after_latch F p e w)
  unfolding refuse_after_latch latch and_then
  latched e w r = on_failed (r, (λ h. cc h))

  -- Removing the target under its temporary name changes no state.
  remove_building :
      (v : ℕ) (P : Dir F.Map → Type 0) (w : World (State K F.Map))
      → ((d d' : Dir F.Map) → Same p.index d d' → P d → P d')
      → (P w.state.dir → R w.state)
      → P w.state.dir
      → Ensures (λ _ s. P s.dir) X R (ignore (remove_file (building_path F p v)) w)
  remove_building v P w keep rec h =
      Ensures-ignore {P = λ s. P s.dir} (remove_file (building_path F p v)) w (
        Ensures-remove_file w (building_path F p v) h (rec h) (
          keep w.state.dir _
            (Same-unlink p.index w.state.dir building_file v w.state.dir (refl, refl)
              (Same-refl p.index w.state.dir))
            h))

  module _ (plan : Plan) (t : F.Map) where
    abbrev pub Ready' : State K F.Map → Type 0
    Ready' = Ready F p f d₀ start plan t

    pub require_durable_ensures :
        (durable : Bool) (w : World (State K F.Map))
        → Ready' w.state
        → Ensures (λ _. Ready') X R (require_durable F p plan.target durable w)
    unfolding require_durable
    require_durable_ensures true w r = on_done r
    require_durable_ensures false w r =
        Ensures-and_then _
          (remove_building plan.target (Pending F p.index f plan) w
            (λ d d' same. Pending-Same F p.index f d d' same plan) (λ q. pending plan q) r.waiting)
          (λ _ w₁ q₁.
            Ensures-and_then {Q = λ _. R} _
              (Ensures-ignore {P = R} (remove_file (sidecar_path F p plan.target)) w₁ (
                Ensures-remove_file w₁ (sidecar_path F p plan.target) (pending plan q₁)
                  (pending plan q₁) (settled (abandon_step F p.index f plan w₁.state.dir q₁))))
              (λ _ w₂ r₂. latched recovery_required w₂ r₂))

    withdrawn_ensures :
        (e : ErrorCode) (a : Attempt (Unit {0})) (w : World (State K F.Map))
        → Either (λ _ s. Settled F p.index f s.dir) (λ _. R) a w.state
        → Ensures (λ _ s. Published F p.index f plan s.dir) X R (withdrawn F p plan.target e a w)
    unfolding withdrawn
    withdrawn_ensures e (ok _) w q =
        Ensures-and_then _
          (remove_building plan.target (Settled F p.index f) w (Settled-Same F p.index f) settled q)
          (λ _ w₁ q₁. on_failed (settled q₁, (λ _. q₁)))
    withdrawn_ensures e (err _) w r = latched recovery_required w r

    published_or_ensures :
        (a : Attempt (Unit {0})) (w : World (State K F.Map))
        → Either
            (λ _ s. Published F p.index f plan s.dir)
            (λ _ s. Pending F p.index f plan s.dir)
            a
            w.state
        → Ensures (λ _ s. Published F p.index f plan s.dir) X R (published_or F p plan.target a w)
    unfolding published_or
    published_or_ensures (ok _) w q = on_done q
    published_or_ensures (err e) w q =
        Ensures-and_then _
          (Ensures-attempt {Q = λ _ s. Settled F p.index f s.dir} {E = λ _. R} (
            Ensures-and_then {Q = λ _ s. Settled F p.index f s.dir} _
              (Ensures-remove_file w (sidecar_path F p plan.target) (pending plan q)
                (pending plan q) (abandon_step F p.index f plan w.state.dir q))
              (λ _ w₁ q₁. Ensures-barrier w₁ (settled q₁) (settled q₁) q₁)))
          (λ a' w₁ q₁. withdrawn_ensures e a' w₁ q₁)

    module _ (all : Merged F (view p.index d₀) plan.sources t) where
      pub publish_ensures :
          (w : World (State K F.Map))
          → Ready' w.state
          → Ensures (λ _ s. Published F p.index f plan s.dir) X R (publish F p plan.target w)
      unfolding publish
      publish_ensures w r =
          Ensures-and_then _
            (Ensures-attempt {Q = λ _ s. Published F p.index f plan s.dir}
              {E = λ _ s. Pending F p.index f plan s.dir}
              (Ensures-publish_new_file w (building_path F p plan.target)
                (data_path F p plan.target) r.waiting r.waiting (pending plan r.waiting) linked))
            (λ a w₁ q₁. published_or_ensures a w₁ q₁)
        where
          merged_now : Merged F (view p.index w.state.dir) plan.sources t
          merged_now =
              Merged-view F (view p.index d₀) _ plan.sources t
                (λ n. ap (λ (g : ℕ → Option (Content F.Map)). map_of (g n)) r.data_same) all

          live :
              Published F p.index f plan
                (write (data_path F p plan.target) (segment (some plan.id) t) w.state.dir)
          live = publish_step F p.index f plan t w.state.dir r.waiting merged_now

          after_link : Dir F.Map
          after_link = write (data_path F p plan.target) (segment (some plan.id) t) w.state.dir

          both :
              (d : Dir F.Map)
              → Published F p.index f plan d
              → Recoverable F p.index f d
                × Published F p.index f plan d
                × Published F p.index f plan (unlink (building_path F p plan.target) d)
          both d l = (
            published plan l,
            l,
            Published-Same F p.index f d _
                (Same-unlink p.index d building_file plan.target d (refl, refl)
                  (Same-refl p.index d))
                plan l,
          )

          linked :
              (c : Content F.Map)
              → file_at (building_path F p plan.target) w.state.dir ≡ some c
              → file_at (data_path F p plan.target) w.state.dir ≡ none
              → Recoverable F p.index f (write (data_path F p plan.target) c w.state.dir)
                × Published F p.index f plan (write (data_path F p plan.target) c w.state.dir)
                × Published F p.index f plan (
                    unlink
                      (building_path F p plan.target)
                      (write (data_path F p plan.target) c w.state.dir))
          linked c at free =
              let e : some (segment (some plan.id) t) ≡ some c =
                sym r.built ∙ files-file_at building_file p.index plan.target w.state.dir ∙ at in
              let e' : segment (some plan.id) t ≡ c = cc in
              both _ (
                subst
                  (λ x.
                    Published F p.index f plan (write (data_path F p plan.target) x w.state.dir))
                  e' live)
