-- ===== src/Merge/Naming.antt =====
-- `write_merge_sidecar`: before the rename the directory is as it was, and after it the merge is
-- recorded, whatever the last barrier says.
use utxo_z.Common.{
  ℕ, ◌≡◌, refl, sym, ◌∙◌, ap, false, List, [], Option, none, some, if◌then◌else◌, ◌==◌, ==_refl,
}
use utxo_z.Sidecar.{Plan, encode_merge_plan}
use utxo_z.Sidecar.Coherent.{IsCoherent, Fits}
use utxo_z.Errors.{ErrorCode, metadata_write_failed}
use utxo_z.FlatMap.{Key, FlatMap}
use utxo_z.Dir.{
  Dir, data_file, sidecar_file, building_file, sidecar_temp, Content, segment, raw, unlink, write,
  file_at,
}
use utxo_z.Io.{World, barrier}
use utxo_z.Io.Rules.{
  Ensures, Ensures-and_then, Ensures-on_failure, Ensures-barrier, Ensures-succeeds,
}
use utxo_z.Instance.{State, on_dir, remove_file}
use utxo_z.Instance.Rules.{Ensures-remove_file, Ensures-modify, Ensures-replace_file}
use utxo_z.Merge.{Policy, sidecar_path, temp_path, write_merge_sidecar}
use utxo_z.Merge.View.{
  files, files-file_at, files-unlink, files-write, files-write_self, files-file_at,
}
use utxo_z.Merge.States.{Same-unlink, Same-write, Settled, Pending, Recoverable, settled, pending}
use utxo_z.Merge.Steps.{Settled-Same, record_step}
use utxo_z.Merge.Before.{Untouched, Built}

module _ {K V : Type 0} ⦃key : Key K⦄ (F : FlatMap K V) (p : Policy K V) (f : K → Option V)
    (d₀ : Dir F.Map) (start : Settled F p.index f d₀) where
  abbrev pub Rec : State K F.Map → Type 0
  Rec s = Recoverable F p.index f s.dir

  -- A failure that does not latch the instance leaves nothing to recover.
  abbrev pub Refused : ErrorCode → State K F.Map → Type 0
  Refused e s = Rec s × (s.cleanup_pending ≡ false → Settled F p.index f s.dir)

  pub Untouched-Settled : (s : State K F.Map) → Untouched F p d₀ s → Settled F p.index f s.dir
  Untouched-Settled s u = Settled-Same F p.index f d₀ s.dir u start

  pub Untouched-Rec : (s : State K F.Map) → Untouched F p d₀ s → Rec s
  Untouched-Rec s u = settled (Untouched-Settled s u)

  pub Untouched-Refused : (e : ErrorCode) (s : State K F.Map) → Untouched F p d₀ s → Refused e s
  Untouched-Refused e s u = (Untouched-Rec s u, (λ _. Untouched-Settled s u))

  -- The merge is recorded, and the target waits under its temporary name.
  pub record Ready (plan : Plan) (t : F.Map) (s : State K F.Map) : Type 0 where
    pub waiting : Pending F p.index f plan s.dir
    pub built : files building_file p.index s.dir plan.target ≡ some (segment (some plan.id) t)
    pub data_same : files data_file p.index s.dir ≡ files data_file p.index d₀

  module _ (plan : Plan) (t : F.Map) (here : plan.container ≡ p.index) (fits : Fits plan)
      (coherent : IsCoherent plan) (free : files data_file p.index d₀ plan.target ≡ none) where
    abbrev Drafted : List ℕ → State K F.Map → Type 0
    Drafted bytes s =
        Built F p d₀ plan.target plan.id t s
        × (files sidecar_temp p.index s.dir plan.target ≡ some (raw bytes))

    draft :
        (bytes : List ℕ) (s : State K F.Map)
        → Built F p d₀ plan.target plan.id t s
        → Drafted bytes (on_dir (write (temp_path F p plan.target) (raw bytes)) s)
    draft bytes s b = (
      (
        Same-write p.index d₀ sidecar_temp plan.target (raw bytes) s.dir (refl, refl) b.0,
        ap (λ (g : ℕ → Option (Content F.Map)). g plan.target)
              (files-write building_file sidecar_temp p.index plan.target (raw bytes) s.dir refl)
            ∙ b.1,
      ),
      rw (
        files-write_self sidecar_temp p.index plan.target (raw bytes) s.dir plan.target,
        ==_refl plan.target,
      ),
    )

    named :
        (s : State K F.Map) (x : Content F.Map)
        → Drafted (encode_merge_plan plan) s
        → file_at (temp_path F p plan.target) s.dir ≡ some x
        → Ready plan t (
            on_dir
              (λ d. write (sidecar_path F p plan.target) x (unlink (temp_path F p plan.target) d))
              s)
    named s x (b, drafted) at = record {
      waiting =
          record_step F p.index f plan d₀ _ start here fits coherent free (e₂ ∙ e₁ ∙ b.0.data_same)
            side;
      built =
          ap (at_target) (files-write building_file sidecar_file p.index plan.target x _ refl)
          ∙ ap (at_target) (files-unlink building_file sidecar_temp p.index plan.target s.dir refl)
          ∙ b.1;
      data_same = e₂ ∙ e₁ ∙ b.0.data_same;
    }
      where
        at_target : (ℕ → Option (Content F.Map)) → Option (Content F.Map)
        at_target g = g plan.target

        e₁ :
            files data_file p.index (unlink (temp_path F p plan.target) s.dir)
            ≡ files data_file p.index s.dir
        e₁ = files-unlink data_file sidecar_temp p.index plan.target s.dir refl

        e₂ :
            files data_file p.index
              (write (sidecar_path F p plan.target) x (unlink (temp_path F p plan.target) s.dir))
            ≡ files data_file p.index (unlink (temp_path F p plan.target) s.dir)
        e₂ = files-write data_file sidecar_file p.index plan.target x _ refl

        bytes : some x ≡ some (raw (encode_merge_plan plan))
        bytes = sym at ∙ sym (files-file_at sidecar_temp p.index plan.target s.dir) ∙ drafted

        side :
            (n : ℕ)
            → files sidecar_file p.index
                (write (sidecar_path F p plan.target) x (unlink (temp_path F p plan.target) s.dir))
                n
              ≡ (if plan.target == n
                  then some (raw (encode_merge_plan plan))
                  else files sidecar_file p.index d₀ n)
        side n =
            files-write_self sidecar_file p.index plan.target x _ n
            ∙ ap
                (λ (y : Option (Content F.Map)).
                  if plan.target == n
                  then y
                  else files sidecar_file p.index (unlink (temp_path F p plan.target) s.dir) n)
                bytes
            ∙ ap
                (λ (g : ℕ → Option (Content F.Map)).
                  if plan.target == n then some (raw (encode_merge_plan plan)) else g n)
                (files-unlink sidecar_file sidecar_temp p.index plan.target s.dir refl
                  ∙ b.0.side_same)

    Ready-Rec : (s : State K F.Map) → Ready plan t s → Rec s
    Ready-Rec s r = pending plan r.waiting

    discard_temp :
        (w : World (State K F.Map))
        → Untouched F p d₀ w.state
        → Ensures
            (λ _. Untouched F p d₀)
            (λ _. Untouched F p d₀)
            Rec
            (remove_file (temp_path F p plan.target) w)
    discard_temp w u =
        Ensures-remove_file w (temp_path F p plan.target) u (Untouched-Rec w.state u)
          (Same-unlink p.index d₀ sidecar_temp plan.target w.state.dir (refl, refl) u)

    pub write_merge_sidecar_ensures :
        (w : World (State K F.Map))
        → Built F p d₀ plan.target plan.id t w.state
        → Ensures (λ _. Ready plan t) (λ _. Untouched F p d₀) Rec (write_merge_sidecar F p plan w)
    unfolding write_merge_sidecar
    write_merge_sidecar_ensures w b =
        Ensures-and_then {Q = λ _. Drafted []} _
          (Ensures-modify w (on_dir (write (temp_path F p plan.target) (raw [])))
            metadata_write_failed b.0 (Untouched-Rec w.state b.0) (draft [] w.state b))
          (λ _ w₁ (b₁, _).
            Ensures-and_then {Q = λ _. Ready plan t} _
              (Ensures-on_failure {E = λ _. Untouched F p d₀} {F = λ _. Untouched F p d₀}
                (remove_file (temp_path F p plan.target))
                (Ensures-and_then {Q = λ _. Drafted (encode_merge_plan plan)} _
                  (Ensures-modify w₁
                    (on_dir (write (temp_path F p plan.target) (raw (encode_merge_plan plan))))
                    metadata_write_failed b₁.0 (Untouched-Rec w₁.state b₁.0)
                    (draft (encode_merge_plan plan) w₁.state b₁))
                  (λ _ w₂ d₂.
                    Ensures-and_then {Q = λ _. Drafted (encode_merge_plan plan)} _
                      (Ensures-barrier w₂ d₂.0.0 (Untouched-Rec w₂.state d₂.0.0) d₂)
                      (λ _ w₃ d₃.
                        Ensures-replace_file w₃ (temp_path F p plan.target)
                          (sidecar_path F p plan.target) d₃.0.0 (Untouched-Rec w₃.state d₃.0.0)
                          (λ x at. named w₃.state x d₃ at))))
                (λ e w₂ u₂. discard_temp w₂ u₂))
              (λ _ w₂ r₂.
                Ensures-succeeds {Q = λ _. Ready plan t} barrier w₂
                  (Ensures-barrier w₂ r₂ (Ready-Rec w₂.state r₂) r₂)))
