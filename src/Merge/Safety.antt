-- ===== src/Merge/Safety.antt =====
-- `merge_versions` as a whole, under failures and crashes.
use utxo_z.Common.{
  ℕ, ◌≤◌, ◌%◌, u64_mod, ◌≡◌, refl, sym, ◌∙◌, ap, Bool, true, false, List, [], Option, none, some,
  ◌&&◌, ltb, Bool-cases, inl, inr, arith, All, length, ltb→lt,
}
use mathlib.Core.Path.{subst}
use utxo_z.Sidecar.{Marker, is_empty, Plan, contains}
use utxo_z.Sidecar.Bytes.{IsWord}
use utxo_z.Sidecar.Coherent.{IsCoherent, Fits, Ascending, contains→ne}
use utxo_z.Errors.{ErrorCode, insufficient_space, identity_collision}
use utxo_z.FlatMap.{Key, FlatMap}
use utxo_z.Catalog.{next_version}
use utxo_z.Dir.{Dir, exists_in, metadata_file, data_file, Content, file_at}
use utxo_z.Io.{World, Run, unwound, barrier, and_then}
use utxo_z.Io.Rules.{
  Ensures, on_done, on_failed, Ensures-and_then, Ensures-barrier, Ensures-succeeds, Ensures-draw,
  Ensures-on_failure, Ensures-mono,
}
use utxo_z.Instance.{State, remove_file}
use utxo_z.Instance.Rules.{Ensures-remove_file, Ensures-checkpoint, Ensures-path_exists}
use utxo_z.Merge.{
  Policy, data_path, metadata_path, building_path, complete, plan_of, marker_of, generate_merge_id,
  merge_into, merge_versions, write_merge_sidecar, require_durable,
}
use utxo_z.Merge.View.{files, view, Merged, map_of, files-file_at}
use utxo_z.Merge.States.{
  Same, Same-refl, Same-unlink, Settled, Published, Recoverable, settled, published,
}
use utxo_z.Merge.Before.{Untouched, Built, build_ensures, discard_building}
use utxo_z.Merge.Naming.{
  Rec, Refused, Ready, Untouched-Rec, Untouched-Refused, write_merge_sidecar_ensures,
}
use utxo_z.Merge.After.{require_durable_ensures, publish_ensures}
use utxo_z.Merge.Closing.{
  confirm_target_ensures, adopt-dir, retire_ensures, Retired, Gone, Over, finish_ensures,
}

-- What a merge identity is.
abbrev IsIdentity : Marker → Type 0
IsIdentity id = IsWord id.high × IsWord id.low × (is_empty id ≡ false)

not_empty : (id : Marker) → is_empty id ≡ false → ¬ ((id.high ≡ 0) × (id.low ≡ 0))
unfolding is_empty
not_empty id h = ground arith

-- What a list of sources has to be for the merge record to hold it.
pub record IsMergeable (index target : ℕ) (sources : List ℕ) : Type 0 where
  pub index_word : IsWord index
  pub target_word : IsWord target
  pub source_words : All IsWord sources
  pub ascending : Ascending sources
  pub few : length sources ≤ 64

not_there : {Map : Type 0} (x : Option (Content Map)) → exists_in x ≡ false → x ≡ none
unfolding exists_in
not_there none h = refl
not_there (some c) h = cc h

module _ {K V : Type 0} ⦃key : Key K⦄ (F : FlatMap K V) (p : Policy K V) (f : K → Option V)
    (d₀ : Dir F.Map) (start : Settled F p.index f d₀) where
  abbrev R : State K F.Map → Type 0
  R = Rec F p f d₀ start

  abbrev X : ErrorCode → State K F.Map → Type 0
  X = Refused F p f d₀ start

  abbrev U : State K F.Map → Type 0
  U = Untouched F p d₀

  -- No sources are gone before the first is tried.
  none-Gone : (plan : Plan) (s : State K F.Map) → Gone F p f d₀ start plan [] s
  unfolding contains
  none-Gone plan s n h = cc h

  same-Retired :
      (plan : Plan) (b c : Bool) (w : World (State K F.Map))
      → Retired F p f d₀ start plan plan.sources [] b w.state
      → Retired F p f d₀ start plan plan.sources [] (b && c) w.state
  same-Retired plan true true w r = r
  same-Retired plan true false w (l, g, all) = (l, g, (λ h. cc h))
  same-Retired plan false c w r = r

  pub complete_ensures :
      (plan : Plan) (t : F.Map) (w : World (State K F.Map))
      → Merged F (view p.index d₀) plan.sources t
      → Ready F p f d₀ start plan t w.state
      → Ensures (λ _. Over F p f d₀ start plan) X R (complete F p plan w)
  unfolding complete
  complete_ensures plan t w all r =
      Ensures-and_then {Q = λ _ s. Published F p.index f plan s.dir} _
        (publish_ensures F p f d₀ start plan t all w r)
        (λ _ w₁ l₁.
          Ensures-and_then {Q = λ _ s. Published F p.index f plan s.dir} _
            (confirm_target_ensures F p f d₀ start plan w₁ l₁)
            (λ _ w₂ l₂.
              Ensures-and_then {Q = λ _ s. Published F p.index f plan s.dir} _
                (on_done (
                  subst (λ d. Published F p.index f plan d)
                    (sym (adopt-dir F p f d₀ start plan plan.target plan.sources w₂.state)) l₂))
                (λ _ w₃ l₃.
                  Ensures-and_then _
                    (retire_ensures F p f d₀ start plan plan.sources [] w₃ (λ n h. h) l₃
                      (none-Gone plan w₃.state))
                    (λ gone w₄ r₄.
                      Ensures-and_then
                        {Q = λ synced. Retired F p f d₀ start plan plan.sources [] (gone && synced)}
                        _
                        (Ensures-succeeds
                          {Q = λ synced.
                            Retired F p f d₀ start plan plan.sources [] (gone && synced)}
                          barrier w₄
                          (Ensures-barrier w₄ (same-Retired plan gone false w₄ r₄)
                            (published plan r₄.0) (same-Retired plan gone true w₄ r₄)))
                        (λ synced w₅ r₅.
                          finish_ensures F p f d₀ start plan (gone && synced) w₅ r₅)))))

  marker_of_ensures :
      (d : Option Marker) (w : World (State K F.Map))
      → U w.state
      → Ensures (λ id s. IsIdentity id × U s) (λ _. U) R (marker_of F p d w)
  unfolding marker_of
  marker_of_ensures none w u = on_failed u
  marker_of_ensures (some d) w u =
      elim (Bool-cases (is_empty (record { high = d.high % u64_mod; low = d.low % u64_mod }))) [
        | inl e ↦ rw e (on_failed u)
        | inr e ↦ rw e (on_done ((omega arith, omega arith, e), u))
      ]

  generate_merge_id_ensures :
      (w : World (State K F.Map))
      → U w.state
      → Ensures (λ id s. IsIdentity id × U s) (λ _. U) R (generate_merge_id F p w)
  unfolding generate_merge_id
  generate_merge_id_ensures w u =
      Ensures-and_then {Q = λ _. U} _ (Ensures-draw w (λ _. u))
        (λ d w₁ u₁. marker_of_ensures d w₁ u₁)

  -- The merge is over: nothing is recorded, the content is kept, and the sources are gone.
  abbrev pub Complete : List ℕ → State K F.Map → Type 0
  Complete sources s =
      Settled F p.index f s.dir
      × ((n : ℕ) → contains sources n ≡ true → files data_file p.index s.dir n ≡ none)

  module _ (target : ℕ) (sources : List ℕ) (many : 2 ≤ length sources)
      (fit : IsMergeable p.index target sources) where
    plan_for : Marker → Plan
    plan_for id = plan_of F p target id sources

    plan-Fits : (id : Marker) → IsIdentity id → Fits (plan_of F p target id sources)
    unfolding plan_of
    plan-Fits id (h, l, _) = record {
      container_word = fit.index_word;
      target_word = fit.target_word;
      high_word = h;
      low_word = l;
      source_words = fit.source_words;
      some_source = omega (arith, many);
      few_sources = fit.few;
    }

    plan_coherent :
        (id : Marker) (t : F.Map)
        → IsIdentity id
        → files data_file p.index d₀ target ≡ none
        → Merged F (view p.index d₀) sources t
        → IsCoherent (plan_of F p target id sources)
    unfolding plan_of
    plan_coherent id t (_, _, marked) free all = record {
      marked = not_empty id marked;
      apart = contains→ne sources target out;
      ascending = fit.ascending;
    }
      where
        out : contains sources target ≡ false
        out = elim (Bool-cases (contains sources target)) [
          | inl is ↦ absurd (all.there target is (ap map_of free))
          | inr not ↦ not
        ]

    remove_old_metadata :
        (w : World (State K F.Map))
        → U w.state
        → Ensures (λ _. U) (λ _. U) R (remove_file (metadata_path F p target) w)
    remove_old_metadata w u =
        Ensures-remove_file w (metadata_path F p target) u (Untouched-Rec F p f d₀ start w.state u)
          (Same-unlink p.index d₀ metadata_file target w.state.dir (refl, refl) u)

    discard :
        (w : World (State K F.Map))
        → U w.state
        → Ensures (λ _. U) (λ _. U) R (remove_file (building_path F p target) w)
    discard w u =
        Ensures-mono (λ _ _ h. h) (λ _ _ h. h) (λ s h. Untouched-Rec F p f d₀ start s h)
          (discard_building F p d₀ target w u)

    refuse :
        {A : Type 0} {Q : A → State K F.Map → Type 0} {r : Run (State K F.Map) A}
        → Ensures Q (λ _. U) R r
        → Ensures Q X R r
    refuse = Ensures-mono (λ _ _ h. h) (λ e s h. Untouched-Refused F p f d₀ start e s h) (λ _ h. h)

    -- Once the target is built.
    from_Built :
        (id : Marker) (t : F.Map) (w : World (State K F.Map))
        → IsIdentity id
        → files data_file p.index d₀ target ≡ none
        → Built F p d₀ target id t w.state
        → Merged F (view p.index d₀) sources t
        → Ensures
            (λ _. Complete sources)
            X
            R
            (and_then (unwound (remove_file (building_path F p target)) (barrier w)) (λ _. λ w₁.
              and_then
                (unwound
                  (remove_file (building_path F p target))
                  (write_merge_sidecar F p (plan_of F p target id sources) w₁))
                (λ durable. λ w₂.
                  and_then
                    (require_durable F p target durable w₂)
                    (λ _. complete F p (plan_of F p target id sources)))))
    unfolding plan_of
    from_Built id t w ok free b all =
        Ensures-and_then {Q = λ _. Built F p d₀ target id t} _
          (refuse (
            Ensures-on_failure {E = λ _. U} {F = λ _. U} (remove_file (building_path F p target))
              (Ensures-barrier w b.0 (Untouched-Rec F p f d₀ start w.state b.0) b)
              (λ e w' u. discard w' u)))
          (λ _ w₁ b₁.
            Ensures-and_then {Q = λ _. Ready F p f d₀ start (plan_of F p target id sources) t} _
              (refuse (
                Ensures-on_failure {E = λ _. U} {F = λ _. U}
                  (remove_file (building_path F p target))
                  (write_merge_sidecar_ensures F p f d₀ start (plan_of F p target id sources) t refl
                    (plan-Fits id ok) (plan_coherent id t ok free all) free w₁ b₁)
                  (λ e w' u. discard w' u)))
              (λ durable w₂ r₂.
                Ensures-and_then {Q = λ _. Ready F p f d₀ start (plan_of F p target id sources) t} _
                  (require_durable_ensures F p f d₀ start (plan_of F p target id sources) t durable
                    w₂ r₂)
                  (λ _ w₃ r₃. complete_ensures (plan_of F p target id sources) t w₃ all r₃)))

    pub merge_into_ensures :
        (taken : Bool) (w : World (State K F.Map))
        → (taken ≡ false → files data_file p.index d₀ target ≡ none)
        → U w.state
        → Ensures (λ _. Complete sources) X R (merge_into F p target sources taken w)
    unfolding merge_into
    merge_into_ensures true w free u =
        on_failed (Untouched-Refused F p f d₀ start identity_collision w.state u)
    merge_into_ensures false w free u =
        Ensures-and_then {Q = λ _. U} _ (refuse (remove_old_metadata w u)) (λ _ w₁ u₁.
          Ensures-and_then {Q = λ _. U} _
            (refuse (
              Ensures-checkpoint w₁ insufficient_space u₁ (Untouched-Rec F p f d₀ start w₁.state u₁)
                u₁))
            (λ _ w₂ u₂.
              Ensures-and_then {Q = λ id s. IsIdentity id × U s} _
                (refuse (generate_merge_id_ensures w₂ u₂))
                (λ id w₃ (ok, u₃).
                  Ensures-and_then
                    {Q = λ t s. Built F p d₀ target id t s × Merged F (view p.index d₀) sources t} _
                    (refuse (
                      Ensures-mono (λ _ _ h. h) (λ _ _ h. h)
                        (λ s h. Untouched-Rec F p f d₀ start s h)
                        (build_ensures F p d₀ target id sources w₃ u₃)))
                    (λ t w₄ (b, all). from_Built id t w₄ ok (free refl) b all))))

module _ {K V : Type 0} ⦃key : Key K⦄ (F : FlatMap K V) (p : Policy K V) (f : K → Option V) where
  -- From a directory that holds `f` with no merge recorded, where container, next version and at most
  -- sixty-four ascending sources are 64-bit words, and whichever calls fail or die: a merge that is
  -- done leaves `f` with no merge recorded and, if it had two sources or more, with all of them gone;
  -- one that fails leaves what recovery can read, and unless it latches the instance, no record at
  -- all; and if the process dies, the directory it leaves holds `f` in the way that recovery reads.
  pub merge_versions-safe :
      (sources : List ℕ) (w : World (State K F.Map))
      → (start : Settled F p.index f w.state.dir)
      → IsMergeable p.index (next_version w.state.catalog) sources
      → Ensures
          (λ _ s.
            Settled F p.index f s.dir
            × (2 ≤ length sources
                → (n : ℕ) → contains sources n ≡ true
                → files data_file p.index s.dir n ≡ none))
          (λ _ s.
            Recoverable F p.index f s.dir × (s.cleanup_pending ≡ false → Settled F p.index f s.dir))
          (λ s. Recoverable F p.index f s.dir)
          (merge_versions F p sources w)
  unfolding merge_versions and_then
  merge_versions-safe sources w start fit = elim (Bool-cases (ltb (length sources) 2)) [
    | inl few ↦
        rw few
          (on_done (start, (λ many. absurd (omega (arith, ltb→lt (length sources) 2 few, many)))))
    | inr many ↦ rw many (
        Ensures-and_then
          {Q = λ b s.
            (b ≡ exists_in (file_at (data_path F p (next_version w.state.catalog)) w.state.dir))
            × (s ≡ w.state)}
          _ (Ensures-path_exists w _ (settled start, (λ _. start)) (settled start) (refl, refl))
          (λ b w₁ (e, same). merged b w₁ e same (ground arith)))
  ]
    where
      merged :
          (b : Bool) (w₁ : World (State K F.Map))
          → b ≡ exists_in (file_at (data_path F p (next_version w.state.catalog)) w.state.dir)
          → w₁.state ≡ w.state
          → 2 ≤ length sources
          → Ensures
              (λ _ s.
                Settled F p.index f s.dir
                × (2 ≤ length sources
                    → (n : ℕ) → contains sources n ≡ true
                    → files data_file p.index s.dir n ≡ none))
              (λ _ s.
                Recoverable F p.index f s.dir
                × (s.cleanup_pending ≡ false → Settled F p.index f s.dir))
              (λ s. Recoverable F p.index f s.dir)
              (merge_into F p (next_version w.state.catalog) sources b w₁)
      merged b w₁ e same many =
          Ensures-mono (λ _ s (q, g). (q, (λ _. g))) (λ _ s h. h) (λ s h. h)
            (merge_into_ensures F p f w.state.dir start (next_version w.state.catalog) sources many
              fit b w₁
              (λ h. files-file_at data_file p.index _ w.state.dir ∙ not_there _ (sym e ∙ h))
              (subst (λ s. Same p.index w.state.dir s.dir) (sym same)
                (Same-refl p.index w.state.dir)))
