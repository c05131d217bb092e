-- ===== src/Recovery/Steps.antt =====
-- Each part of recovering one container: what it keeps if it fails or dies, and what it achieves.
use utxo_z.Common.{
  ℕ, ◌≡◌, refl, sym, ◌∙◌, ap, true, false, List, [], ◌∷◌, Option, none, ◌==◌, ==_refl, Bool-cases,
  inl, inr, arith,
}
use utxo_z.Sidecar.{Plan, contains}
use utxo_z.Errors.{recovery_failed}
use utxo_z.Merge.{same_marker}
use utxo_z.FlatMap.{Key, FlatMap}
use utxo_z.Dir.{
  Dir, Kind, data_file, metadata_file, building_file, sidecar_file, Content, name, unlink,
  exists_in, file_at,
}
use utxo_z.Io.{World, fail}
use utxo_z.Io.Rules.{
  Ensures, on_done, on_failed, Ensures-and_then, Ensures-barrier, Ensures-if, Ensures-mono,
}
use mathlib.Core.Path.{subst, fun_ext}
use utxo_z.Instance.{State}
use utxo_z.Instance.Rules.{Ensures-remove_file, Ensures-path_exists, Ensures-read_target_marker}
use utxo_z.Merge.View.{files, files-unlink, files-unlink_self, files-unlink_other, files-file_at}
use utxo_z.Merge.States.{
  Same, Same-refl, Same-unlink, Settled, Pending, Published, Recoverable, settled, pending,
  published,
}
use utxo_z.Merge.Steps.{
  Settled-Same, Pending-Same, Published-Same, retire_step, abandon_step, conclude_step,
}
use utxo_z.Recovery.{
  retire_all, abandon, conclude_verified, conclude, recover_published, recover_one,
}

-- Every file of the other containers, of whatever kind, is as it was.
abbrev pub Apart : {Map : Type 0} → ℕ → Dir Map → Dir Map → Type 0
Apart c d₀ d =
    (kind : Kind) (c' n : ℕ)
    → (c == c') ≡ false
    → file_at (name kind c' n) d ≡ file_at (name kind c' n) d₀

pub Apart-refl : {Map : Type 0} (c : ℕ) (d : Dir Map) → Apart c d d
Apart-refl c d kind c' n ne = refl

pub Apart-Same :
    {Map : Type 0} (c c' : ℕ) (d₀ d : Dir Map) → (c == c') ≡ false → Apart c d₀ d → Same c' d₀ d
Apart-Same c c' d₀ d ne a = record { data_same = all data_file; side_same = all sidecar_file }
  where
    all : (kind : Kind) → files kind c' d ≡ files kind c' d₀
    all kind =
        fun_ext (λ n. files-file_at kind c' n d ∙ a kind c' n ne ∙ sym (files-file_at kind c' n d₀))

pub Apart-unlink :
    {Map : Type 0} (c : ℕ) (k : Kind) (v : ℕ) (d₀ d : Dir Map)
    → Apart c d₀ d
    → Apart c d₀ (unlink (name k c v) d)
Apart-unlink c k v d₀ d a kind c' n ne =
    sym (files-file_at kind c' n (unlink (name k c v) d))
    ∙ ap (λ g. g n) (files-unlink_other kind k c c' v d ne)
    ∙ files-file_at kind c' n d
    ∙ a kind c' n ne

module _ {K V : Type 0} ⦃key : Key K⦄ (F : FlatMap K V) (f : K → Option V) (d₀ : Dir F.Map) where
  abbrev pub Rec : ℕ → State K F.Map → Type 0
  Rec c s = Recoverable F c f s.dir × Apart c d₀ s.dir

  -- Nothing is recorded any more.
  abbrev pub Over : ℕ → State K F.Map → Type 0
  Over c s = Settled F c f s.dir × Apart c d₀ s.dir

  module _ (plan : Plan) where
    abbrev c : ℕ
    c = plan.container

    abbrev R : State K F.Map → Type 0
    R = Rec c

    abbrev Live : State K F.Map → Type 0
    Live s = Published F c f plan s.dir × Apart c d₀ s.dir

    Live-rec : (s : State K F.Map) → Live s → R s
    Live-rec s (l, a) = (published plan l, a)

    abbrev Gone : List ℕ → State K F.Map → Type 0
    Gone vs s = (n : ℕ) → contains vs n ≡ true → files data_file c s.dir n ≡ none

    abandon_ensures :
        (w : World (State K F.Map))
        → Pending F c f plan w.state.dir
        → Apart c d₀ w.state.dir
        → Ensures (λ _. Over c) (λ _. R) R (abandon plan w)
    unfolding abandon
    abandon_ensures w q a =
        Ensures-and_then {Q = λ _ s. Pending F c f plan s.dir × Apart c d₀ s.dir} _
          (Ensures-remove_file w (name building_file c plan.target) (pending plan q, a)
            (pending plan q, a)
            (
              Pending-Same F c f w.state.dir _
                  (Same-unlink c w.state.dir building_file plan.target w.state.dir (refl, refl)
                    (Same-refl c w.state.dir))
                  plan q,
              Apart-unlink c building_file plan.target d₀ w.state.dir a,
            ))
          (λ _ w₁ (q₁, a₁).
            Ensures-and_then {Q = λ _. Over c} _
              (Ensures-remove_file w₁ (name sidecar_file c plan.target) (pending plan q₁, a₁)
                (pending plan q₁, a₁)
                (
                  abandon_step F c f plan w₁.state.dir q₁,
                  Apart-unlink c sidecar_file plan.target d₀ w₁.state.dir a₁,
                ))
              (λ _ w₂ (q₂, a₂). Ensures-barrier w₂ (settled q₂, a₂) (settled q₂, a₂) (q₂, a₂)))

    unlink_gone :
        (v n : ℕ) (d : Dir F.Map)
        → files data_file c d n ≡ none
        → files data_file c (unlink (name data_file c v) d) n ≡ none
    unlink_gone v n d h = elim (Bool-cases (v == n)) [
      | inl e ↦ rw (files-unlink_self data_file c v d n, e)
      | inr e ↦ rw (files-unlink_self data_file c v d n, e) h
    ]

    Gone-more :
        (before : List ℕ) (v : ℕ) (d : Dir F.Map)
        → ((n : ℕ) → contains before n ≡ true → files data_file c d n ≡ none)
        → (n : ℕ) → contains (v ∷ before) n ≡ true
        → files data_file c (unlink (name data_file c v) d) n ≡ none
    unfolding contains
    Gone-more before v d g n is = elim (Bool-cases (v == n)) [
      | inl e ↦ rw (files-unlink_self data_file c v d n, e)
      | inr e ↦ unlink_gone v n d (g n (rw e at is))
    ]

    Gone-both :
        (v : ℕ) (before vs : List ℕ) (s : State K F.Map)
        → Gone (v ∷ before) s
        → Gone vs s
        → Gone before s × Gone (v ∷ vs) s
    unfolding contains
    Gone-both v before vs s g h = (
      (λ n is. g n (ground (arith, is))),
      (λ n is. elim (Bool-cases (v == n)) [ inl e ↦ g n (rw e) | inr e ↦ h n (rw e at is) ]),
    )

    pub retire_all_ensures :
        (vs before : List ℕ) (w : World (State K F.Map))
        → ((n : ℕ) → contains vs n ≡ true → contains plan.sources n ≡ true)
        → Live w.state
        → Gone before w.state
        → Ensures (λ _ s. Live s × Gone before s × Gone vs s) (λ _. R) R (retire_all plan vs w)
    unfolding retire_all contains
    retire_all_ensures [] before w sub l g = on_done (l, g, (λ n is. cc is))
    retire_all_ensures (v ∷ vs) before w sub l g =
        Ensures-if (v == plan.target) _ _ w (λ _. on_failed (Live-rec w.state l))
          (λ _.
            Ensures-and_then {Q = λ _ s. Live s × Gone (v ∷ before) s} _
              (Ensures-remove_file w (name data_file c v) (Live-rec w.state l) (Live-rec w.state l)
                (
                  (
                    retire_step F c f plan v w.state.dir (sub v (ground (arith, ==_refl v))) l.0,
                    Apart-unlink c data_file v d₀ w.state.dir l.1,
                  ),
                  Gone-more before v w.state.dir g,
                ))
              (λ _ w₁ (l₁, g₁).
                Ensures-and_then {Q = λ _ s. Live s × Gone (v ∷ before) s} _
                  (Ensures-remove_file w₁ (name metadata_file c v) (Live-rec w₁.state l₁)
                    (Live-rec w₁.state l₁)
                    (
                      (
                        Published-Same F c f w₁.state.dir _
                            (Same-unlink c w₁.state.dir metadata_file v w₁.state.dir (refl, refl)
                              (Same-refl c w₁.state.dir))
                            plan l₁.0,
                        Apart-unlink c metadata_file v d₀ w₁.state.dir l₁.1,
                      ),
                      (λ n is.
                          ap (λ (x : ℕ → Option (Content F.Map)). x n)
                            (files-unlink data_file metadata_file c v w₁.state.dir refl)
                          ∙ g₁ n is),
                    ))
                  (λ _ w₂ (l₂, g₂). weaken w₂ (
                    retire_all_ensures vs (v ∷ before) w₂ (λ n is. sub n (ground (arith, is))) l₂
                      g₂))))
      where
        weaken :
            (w₂ : World (State K F.Map))
            → Ensures
                (λ _ s. Live s × Gone (v ∷ before) s × Gone vs s)
                (λ _. R)
                R
                (retire_all plan vs w₂)
            → Ensures
                (λ _ s. Live s × Gone before s × Gone (v ∷ vs) s)
                (λ _. R)
                R
                (retire_all plan vs w₂)
        weaken w₂ =
            Ensures-mono
              (λ _ s (l', g', h'). let both = Gone-both v before vs s g' h' in (l', both.0, both.1))
              (λ _ _ h. h) (λ _ h. h)

    conclude_verified_ensures :
        (w : World (State K F.Map))
        → Live w.state
        → Ensures (λ _. Over c) (λ _. R) R (conclude_verified plan w)
    unfolding conclude_verified contains
    conclude_verified_ensures w l =
        Ensures-and_then {Q = λ _ s. Live s × Gone [] s × Gone plan.sources s} _
          (retire_all_ensures plan.sources [] w (λ n h. h) l (nothing w.state))
          (λ _ w₁ (l₁, g₁, h₁).
            Ensures-and_then {Q = λ _ s. Live s × Gone [] s × Gone plan.sources s} _
              (Ensures-barrier w₁ (Live-rec w₁.state l₁) (Live-rec w₁.state l₁) (l₁, g₁, h₁))
              (λ _ w₂ (l₂, _, all).
                Ensures-and_then {Q = λ _. Over c} _
                  (Ensures-remove_file w₂ (name sidecar_file c plan.target) (Live-rec w₂.state l₂)
                    (Live-rec w₂.state l₂)
                    (
                      conclude_step F c f plan w₂.state.dir l₂.0 all,
                      Apart-unlink c sidecar_file plan.target d₀ w₂.state.dir l₂.1,
                    ))
                  (λ _ w₃ (q₃, a₃).
                    Ensures-and_then {Q = λ _. Over c} _
                      (Ensures-remove_file w₃ (name building_file c plan.target) (settled q₃, a₃)
                        (settled q₃, a₃)
                        (
                          Settled-Same F c f w₃.state.dir _
                              (Same-unlink c w₃.state.dir building_file plan.target w₃.state.dir
                                (refl, refl) (Same-refl c w₃.state.dir))
                              q₃,
                          Apart-unlink c building_file plan.target d₀ w₃.state.dir a₃,
                        ))
                      (λ _ w₄ (q₄, a₄).
                        Ensures-barrier w₄ (settled q₄, a₄) (settled q₄, a₄) (q₄, a₄)))))
      where
        nothing : (s : State K F.Map) → Gone [] s
        nothing s n h = cc h

    -- A published merge is concluded, and one that was not is abandoned.
    published_ensures :
        (w : World (State K F.Map))
        → Live w.state
        → Ensures (λ _. Over c) (λ _. R) R (recover_one plan w)
    unfolding recover_one recover_published conclude exists_in
    published_ensures w l =
        Ensures-and_then {Q = λ b s. (b ≡ true) × Live s} _
          (Ensures-path_exists w (name data_file c plan.target) (Live-rec w.state l)
            (Live-rec w.state l) (found, l))
          (λ b w₁ (e, l₁). rw e (
            Ensures-and_then {Q = λ _. Live} _
              (Ensures-read_target_marker w₁ (name data_file c plan.target) (Live-rec w₁.state l₁)
                (Live-rec w₁.state l₁) (λ _ _ _. l₁))
              (λ id w₂ l₂.
                Ensures-if (same_marker id plan.id) (conclude_verified plan) (fail recovery_failed)
                  w₂ (λ _. conclude_verified_ensures w₂ l₂)
                  (λ _. on_failed (Live-rec w₂.state l₂)))))
      where
        found : exists_in (file_at (name data_file c plan.target) w.state.dir) ≡ true
        found = rw (← files-file_at data_file c plan.target w.state.dir, l.0.built)

    Pending-ensures :
        (w : World (State K F.Map))
        → Pending F c f plan w.state.dir
        → Apart c d₀ w.state.dir
        → Ensures (λ _. Over c) (λ _. R) R (recover_one plan w)
    unfolding recover_one recover_published exists_in
    Pending-ensures w q a =
        Ensures-and_then {Q = λ b s. (b ≡ false) × Pending F c f plan s.dir × Apart c d₀ s.dir} _
          (Ensures-path_exists w (name data_file c plan.target) (pending plan q, a)
            (pending plan q, a) (missing, q, a))
          (λ b w₁ (e, q₁, a₁). rw e (abandon_ensures w₁ q₁ a₁))
      where
        missing : exists_in (file_at (name data_file c plan.target) w.state.dir) ≡ false
        missing = rw (← files-file_at data_file c plan.target w.state.dir, q.free)

  pub recover-Published_ensures :
      (c : ℕ) (plan : Plan) (w : World (State K F.Map))
      → plan.container ≡ c
      → Published F c f plan w.state.dir
      → Apart c d₀ w.state.dir
      → Ensures (λ _. Over c) (λ _. Rec c) (Rec c) (recover_one plan w)
  recover-Published_ensures c plan w here l a =
      subst
        (λ c.
          Published F c f plan w.state.dir
          → Apart c d₀ w.state.dir
          → Ensures (λ _. Over c) (λ _. Rec c) (Rec c) (recover_one plan w))
        here (λ l a. published_ensures plan w (l, a)) l a

  pub recover-Pending_ensures :
      (c : ℕ) (plan : Plan) (w : World (State K F.Map))
      → plan.container ≡ c
      → Pending F c f plan w.state.dir
      → Apart c d₀ w.state.dir
      → Ensures (λ _. Over c) (λ _. Rec c) (Rec c) (recover_one plan w)
  recover-Pending_ensures c plan w here q a =
      subst
        (λ c.
          Pending F c f plan w.state.dir
          → Apart c d₀ w.state.dir
          → Ensures (λ _. Over c) (λ _. Rec c) (Rec c) (recover_one plan w))
        here (λ q a. Pending-ensures plan w q a) q a
