-- ===== src/Merge/Closing.antt =====
-- The end of a merge: the target is confirmed, the sources are retired, and the record goes last.
use utxo_z.Common.{
  ℕ, ◌≡◌, refl, ◌∙◌, ap, Bool, true, false, ◌&&◌, List, [], ◌∷◌, Option, none, ◌==◌, ==_refl,
  ==_iff, Bool-cases, inl, inr, arith,
}
use utxo_z.Sidecar.{Marker, Plan, contains}
use utxo_z.Errors.{ErrorCode, recovery_required, recovery_failed, metadata_write_failed}
use utxo_z.FlatMap.{Key, FlatMap}
use utxo_z.Catalog.{set_metadata}
use utxo_z.Dir.{Dir, data_file, metadata_file, sidecar_file, Content, raw, name, unlink, write}
use utxo_z.Io.{World, Attempt, ok, err, barrier, and_then, pure, modify, syscall}
use utxo_z.Io.Rules.{
  Ensures, on_done, Ensures-and_then, Ensures-ignore, Ensures-barrier, Ensures-attempt,
  Ensures-succeeds, Ensures-if, Either,
}
use utxo_z.Instance.{State, on_dir, remove_file}
use utxo_z.Instance.Rules.{
  Ensures-remove_file, Ensures-modify, Ensures-read_target_marker, Ensures-open_map,
}
use utxo_z.Merge.{
  Policy, data_path, sidecar_path, metadata_path, refuse_after_latch, or_latch, verified,
  confirm_target, same_marker, forget, adopt, retire, summary, summarise, finish,
}
use utxo_z.Merge.View.{files, files-unlink, files-unlink_self}
use utxo_z.Merge.States.{
  Same, Same-refl, Same-unlink, Same-write, Settled, Published, settled, published,
}
use utxo_z.Merge.Steps.{Settled-Same, Published-Same, retire_step, conclude_step}
use utxo_z.Merge.After.{R, X, latched}

module _ {K V : Type 0} ⦃key : Key K⦄ (F : FlatMap K V) (p : Policy K V) (f : K → Option V)
    (d₀ : Dir F.Map) (start : Settled F p.index f d₀) (plan : Plan) where
  abbrev Live : State K F.Map → Type 0
  Live s = Published F p.index f plan s.dir

  abbrev R' : State K F.Map → Type 0
  R' = R F p f d₀ start

  abbrev X' : ErrorCode → State K F.Map → Type 0
  X' = X F p f d₀ start

  Live-rec : (s : State K F.Map) → Live s → R' s
  Live-rec s l = published plan l

  or_latch_ensures :
      {A : Type 0} {Q : A → State K F.Map → Type 0} {P : ErrorCode → State K F.Map → Type 0}
      (e : ErrorCode) (a : Attempt A) (w : World (State K F.Map))
      → ((e' : ErrorCode) (s : State K F.Map) → P e' s → R' s)
      → Either Q P a w.state
      → Ensures Q X' R' (or_latch F p e a w)
  unfolding or_latch
  or_latch_ensures e (ok a) w k q = on_done q
  or_latch_ensures e (err e') w k q = latched F p f d₀ start e w (k e' w.state q)

  verified_ensures :
      (a : Attempt Marker) (w : World (State K F.Map))
      → Either (λ _. Live) (λ _. Live) a w.state
      → Ensures (λ _. Live) X' R' (verified F p plan.id a w)
  unfolding verified
  verified_ensures (err e) w l = latched F p f d₀ start recovery_failed w (published plan l)
  verified_ensures (ok found) w l =
      Ensures-if (same_marker found plan.id) (pure tt) (refuse_after_latch F p recovery_failed) w
        (λ _. on_done l) (λ _. latched F p f d₀ start recovery_failed w (published plan l))

  pub confirm_target_ensures :
      (w : World (State K F.Map))
      → Live w.state
      → Ensures (λ _. Live) X' R' (confirm_target F p plan w)
  unfolding confirm_target
  confirm_target_ensures w l =
      Ensures-and_then _
        (Ensures-attempt {Q = λ _. Live} {E = λ _. Live} (Ensures-barrier w l (published plan l) l))
        (λ a w₁ q₁.
          Ensures-and_then _ (or_latch_ensures recovery_required a w₁ (λ _. Live-rec) q₁)
            (λ _ w₂ q₂.
              Ensures-and_then _
                (Ensures-attempt {Q = λ _. Live} {E = λ _. Live} (
                  Ensures-read_target_marker w₂ (data_path F p plan.target) q₂ (published plan q₂)
                    (λ _ _ _. q₂)))
                (λ a' w₃ q₃. verified_ensures a' w₃ q₃)))

  -- The catalogue is adopted in memory alone.
  forget-dir : (vs : List ℕ) (s : State K F.Map) → (forget F p vs s).dir ≡ s.dir
  unfolding forget
  forget-dir [] s = refl
  forget-dir (v ∷ vs) s = forget-dir vs _

  pub adopt-dir : (v : ℕ) (vs : List ℕ) (s : State K F.Map) → (adopt F p v vs s).dir ≡ s.dir
  unfolding adopt
  adopt-dir v vs s = forget-dir vs _

  abbrev pub Gone : List ℕ → State K F.Map → Type 0
  Gone vs s = (n : ℕ) → contains vs n ≡ true → files data_file p.index s.dir n ≡ none

  drop_metadata_file :
      (v : ℕ) (P : State K F.Map → Type 0) (w : World (State K F.Map))
      → ((d' : Dir F.Map) → Same p.index w.state.dir d' → P (record w.state { dir = d' }))
      → (P w.state → R' w.state)
      → P w.state
      → Ensures (λ _. P) (λ _. P) R' (remove_file (metadata_path F p v) w)
  drop_metadata_file v P w keep rec h = Ensures-remove_file w (metadata_path F p v) h (rec h) (
      keep _ (
        Same-unlink p.index w.state.dir metadata_file v w.state.dir (refl, refl)
          (Same-refl p.index w.state.dir)))

  -- After one source is tried: it is gone if that succeeded, and what was gone still is.
  abbrev Tried : List ℕ → ℕ → Bool → State K F.Map → Type 0
  Tried before v b s = Live s × Gone before s × (b ≡ true → files data_file p.index s.dir v ≡ none)

  unlink_keeps :
      (v n : ℕ) (d : Dir F.Map)
      → files data_file p.index d n ≡ none
      → files data_file p.index (unlink (name data_file p.index v) d) n ≡ none
  unlink_keeps v n d h = elim (Bool-cases (v == n)) [
    | inl e ↦ rw (files-unlink_self data_file p.index v d n, e)
    | inr e ↦ rw (files-unlink_self data_file p.index v d n, e) h
  ]

  try_source :
      (before : List ℕ) (v : ℕ) (w : World (State K F.Map))
      → contains plan.sources v ≡ true
      → Live w.state
      → Gone before w.state
      → Ensures
          (λ _. Tried before v true)
          (λ _. Tried before v false)
          R'
          (remove_file (data_path F p v) w)
  try_source before v w is l g =
      Ensures-remove_file w (data_path F p v) (l, g, (λ h. cc h)) (published plan l)
        (
          retire_step F p.index f plan v w.state.dir is l,
          (λ n h. unlink_keeps v n w.state.dir (g n h)),
          (λ _. rw (files-unlink_self data_file p.index v w.state.dir v, ==_refl v)),
        )

  same_tried :
      (before : List ℕ) (v : ℕ) (b : Bool) (s : State K F.Map) (d' : Dir F.Map)
      → Same p.index s.dir d'
      → Tried before v b s
      → Tried before v b (record s { dir = d' })
  same_tried before v b s d' same (l, g, h) = (
    Published-Same F p.index f s.dir d' same plan l,
    (λ n is. ap (λ (x : ℕ → Option (Content F.Map)). x n) same.data_same ∙ g n is),
    (λ e. ap (λ (x : ℕ → Option (Content F.Map)). x v) same.data_same ∙ h e),
  )

  Gone-more :
      (before : List ℕ) (v : ℕ) (s : State K F.Map)
      → Gone before s
      → files data_file p.index s.dir v ≡ none
      → Gone (v ∷ before) s
  unfolding contains
  Gone-more before v s g h n is = elim (Bool-cases (v == n)) [
    | inl e ↦ rw (← (==_iff v n).0 e) h
    | inr e ↦ g n (rw e at is)
  ]

  -- The answer of `retire` is true only if every source is gone.
  abbrev pub Retired : List ℕ → List ℕ → Bool → State K F.Map → Type 0
  Retired vs before b s =
      Live s
      × Gone before s
      × (b ≡ true → (n : ℕ) → contains vs n ≡ true → files data_file p.index s.dir n ≡ none)

  Retired-next :
      (v : ℕ) (vs before : List ℕ) (a b rest : Bool) (s : State K F.Map)
      → (a ≡ true → Retired vs (v ∷ before) rest s)
      → (a ≡ false → Retired vs before rest s)
      → Retired (v ∷ vs) before (a && (b && rest)) s
  unfolding contains
  Retired-next v vs before true b rest s h k =
      let (l, g, all) = h refl in
      (
        l,
        (λ n is. g n (ground arith)),
        (λ e n is. elim (Bool-cases (v == n)) [
          | inl hit ↦ g n (rw hit)
          | inr miss ↦ all (ground arith) n (rw miss at is)
        ]),
      )
  Retired-next v vs before false b rest s h k = let (l, g, all) = k refl in (l, g, (λ e. cc e))

  pub retire_ensures :
      (vs before : List ℕ) (w : World (State K F.Map))
      → ((n : ℕ) → contains vs n ≡ true → contains plan.sources n ≡ true)
      → Live w.state
      → Gone before w.state
      → Ensures (Retired vs before) X' R' (retire F p vs w)
  unfolding retire contains
  retire_ensures [] before w sub l g = on_done (l, g, (λ e n is. cc is))
  retire_ensures (v ∷ vs) before w sub l g =
      Ensures-and_then {Q = Tried before v} _
        (Ensures-succeeds {Q = Tried before v} (remove_file (data_path F p v)) w
          (try_source before v w (sub v (ground (arith, ==_refl v))) l g))
        (λ a w₁ t₁.
          Ensures-and_then {Q = λ _. Tried before v a} _
            (Ensures-succeeds {Q = λ _. Tried before v a} (remove_file (metadata_path F p v)) w₁ (
              drop_metadata_file v (Tried before v a) w₁
                (λ d' same. same_tried before v a w₁.state d' same t₁) (λ t. published plan t.0)
                t₁))
            (λ b w₂ t₂. rest a b w₂ t₂ (λ before' w' l' g'.
              retire_ensures vs before' w' (λ n is. sub n (ground (arith, is))) l' g')))
    where
      rest :
          (a b : Bool) (w₂ : World (State K F.Map))
          → Tried before v a w₂.state
          → ((before' : List ℕ) (w' : World (State K F.Map))
              → Live w'.state
              → Gone before' w'.state
              → Ensures (Retired vs before') X' R' (retire F p vs w'))
          → Ensures
              (Retired (v ∷ vs) before)
              X'
              R'
              (and_then (retire F p vs w₂) (λ r. pure (a && (b && r))))
      rest true b w₂ (l', g', h') again =
          Ensures-and_then {Q = Retired vs (v ∷ before)} _
            (again (v ∷ before) w₂ l' (Gone-more before v w₂.state g' (h' refl)))
            (λ r w₃ q. on_done (Retired-next v vs before true b r w₃.state (λ _. q) (λ e. cc e)))
      rest false b w₂ (l', g', _) again =
          Ensures-and_then {Q = Retired vs before} _ (again before w₂ l' g')
            (λ r w₃ q. on_done (Retired-next v vs before false b r w₃.state (λ e. cc e) (λ _. q)))

  -- The merge is over: no record, and the sources are gone.
  abbrev pub Over : State K F.Map → Type 0
  Over s = Settled F p.index f s.dir × Gone plan.sources s

  Over-Same :
      (s : State K F.Map) (d' : Dir F.Map)
      → Same p.index s.dir d'
      → Over s
      → Settled F p.index f d'
        × ((n : ℕ) → contains plan.sources n ≡ true → files data_file p.index d' n ≡ none)
  Over-Same s d' same (q, g) = (
    Settled-Same F p.index f s.dir d' same q,
    (λ n is. ap (λ (x : ℕ → Option (Content F.Map)). x n) same.data_same ∙ g n is),
  )

  summarise_ensures :
      (w : World (State K F.Map))
      → Over w.state
      → Ensures (λ _. Over) X' R' (summarise F p plan.target w)
  unfolding summarise and_then
  summarise_ensures w o =
      Ensures-and_then _
        (Ensures-attempt {Q = λ _. Over} {E = λ _. Over}
          (Ensures-open_map w (data_path F p plan.target) o (settled o.0) (λ _ _. o)))
        (λ m w₁ q.
          Ensures-ignore {P = Over}
            (syscall metadata_write_failed (
              modify (
                on_dir (
                  write (metadata_path F p plan.target)
                    (raw (p.render (summary F p plan.target m)))))))
            (record w₁ {
              state = record w₁.state {
                catalog = set_metadata w₁.state.catalog plan.target (summary F p plan.target m);
              };
            })
            (written m w₁ (either m w₁ q)))
    where
      either :
          (m : Attempt F.Map) (w₁ : World (State K F.Map))
          → Either (λ _. Over) (λ _. Over) m w₁.state
          → Over w₁.state
      either (ok m) w₁ q = q
      either (err e) w₁ q = q

      written :
          (m : Attempt F.Map) (w₁ : World (State K F.Map))
          → Over w₁.state
          → Ensures
              (λ _. Over)
              (λ _. Over)
              R'
              (syscall metadata_write_failed
                (modify (
                  on_dir (
                    write
                      (metadata_path F p plan.target)
                      (raw (p.render (summary F p plan.target m))))))
                (record w₁ {
                  state = record w₁.state {
                    catalog = set_metadata w₁.state.catalog plan.target (summary F p plan.target m);
                  };
                }))
      written m w₁ q =
          Ensures-modify _
            (on_dir
              (write (metadata_path F p plan.target) (raw (p.render (summary F p plan.target m)))))
            metadata_write_failed q (settled q.0)
            (Over-Same w₁.state _
              (Same-write p.index w₁.state.dir metadata_file plan.target _ w₁.state.dir (refl, refl)
                (Same-refl p.index w₁.state.dir))
              q)

  pub finish_ensures :
      (b : Bool) (w : World (State K F.Map))
      → Retired plan.sources [] b w.state
      → Ensures (λ _. Over) X' R' (finish F p plan.target b w)
  unfolding finish
  finish_ensures false w (l, _, _) = latched F p f d₀ start recovery_required w (published plan l)
  finish_ensures true w (l, _, all) =
      Ensures-and_then _
        (Ensures-attempt {Q = λ _. Over} {E = λ _. Live} (
          Ensures-remove_file w (sidecar_path F p plan.target) l (published plan l) (
            conclude_step F p.index f plan w.state.dir l (all refl),
            (λ n is.
                ap (λ (x : ℕ → Option (Content F.Map)). x n)
                  (files-unlink data_file sidecar_file p.index plan.target w.state.dir refl)
                ∙ all refl n is),
          )))
        (λ a w₁ q₁.
          Ensures-and_then {Q = λ _. Over} _
            (or_latch_ensures recovery_required a w₁ (λ _. Live-rec) q₁)
            (λ _ w₂ q₂.
              Ensures-and_then {Q = λ _. Over} _
                (Ensures-ignore {P = Over} barrier w₂ (Ensures-barrier w₂ q₂ (settled q₂.0) q₂))
                (λ _ w₃ q₃. summarise_ensures w₃ q₃)))
