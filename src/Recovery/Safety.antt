-- ===== src/Recovery/Safety.antt =====
-- Recovery of one container, under failures and crashes.
use utxo_z.Common.{
  ℕ, ◌≡◌, refl, sym, ◌∙◌, ap, Bool, true, false, List, [], ◌∷◌, Option, none, some, if◌then◌else◌,
  ◌==◌, ==_refl, ==_iff, Bool-cases, inl, inr,
}
use utxo_z.Sidecar.{Plan, contains, encode_merge_plan}
use utxo_z.Sidecar.RoundTrip.{decode-encode, length-encode_merge_plan}
use utxo_z.Errors.{ErrorCode, recovery_failed, catalog_unreadable}
use utxo_z.FlatMap.{Key, FlatMap}
use utxo_z.Dir.{
  Dir, Kind, building_file, sidecar_file, sidecar_temp, Content, raw, name, unlink, exists_in,
  file_at, sort, unique, collect,
}
use utxo_z.Dir.Listing.{contains-collect, contains-listed, listed_one, listed_none}
use utxo_z.Io.{World, and_then}
use utxo_z.Io.Rules.{Ensures, on_done, Ensures-and_then, Ensures-syscall, Ensures-mono}
use utxo_z.Instance.{State, on_dir}
use utxo_z.Instance.Rules.{Ensures-remove_file}
use utxo_z.Merge.View.{files, files-file_at, files-unlink, files-unlink_self}
use utxo_z.Merge.States.{
  Same-refl, Same-unlink, IsPrivate, Settled, Recorded, Pending, Published, settled, pending,
  published,
}
use utxo_z.Merge.Steps.{Settled-Same}
use utxo_z.Recovery.{
  spells, of_decoded, reading_of, enumerate_versions, recover_one, recover_read, recover_record,
  recover_listed, remove_each, sweep, recover_scope,
}
use utxo_z.Recovery.Steps.{
  Apart, Apart-unlink, Rec, Over, recover-Published_ensures, recover-Pending_ensures,
}

Ensures-enumerate :
    {K Map : Type 0} {Q : List ℕ → State K Map → Type 0} {E : ErrorCode → State K Map → Type 0}
    {I : State K Map → Type 0} (w : World (State K Map)) (k : Kind) (c : ℕ)
    → E catalog_unreadable w.state
    → I w.state
    → Q (unique (sort (collect k c w.state.dir))) w.state
    → Ensures Q E I (enumerate_versions k c w)
unfolding enumerate_versions and_then
Ensures-enumerate w k c he hi h = Ensures-syscall catalog_unreadable _ w he hi (λ us. on_done h)

module _ {K V : Type 0} ⦃key : Key K⦄ (F : FlatMap K V) (f : K → Option V) (c : ℕ) where
  pub Recorded-listed :
      (plan : Plan) (d : Dir F.Map)
      → Recorded F c f plan d
      → unique (sort (collect sidecar_file c d)) ≡ plan.target ∷ []
  unfolding exists_in
  Recorded-listed plan d r = listed_one plan.target (collect sidecar_file c d) (λ n.
      contains-collect sidecar_file c n d
      ∙ ap exists_in (sym (files-file_at sidecar_file c n d) ∙ r.only n)
      ∙ there (plan.target == n))
    where
      there :
          (b : Bool)
          → exists_in {Map = F.Map} (if b then some (raw (encode_merge_plan plan)) else none) ≡ b
      there true = refl
      there false = refl

  pub Settled-listed :
      (d : Dir F.Map) → Settled F c f d → unique (sort (collect sidecar_file c d)) ≡ []
  unfolding exists_in
  Settled-listed d s = listed_none (collect sidecar_file c d) (λ n.
      contains-collect sidecar_file c n d
      ∙ ap exists_in (sym (files-file_at sidecar_file c n d) ∙ s.clear n))

  pub Recorded-reading :
      (plan : Plan) (d : Dir F.Map)
      → Recorded F c f plan d
      → reading_of (file_at (name sidecar_file c plan.target) d) ≡ spells plan
  unfolding reading_of of_decoded
  Recorded-reading plan d r = rw (
    ← files-file_at sidecar_file c plan.target d,
    r.only plan.target,
    ==_refl plan.target,
    length-encode_merge_plan plan r.fits,
    decode-encode plan r.fits r.coherent,
  )

  module _ (d₀ : Dir F.Map) where
    abbrev R : State K F.Map → Type 0
    R = Rec F f d₀ c

    abbrev O : State K F.Map → Type 0
    O = Over F f d₀ c

    record_ensures :
        (plan : Plan) (P : State K F.Map → Type 0) (w : World (State K F.Map))
        → Recorded F c f plan w.state.dir
        → R w.state
        → P w.state
        → ((w' : World (State K F.Map))
            → P w'.state
            → Ensures (λ _. O) (λ _. R) R (recover_one plan w'))
        → Ensures (λ _. O) (λ _. R) R (recover_record c plan.target w)
    unfolding recover_record recover_read and_then
    record_ensures plan P w r rec q one =
        Ensures-and_then {Q = λ x s. (x ≡ spells plan) × P s} _
          (Ensures-syscall recovery_failed _ w rec rec
            (λ us. on_done (Recorded-reading plan w.state.dir r, q)))
          (λ x w₁ (e, q₁).
            rw (e, (==_iff plan.container c).1 r.here, ==_refl plan.target) (one w₁ q₁))

    listed_ensures :
        (vs : List ℕ) (w : World (State K F.Map))
        → vs ≡ unique (sort (collect sidecar_file c w.state.dir))
        → R w.state
        → Ensures (λ _. O) (λ _. R) R (recover_listed c vs w)
    unfolding recover_listed
    listed_ensures vs w e (settled s, a) = rw (e ∙ Settled-listed w.state.dir s) (on_done (s, a))
    listed_ensures vs w e (pending plan q, a) =
        rw (e ∙ Recorded-listed plan w.state.dir q.recorded) (
          record_ensures plan (λ s. Pending F c f plan s.dir × Apart c d₀ s.dir) w q.recorded
            (pending plan q, a) (q, a)
            (λ w' (q', a'). recover-Pending_ensures F f d₀ c plan w' q.recorded.here q' a'))
    listed_ensures vs w e (published plan l, a) =
        rw (e ∙ Recorded-listed plan w.state.dir l.recorded) (
          record_ensures plan (λ s. Published F c f plan s.dir × Apart c d₀ s.dir) w l.recorded
            (published plan l, a) (l, a)
            (λ w' (l', a'). recover-Published_ensures F f d₀ c plan w' l.recorded.here l' a'))

    -- No file of the kind is left.
    abbrev pub Swept : Kind → State K F.Map → Type 0
    Swept k s = (n : ℕ) → files k c s.dir n ≡ none

    -- Removing what is listed, while something else is kept.
    module _ (k : Kind) (P : State K F.Map → Type 0)
        (keep : (s : State K F.Map) (v : ℕ) → P s → P (on_dir (unlink (name k c v)) s))
        (rec : (s : State K F.Map) → P s → R s) where
      unlinked :
          (v : ℕ) (vs : List ℕ) (d : Dir F.Map)
          → ((n : ℕ) → contains (v ∷ vs) n ≡ false → files k c d n ≡ none)
          → (n : ℕ) → contains vs n ≡ false
          → files k c (unlink (name k c v) d) n ≡ none
      unfolding contains
      unlinked v vs d h n not = elim (Bool-cases (v == n)) [
        | inl e ↦ rw (files-unlink_self k c v d n, e)
        | inr e ↦ rw (files-unlink_self k c v d n, e) (h n (rw (e, not)))
      ]

      remove_each_ensures :
          (vs : List ℕ) (w : World (State K F.Map))
          → P w.state
          → ((n : ℕ) → contains vs n ≡ false → files k c w.state.dir n ≡ none)
          → Ensures (λ _ s. P s × Swept k s) (λ _. R) R (remove_each k c vs w)
      unfolding remove_each contains
      remove_each_ensures [] w q h = on_done (q, (λ n. h n refl))
      remove_each_ensures (v ∷ vs) w q h =
          Ensures-and_then
            {Q = λ _ s. P s × ((n : ℕ) → contains vs n ≡ false → files k c s.dir n ≡ none)} _
            (Ensures-remove_file w (name k c v) (rec w.state q) (rec w.state q)
              (keep w.state v q, unlinked v vs w.state.dir h))
            (λ _ w₁ (q₁, h₁). remove_each_ensures vs w₁ q₁ h₁)

      not_listed : (x : Option (Content F.Map)) → exists_in x ≡ false → x ≡ none
      unfolding exists_in
      not_listed none h = refl
      not_listed (some y) h = cc h

      sweep_ensures :
          (w : World (State K F.Map))
          → P w.state
          → Ensures (λ _ s. P s × Swept k s) (λ _. R) R (sweep k c w)
      unfolding sweep
      sweep_ensures w q =
          Ensures-and_then
            {Q = λ vs s. P s × ((n : ℕ) → contains vs n ≡ false → files k c s.dir n ≡ none)} _
            (Ensures-enumerate w k c (rec w.state q) (rec w.state q) (
              q,
              (λ n h.
                  files-file_at k c n w.state.dir
                  ∙ not_listed _ (sym (contains-listed k c n w.state.dir) ∙ h)),
            ))
            (λ vs w₁ (q₁, h₁). remove_each_ensures vs w₁ q₁ h₁)

    over_unlink :
        (k : Kind)
        → IsPrivate k
        → (s : State K F.Map) (v : ℕ) → O s
        → O (on_dir (unlink (name k c v)) s)
    over_unlink k private s v (q, a) = (
      Settled-Same F c f s.dir _ (Same-unlink c s.dir k v s.dir private (Same-refl c s.dir)) q,
      Apart-unlink c k v d₀ s.dir a,
    )

    over_rec : (s : State K F.Map) → O s → R s
    over_rec s (q, a) = (settled q, a)

    pub recover_scope_ensures :
        (w : World (State K F.Map))
        → R w.state
        → Ensures
            (λ _ s. O s × Swept building_file s × Swept sidecar_temp s)
            (λ _. R)
            R
            (recover_scope c w)
    unfolding recover_scope
    recover_scope_ensures w r =
        Ensures-and_then {Q = λ vs s. (vs ≡ unique (sort (collect sidecar_file c s.dir))) × R s} _
          (Ensures-enumerate w sidecar_file c r r (refl, r))
          (λ vs w₁ (e, r₁). Ensures-and_then {Q = λ _. O} _ (listed_ensures vs w₁ e r₁) (λ _ w₂ o₂.
            Ensures-and_then {Q = λ _ s. O s × Swept building_file s} _
              (sweep_ensures building_file O (over_unlink building_file (refl, refl)) over_rec w₂
                o₂)
              (λ _ w₃ q₃.
                Ensures-mono (λ _ s ((o, b), t). (o, b, t)) (λ _ _ h. h) (λ _ h. h)
                  (sweep_ensures sidecar_temp (λ s. O s × Swept building_file s) kept
                    (λ s q. over_rec s q.0) w₃ q₃))))
      where
        kept :
            (s : State K F.Map) (v : ℕ)
            → O s × Swept building_file s
            → O (on_dir (unlink (name sidecar_temp c v)) s)
              × Swept building_file (on_dir (unlink (name sidecar_temp c v)) s)
        kept s v (o, b) = (
          over_unlink sidecar_temp (refl, refl) s v o,
          (λ n.
              ap (λ (x : ℕ → Option (Content F.Map)). x n)
                (files-unlink building_file sidecar_temp c v s.dir refl)
              ∙ b n),
        )
