-- ===== src/Recovery/Progress.antt =====
-- Recovery where no call fails.
use utxo_z.Common.{
  ℕ, ◌≡◌, ◌≢◌, refl, Bool, true, false, List, [], ◌∷◌, Option, some, ◌==◌, ==_refl, ==_iff,
  Bool-cases, inl, inr, All,
}
use utxo_z.Sidecar.{Plan}
use utxo_z.FlatMap.{Key, FlatMap}
use utxo_z.Dir.{
  Kind, data_file, building_file, sidecar_file, sidecar_temp, name, exists_in, file_at, sort,
  unique, collect, segment,
}
use utxo_z.Io.{World, done, crashed, M, and_then, judge, barrier_judge}
use utxo_z.Io.Rules.{holds}
use utxo_z.Instance.{State, remove_file, path_exists, read_target_marker, marker_in}
use utxo_z.Merge.{Policy, same_marker_refl, merge_versions}
use utxo_z.Merge.View.{files-file_at}
use utxo_z.Merge.States.{
  Settled, Recorded, Pending, Published, Recoverable, settled, pending, published,
}
use utxo_z.Merge.Safety.{IsMergeable, merge_versions-safe}
use utxo_z.Catalog.{next_version}
use utxo_z.Recovery.{
  enumerate_versions, retire_all, abandon, conclude_verified, conclude, recover_published,
  recover_one, recover_read, recover_record, recover_listed, remove_each, sweep, recover_scope,
}
use utxo_z.Recovery.Safety.{Recorded-listed, Settled-listed, Recorded-reading}
use utxo_z.Recovery.Whole.{recover_scope-sweeps}

module _ {K Map : Type 0} where
  -- From here on every call proceeds.
  abbrev pub calm : State K Map → World (State K Map)
  calm s = record { state = s; verdicts = []; entropy = [] }

  abbrev Finishes : M (State K Map) (Unit {0}) → State K Map → Type 0
  Finishes m s = (s' : State K Map) × (m (calm s) ≡ done tt (calm s'))

  then-Finishes :
      (m n : M (State K Map) (Unit {0})) (s : State K Map)
      → Finishes m s
      → ((s' : State K Map) → Finishes n s')
      → Finishes (λ w. and_then (m w) (λ _. n)) s
  unfolding and_then
  then-Finishes m n s (s₁, e₁) k = let (s₂, e₂) = k s₁ in (s₂, rw e₁ e₂)

  retire_all-Finishes :
      (plan : Plan) (vs : List ℕ) (s : State K Map)
      → All (λ v. v ≢ plan.target) vs
      → Finishes (retire_all plan vs) s
  unfolding retire_all and_then remove_file judge
  retire_all-Finishes plan [] s a = (s, refl)
  retire_all-Finishes plan (v ∷ vs) s a = elim (Bool-cases (v == plan.target)) [
    | inl e ↦ absurd (a.0 ((==_iff v plan.target).0 e))
    | inr e ↦ rw e (retire_all-Finishes plan vs _ a.1)
  ]

  abandon-Finishes : (plan : Plan) (s : State K Map) → Finishes (abandon plan) s
  unfolding abandon and_then remove_file judge barrier_judge
  abandon-Finishes plan s = (_, refl)

  remove_each-Finishes :
      (k : Kind) (c : ℕ) (vs : List ℕ) (s : State K Map) → Finishes (remove_each k c vs) s
  unfolding remove_each and_then remove_file judge
  remove_each-Finishes k c [] s = (s, refl)
  remove_each-Finishes k c (v ∷ vs) s = remove_each-Finishes k c vs _

  sweep-Finishes : (k : Kind) (c : ℕ) (s : State K Map) → Finishes (sweep k c) s
  unfolding sweep enumerate_versions and_then judge
  sweep-Finishes k c s = remove_each-Finishes k c (unique (sort (collect k c s.dir))) s

  conclude-Finishes :
      (plan : Plan) (s : State K Map)
      → All (λ v. v ≢ plan.target) plan.sources
      → Finishes (conclude plan plan.id) s
  unfolding conclude conclude_verified and_then remove_file judge barrier_judge
  conclude-Finishes plan s a =
      let (s₁, e₁) = retire_all-Finishes plan plan.sources s a in
      rw (same_marker_refl plan.id, e₁) (_, refl)

module _ {K V : Type 0} ⦃key : Key K⦄ (F : FlatMap K V) (f : K → Option V) (c : ℕ) where
  module _ (plan : Plan) (s : State K F.Map) (r : Recorded F c f plan s.dir) where
    apart : All (λ v. v ≢ plan.target) plan.sources
    apart = r.coherent.apart

    one-Finishes :
        (b : Bool)
        → exists_in (file_at (name data_file plan.container plan.target) s.dir) ≡ b
        → Finishes (recover_published plan b) s
        → Finishes (recover_one plan) s
    unfolding recover_one path_exists and_then judge
    one-Finishes b e h = rw e h

    record-Finishes : Finishes (recover_one plan) s → Finishes (recover_record c plan.target) s
    unfolding recover_record recover_read and_then judge
    record-Finishes h =
        rw
          (
            Recorded-reading F f c plan s.dir r,
            (==_iff plan.container c).1 r.here,
            ==_refl plan.target,
          )
          h

    listed-Finishes :
        Finishes (recover_record c plan.target) s
        → Finishes (recover_listed c (unique (sort (collect sidecar_file c s.dir)))) s
    unfolding recover_listed
    listed-Finishes h = rw (Recorded-listed F f c plan s.dir r) h

  Pending-Finishes :
      (plan : Plan) (s : State K F.Map) → Pending F c f plan s.dir → Finishes (recover_one plan) s
  unfolding recover_published exists_in
  Pending-Finishes plan s q =
      one-Finishes plan s q.recorded false
        (rw (q.recorded.here, ← files-file_at data_file c plan.target s.dir, q.free))
        (abandon-Finishes plan s)

  Published-Finishes :
      (plan : Plan) (s : State K F.Map) → Published F c f plan s.dir → Finishes (recover_one plan) s
  unfolding recover_published exists_in read_target_marker marker_in and_then judge
  Published-Finishes plan s l =
      one-Finishes plan s l.recorded true
        (rw (l.recorded.here, ← files-file_at data_file c plan.target s.dir, l.built))
        (rw (here) (conclude-Finishes plan s (apart plan s l.recorded)))
    where
      here :
          file_at (name data_file plan.container plan.target) s.dir
          ≡ some (segment (some plan.id) l.target)
      here = rw (l.recorded.here, ← files-file_at data_file c plan.target s.dir, l.built)

  recoverable-Finishes :
      (s : State K F.Map)
      → Recoverable F c f s.dir
      → Finishes (recover_listed c (unique (sort (collect sidecar_file c s.dir)))) s
  unfolding recover_listed
  recoverable-Finishes s (settled q) = rw (Settled-listed F f c s.dir q) (s, refl)
  recoverable-Finishes s (pending plan q) =
      listed-Finishes plan s q.recorded
        (record-Finishes plan s q.recorded (Pending-Finishes plan s q))
  recoverable-Finishes s (published plan l) =
      listed-Finishes plan s l.recorded
        (record-Finishes plan s l.recorded (Published-Finishes plan s l))

  scope-Finishes : (s : State K F.Map) → Recoverable F c f s.dir → Finishes (recover_scope c) s
  unfolding recover_scope enumerate_versions and_then judge
  scope-Finishes s r =
      let (s₁, e₁) = recoverable-Finishes s r in
      let (s₂, e₂) = sweep-Finishes building_file c s₁ in
      let (s₃, e₃) = sweep-Finishes sidecar_temp c s₂ in (s₃, rw (e₁, e₂) e₃)

module _ {K V : Type 0} ⦃key : Key K⦄ (F : FlatMap K V) (f : K → Option V) where
  -- Where no call fails, recovering a container that can be recovered gets to its end, with no merge
  -- recorded and the content kept.
  pub recover_scope-finishes :
      (c : ℕ) (s : State K F.Map)
      → Recoverable F c f s.dir
      → (s' : State K F.Map) × (recover_scope c (record { state = s; verdicts = []; entropy = [] })
          ≡ done tt (record { state = s'; verdicts = []; entropy = [] }))
        × Settled F c f s'.dir
  recover_scope-finishes c s r =
      let (s', e) = scope-Finishes F f c s r in
      (s', e, (holds (recover_scope-sweeps F f c (calm s) r) e).0.0)

  -- Where the process dies anywhere in a merge that started with none recorded, of at most sixty-four
  -- ascending sources, with container, next version and sources 64-bit words, and after any failures
  -- before that: the recovery that follows gets to its end if no call fails, with no merge recorded,
  -- and the version files hold exactly what they held before the merge.
  pub merge_versions-recovers :
      (p : Policy K V) (sources : List ℕ) (w w' : World (State K F.Map))
      → Settled F p.index f w.state.dir
      → IsMergeable p.index (next_version w.state.catalog) sources
      → merge_versions F p sources w ≡ crashed w'
      → (s' : State K F.Map) × (recover_scope p.index
            (record { state = w'.state; verdicts = []; entropy = [] })
          ≡ done tt (record { state = s'; verdicts = []; entropy = [] }))
        × Settled F p.index f s'.dir
  merge_versions-recovers p sources w w' start fit e =
      recover_scope-finishes p.index w'.state
        (holds (merge_versions-safe F p f sources w start fit) e)
