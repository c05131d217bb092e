-- ===== src/Deletion/Complete.antt =====
-- A batch over a store whose files can all be read.
use utxo_z.Common.{
  ℕ, ◌≡◌, refl, sym, ◌∙◌, ap, true, false, ◌&&◌, List, [], ◌∷◌, ◌++◌, Option, none, some,
  Bool-cases, inl, inr, All, ◌⊎◌, ◌==◌, ==_iff, ==_refl, sub64, ltb,
}
use utxo_z.Sidecar.{contains}
use utxo_z.FlatMap.{Key, FlatMap}
use utxo_z.Catalog.{below}
use utxo_z.Deletion.{
  Request, FileId, Store, Stepped, Sweeping, Faults, Mode, full, reference, classes,
  container_count, reference_sentinel_index, is_some, is_empty, set_at, step_over_file, file_in,
}
use utxo_z.Deletion.Batch.{
  set_file, settle_file, open_file, erase_in_file, walk, walk_cached, walk_versions, walk_classes,
}
use utxo_z.Deletion.{
  applied_one, kept_one, erase_active, erase_in_latest, working_set_of, sort_files,
}
use utxo_z.Deletion.Walk.{some-is}
use utxo_z.Deletion.Files.{count_out-versions}
use utxo_z.Deletion.Opened.{erase_in_latest-some}
use utxo_z.Deletion.Batch.{sweep, classify, apply_deletes}
use utxo_z.Deletion.Working.{sort_files-All, or_true_right}

-- Nothing goes wrong during the call.
pub record Healthy (faults : Faults) : Type 0 where
  pub opens : (c v : ℕ) → faults.opens c v ≡ true
  pub lists : (c : ℕ) → faults.lists c ≡ true
  pub quiet : (c v : ℕ) → faults.throws_after c v ≡ none

module _ {K V : Type 0} ⦃key : Key K⦄ (F : FlatMap K V) where
  step_over_file-quiet :
      (m : F.Map) (rs : List (Request K)) → (step_over_file F none m rs).thrown ≡ false
  unfolding step_over_file applied_one kept_one
  step_over_file-quiet m [] = refl
  step_over_file-quiet m (r ∷ rs) = elim (Bool-cases (is_some (F.find m r.key))) [
    | inl hit ↦ rw hit (step_over_file-quiet (F.erase m r.key) rs)
    | inr miss ↦ rw miss (step_over_file-quiet m rs)
  ]

  module _ (faults : Faults) (healthy : Healthy faults) (s : Store K F.Map) where
    -- Still complete, and no file has gone.
    record Whole (w : Sweeping K F.Map) : Type 0 where
      complete : w.complete ≡ true
      present : (c v : ℕ) → is_some (s.file c v) ≡ true → is_some (w.store.file c v) ≡ true
      versions :
          (c : ℕ)
          → below (w.store.catalog c) (w.store.current c) ≡ below (s.catalog c) (s.current c)

    settle_file-present :
        (c v : ℕ) (x : Stepped K F.Map) (w : Sweeping K F.Map) (d u : ℕ)
        → is_some (w.store.file d u) ≡ true
        → is_some ((settle_file F c v x w).store.file d u) ≡ true
    unfolding settle_file set_file is_some
    settle_file-present c v x w d u h = elim (Bool-cases (c == d && v == u)) [
      | inl hit ↦ rw hit
      | inr miss ↦ rw miss h
    ]

    settle_file-versions :
        (c v : ℕ) (x : Stepped K F.Map) (w : Sweeping K F.Map) (d : ℕ)
        → below ((settle_file F c v x w).store.catalog d) ((settle_file F c v x w).store.current d)
          ≡ below (w.store.catalog d) (w.store.current d)
    unfolding settle_file set_at below
    settle_file-versions c v x w d = elim (Bool-cases (c == d)) [
      | inl hit ↦
          rw hit
            (rw (← (==_iff c d).0 hit) (rw (count_out-versions x.recorded v (w.store.catalog c))))
      | inr miss ↦ rw miss
    ]

    settle_file-complete :
        (c v : ℕ) (x : Stepped K F.Map) (w : Sweeping K F.Map)
        → w.complete ≡ true
        → x.thrown ≡ false
        → (settle_file F c v x w).complete ≡ true
    unfolding settle_file
    settle_file-complete c v x w done calm = rw (done, calm)

    erase_in_file-Whole :
        (c v : ℕ) (w : Sweeping K F.Map)
        → is_some (s.file c v) ≡ true
        → Whole w
        → Whole (erase_in_file F faults c v w)
    unfolding erase_in_file open_file
    erase_in_file-Whole c v w has whole =
        let (m, e) = some-is (w.store.file c v) (whole.present c v has) in
        let x = step_over_file F none m w.pending in
        let calm : x.thrown ≡ false = step_over_file-quiet m w.pending in
        rw (healthy.opens c v, e, healthy.quiet c v)
          (record {
            complete = settle_file-complete c v x w whole.complete calm;
            present = λ d u h. settle_file-present c v x w d u (whole.present d u h);
            versions = λ d. settle_file-versions c v x w d ∙ whole.versions d;
          })

    walk_versions-Whole :
        (seen : List FileId) (c : ℕ) (vs : List ℕ) (w : Sweeping K F.Map)
        → ((v : ℕ) → contains vs v ≡ true → is_some (s.file c v) ≡ true)
        → Whole w
        → Whole (walk_versions F faults seen c vs w)
    unfolding walk_versions contains
    walk_versions-Whole seen c [] w there whole = whole
    walk_versions-Whole seen c (v ∷ vs) w there whole = elim (Bool-cases (is_empty w.pending)) [
      | inl e ↦ rw e whole
      | inr e ↦ rw e (elim (Bool-cases (file_in seen (c, v))) [
        | inl hit ↦ rw hit (walk_versions-Whole seen c vs w later whole)
        | inr miss ↦ rw miss (
            walk_versions-Whole seen c vs (erase_in_file F faults c v w) later
              (erase_in_file-Whole c v w (there v (rw (==_refl v))) whole))
      ])
    ]
      where
        later : (u : ℕ) → contains vs u ≡ true → is_some (s.file c u) ≡ true
        later u h = there u (or_true_right (v == u) (contains vs u) h)

    walk_classes-Whole :
        (seen : List FileId) (cs : List ℕ) (w : Sweeping K F.Map)
        → ((c v : ℕ)
            → contains cs c ≡ true
            → contains (below (s.catalog c) (s.current c)) v ≡ true
            → is_some (s.file c v) ≡ true)
        → Whole w
        → Whole (walk_classes F faults seen cs w)
    unfolding walk_classes contains
    walk_classes-Whole seen [] w there whole = whole
    walk_classes-Whole seen (c ∷ cs) w there whole = elim (Bool-cases (is_empty w.pending)) [
      | inl e ↦ rw e whole
      | inr e ↦
          rw (e, healthy.lists c)
            (walk_classes-Whole seen cs
              (walk_versions F faults seen c (below (w.store.catalog c) (w.store.current c)) w)
              (λ d v in_. there d v (or_true_right (c == d) (contains cs d) in_))
              (walk_versions-Whole seen c (below (w.store.catalog c) (w.store.current c)) w
                (λ v h.
                  there c v (rw (==_refl c))
                    (ap (λ vs. contains vs v) (sym (whole.versions c)) ∙ h))
                whole))
    ]

    -- The cached files of this mode exist, in a class there is.
    abbrev pub Cacheable : Mode → FileId → Type 0
    Cacheable full a =
        ((a.0 ≡ reference_sentinel_index)
          ⊎ ((ltb a.0 container_count ≡ true) × (is_some (s.file a.0 a.1) ≡ true)))
    Cacheable reference a =
        ((a.0 == reference_sentinel_index) ≡ false) ⊎ (is_some (s.file a.0 a.1) ≡ true)

    walk-Whole :
        (mode : Mode) (a : FileId) (w : Sweeping K F.Map)
        → Cacheable mode a
        → Whole w
        → Whole (walk F mode faults a w)
    unfolding walk
    walk-Whole full a w (inl e) whole = rw ((==_iff a.0 reference_sentinel_index).1 e) whole
    walk-Whole full a w (inr (small, has)) whole =
        elim (Bool-cases (a.0 == reference_sentinel_index)) [
          | inl e ↦ rw e whole
          | inr other ↦ rw (other, small) (erase_in_file-Whole a.0 a.1 w has whole)
        ]
    walk-Whole reference a w (inl other) whole = rw other whole
    walk-Whole reference a w (inr has) whole = elim (Bool-cases (a.0 == reference_sentinel_index)) [
      | inl e ↦ rw e (erase_in_file-Whole a.0 a.1 w has whole)
      | inr other ↦ rw other whole
    ]

    walk_cached-Whole :
        (mode : Mode) (files : List FileId) (w : Sweeping K F.Map)
        → All (Cacheable mode) files
        → Whole w
        → Whole (walk_cached F mode faults files w)
    unfolding walk_cached
    walk_cached-Whole mode [] w all whole = whole
    walk_cached-Whole mode (a ∷ as_) w all whole = elim (Bool-cases (is_empty w.pending)) [
      | inl e ↦ rw e whole
      | inr e ↦ rw e (
          walk_cached-Whole mode as_ (walk F mode faults a w) all.1
            (walk-Whole mode a w all.0 whole))
    ]

    erase_active-Whole :
        (cs : List ℕ) (rs : List (Request K)) (w : Sweeping K F.Map)
        → Whole w
        → Whole (erase_active F cs rs w)
    unfolding erase_active
    erase_active-Whole cs [] w whole = whole
    erase_active-Whole cs (r ∷ rs) w whole =
        next (erase_in_latest F cs w.store r.key) refl (λ x h. erase_active-Whole cs rs x h)
      where
        next :
            (o : Option (Store K F.Map))
            → erase_in_latest F cs w.store r.key ≡ o
            → ((x : Sweeping K F.Map) → Whole x → Whole (erase_active F cs rs x))
            → Whole (elim o as (λ (y : Option (Store K F.Map)). Sweeping K F.Map) [
              | some t ↦ erase_active F cs rs (record w {
                store = record t { entries_count = sub64 t.entries_count 1 };
                erased = w.erased ++ (r ∷ []);
              })
              | none ↦ erase_active F cs rs (record w { pending = w.pending ++ (r ∷ []) })
            ])
        next (some t) e ih =
            let (_, _, _, _, is) = erase_in_latest-some F cs w.store t r.key e in
            let a : t.file ≡ w.store.file = ap (λ y. y.file) is in
            let b : t.catalog ≡ w.store.catalog = ap (λ y. y.catalog) is in
            let c : t.current ≡ w.store.current = ap (λ y. y.current) is in
            ih _ (record {
              complete = whole.complete;
              present = λ d u h. rw a (whole.present d u h);
              versions = λ d. rw (b, c) (whole.versions d);
            })
        next none e ih = ih _ (record {
          complete = whole.complete;
          present = whole.present;
          versions = whole.versions;
        })

    -- When nothing goes wrong, and the files that are cached or listed exist, the batch is decided.
    pub sweep-complete :
        (mode : Mode) (cached : List FileId) (requests : List (Request K))
        → All (Cacheable mode) cached
        → ((c v : ℕ)
            → contains (classes mode) c ≡ true
            → contains (below (s.catalog c) (s.current c)) v ≡ true
            → is_some (s.file c v) ≡ true)
        → (sweep F mode faults cached requests s).complete ≡ true
    unfolding sweep
    sweep-complete mode cached requests in_cache there =
        (walk_classes-Whole cached (classes mode) _ there (
          walk_cached-Whole mode (sort_files cached) _
            (sort_files-All (Cacheable mode) cached in_cache)
            (erase_active-Whole (classes mode) (working_set_of requests) _
              (record { complete = refl; present = λ c v h. h; versions = λ c. refl })))).complete

    -- When every file opens, every catalogue is listed, nothing throws, and the files that are cached or
    -- listed exist, a batch of deletions ends without an error.
    pub apply_deletes-completes :
        (mode : Mode) (cached : List FileId) (requests : List (Request K))
        → All (Cacheable mode) cached
        → ((c v : ℕ)
            → contains (classes mode) c ≡ true
            → contains (below (s.catalog c) (s.current c)) v ≡ true
            → is_some (s.file c v) ≡ true)
        → (apply_deletes F mode faults cached requests s).0.error ≡ none
    unfolding apply_deletes classify
    apply_deletes-completes mode cached requests in_cache there =
        elim (Bool-cases (is_empty requests)) [
          | inl e ↦ rw e
          | inr e ↦ rw (e, sweep-complete mode cached requests in_cache there)
        ]
