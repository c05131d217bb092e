-- ===== src/Resolve/Covered.antt =====
-- Which files a resolution reads.
use utxo_z.Common.{
  ℕ, ◌≡◌, sym, ◌∙◌, ap, true, false, List, [], ◌∷◌, ltb, ◌==◌, Bool-cases, inl, inr, ◌⊎◌, ==_iff,
  arith,
}
use utxo_z.Errors.{catalog_unreadable}
use utxo_z.FlatMap.{Key, FlatMap}
use utxo_z.Sidecar.{contains}
use utxo_z.Catalog.{below}
use utxo_z.Deletion.{
  FileId, Mode, full, reference, reference_sentinel_index, container_count, classes, Store, Faults,
  is_empty, file_in, same_file,
}
use utxo_z.Resolve.{
  Resolving, probe_file, probe_cached_file, probe_cached, probe_versions, probe_classes,
}
use utxo_z.Cache.Entries.{same_file-true}
use utxo_z.Resolve.Probe.{
  Probed, Probed-trans, probe_file-Probed, empty-Probed, unasked-Probed, weaken, failed-Probed,
}

module _ {K V : Type 0} ⦃key : Key K⦄ (F : FlatMap K V) (s : Store K F.Map) (faults : Faults) where
  abbrev pub Listed : List FileId → ℕ → List ℕ → FileId → Type 0
  Listed seen c vs a =
      (v : ℕ) × (a ≡ (c, v)) × (contains vs v ≡ true) × (file_in seen (c, v) ≡ false)

  pub probe_versions-Probed :
      (seen : List FileId) (c : ℕ) (vs : List ℕ) (w : Resolving K V)
      → Probed F s faults w (probe_versions F s faults seen c vs w) (Listed seen c vs)
  unfolding probe_versions contains
  probe_versions-Probed seen c [] w =
      unasked-Probed F s faults w (Listed seen c []) (λ a q. cc (q.2))
  probe_versions-Probed seen c (v ∷ vs) w = elim (Bool-cases (is_empty w.pending)) [
    | inl e ↦ rw e (empty-Probed F s faults w (Listed seen c (v ∷ vs)) e)
    | inr e ↦ rw e (elim (Bool-cases (file_in seen (c, v))) [
      | inl hit ↦ rw hit (
          weaken F s faults w (probe_versions F s faults seen c vs w) (Listed seen c vs)
            (Listed seen c (v ∷ vs))
            (λ a q. later a q (elim (Bool-cases (v == q.0)) [
              | inl this ↦
                  let seen_v : file_in seen (c, q.0) ≡ true =
                    ap (λ n. file_in seen (c, n)) (sym ((==_iff v q.0).0 this)) ∙ hit in
                  cc (seen_v, q.3)
              | inr other ↦ other
            ]))
            (probe_versions-Probed seen c vs w))
      | inr miss ↦ rw miss (
          let x = probe_file F s faults c v w in
          Probed-trans F s faults w x (probe_versions F s faults seen c vs x) (λ a. a ≡ (c, v))
            (Listed seen c vs) (Listed seen c (v ∷ vs))
            (λ a q. elim (Bool-cases (v == q.0)) [
              | inl this ↦ inl (q.1 ∙ ap (λ n. (c, n)) (sym ((==_iff v q.0).0 this)))
              | inr other ↦ inr (later a q other)
            ])
            (probe_file-Probed F s faults c v w) (probe_versions-Probed seen c vs x))
    ])
  ]
    where
      later : (a : FileId) (q : Listed seen c (v ∷ vs) a) → (v == q.0) ≡ false → Listed seen c vs a
      later a q other = (q.0, q.1, rw other at (q.2), q.3)

  abbrev Own : Mode → FileId → FileId → Type 0
  Own mode b a = (a ≡ b) × (contains (classes mode) b.0 ≡ true)

  probe_cached_file-Probed :
      (mode : Mode) (b : FileId) (w : Resolving K V)
      → Probed F s faults w (probe_cached_file F s faults mode b w) (Own mode b)
  unfolding probe_cached_file contains
  probe_cached_file-Probed reference b w = elim (Bool-cases (b.0 == reference_sentinel_index)) [
    | inl this ↦ rw this (
        weaken F s faults w (probe_file F s faults b.0 b.1 w) (λ a. a ≡ b) (Own reference b)
          (λ a q. q.0) (probe_file-Probed F s faults b.0 b.1 w))
    | inr other ↦
        rw other (unasked-Probed F s faults w (Own reference b) (λ a q. no b.0 other (q.1)))
  ]
    where
      no :
          (n : ℕ)
          → (n == reference_sentinel_index) ≡ false
          → ¬ (contains (classes reference) n ≡ true)
      no n h q = ground arith
  probe_cached_file-Probed full b w = elim (Bool-cases (b.0 == reference_sentinel_index)) [
    | inl this ↦ rw this (unasked-Probed F s faults w (Own full b) (λ a q. sentinel b.0 this (q.1)))
    | inr other ↦ rw other (elim (Bool-cases (ltb b.0 container_count)) [
      | inl small ↦ rw small (
          weaken F s faults w (probe_file F s faults b.0 b.1 w) (λ a. a ≡ b) (Own full b)
            (λ a q. q.0) (probe_file-Probed F s faults b.0 b.1 w))
      | inr big ↦ rw big (unasked-Probed F s faults w (Own full b) (λ a q. unknown b.0 big (q.1)))
    ])
  ]
    where
      sentinel :
          (n : ℕ) → (n == reference_sentinel_index) ≡ true → ¬ (contains (classes full) n ≡ true)
      sentinel n h q = ground arith

      unknown : (n : ℕ) → ltb n container_count ≡ false → ¬ (contains (classes full) n ≡ true)
      unknown n h q = ground arith

  abbrev pub Cached : Mode → List FileId → FileId → Type 0
  Cached mode files a = (file_in files a ≡ true) × (contains (classes mode) a.0 ≡ true)

  pub probe_cached-Probed :
      (mode : Mode) (files : List FileId) (w : Resolving K V)
      → Probed F s faults w (probe_cached F s faults mode files w) (Cached mode files)
  unfolding probe_cached file_in
  probe_cached-Probed mode [] w = unasked-Probed F s faults w (Cached mode []) (λ a q. cc (q.0))
  probe_cached-Probed mode (b ∷ bs) w = elim (Bool-cases (is_empty w.pending)) [
    | inl e ↦ rw e (empty-Probed F s faults w (Cached mode (b ∷ bs)) e)
    | inr e ↦ rw e (
        let x = probe_cached_file F s faults mode b w in
        Probed-trans F s faults w x (probe_cached F s faults mode bs x) (Own mode b)
          (Cached mode bs) (Cached mode (b ∷ bs))
          (λ a q. elim (Bool-cases (same_file b a)) [
            | inl this ↦ inl (
              sym (same_file-true b a this),
              ap (λ (y : FileId). contains (classes mode) y.0) (same_file-true b a this) ∙ q.1,
            )
            | inr other ↦ inr (rw other at (q.0), q.1)
          ])
          (probe_cached_file-Probed mode b w) (probe_cached-Probed mode bs x))
  ]

  abbrev pub Behind : List FileId → List ℕ → FileId → Type 0
  Behind seen ds a =
      (contains ds a.0 ≡ true)
      × (contains (below (s.catalog a.0) (s.current a.0)) a.1 ≡ true)
      × (file_in seen a ≡ false)

  pub probe_classes-Probed :
      (seen : List FileId) (ds : List ℕ) (w : Resolving K V)
      → Probed F s faults w (probe_classes F s faults seen ds w) (Behind seen ds)
  unfolding probe_classes contains
  probe_classes-Probed seen [] w = unasked-Probed F s faults w (Behind seen []) (λ a q. cc (q.0))
  probe_classes-Probed seen (c ∷ ds) w = elim (Bool-cases (is_empty w.pending)) [
    | inl e ↦ rw e (empty-Probed F s faults w (Behind seen (c ∷ ds)) e)
    | inr e ↦ rw e (elim (Bool-cases (faults.lists c)) [
      | inl lists ↦ rw lists (
          let x = probe_versions F s faults seen c (below (s.catalog c) (s.current c)) w in
          Probed-trans F s faults w x (probe_classes F s faults seen ds x)
            (Listed seen c (below (s.catalog c) (s.current c))) (Behind seen ds)
            (Behind seen (c ∷ ds)) split
            (probe_versions-Probed seen c (below (s.catalog c) (s.current c)) w)
            (probe_classes-Probed seen ds x))
      | inr refused ↦ rw refused (
          let x : Resolving K V = record w { complete = false; failure = catalog_unreadable } in
          Probed-trans F s faults w x (probe_classes F s faults seen ds x) (Behind seen (c ∷ ds))
            (Behind seen ds) (Behind seen (c ∷ ds)) (λ a q. inl q)
            (failed-Probed F s faults w catalog_unreadable (Behind seen (c ∷ ds)))
            (probe_classes-Probed seen ds x))
    ])
  ]
    where
      split :
          (a : FileId)
          → Behind seen (c ∷ ds) a
          → Listed seen c (below (s.catalog c) (s.current c)) a ⊎ Behind seen ds a
      split (d, v) (in_, listed, fresh) = elim (Bool-cases (c == d)) [
        | inl this ↦
            let e : c ≡ d = (==_iff c d).0 this in
            inl (
              v,
              ap (λ n. (n, v)) (sym e),
              ap (λ n. contains (below (s.catalog n) (s.current n)) v) e ∙ listed,
              ap (λ n. file_in seen (n, v)) e ∙ fresh,
            )
        | inr other ↦ inr (rw other at in_, listed, fresh)
      ]
