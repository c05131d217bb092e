-- ===== src/Resolve/Complete.antt =====
-- A resolution over files that can all be read.
use utxo_z.Common.{
  ℕ, ◌≡◌, refl, true, List, [], ◌∷◌, ◌==◌, Bool-cases, inl, inr, ==_iff, ==_refl, All,
}
use utxo_z.FlatMap.{Key, FlatMap}
use utxo_z.Sidecar.{contains}
use utxo_z.Catalog.{below}
use utxo_z.Deletion.{
  Request, FileId, Mode, full, reference, reference_sentinel_index, classes, Store, Faults,
  is_empty, sort_files, file_in,
}
use utxo_z.Resolve.{
  Resolving, probe_opened, probe_file, probe_cached_file, probe_cached, probe_versions,
  probe_classes,
}
use utxo_z.Deletion.{is_some}
use utxo_z.Deletion.Walk.{some-is}
use utxo_z.Deletion.Working.{sort_files-All, or_true_right}
use utxo_z.Deletion.Complete.{Healthy, Cacheable}
use utxo_z.Resolve.{Resolution, resolved, settle, probe_all, resolve}

-- The answer is not an error.
abbrev pub IsResolved : {K V : Type 0} → Resolution K V → Type 0
IsResolved {K} {V} x =
    (found : List (K × V)) × (absent : List (Request K)) × (x ≡ resolved found absent)

module _ {K V : Type 0} ⦃key : Key K⦄ (F : FlatMap K V) (s : Store K F.Map) (faults : Faults)
    (healthy : Healthy faults) where
  probe_file-complete :
      (c v : ℕ) (w : Resolving K V)
      → is_some (s.file c v) ≡ true
      → w.complete ≡ true
      → (probe_file F s faults c v w).complete ≡ true
  unfolding probe_file probe_opened
  probe_file-complete c v w has ok =
      let (m, e) = some-is (s.file c v) has in rw (healthy.opens c v, e) ok

  probe_versions-complete :
      (seen : List FileId) (c : ℕ) (vs : List ℕ) (w : Resolving K V)
      → ((v : ℕ) → contains vs v ≡ true → is_some (s.file c v) ≡ true)
      → w.complete ≡ true
      → (probe_versions F s faults seen c vs w).complete ≡ true
  unfolding probe_versions contains
  probe_versions-complete seen c [] w there ok = ok
  probe_versions-complete seen c (v ∷ vs) w there ok = elim (Bool-cases (is_empty w.pending)) [
    | inl e ↦ rw e ok
    | inr e ↦ rw e (elim (Bool-cases (file_in seen (c, v))) [
      | inl hit ↦ rw hit (probe_versions-complete seen c vs w later ok)
      | inr miss ↦ rw miss (
          probe_versions-complete seen c vs (probe_file F s faults c v w) later
            (probe_file-complete c v w (there v (rw (==_refl v))) ok))
    ])
  ]
    where
      later : (u : ℕ) → contains vs u ≡ true → is_some (s.file c u) ≡ true
      later u h = there u (or_true_right (v == u) (contains vs u) h)

  probe_classes-complete :
      (seen : List FileId) (cs : List ℕ) (w : Resolving K V)
      → ((c v : ℕ)
          → contains cs c ≡ true
          → contains (below (s.catalog c) (s.current c)) v ≡ true
          → is_some (s.file c v) ≡ true)
      → w.complete ≡ true
      → (probe_classes F s faults seen cs w).complete ≡ true
  unfolding probe_classes contains
  probe_classes-complete seen [] w there ok = ok
  probe_classes-complete seen (c ∷ cs) w there ok = elim (Bool-cases (is_empty w.pending)) [
    | inl e ↦ rw e ok
    | inr e ↦
        rw (e, healthy.lists c)
          (probe_classes-complete seen cs
            (probe_versions F s faults seen c (below (s.catalog c) (s.current c)) w)
            (λ d v in_. there d v (or_true_right (c == d) (contains cs d) in_))
            (probe_versions-complete seen c (below (s.catalog c) (s.current c)) w
              (λ v h. there c v (rw (==_refl c)) h) ok))
  ]

  probe_cached_file-complete :
      (mode : Mode) (a : FileId) (w : Resolving K V)
      → Cacheable F faults healthy s mode a
      → w.complete ≡ true
      → (probe_cached_file F s faults mode a w).complete ≡ true
  unfolding probe_cached_file
  probe_cached_file-complete full a w (inl e) ok = rw ((==_iff a.0 reference_sentinel_index).1 e) ok
  probe_cached_file-complete full a w (inr (small, has)) ok =
      elim (Bool-cases (a.0 == reference_sentinel_index)) [
        | inl e ↦ rw e ok
        | inr other ↦ rw (other, small) (probe_file-complete a.0 a.1 w has ok)
      ]
  probe_cached_file-complete reference a w (inl other) ok = rw other ok
  probe_cached_file-complete reference a w (inr has) ok =
      elim (Bool-cases (a.0 == reference_sentinel_index)) [
        | inl e ↦ rw e (probe_file-complete a.0 a.1 w has ok)
        | inr other ↦ rw other ok
      ]

  probe_cached-complete :
      (mode : Mode) (files : List FileId) (w : Resolving K V)
      → All (Cacheable F faults healthy s mode) files
      → w.complete ≡ true
      → (probe_cached F s faults mode files w).complete ≡ true
  unfolding probe_cached
  probe_cached-complete mode [] w all ok = ok
  probe_cached-complete mode (a ∷ as_) w all ok = elim (Bool-cases (is_empty w.pending)) [
    | inl e ↦ rw e ok
    | inr e ↦ rw e (
        probe_cached-complete mode as_ (probe_cached_file F s faults mode a w) all.1
          (probe_cached_file-complete mode a w all.0 ok))
  ]

  settle-IsResolved : (w : Resolving K V) → w.complete ≡ true → IsResolved (settle F s faults w)
  unfolding settle
  settle-IsResolved w ok = rw ok (w.found, w.pending, refl)

  -- When every file opens, every catalogue is listed, and the files that are cached or listed exist,
  -- a resolution does not fail.
  pub resolve-IsResolved :
      (mode : Mode) (cached : List FileId) (requests : List (Request K))
      → All (Cacheable F faults healthy s mode) cached
      → ((c v : ℕ)
          → contains (classes mode) c ≡ true
          → contains (below (s.catalog c) (s.current c)) v ≡ true
          → is_some (s.file c v) ≡ true)
      → IsResolved (resolve F s faults mode cached requests)
  unfolding resolve probe_all
  resolve-IsResolved mode cached requests in_cache there = elim (Bool-cases (is_empty requests)) [
    | inl e ↦ rw e ([], [], refl)
    | inr e ↦ rw e (
        settle-IsResolved _ (
          probe_classes-complete cached (classes mode) _ there (
            probe_cached-complete mode (sort_files cached) _
              (sort_files-All (Cacheable F faults healthy s mode) cached in_cache) refl)))
  ]
