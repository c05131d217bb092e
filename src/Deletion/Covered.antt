-- ===== src/Deletion/Covered.antt =====
-- Which files the walks over the cached and the listed files visit.
use utxo_z.Common.{
  ℕ, ◌≡◌, sym, ◌∙◌, ap, true, false, ◌&&◌, List, [], ◌∷◌, Bool-cases, inl, inr, arith, ◌⊎◌, ◌==◌,
  ==_iff, ltb,
}
use mathlib.Core.Path.{subst}
use utxo_z.Sidecar.{contains}
use utxo_z.FlatMap.{Key, FlatMap}
use utxo_z.Errors.{catalog_unreadable}
use utxo_z.Catalog.{below}
use utxo_z.Deletion.{
  FileId, Sweeping, Faults, Mode, full, reference, classes, container_count,
  reference_sentinel_index, is_empty, file_in, same_file,
}
use utxo_z.Deletion.Batch.{erase_in_file, walk, walk_cached, walk_versions, walk_classes}
use utxo_z.Deletion.Walk.{Place, behind}
use utxo_z.Deletion.Sweep.{Moved, Moved-refl}
use utxo_z.Deletion.Files.{
  Walked, Walked-trans, Walked-weaken, empty-Walked, incomplete-Walked, failed-Walked,
  erase_in_file-Walked,
}

module _ {K V : Type 0} ⦃key : Key K⦄ (F : FlatMap K V) (cs : List ℕ) where
  -- A step over nothing, where nothing had to be visited.
  nothing-Walked :
      (w : Sweeping K F.Map) (Q : Place → Type 0) → ((p : Place) → ¬ Q p) → Walked F cs w w Q
  nothing-Walked w Q h = record { moved = Moved-refl F cs w; clear = λ done p q. absurd (h p q) }

  abbrev pub Listed : List FileId → ℕ → List ℕ → Place → Type 0
  Listed seen c vs p =
      (v : ℕ) × (p ≡ behind c v) × (contains vs v ≡ true) × (file_in seen (c, v) ≡ false)

  pub walk_versions-Walked :
      (faults : Faults) (seen : List FileId) (c : ℕ) (vs : List ℕ) (w : Sweeping K F.Map)
      → Walked F cs w (walk_versions F faults seen c vs w) (Listed seen c vs)
  unfolding walk_versions contains
  walk_versions-Walked faults seen c [] w = nothing-Walked w (Listed seen c []) (λ p q. cc (q.2))
  walk_versions-Walked faults seen c (v ∷ vs) w = elim (Bool-cases (is_empty w.pending)) [
    | inl e ↦ rw e (empty-Walked F cs w (Listed seen c (v ∷ vs)) e)
    | inr e ↦ rw e (elim (Bool-cases (file_in seen (c, v))) [
      | inl hit ↦ rw hit (
          Walked-weaken F cs w (walk_versions F faults seen c vs w) (Listed seen c vs)
            (Listed seen c (v ∷ vs))
            (λ p q. elim (Bool-cases (v == q.0)) [
              | inl this ↦
                  let vu : v ≡ q.0 = (==_iff v q.0).0 this in
                  let seen_v : file_in seen (c, q.0) ≡ true =
                    ap (λ n. file_in seen (c, n)) (sym vu) ∙ hit in
                  cc (seen_v, q.3)
              | inr other ↦ (q.0, q.1, rw other at (q.2), q.3)
            ])
            (walk_versions-Walked faults seen c vs w))
      | inr miss ↦ rw miss (
          let x = erase_in_file F faults c v w in
          Walked-weaken F cs w (walk_versions F faults seen c vs x)
            (λ p. (p ≡ behind c v) ⊎ Listed seen c vs p) (Listed seen c (v ∷ vs))
            (λ p q. elim (Bool-cases (v == q.0)) [
              | inl this ↦ inl (q.1 ∙ ap (behind c) (sym ((==_iff v q.0).0 this)))
              | inr other ↦ inr (q.0, q.1, rw other at (q.2), q.3)
            ])
            (Walked-trans F cs w x (walk_versions F faults seen c vs x) (λ p. p ≡ behind c v)
              (Listed seen c vs) (erase_in_file-Walked F cs faults c v w)
              (walk_versions-Walked faults seen c vs x)))
    ])
  ]

  abbrev Own : Mode → FileId → Place → Type 0
  Own mode a p = (p ≡ behind a.0 a.1) × (contains (classes mode) a.0 ≡ true)

  walk-Walked :
      (mode : Mode) (faults : Faults) (a : FileId) (w : Sweeping K F.Map)
      → Walked F cs w (walk F mode faults a w) (Own mode a)
  unfolding walk contains
  walk-Walked reference faults a w = elim (Bool-cases (a.0 == reference_sentinel_index)) [
    | inl this ↦ rw this (
        Walked-weaken F cs w (erase_in_file F faults a.0 a.1 w) (λ p. p ≡ behind a.0 a.1)
          (Own reference a) (λ p q. q.0) (erase_in_file-Walked F cs faults a.0 a.1 w))
    | inr other ↦ rw other (nothing-Walked w (Own reference a) (λ p q. no a.0 other (q.1)))
  ]
    where
      no :
          (n : ℕ)
          → (n == reference_sentinel_index) ≡ false
          → ¬ (contains (classes reference) n ≡ true)
      no n h q = ground arith
  walk-Walked full faults a w = elim (Bool-cases (a.0 == reference_sentinel_index)) [
    | inl this ↦ rw this (nothing-Walked w (Own full a) (λ p q. no a.0 this (q.1)))
    | inr other ↦ rw other (elim (Bool-cases (ltb a.0 container_count)) [
      | inl small ↦ rw small (
          Walked-weaken F cs w (erase_in_file F faults a.0 a.1 w) (λ p. p ≡ behind a.0 a.1)
            (Own full a) (λ p q. q.0) (erase_in_file-Walked F cs faults a.0 a.1 w))
      | inr big ↦ rw big (incomplete-Walked F cs w (Own full a))
    ])
  ]
    where
      no : (n : ℕ) → (n == reference_sentinel_index) ≡ true → ¬ (contains (classes full) n ≡ true)
      no n h q = ground arith

  abbrev pub Cached : Mode → List FileId → Place → Type 0
  Cached mode files p = (a : FileId) × (file_in files a ≡ true) × Own mode a p

  pub walk_cached-Walked :
      (mode : Mode) (faults : Faults) (files : List FileId) (w : Sweeping K F.Map)
      → Walked F cs w (walk_cached F mode faults files w) (Cached mode files)
  unfolding walk_cached file_in same_file
  walk_cached-Walked mode faults [] w = nothing-Walked w (Cached mode []) (λ p q. cc (q.1))
  walk_cached-Walked mode faults (a ∷ as_) w = elim (Bool-cases (is_empty w.pending)) [
    | inl e ↦ rw e (empty-Walked F cs w (Cached mode (a ∷ as_)) e)
    | inr e ↦ rw e (
        let x = walk F mode faults a w in
        Walked-weaken F cs w (walk_cached F mode faults as_ x)
          (λ p. Own mode a p ⊎ Cached mode as_ p) (Cached mode (a ∷ as_))
          (λ p q. elim (Bool-cases (same_file a q.0)) [
            | inl this ↦ inl (subst (λ b. Own mode b p) (sym (same_file-true a q.0 this)) q.2)
            | inr other ↦ inr (q.0, rw other at (q.1), q.2)
          ])
          (Walked-trans F cs w x (walk_cached F mode faults as_ x) (Own mode a) (Cached mode as_)
            (walk-Walked mode faults a w) (walk_cached-Walked mode faults as_ x)))
  ]
    where
      same_file-true : (b d : FileId) → same_file b d ≡ true → b ≡ d
      same_file-true (c, v) (d, u) h = let (p, q) = both c v d u h in cc (p, q)
        where
          both : (c v d u : ℕ) → (c == d && v == u) ≡ true → (c ≡ d) × (v ≡ u)
          both c v d u h = ground arith

  pub Moved-below :
      (w x : Sweeping K F.Map) (c : ℕ)
      → Moved F cs w x
      → below (x.store.catalog c) (x.store.current c)
        ≡ below (w.store.catalog c) (w.store.current c)
  unfolding below
  Moved-below w x c a = rw (a.versions c, a.current)

  abbrev pub Behind : List FileId → List ℕ → (ℕ → List ℕ) → Place → Type 0
  Behind seen ds listed p = (c : ℕ) × (contains ds c ≡ true) × Listed seen c (listed c) p

  pub walk_classes-Walked :
      (faults : Faults) (seen : List FileId) (ds : List ℕ) (listed : ℕ → List ℕ)
      (w : Sweeping K F.Map)
      → ((c : ℕ) → below (w.store.catalog c) (w.store.current c) ≡ listed c)
      → Walked F cs w (walk_classes F faults seen ds w) (Behind seen ds listed)
  unfolding walk_classes contains
  walk_classes-Walked faults seen [] listed w h =
      nothing-Walked w (Behind seen [] listed) (λ p q. cc (q.1))
  walk_classes-Walked faults seen (c ∷ ds) listed w h = elim (Bool-cases (is_empty w.pending)) [
    | inl e ↦ rw e (empty-Walked F cs w (Behind seen (c ∷ ds) listed) e)
    | inr e ↦ rw e (elim (Bool-cases (faults.lists c)) [
      | inl lists ↦ rw lists (
          let x = walk_versions F faults seen c (below (w.store.catalog c) (w.store.current c)) w in
          let first : Walked F cs w x (Listed seen c (listed c)) =
            subst (λ vs. Walked F cs w x (Listed seen c vs)) (h c)
              (walk_versions-Walked faults seen c (below (w.store.catalog c) (w.store.current c))
                w) in
          Walked-weaken F cs w (walk_classes F faults seen ds x)
            (λ p. Listed seen c (listed c) p ⊎ Behind seen ds listed p)
            (Behind seen (c ∷ ds) listed) (λ p q. split p q)
            (Walked-trans F cs w x (walk_classes F faults seen ds x) (Listed seen c (listed c))
              (Behind seen ds listed) first
              (walk_classes-Walked faults seen ds listed x
                (λ d. Moved-below w x d first.moved ∙ h d))))
      | inr refused ↦ rw refused (
          let x : Sweeping K F.Map = record w { complete = false; failure = catalog_unreadable } in
          Walked-weaken F cs w (walk_classes F faults seen ds x)
            (λ p. Behind seen (c ∷ ds) listed p ⊎ Behind seen ds listed p)
            (Behind seen (c ∷ ds) listed) (λ p q. inl q)
            (Walked-trans F cs w x (walk_classes F faults seen ds x) (Behind seen (c ∷ ds) listed)
              (Behind seen ds listed)
              (failed-Walked F cs w catalog_unreadable (Behind seen (c ∷ ds) listed))
              (walk_classes-Walked faults seen ds listed x h)))
    ])
  ]
    where
      split :
          (p : Place)
          → Behind seen (c ∷ ds) listed p
          → Listed seen c (listed c) p ⊎ Behind seen ds listed p
      split p (d, in_, q) = elim (Bool-cases (c == d)) [
        | inl this ↦ inl (subst (λ n. Listed seen n (listed n) p) (sym ((==_iff c d).0 this)) q)
        | inr other ↦ inr (d, rw other at in_, q)
      ]
