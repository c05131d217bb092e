-- ===== src/Deletion/Files.antt =====
-- The walk over the files behind the open versions: the maps, and the keys that are still pending.
use utxo_z.Common.{
  ℕ, zero, suc, ◌≡◌, refl, sym, ◌∙◌, ap, Bool, true, false, not, List, Option, none, some,
  Bool-cases, Option-cases, inl, inr, All, ◌⊎◌, ◌==◌, ==_iff, ==_refl,
}
use mathlib.Core.Path.{subst, fun_ext}
use utxo_z.FlatMap.{Key, FlatMap}
use utxo_z.Errors.{ErrorCode}
use utxo_z.Catalog.{Catalog, find_metadata, set_metadata}
use utxo_z.Metadata.{FileMetadata, update_on_delete}
use utxo_z.Deletion.{Stepped, Sweeping, Faults, is_empty, set_at, step_over_file}
use utxo_z.Deletion.Batch.{set_file, count_out, settle_file, incomplete, open_file, erase_in_file}
use utxo_z.Deletion.Erases.{update, Erases, empty-All}
use utxo_z.Deletion.Walk.{
  Place, open_version, behind, same_place, places, Passed, step_over_file-Passed,
}
use utxo_z.Deletion.Sweep.{
  maps, Clear, Moved, Moved-refl, Moved-trans, Moved-Clear, failed-Moved, and-left, and-right,
}

module _ {K : Type 0} ⦃key : Key K⦄ where
  pub count_out-versions :
      (n v : ℕ) (c : Catalog (FileMetadata K)) → (count_out n v c).versions ≡ c.versions
  unfolding count_out set_metadata
  count_out-versions zero v c = refl
  count_out-versions (suc n) v c =
      next (find_metadata c v) (λ m. count_out-versions n v (set_metadata c v (update_on_delete m)))
    where
      next :
          (o : Option (FileMetadata K))
          → ((m : FileMetadata K)
              → (count_out n v (set_metadata c v (update_on_delete m))).versions ≡ c.versions)
          → (elim o as (λ (x : Option (FileMetadata K)). Catalog (FileMetadata K)) [
            | none ↦ c
            | some m ↦ count_out n v (set_metadata c v (update_on_delete m))
          ]).versions
            ≡ c.versions
      next none ih = refl
      next (some m) ih = ih m

module _ {K V : Type 0} ⦃key : Key K⦄ (F : FlatMap K V) (cs : List ℕ) where
  settle_file-maps :
      (c v : ℕ) (x : Stepped K F.Map) (w : Sweeping K F.Map)
      → maps F cs (settle_file F c v x w).store
        ≡ update places (behind c v) x.map (maps F cs w.store)
  unfolding settle_file same_place set_file
  settle_file-maps c v x w = fun_ext at
    where
      at :
          (p : Place)
          → maps F cs (settle_file F c v x w).store p
            ≡ update places (behind c v) x.map (maps F cs w.store) p
      at (open_version d) = refl
      at (behind d u) = refl

  settle_file-Moved :
      (c v : ℕ) (m : F.Map) (x : Stepped K F.Map) (w : Sweeping K F.Map)
      → w.store.file c v ≡ some m
      → Passed F m w.pending x
      → Moved F cs w (settle_file F c v x w)
  unfolding settle_file set_at
  settle_file-Moved c v m x w at p = record {
    gone = x.applied;
    erased = refl;
    erases =
        subst (λ h. Erases F places (maps F cs w.store) x.applied h)
          (sym (settle_file-maps c v x w)) (p.erases (maps F cs w.store) (behind c v) at);
    perm = p.perm;
    keeps = p.keeps;
    complete = λ h. and-left w.complete (not x.thrown) h;
    counted = refl;
    versions = λ d. elim (Bool-cases (c == d)) [
      | inl hit ↦ rw hit (
          count_out-versions x.recorded v (w.store.catalog c)
          ∙ ap (λ n. (w.store.catalog n).versions) ((==_iff c d).0 hit))
      | inr miss ↦ rw miss
    ];
    current = refl;
  }

  settle_file-Clear :
      (c v : ℕ) (m : F.Map) (x : Stepped K F.Map) (w : Sweeping K F.Map)
      → Passed F m w.pending x
      → (settle_file F c v x w).complete ≡ true
      → Clear F cs (behind c v) (settle_file F c v x w)
  unfolding settle_file set_file
  settle_file-Clear c v m x w p done n at =
      let this : some x.map ≡ some n = rw (==_refl c, ==_refl v) at at in
      let cleared : All (λ r. F.find x.map r.key ≡ none) x.kept =
        p.clear (not_thrown x.thrown (and-right w.complete (not x.thrown) done)) in
      subst (λ y. elim y [ some z ↦ All (λ r. F.find z r.key ≡ none) x.kept | none ↦ Unit ]) this
        cleared
    where
      not_thrown : (b : Bool) → not b ≡ true → b ≡ false
      not_thrown false h = refl
      not_thrown true h = cc h

  -- What a step does, and where no pending key is left if the walk is still complete.
  pub record Walked (w x : Sweeping K F.Map) (Q : Place → Type 0) : Type 1 where
    pub moved : Moved F cs w x
    pub clear : x.complete ≡ true → (p : Place) → Q p → Clear F cs p x

  pub failed-Walked :
      (w : Sweeping K F.Map) (e : ErrorCode) (Q : Place → Type 0)
      → Walked w (record w { complete = false; failure = e }) Q
  failed-Walked w e Q = record { moved = failed-Moved F cs w e; clear = λ done. cc done }

  pub incomplete-Walked : (w : Sweeping K F.Map) (Q : Place → Type 0) → Walked w (incomplete F w) Q
  unfolding incomplete
  incomplete-Walked w Q = failed-Walked w w.failure Q

  pub Walked-trans :
      (w x y : Sweeping K F.Map) (P Q : Place → Type 0)
      → Walked w x P
      → Walked x y Q
      → Walked w y (λ p. P p ⊎ Q p)
  Walked-trans w x y P Q a b = record {
    moved = Moved-trans F cs w x y a.moved b.moved;
    clear = λ done p which. elim which [
      | inl l ↦ Moved-Clear F cs p x y b.moved (a.clear (b.moved.complete done) p l)
      | inr r ↦ b.clear done p r
    ];
  }

  pub Walked-weaken :
      (w x : Sweeping K F.Map) (P Q : Place → Type 0)
      → ((p : Place) → Q p → P p)
      → Walked w x P
      → Walked w x Q
  Walked-weaken w x P Q h a = record { moved = a.moved; clear = λ done p q. a.clear done p (h p q) }

  -- A batch with nothing pending has nothing to look for anywhere.
  pub empty-Walked :
      (w : Sweeping K F.Map) (Q : Place → Type 0) → is_empty w.pending ≡ true → Walked w w Q
  empty-Walked w Q e = record {
    moved = Moved-refl F cs w;
    clear = λ done p q m at. empty-All (λ r. F.find m r.key ≡ none) w.pending e;
  }

  pub erase_in_file-Walked :
      (faults : Faults) (c v : ℕ) (w : Sweeping K F.Map)
      → Walked w (erase_in_file F faults c v w) (λ p. p ≡ behind c v)
  unfolding erase_in_file open_file
  erase_in_file-Walked faults c v w = elim (Bool-cases (faults.opens c v)) [
    | inr shut ↦ rw shut (incomplete-Walked w (λ p. p ≡ behind c v))
    | inl opened ↦ rw opened (elim (Option-cases (w.store.file c v)) [
      | inl e ↦ rw e (incomplete-Walked w (λ p. p ≡ behind c v))
      | inr (m, e) ↦
          let passed = step_over_file-Passed F (faults.throws_after c v) m w.pending in
          let x = step_over_file F (faults.throws_after c v) m w.pending in
          rw e (record {
            moved = settle_file-Moved c v m x w e passed;
            clear = λ done p here.
                subst (λ q. Clear F cs q (settle_file F c v x w)) (sym here)
                  (settle_file-Clear c v m x w passed done);
          })
    ])
  ]
