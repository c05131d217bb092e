-- ===== src/Deletion/Opened.antt =====
-- Phase 0 of a batch: the open versions, and what is pending after it.
use utxo_z.Common.{
  ℕ, ◌≡◌, refl, sym, ◌∙◌, Bool, true, false, ◌||◌, List, [], ◌∷◌, ◌++◌, Option, none, some,
  Bool-cases, inl, inr, All, ◌==◌, ==_iff, ==_refl, sub64,
}
use mathlib.Core.Path.{subst, fun_ext}
use utxo_z.Sidecar.{contains}
use utxo_z.FlatMap.{Key, FlatMap}
use utxo_z.Deletion.{Request, Store, Sweeping, is_some, set_at}
use utxo_z.Deletion.Batch.{count_off}
use utxo_z.Deletion.Erases.{update}
use utxo_z.Deletion.Walk.{Place, open_version, behind, same_place, places}
use utxo_z.Deletion.Sweep.{maps, Moved, Moved-refl, Moved-trans}
use utxo_z.Deletion.{erase_in_latest, erase_active}
use utxo_z.Deletion.Walk.{some-is, none-is}
use mathlib.Core.List.Perm
use mathlib.Core.List.{append_assoc, append-nil, perm_middle}
use utxo_z.Deletion.Erases.{stop, erase, All-map, if-none}

pub All-append :
    {A : Type 0} (P : A → Type 0) (xs ys : List A) → All P xs → All P ys → All P (xs ++ ys)
All-append P [] ys a b = b
All-append P (x ∷ xs) ys a b = (a.0, All-append P xs ys a.1 b)

All-drop_middle :
    {A : Type 0} (P : A → Type 0) (xs : List A) (y : A) (ys : List A)
    → All P (xs ++ (y ∷ ys))
    → All P (xs ++ ys)
All-drop_middle P [] y ys a = a.1
All-drop_middle P (x ∷ xs) y ys a = (a.0, All-drop_middle P xs y ys a.1)

module _ {K V : Type 0} ⦃key : Key K⦄ (F : FlatMap K V) where
  -- Where the erasure takes place.
  abbrev pub Taken : List ℕ → Store K F.Map → K → Store K F.Map → Type 0
  Taken cs s k t =
      (c : ℕ) × (v : V) × (contains cs c ≡ true)
      × (F.find (s.active c) k ≡ some v)
      × (t ≡ record s { active = set_at c (F.erase (s.active c) k) s.active })

  pub erase_in_latest-some :
      (cs : List ℕ) (s t : Store K F.Map) (k : K)
      → erase_in_latest F cs s k ≡ some t
      → Taken cs s k t
  unfolding erase_in_latest contains
  erase_in_latest-some [] s t k e = cc e
  erase_in_latest-some (c ∷ cs) s t k e = elim (Bool-cases (is_some (F.find (s.active c) k))) [
    | inl hit ↦
        let (v, has) = some-is (F.find (s.active c) k) hit in
        let this : some (record s { active = set_at c (F.erase (s.active c) k) s.active })
            ≡ some t =
          rw hit at e in
        (c, v, rw (==_refl c), has, cc this)
    | inr miss ↦
        let (d, v, in_, has, is) = erase_in_latest-some cs s t k (rw miss at e) in
        (d, v, or_right (c == d) (contains cs d) in_, has, is)
  ]
    where
      or_right : (a b : Bool) → b ≡ true → (a || b) ≡ true
      or_right true b h = refl
      or_right false b h = h

  erase_in_latest-none :
      (cs : List ℕ) (s : Store K F.Map) (k : K)
      → erase_in_latest F cs s k ≡ none
      → (c : ℕ) → contains cs c ≡ true
      → F.find (s.active c) k ≡ none
  unfolding erase_in_latest contains
  erase_in_latest-none [] s k e c in_ = cc in_
  erase_in_latest-none (d ∷ cs) s k e c in_ = elim (Bool-cases (is_some (F.find (s.active d) k))) [
    | inl hit ↦
        let this : some (record s { active = set_at d (F.erase (s.active d) k) s.active }) ≡ none =
          rw hit at e in
        cc this
    | inr miss ↦ elim (Bool-cases (d == c)) [
      | inl this ↦
          subst (λ n. F.find (s.active n) k ≡ none) ((==_iff d c).0 this)
            (none-is (F.find (s.active d) k) miss)
      | inr other ↦ erase_in_latest-none cs s k (rw miss at e) c (rw other at in_)
    ]
  ]

  module _ (cs : List ℕ) where
    abbrev taken : Request K → Store K F.Map → Sweeping K F.Map → Sweeping K F.Map
    taken r t w = record w {
      store = record t { entries_count = sub64 t.entries_count 1 };
      erased = w.erased ++ (r ∷ []);
    }

    taken-maps :
        (c : ℕ) (m : F.Map) (s : Store K F.Map) (n : ℕ)
        → contains cs c ≡ true
        → maps F cs (record s { active = set_at c m s.active; entries_count = n })
          ≡ update places (open_version c) m (maps F cs s)
    unfolding same_place set_at
    taken-maps c m s n in_ = fun_ext (λ p. at p)
      where
        at :
            (p : Place)
            → maps F cs (record s { active = set_at c m s.active; entries_count = n }) p
              ≡ update places (open_version c) m (maps F cs s) p
        at (open_version d) = elim (Bool-cases (c == d)) [
          | inl this ↦ rw (sym ((==_iff c d).0 this), ==_refl c, in_)
          | inr other ↦ rw other
        ]
        at (behind d v) = refl

    -- One request that an open version holds: it is taken from what is pending.
    taken-Moved :
        (r : Request K) (rs : List (Request K)) (w : Sweeping K F.Map) (t : Store K F.Map)
        → Taken cs w.store r.key t
        → Moved F cs
            (record w { pending = w.pending ++ (r ∷ rs) })
            (record (taken r t w) { pending = w.pending ++ rs })
    unfolding count_off
    taken-Moved r rs w t (c, v, in_, has, is) =
        subst
          (λ y.
            Moved F cs (record w { pending = w.pending ++ (r ∷ rs) })
              (record (taken r y w) { pending = w.pending ++ rs }))
          (sym is)
          (record {
            gone = r ∷ [];
            erased = refl;
            erases =
                erase r []
                  (maps F cs (record w.store {
                    active = set_at c (F.erase (w.store.active c) r.key) w.store.active;
                    entries_count = sub64 w.store.entries_count 1;
                  }))
                  (open_version c) (w.store.active c) v (rw in_) has
                  (stop (
                    taken-maps c (F.erase (w.store.active c) r.key) w.store
                      (sub64 w.store.entries_count 1) in_));
            perm = Perm.symm (perm_middle w.pending rs);
            keeps = λ P a. All-drop_middle P w.pending r rs a;
            complete = λ h. h;
            counted = refl;
            versions = λ d. refl;
            current = refl;
          })

    -- No open version holds a pending key.
    abbrev pub Ruled : Sweeping K F.Map → Type 0
    Ruled w =
        (c : ℕ) → contains cs c ≡ true → All (λ q. F.find (w.store.active c) q.key ≡ none) w.pending

    taken-Ruled :
        (r : Request K) (w : Sweeping K F.Map) (t : Store K F.Map)
        → Taken cs w.store r.key t
        → Ruled w
        → Ruled (taken r t w)
    unfolding set_at
    taken-Ruled r w t (c, v, in_, has, is) ruled d in_d =
        subst (λ y. All (λ q. F.find (y.active d) q.key ≡ none) w.pending) (sym is)
          (All-map w.pending
            (λ q z. elim (Bool-cases (c == d)) [
              | inl this ↦
                  let here : F.find (w.store.active c) q.key ≡ none =
                    subst (λ n. F.find (w.store.active n) q.key ≡ none) (sym ((==_iff c d).0 this))
                      z in
                  rw this (
                    F.find-erase (w.store.active c) r.key q.key
                    ∙ if-none (key.beq r.key q.key) (F.find (w.store.active c) q.key) here)
              | inr other ↦ rw other z
            ])
            (ruled d in_d))

    pub record Settled (w x : Sweeping K F.Map) : Type 1 where
      pub moved : Moved F cs w x
      pub ruled : Ruled x

    pub erase_active-Settled :
        (rs : List (Request K)) (w : Sweeping K F.Map)
        → Ruled w
        → Settled (record w { pending = w.pending ++ rs }) (erase_active F cs rs w)
    unfolding erase_active
    erase_active-Settled [] w ruled = record {
      moved =
          subst (λ ps. Moved F cs (record w { pending = ps }) w) (sym (append-nil w.pending))
            (Moved-refl F cs w);
      ruled = ruled;
    }
    erase_active-Settled (r ∷ rs) w ruled =
        next (erase_in_latest F cs w.store r.key) refl (λ x h. erase_active-Settled rs x h)
      where
        next :
            (o : Option (Store K F.Map))
            → erase_in_latest F cs w.store r.key ≡ o
            → ((x : Sweeping K F.Map)
                → Ruled x
                → Settled (record x { pending = x.pending ++ rs }) (erase_active F cs rs x))
            → Settled
                (record w { pending = w.pending ++ (r ∷ rs) })
                (elim o as (λ (y : Option (Store K F.Map)). Sweeping K F.Map) [
                  | some t ↦ erase_active F cs rs (taken r t w)
                  | none ↦ erase_active F cs rs (record w { pending = w.pending ++ (r ∷ []) })
                ])
        next (some t) e ih =
            let at = erase_in_latest-some cs w.store t r.key e in
            let rest = ih (taken r t w) (taken-Ruled r w t at ruled) in
            record {
              moved =
                  Moved-trans F cs (record w { pending = w.pending ++ (r ∷ rs) })
                    (record (taken r t w) { pending = w.pending ++ rs })
                    (erase_active F cs rs (taken r t w)) (taken-Moved r rs w t at) rest.moved;
              ruled = rest.ruled;
            }
        next none e ih =
            let y : Sweeping K F.Map = record w { pending = w.pending ++ (r ∷ []) } in
            let rest = ih y (λ c in_.
              All-append (λ q. F.find (w.store.active c) q.key ≡ none) w.pending (r ∷ [])
                (ruled c in_) (erase_in_latest-none cs w.store r.key e c in_, tt)) in
            record {
              moved =
                  subst (λ ps. Moved F cs (record w { pending = ps }) (erase_active F cs rs y))
                    (append_assoc w.pending (r ∷ []) rs) rest.moved;
              ruled = rest.ruled;
            }
