-- ===== src/Resolve/Probe.antt =====
-- What probing files does to a batch of lookups, and which files it leaves without a pending key.
use utxo_z.Common.{
  ℕ, ◌≡◌, refl, sym, ◌∙◌, ap, true, false, List, [], ◌∷◌, ◌++◌, Option, none, some, Bool-cases,
  Option-cases, inl, inr, ◌⊎◌, All,
}
use mathlib.Core.Path.{subst}
use mathlib.Core.List.{Perm, perm_middle, append_assoc}
use mathlib.Core.List.Perm
use utxo_z.Errors.{ErrorCode}
use utxo_z.FlatMap.{Key, FlatMap}
use utxo_z.Deletion.{Request, FileId, Store, Faults, is_empty}
use utxo_z.Deletion.Opened.{All-append}
use utxo_z.Deletion.Erases.{empty-All}
use utxo_z.Resolve.{Resolving, probe_one, probe_map, incomplete, probe_opened, probe_file}

abbrev pub request_keys : {K : Type 0} → List (Request K) → List K
request_keys [] = []
request_keys (r ∷ rs) = r.key ∷ request_keys rs

module _ {K V : Type 0} where
  abbrev pub found_keys : List (K × V) → List K
  found_keys [] = []
  found_keys (x ∷ xs) = x.0 ∷ found_keys xs

  found_keys-append :
      (xs ys : List (K × V)) → found_keys (xs ++ ys) ≡ found_keys xs ++ found_keys ys
  found_keys-append [] ys = refl
  found_keys-append (x ∷ xs) ys = ap (λ ks. x.0 ∷ ks) (found_keys-append xs ys)

module _ {K V : Type 0} ⦃key : Key K⦄ (F : FlatMap K V) (s : Store K F.Map) (faults : Faults) where
  -- An answer that stands in some file.
  abbrev pub Stored : K × V → Type 0
  Stored x = (c : ℕ) × (v : ℕ) × (m : F.Map) × (s.file c v ≡ some m) × (F.find m x.0 ≡ some x.1)

  -- No pending key is in a file.
  abbrev pub Clear : FileId → Resolving K V → Type 0
  Clear a w = (m : F.Map) → s.file a.0 a.1 ≡ some m → All (λ r. F.find m r.key ≡ none) w.pending

  abbrev pub keys_of : Resolving K V → List K
  keys_of w = found_keys w.found ++ request_keys w.pending

  -- What a step does, and which files hold no pending key if all went well.
  pub record Probed (w x : Resolving K V) (Q : FileId → Type 0) : Type 1 where
    pub perm : Perm (keys_of x) (keys_of w)
    pub keeps : (P : Request K → Type 0) → All P w.pending → All P x.pending
    pub stored : All Stored w.found → All Stored x.found
    pub complete : x.complete ≡ true → w.complete ≡ true
    pub clear : x.complete ≡ true → (a : FileId) → Q a → Clear a x

  pub Probed-trans :
      (w x y : Resolving K V) (P Q R : FileId → Type 0)
      → ((a : FileId) → R a → P a ⊎ Q a)
      → Probed w x P
      → Probed x y Q
      → Probed w y R
  Probed-trans w x y P Q R h a b = record {
    perm = Perm.trans b.perm a.perm;
    keeps = λ C all. b.keeps C (a.keeps C all);
    stored = λ all. b.stored (a.stored all);
    complete = λ ok. a.complete (b.complete ok);
    clear = λ ok f r. elim (h f r) [
      | inl p ↦ λ m at. b.keeps (λ q. F.find m q.key ≡ none) (a.clear (b.complete ok) f p m at)
      | inr q ↦ b.clear ok f q
    ];
  }

  pub weaken :
      (w x : Resolving K V) (P Q : FileId → Type 0)
      → ((a : FileId) → Q a → P a)
      → Probed w x P
      → Probed w x Q
  weaken w x P Q h a = record {
    perm = a.perm;
    keeps = a.keeps;
    stored = a.stored;
    complete = a.complete;
    clear = λ ok f q. a.clear ok f (h f q);
  }

  -- A step that changes nothing, where every file asked about is clear.
  still-Probed :
      (w : Resolving K V) (Q : FileId → Type 0) → ((a : FileId) → Q a → Clear a w) → Probed w w Q
  still-Probed w Q h = record {
    perm = Perm.refl (keys_of w);
    keeps = λ P all. all;
    stored = λ all. all;
    complete = λ ok. ok;
    clear = λ ok. h;
  }

  pub failed-Probed :
      (w : Resolving K V) (e : ErrorCode) (Q : FileId → Type 0)
      → Probed w (record w { complete = false; failure = e }) Q
  failed-Probed w e Q = record {
    perm = Perm.refl (keys_of w);
    keeps = λ P all. all;
    stored = λ all. all;
    complete = λ ok. cc ok;
    clear = λ ok. cc ok;
  }

  probe_map-perm :
      (m : F.Map) (rs : List (Request K))
      → Perm (keys_of (probe_map F s faults m rs)) (request_keys rs)
  unfolding probe_map probe_one
  probe_map-perm m [] = Perm.refl []
  probe_map-perm m (r ∷ rs) = one (F.find m r.key) (probe_map F s faults m rs) (probe_map-perm m rs)
    where
      one :
          (o : Option V) (x : Resolving K V)
          → Perm (keys_of x) (request_keys rs)
          → Perm (keys_of (probe_one F s faults r o x)) (r.key ∷ request_keys rs)
      one none x p =
          Perm.trans (perm_middle (found_keys x.found) (request_keys x.pending)) (Perm.cons r.key p)
      one (some v) x p = Perm.cons r.key p

  probe_map-keeps :
      (m : F.Map) (rs : List (Request K)) (P : Request K → Type 0)
      → All P rs
      → All P (probe_map F s faults m rs).pending
  unfolding probe_map probe_one
  probe_map-keeps m [] P all = tt
  probe_map-keeps m (r ∷ rs) P all = elim (Option-cases (F.find m r.key)) [
    | inl e ↦ rw e (all.0, probe_map-keeps m rs P all.1)
    | inr (v, e) ↦ rw e (probe_map-keeps m rs P all.1)
  ]

  probe_map-clear :
      (m : F.Map) (rs : List (Request K))
      → All (λ r. F.find m r.key ≡ none) (probe_map F s faults m rs).pending
  unfolding probe_map probe_one
  probe_map-clear m [] = tt
  probe_map-clear m (r ∷ rs) = elim (Option-cases (F.find m r.key)) [
    | inl e ↦ rw e (e, probe_map-clear m rs)
    | inr (v, e) ↦ rw e (probe_map-clear m rs)
  ]

  probe_map-stored :
      (c v : ℕ) (m : F.Map) (rs : List (Request K))
      → s.file c v ≡ some m
      → All Stored (probe_map F s faults m rs).found
  unfolding probe_map probe_one
  probe_map-stored c v m [] at = tt
  probe_map-stored c v m (r ∷ rs) at = elim (Option-cases (F.find m r.key)) [
    | inl e ↦ rw e (probe_map-stored c v m rs at)
    | inr (x, e) ↦ rw e ((c, v, m, at, e), probe_map-stored c v m rs at)
  ]

  probe_opened-Probed :
      (c v : ℕ) (o : Option F.Map) (w : Resolving K V)
      → s.file c v ≡ o
      → Probed w (probe_opened F s faults o w) (λ a. a ≡ (c, v))
  unfolding probe_opened incomplete
  probe_opened-Probed c v none w at = failed-Probed w w.failure (λ a. a ≡ (c, v))
  probe_opened-Probed c v (some m) w at =
      let x = probe_map F s faults m w.pending in
      record {
        perm =
            subst (λ ks. Perm ks (keys_of w))
              (sym (
                ap (λ ks. ks ++ request_keys x.pending) (found_keys-append w.found x.found)
                ∙ append_assoc (found_keys w.found) (found_keys x.found) (request_keys x.pending)))
              (Perm.append_left (found_keys w.found) (probe_map-perm m w.pending));
        keeps = probe_map-keeps m w.pending;
        stored = λ all. All-append Stored w.found x.found all (probe_map-stored c v m w.pending at);
        complete = λ ok. ok;
        clear = λ ok a is n here.
            let this : some m ≡ some n =
              sym at ∙ ap (λ (b : FileId). s.file b.0 b.1) (sym is) ∙ here in
            subst
              (λ y. elim y [ some z ↦ All (λ r. F.find z r.key ≡ none) x.pending | none ↦ Unit ])
              this (probe_map-clear m w.pending);
      }

  pub probe_file-Probed :
      (c v : ℕ) (w : Resolving K V) → Probed w (probe_file F s faults c v w) (λ a. a ≡ (c, v))
  unfolding probe_file incomplete
  probe_file-Probed c v w = elim (Bool-cases (faults.opens c v)) [
    | inl opens ↦ rw opens (probe_opened-Probed c v (s.file c v) w refl)
    | inr shut ↦ rw shut (failed-Probed w w.failure (λ a. a ≡ (c, v)))
  ]

  -- With nothing pending every file is clear.
  pub empty-Probed :
      (w : Resolving K V) (Q : FileId → Type 0) → is_empty w.pending ≡ true → Probed w w Q
  empty-Probed w Q e =
      still-Probed w Q (λ a q m at. empty-All (λ r. F.find m r.key ≡ none) w.pending e)

  pub unasked-Probed :
      (w : Resolving K V) (Q : FileId → Type 0) → ((a : FileId) → ¬ Q a) → Probed w w Q
  unasked-Probed w Q h = still-Probed w Q (λ a q. absurd (h a q))
