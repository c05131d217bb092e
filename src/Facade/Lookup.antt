-- ===== src/Facade/Lookup.antt =====
-- A lookup as a caller makes it: `find`, and where that is not resolved, `resolve`.
use utxo_z.Common.{
  ℕ, ◌≡◌, ◌≢◌, ◌⊎◌, refl, sym, ◌∙◌, Bool, true, false, List, [], ◌∷◌, Option, none, some,
  if◌then◌else◌, Bool-cases, Option-cases, inl, inr, All, ==_iff, ==_refl, ◌==◌,
}
use mathlib.Core.Path.{subst}
use mathlib.Core.HLevel.{¬_prop}
use mathlib.Core.List.Perm
use mathlib.Core.List.{mem-append, mem-cons_self}
use mathlib.Core.Logic.Or
use utxo_z.Errors.{ErrorCode, not_resolved}
use utxo_z.Io.{Attempt, ok, err}
use utxo_z.Sidecar.{contains}
use utxo_z.FlatMap.{Key, FlatMap}
use utxo_z.Merge.View.{ContentOf}
use utxo_z.Deletion.{
  Request, FileId, Mode, classes, Store, Faults, working_set_of, first_seen, key_in,
}
use utxo_z.Deletion.Sweep.{maps}
use utxo_z.Deletion.Walk.{Place, open_version, behind}
use utxo_z.Deletion.Working.{All-Mem, or_true_right}
use utxo_z.Deletion.Outcome.{Filed}
use utxo_z.Deletion.Removed.{never-none}
use utxo_z.Resolve.{Resolution, resolved, failed, resolve}
use utxo_z.Resolve.Probe.{request_keys, found_keys}
use utxo_z.Resolve.Outcome.{Answers, answered, refused, resolve-Answers}
use utxo_z.Facade.{
  Handle, Latches, usable, then_test, find_in_latest, first_of, or_not_resolved, db_find,
  outcome_of, db_resolve,
}

module _ {K V : Type 0} ⦃key : Key K⦄ (F : FlatMap K V) (mode : Mode) (faults : Faults)
    (cached : List FileId) where
  -- The value of a key in what a resolution found.
  unfoldable pub found_for : K → List (K × V) → Option V
  found_for k [] = none
  found_for k (x ∷ xs) = if key.beq x.0 k then some x.1 else found_for k xs

  unfoldable pub is_not_resolved : ErrorCode → Bool
  is_not_resolved e = elim e [ not_resolved ↦ true | _ ↦ false ]

  unfoldable pub answer_of : K → Attempt (List (K × V) × List (Request K)) → Attempt (Option V)
  answer_of k (ok x) = ok (found_for k x.0)
  answer_of k (err e) = err e

  unfoldable pub resolve_after :
      Request K → Option (Handle (Store K F.Map)) → Attempt V → Attempt (Option V)
  resolve_after r h (ok v) = ok (some v)
  resolve_after r h (err e) =
      if is_not_resolved e
      then answer_of r.key (db_resolve F mode faults cached (r ∷ []) h)
      else err e

  -- The use that the documentation of `find` shows.
  unfoldable pub lookup_key : Request K → Option (Handle (Store K F.Map)) → Attempt (Option V)
  lookup_key r h = resolve_after r h (db_find F mode faults cached r.key h)

  find_in_latest-some :
      (cs : List ℕ) (s : Store K F.Map) (k : K) (v : V)
      → find_in_latest F mode faults cached cs s k ≡ some v
      → (c : ℕ) × (contains cs c ≡ true) × (F.find (s.active c) k ≡ some v)
  unfolding find_in_latest contains first_of
  find_in_latest-some [] s k v e = cc e
  find_in_latest-some (c ∷ cs) s k v e = elim (Option-cases (F.find (s.active c) k)) [
    | inr (w, has) ↦ let this : some w ≡ some v = rw has at e in (c, rw (==_refl c), has ∙ this)
    | inl missing ↦
        let (d, in_, has) = find_in_latest-some cs s k v (rw missing at e) in
        (d, or_true_right (c == d) (contains cs d) in_, has)
  ]

  find_in_latest-none :
      (cs : List ℕ) (s : Store K F.Map) (k : K)
      → find_in_latest F mode faults cached cs s k ≡ none
      → (c : ℕ) → contains cs c ≡ true
      → F.find (s.active c) k ≡ none
  unfolding find_in_latest contains first_of
  find_in_latest-none [] s k e c in_ = cc in_
  find_in_latest-none (d ∷ cs) s k e c in_ = elim (Option-cases (F.find (s.active d) k)) [
    | inr (w, has) ↦ let this : some w ≡ none = rw has at e in cc this
    | inl missing ↦ elim (Bool-cases (d == c)) [
      | inl this ↦ subst (λ n. F.find (s.active n) k ≡ none) ((==_iff d c).0 this) missing
      | inr other ↦ find_in_latest-none cs s k (rw missing at e) c (rw other at in_)
    ]
  ]

  found_for-some :
      (k : K) (v : V) (P : K → V → Type 0) (xs : List (K × V))
      → All (λ x. P x.0 x.1) xs
      → found_for k xs ≡ some v
      → P k v
  unfolding found_for
  found_for-some k v P [] all e = cc e
  found_for-some k v P (x ∷ xs) all e = elim (Bool-cases (key.beq x.0 k)) [
    | inl hit ↦
        let this : some x.1 ≡ some v = rw hit at e in
        let here : P k x.1 = subst (λ j. P j x.1) ((key.beq_iff x.0 k).0 hit) all.0 in
        subst (λ o. elim o [ some y ↦ P k y | none ↦ Unit ]) this here
    | inr miss ↦ found_for-some k v P xs all.1 (rw miss at e)
  ]

  found_for-none :
      (k : K) (xs : List (K × V)) → found_for k xs ≡ none → All (λ j. j ≢ k) (found_keys xs)
  unfolding found_for
  found_for-none k [] e = tt
  found_for-none k (x ∷ xs) e = elim (Bool-cases (key.beq x.0 k)) [
    | inl hit ↦ let this : some x.1 ≡ none = rw hit at e in cc this
    | inr miss ↦ (
      (λ same. let hit : key.beq x.0 k ≡ true = (key.beq_iff x.0 k).1 same in cc (hit, miss)),
      found_for-none k xs (rw miss at e),
    )
  ]

  -- The content of the files behind the open versions: what no open version holds.
  abbrev hidden_by : Option V → Option V → Option V
  hidden_by (some v) x = none
  hidden_by none x = x

  abbrev behind_of : Store K F.Map → (K → Option V) → K → Option V
  behind_of s f k = hidden_by (find_in_latest F mode faults cached (classes mode) s k) (f k)

  module _ (s : Store K F.Map) (f : K → Option V)
      (holds : ContentOf F (maps F (classes mode) s) f) where
    -- A key of a file is in no open version.
    file_only :
        (c v : ℕ) (m : F.Map) (k : K) (w : V)
        → s.file c v ≡ some m
        → F.find m k ≡ some w
        → find_in_latest F mode faults cached (classes mode) s k ≡ none
    file_only c v m k w at has =
        elim (Option-cases (find_in_latest F mode faults cached (classes mode) s k)) [
          | inl e ↦ e
          | inr (x, e) ↦
              let (d, in_, there) = find_in_latest-some (classes mode) s k x e in
              let same =
                holds.apart (open_version d) (behind c v) (s.active d) m k x w (rw in_) at there
                  has in
              cc same
        ]

    behind-content : ContentOf F (λ (a : FileId). s.file a.0 a.1) (behind_of s f)
    behind-content = record {
      sound = λ a m k w at has.
          rw (file_only a.0 a.1 m k w at has) (holds.sound (behind a.0 a.1) m k w at has);
      complete = λ k w e.
          elim (Option-cases (find_in_latest F mode faults cached (classes mode) s k)) [
            | inr (x, hit) ↦ let this : none ≡ some w = rw hit at e in cc this
            | inl missing ↦
                let (p, m, at, has) = holds.complete k w (rw missing at e) in
                in_file k w m missing p at has
          ];
      apart = λ a b m n k v w at at' has has'.
          files_apart a b (holds.apart (behind a.0 a.1) (behind b.0 b.1) m n k v w at at' has has');
    }
      where
        files_apart : (a b : FileId) → behind a.0 a.1 ≡ behind b.0 b.1 → a ≡ b
        files_apart (c, v) (d, u) e = cc e

        in_file :
            (k : K) (w : V) (m : F.Map)
            → find_in_latest F mode faults cached (classes mode) s k ≡ none
            → (p : Place) → maps F (classes mode) s p ≡ some m
            → F.find m k ≡ some w
            → (a : FileId) × (n : F.Map) × (s.file a.0 a.1 ≡ some n) × (F.find n k ≡ some w)
        in_file k w m missing (behind c v) at has = ((c, v), m, at, has)
        in_file k w m missing (open_version c) at has =
            elim (Bool-cases (contains (classes mode) c)) [
              | inl in_ ↦
                  let this : some (s.active c) ≡ some m = rw in_ at at in
                  let none_here = find_in_latest-none (classes mode) s k missing c in_ in
                  cc (this, none_here, has)
              | inr out ↦ let this : none ≡ some m = rw out at at in cc this
            ]

    -- The answer of a resolution of one key.
    by_answer :
        (r : Request K) (filed : Filed F mode s) (x : Option V) (y : Resolution K V)
        → Answers F mode s faults cached (r ∷ []) (behind_of s f) behind-content filed y
        → answer_of r.key (outcome_of F mode faults cached y) ≡ ok x
        → x ≡ behind_of s f r.key
    unfolding answer_of outcome_of working_set_of first_seen key_in
    by_answer r filed x (failed e) (refused e') h = cc h
    by_answer r filed x (resolved found absent) (answered found' absent' perm sound missing) h =
        let this : found_for r.key found ≡ x = cc h in
        elim (Option-cases (found_for r.key found)) [
          | inr (v, e) ↦
              sym this
              ∙ e
              ∙ sym (found_for-some r.key v (λ j u. behind_of s f j ≡ some u) found sound e)
          | inl e ↦
              sym this
              ∙ e
              ∙ sym (
                  never-none F (behind_of s f r.key) (λ w.
                    Or.elim ¬_prop (mem-append.0 ((Perm.mem_iff perm).1 mem-cons_self))
                      (λ here. absurd (
                        All-Mem {P = λ j. j ≢ r.key} (λ j. ¬_prop) (found_keys found)
                          (found_for-none r.key found e) r.key here refl))
                      (λ away.
                        All-Mem {P = λ j. behind_of s f j ≢ some w} (λ j. ¬_prop)
                          (request_keys absent) (absent_none absent w missing) r.key away)))
        ]
      where
        absent_none :
            (rs : List (Request K)) (w : V)
            → All (λ q. behind_of s f q.key ≡ none) rs
            → All (λ j. behind_of s f j ≢ some w) (request_keys rs)
        absent_none [] w all = tt
        absent_none (q ∷ rs) w all = ((λ here. cc (all.0, here)), absent_none rs w all.1)

    answered-found :
        (r : Request K) (filed : Filed F mode s) (x : Option V)
        → find_in_latest F mode faults cached (classes mode) s r.key ≡ none
        → answer_of r.key
            (outcome_of F mode faults cached (resolve F s faults mode cached (r ∷ [])))
          ≡ ok x
        → x ≡ f r.key
    answered-found r filed x missing e =
        let same : behind_of s f r.key ≡ f r.key = rw missing in
        by_answer r filed x (resolve F s faults mode cached (r ∷ []))
          (resolve-Answers F mode s faults cached (r ∷ []) (behind_of s f) behind-content filed) e
        ∙ same

    -- For an open database that holds `f`, with its files filed in the catalogues: a lookup by `find`
    -- and, where that is not resolved, by `resolve`, either fails or answers what is stored.
    pub lookup_key_sound :
        (r : Request K) (l : Latches) (x : Option V)
        → Filed F mode s
        → lookup_key r (some (record { latches = l; store = s })) ≡ ok x
        → x ≡ f r.key
    unfolding lookup_key db_find db_resolve resolve_after then_test or_not_resolved is_not_resolved
        answer_of
    lookup_key_sound r l x filed e = elim (usable-cases (usable l)) [
      | inr (why, stopped) ↦
          let again : (if is_not_resolved why
                then answer_of r.key (
                    then_test (usable l)
                      (outcome_of F mode faults cached (resolve F s faults mode cached (r ∷ []))))
                else err why)
              ≡ ok x =
            rw stopped at e in
          let this : (if is_not_resolved why then answer_of r.key (err why) else err why) ≡ ok x =
            rw stopped at again in
          absurd (never_ok (is_not_resolved why) why this)
      | inl open_ ↦
          elim (Option-cases (find_in_latest F mode faults cached (classes mode) s r.key)) [
            | inr (v, hit) ↦
                let (c, in_, has) = find_in_latest-some (classes mode) s r.key v hit in
                let this : ok (some v) ≡ ok x = rw (open_, hit) at e in
                let is : f r.key ≡ some v =
                  holds.sound (open_version c) (s.active c) r.key v (rw in_) has in
                cc (this, is)
            | inl missing ↦
                let this : answer_of r.key (
                      then_test (usable l)
                        (outcome_of F mode faults cached (resolve F s faults mode cached (r ∷ []))))
                    ≡ ok x =
                  rw (open_, missing) at e in
                answered-found r filed x missing (rw open_ at this)
          ]
    ]
      where
        never_ok : (b : Bool) (why : ErrorCode) → ¬ ((if b then err why else err why) ≡ ok x)
        never_ok true why h = cc h
        never_ok false why h = cc h

        usable-cases : (a : Attempt Unit) → (a ≡ ok tt) ⊎ ((why : ErrorCode) × (a ≡ err why))
        usable-cases (ok u) = inl refl
        usable-cases (err why) = inr (why, refl)
