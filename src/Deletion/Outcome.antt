-- ===== src/Deletion/Outcome.antt =====
-- What a batch of deletions answers, against the content of the store.
use utxo_z.Common.{
  ℕ, ◌≡◌, ◌≢◌, refl, sym, ◌∙◌, ap, true, false, List, [], ◌∷◌, ◌++◌, Option, none, some, Bool-cases,
  Option-cases, inl, inr, All, ◌⊎◌, length,
}
use mathlib.Core.Path.{subst}
use mathlib.Core.List.{Perm}
use mathlib.Core.List.Perm
use utxo_z.Sidecar.{contains}
use utxo_z.FlatMap.{Key, FlatMap}
use utxo_z.Catalog.{below}
use utxo_z.Deletion.{Request, FileId, Store, Sweeping, Faults, Mode, classes, is_empty, file_in}
use utxo_z.Deletion.Batch.{count_off, walk_cached, walk_classes}
use utxo_z.Deletion.Walk.{Place, open_version, behind, places}
use utxo_z.Deletion.Sweep.{maps, Clear, Moved, Moved-trans, Moved-Clear}
use mathlib.Core.List.{Pairwise, Pairwise-append, append-nil, Mem}
use mathlib.Core.HLevel.{¬_prop}
use utxo_z.Errors.{version_unreadable}
use utxo_z.Merge.View.{ContentOf}
use utxo_z.Deletion.{working_set_of, first_seen, sort_files, erase_active, DeletionProgress}
use utxo_z.Deletion.Batch.{classify, sweep, apply_deletes}
use utxo_z.Deletion.Erases.{
  minus, minus_other, Erases-ContentOf, Erases-found, Erases-shrinks, All-map,
}
use utxo_z.Deletion.Opened.{Settled, erase_active-Settled}
use utxo_z.Deletion.Covered.{Cached, Behind, walk_cached-Walked, walk_classes-Walked, Moved-below}
use utxo_z.Deletion.Files.{Walked}
use utxo_z.Deletion.Working.{
  OtherKeys, working_set_of-Pairwise, sort_files-file_in, All-Mem, Mem-All,
}

pub nil_of : {A : Type 0} (xs : List A) → is_empty xs ≡ true → xs ≡ []
unfolding is_empty
nil_of [] h = refl
nil_of (x ∷ xs) h = cc h

module _ {K V : Type 0} ⦃key : Key K⦄ (F : FlatMap K V) (mode : Mode) where
  -- Every file belongs to a class of the mode, and its catalogue lists it below the open version.
  abbrev pub Filed : Store K F.Map → Type 0
  Filed s =
      (c v : ℕ) (m : F.Map)
      → s.file c v ≡ some m
      → (contains (classes mode) c ≡ true) × (contains (below (s.catalog c) (s.current c)) v ≡ true)

module _ {K V : Type 0} ⦃key : Key K⦄ (F : FlatMap K V) (mode : Mode) (s : Store K F.Map) where
  abbrev opening : List (Request K) → Sweeping K F.Map
  opening rs = record {
    store = s;
    pending = rs;
    erased = [];
    complete = true;
    failure = version_unreadable;
  }

  pub record Swept (rs : List (Request K)) (x : Sweeping K F.Map) : Type 1 where
    pub moved : Moved F (classes mode) (opening rs) x
    pub clear : x.complete ≡ true → (p : Place) → Clear F (classes mode) p x

  module _ (faults : Faults) (cached : List FileId) (requests : List (Request K))
      (filed : Filed F mode s) where
    abbrev first : Sweeping K F.Map
    first = erase_active F (classes mode) (working_set_of requests) (opening [])

    abbrev second : Sweeping K F.Map
    second = walk_cached F mode faults (sort_files cached) first

    abbrev third : Sweeping K F.Map
    third = walk_classes F faults cached (classes mode) second

    abbrev listed : ℕ → List ℕ
    listed c = below (s.catalog c) (s.current c)

    phase0 : Settled F (classes mode) (opening (working_set_of requests)) first
    phase0 =
        erase_active-Settled F (classes mode) (working_set_of requests) (opening []) (λ c in_. tt)

    phase1 : Walked F (classes mode) first second (Cached F (classes mode) mode (sort_files cached))
    phase1 = walk_cached-Walked F (classes mode) mode faults (sort_files cached) first

    to_second : Moved F (classes mode) (opening (working_set_of requests)) second
    to_second =
        Moved-trans F (classes mode) (opening (working_set_of requests)) first second phase0.moved
          phase1.moved

    phase2 :
        Walked F (classes mode) second third (Behind F (classes mode) cached (classes mode) listed)
    phase2 =
        walk_classes-Walked F (classes mode) faults cached (classes mode) listed second
          (λ c. Moved-below F (classes mode) (opening (working_set_of requests)) second c to_second)

    to_third : Moved F (classes mode) (opening (working_set_of requests)) third
    to_third =
        Moved-trans F (classes mode) (opening (working_set_of requests)) second third to_second
          phase2.moved

    -- Every place that held a map at the start has been visited.
    visited : third.complete ≡ true → (p : Place) → Clear F (classes mode) p third
    visited done (open_version c) m at = elim (Bool-cases (contains (classes mode) c)) [
      | inl in_ ↦
          Moved-Clear F (classes mode) (open_version c) second third phase2.moved
            (Moved-Clear F (classes mode) (open_version c) first second phase1.moved
              (λ n here. ruled c in_ n (rw in_ at here)))
            m at
      | inr out ↦ let no : none ≡ some m = rw out at at in cc no
    ]
      where
        ruled :
            (c : ℕ)
            → contains (classes mode) c ≡ true
            → (n : F.Map) → some (first.store.active c) ≡ some n
            → All (λ r. F.find n r.key ≡ none) first.pending
        ruled c in_ n e =
            subst
              (λ y. elim y [
                | some z ↦ All (λ r. F.find z r.key ≡ none) first.pending
                | none ↦ Unit
              ])
              e (phase0.ruled c in_)
    visited done (behind c v) m at =
        let (m₀, was, _) =
          Erases-shrinks F places (maps F (classes mode) s) to_third.gone
            (maps F (classes mode) third.store) (behind c v) m to_third.erases at in
        let (in_, is_listed) = filed c v m₀ was in
        elim (Bool-cases (file_in cached (c, v))) [
          | inl hit ↦
              Moved-Clear F (classes mode) (behind c v) second third phase2.moved
                (phase1.clear (phase2.moved.complete done) (behind c v)
                  ((c, v), sort_files-file_in cached (c, v) ∙ hit, (refl, in_)))
                m at
          | inr miss ↦ phase2.clear done (behind c v) (c, in_, (v, refl, is_listed, miss)) m at
        ]

    sweep-Swept : Swept (working_set_of requests) (sweep F mode faults cached requests s)
    unfolding sweep
    sweep-Swept = record { moved = to_third; clear = visited }

  -- What an answer to a batch means for a store that holds `f`, and leaves the store `t` behind.
  pub record Answers (requests : List (Request K)) (f : K → Option V) (p : DeletionProgress K)
      (t : Store K F.Map) : Type 0 where
    pub content : ContentOf F (maps F (classes mode) t) (minus F f p.erased)
    pub perm : Perm (p.erased ++ (p.absent ++ p.unresolved)) (working_set_of requests)
    pub found : All (λ r. f r.key ≢ none) p.erased
    pub missing : All (λ r. f r.key ≡ none) p.absent
    pub owed : ((p.error ≡ none) × (p.unresolved ≡ [])) ⊎ ((p.error ≢ none) × (p.absent ≡ []))
    pub counted : t.entries_count ≡ count_off (length p.erased) s.entries_count
    pub filed : Filed F mode t

  module _ (faults : Faults) (cached : List FileId) (requests : List (Request K)) (f : K → Option V)
      (holds : ContentOf F (maps F (classes mode) s) f) (filed : Filed F mode s) where
    abbrev swept : Sweeping K F.Map
    swept = sweep F mode faults cached requests s

    all_swept : Swept (working_set_of requests) swept
    all_swept = sweep-Swept faults cached requests filed

    erased-gone : swept.erased ≡ all_swept.moved.gone
    erased-gone = all_swept.moved.erased

    after_content : ContentOf F (maps F (classes mode) swept.store) (minus F f swept.erased)
    after_content =
        subst (λ x. ContentOf F (maps F (classes mode) swept.store) (minus F f x)) (sym erased-gone)
          (Erases-ContentOf F places (maps F (classes mode) s) all_swept.moved.gone
            (maps F (classes mode) swept.store) f all_swept.moved.erases holds)

    after_perm : Perm (swept.erased ++ swept.pending) (working_set_of requests)
    after_perm =
        subst (λ x. Perm (x ++ swept.pending) (working_set_of requests)) (sym erased-gone)
          all_swept.moved.perm

    after_found : All (λ r. f r.key ≢ none) swept.erased
    after_found = subst (All (λ r. f r.key ≢ none)) (sym erased-gone) (
        Erases-found F places (maps F (classes mode) s) all_swept.moved.gone
          (maps F (classes mode) swept.store) f all_swept.moved.erases holds)

    -- The keys that are still wanted are none of those erased.
    still_stored : (r : Request K) → Mem r swept.pending → minus F f swept.erased r.key ≡ f r.key
    still_stored r m =
        minus_other F f swept.erased r.key (Mem-All swept.erased (λ q n. test q (apart.2 q n r m)))
      where
        apart :
            Pairwise OtherKeys swept.erased
            × Pairwise OtherKeys swept.pending
            × ((a : Request K)
                → Mem a swept.erased
                → (b : Request K) → Mem b swept.pending
                → OtherKeys a b)
        apart = (Pairwise-append (λ a b. ¬_prop)).0 (
            Perm.pairwise (λ a b. ¬_prop) (λ a b n e. n (sym e)) (Perm.symm after_perm)
              (working_set_of-Pairwise requests))

        test : (q : Request K) → q.key ≢ r.key → key.beq q.key r.key ≡ false
        test q other = elim (Bool-cases (key.beq q.key r.key)) [
          | inl hit ↦ absurd (other ((key.beq_iff q.key r.key).0 hit))
          | inr miss ↦ miss
        ]

    -- After a walk that is complete, what is still wanted was never stored.
    after_missing : swept.complete ≡ true → All (λ r. f r.key ≡ none) swept.pending
    after_missing done = Mem-All swept.pending (λ r m. elim (Option-cases (f r.key)) [
      | inl e ↦ e
      | inr (v, e) ↦
          let (p, n, at, has) = after_content.complete r.key v (still_stored r m ∙ e) in
          absurd (
            All-Mem {P = λ q. F.find n q.key ≢ some v} (λ q. ¬_prop) swept.pending
              (All-map swept.pending (λ q z here. cc (z, here)) (all_swept.clear done p n at)) r m
              has)
    ])

    -- The files that are left are those that were there, and the catalogues list the same versions.
    still_filed : Filed F mode swept.store
    still_filed c v m at =
        let moved = all_swept.moved in
        let (m₀, was, _) =
          Erases-shrinks F places (maps F (classes mode) s) moved.gone
            (maps F (classes mode) swept.store) (behind c v) m moved.erases at in
        let (in_, is_listed) = filed c v m₀ was in
        (
          in_,
          ap (λ vs. contains vs v)
                (Moved-below F (classes mode) (opening (working_set_of requests)) swept c moved)
              ∙ is_listed,
        )

    nothing_asked :
        is_empty requests ≡ true
        → Answers requests f (record { erased = []; absent = []; unresolved = []; error = none }) s
    unfolding minus count_off is_empty working_set_of first_seen
    nothing_asked e = record {
      content = holds;
      perm = subst (λ rs. Perm [] (working_set_of rs)) (sym (nil_of requests e)) (Perm.refl []);
      found = tt;
      missing = tt;
      owed = inl (refl, refl);
      counted = refl;
      filed = filed;
    }

    counted_after : swept.store.entries_count ≡ count_off (length swept.erased) s.entries_count
    counted_after =
        all_swept.moved.counted ∙ ap (λ x. count_off (length x) s.entries_count) (sym erased-gone)

    classified : Answers requests f (classify F swept).0 (classify F swept).1
    unfolding classify
    classified = elim (Bool-cases swept.complete) [
      | inl done ↦ rw done (record {
        content = after_content;
        perm =
            subst (λ x. Perm (swept.erased ++ x) (working_set_of requests))
              (sym (append-nil swept.pending)) after_perm;
        found = after_found;
        missing = after_missing done;
        owed = inl (refl, refl);
        counted = counted_after;
        filed = still_filed;
      })
      | inr not_done ↦ rw not_done (record {
        content = after_content;
        perm = after_perm;
        found = after_found;
        missing = tt;
        owed = inr ((λ bad. cc bad), refl);
        counted = counted_after;
        filed = still_filed;
      })
    ]

    -- For every store that holds `f`, with its files filed in the catalogues, and for whatever
    -- faults and cached files: the store left behind holds `f` without the keys reported as erased,
    -- and every key reported as absent was not stored.
    pub apply_deletes-Answers :
        Answers requests f
          (apply_deletes F mode faults cached requests s).0
          (apply_deletes F mode faults cached requests s).1
    unfolding apply_deletes
    apply_deletes-Answers = elim (Bool-cases (is_empty requests)) [
      | inl none_ ↦ rw none_ (nothing_asked none_)
      | inr some_ ↦ rw some_ classified
    ]
