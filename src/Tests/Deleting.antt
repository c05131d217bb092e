-- ===== src/Tests/Deleting.antt =====
-- Batches of deletions and lookups over a small database of reference mode, and runs of the file cache.
use utxo_z.Common.{
  ℕ, ◌≤◌, ◌≡◌, ◌&&◌, ◌||◌, not, refl, sym, ◌∙◌, true, false, List, [], ◌∷◌, Option, none, some,
  if◌then◌else◌, ◌==◌, ◌≢◌, length, ==_iff, Bool-cases, inl, inr, arith, All,
}
use utxo_z.Sidecar.{contains}
use utxo_z.FlatMap.{FlatMap, lookup}
use utxo_z.FlatMap.Reference.{nat_key, list_map, without}
use utxo_z.Metadata.{FileMetadata}
use utxo_z.Catalog.{Catalog, below, prefix_below, find_metadata, metadata_of}
use utxo_z.Merge.View.{ContentOf}
use utxo_z.Deletion.{
  Request, FileId, Store, Faults, reference, classes, reference_sentinel_index, is_some, same_file,
  step_over_file, applied_one, erase_active, erase_in_latest, working_set_of, first_seen, key_in,
  sort_files, insert_file, file_in, is_empty, set_at,
}
use utxo_z.Deletion.Batch.{
  apply_deletes, sweep, classify, walk_classes, walk_versions, walk_cached, walk, erase_in_file,
  open_file, settle_file, set_file, count_out, count_off, none_dirty,
}
use utxo_z.Deletion.Erases.{minus}
use utxo_z.Deletion.Walk.{Place, open_version, behind}
use utxo_z.Deletion.Sweep.{maps}
use utxo_z.Deletion.Outcome.{Filed, Answers, apply_deletes-Answers}
use utxo_z.Deletion.Complete.{Healthy, apply_deletes-completes}
use utxo_z.Deletion.Removed.{apply_deletes-minus}
use utxo_z.Resolve.{resolve}
use utxo_z.Resolve.Outcome as Lookups
use utxo_z.Resolve.Complete.{IsResolved, resolve-IsResolved}
use utxo_z.Cache.{
  Opening, Call, full_file, resize, empty_cache, find_entry, is_cached, run, open_map, get_or_open,
  get_or_open_file, get_or_open_reference_file, call, get_entry, open_into, put_entry, make_room,
  count_access,
}
use utxo_z.Cache.Transparent.{answer, get_or_open-transparent}
use utxo_z.Cache.Eviction.{run-Fits}
use utxo_z.Cache.Room.{Fits}
use utxo_z.Cache.Recency.{last_asked, get_or_open-evicts}
use utxo_z.Cache.Counts.{IsCounted, run-IsCounted}

abbrev pub F : FlatMap ℕ ℕ
F = list_map 10

abbrev pub older : List (ℕ × ℕ)
older = (2, 20) ∷ []

abbrev pub newer : List (ℕ × ℕ)
newer = (1, 10) ∷ []

abbrev pub two_versions : Catalog (FileMetadata ℕ)
two_versions = record { versions = 0 ∷ 1 ∷ []; metadata = []; highest_issued = 1 }

abbrev pub held : Store ℕ (List (ℕ × ℕ))
held = record {
  active = λ c. newer;
  file = λ c v. if c == reference_sentinel_index && v == 0 then some older else none;
  catalog = λ c. two_versions;
  current = λ c. 1;
  dirty = [];
  entries_count = 2;
}

abbrev pub well : Faults
well = record { opens = λ c v. true; lists = λ c. true; throws_after = λ c v. none }

well-Healthy : Healthy well
well-Healthy = record { opens = λ c v. refl; lists = λ c. refl; quiet = λ c v. refl }

abbrev pub asked : List (Request ℕ)
asked =
    record { key = 1; height = 5 }
    ∷ record { key = 2; height = 5 }
    ∷ record { key = 9; height = 5 }
    ∷ record { key = 2; height = 6 }
    ∷ []

abbrev pub kept : ℕ → Option ℕ
kept k = if 1 == k then some 10 else if 2 == k then some 20 else none

find_older : (k v : ℕ) → lookup k older ≡ some v → (k ≡ 2) × (v ≡ 20)
unfolding lookup
find_older k v h = ground arith

find_newer : (k v : ℕ) → lookup k newer ≡ some v → (k ≡ 1) × (v ≡ 10)
unfolding lookup
find_newer k v h = ground arith

which_file :
    (c v : ℕ) (m : List (ℕ × ℕ))
    → held.file c v ≡ some m
    → ((c ≡ reference_sentinel_index) × (v ≡ 0)) × (m ≡ older)
which_file c v m h = elim (Bool-cases (c == reference_sentinel_index && v == 0)) [
  | inl hit ↦ let e : some older ≡ some m = rw hit at h in (at c v hit, cc e)
  | inr miss ↦ let e : none ≡ some m = rw miss at h in cc e
]
  where
    at :
        (c v : ℕ)
        → (c == reference_sentinel_index && v == 0) ≡ true
        → (c ≡ reference_sentinel_index) × (v ≡ 0)
    at c v h = ground arith

which_open :
    (c : ℕ) (m : List (ℕ × ℕ))
    → maps F (classes reference) held (open_version c) ≡ some m
    → (c ≡ reference_sentinel_index) × (m ≡ newer)
unfolding contains
which_open c m h = elim (Bool-cases (reference_sentinel_index == c)) [
  | inl hit ↦
      let e : some newer ≡ some m = rw hit at h in
      (sym ((==_iff reference_sentinel_index c).0 hit), cc e)
  | inr miss ↦ let e : none ≡ some m = rw miss at h in cc e
]

pub kept-content : ContentOf F (maps F (classes reference) held) kept
unfolding lookup contains
kept-content = record {
  sound = sound;
  complete = λ k v p. elim (Bool-cases (1 == k)) [
    | inl h ↦
        let p' : some 10 ≡ some v = rw h at p in
        (open_version reference_sentinel_index, newer, refl, rw h p')
    | inr h ↦ elim (Bool-cases (2 == k)) [
      | inl h' ↦
          let p' : some 20 ≡ some v = rw (h, h') at p in
          (behind reference_sentinel_index 0, older, refl, rw h' p')
      | inr h' ↦ let p' : none ≡ some v = rw (h, h') at p in cc p'
    ]
  ];
  apart = apart;
}
  where
    sound :
        (p : Place) (m : List (ℕ × ℕ)) (k v : ℕ)
        → maps F (classes reference) held p ≡ some m
        → lookup k m ≡ some v
        → kept k ≡ some v
    sound (open_version c) m k v e h =
        let (_, is) = which_open c m e in let (a, b) = find_newer k v (rw is at h) in rw (a, b)
    sound (behind c u) m k v e h =
        let (_, is) = which_file c u m e in let (a, b) = find_older k v (rw is at h) in rw (a, b)

    apart :
        (p q : Place) (m n : List (ℕ × ℕ)) (k v w : ℕ)
        → maps F (classes reference) held p ≡ some m
        → maps F (classes reference) held q ≡ some n
        → lookup k m ≡ some v
        → lookup k n ≡ some w
        → p ≡ q
    apart (open_version c) (open_version d) m n k v w e e' h h' =
        cc ((which_open c m e).0, (which_open d n e').0)
    apart (open_version c) (behind d u) m n k v w e e' h h' = absurd (
        omega (
          arith,
          (find_newer k v (rw ((which_open c m e).1) at h)).0,
          (find_older k w (rw ((which_file d u n e').1) at h')).0,
        ))
    apart (behind c u) (open_version d) m n k v w e e' h h' = absurd (
        omega (
          arith,
          (find_older k v (rw ((which_file c u m e).1) at h)).0,
          (find_newer k w (rw ((which_open d n e').1) at h')).0,
        ))
    apart (behind c u) (behind d t) m n k v w e e' h h' =
        let a = (which_file c u m e).0 in let b = (which_file d t n e').0 in cc (a.0, a.1, b.0, b.1)

pub held-filed : Filed F reference held
unfolding contains below prefix_below
held-filed c v m h = let ((a, b), _) = which_file c v m h in rw (a, b) (refl, refl)

apply_deletes-Answers_example :
    Answers F reference held asked kept
      (apply_deletes F reference well ((reference_sentinel_index, 0) ∷ []) asked held).0
      (apply_deletes F reference well ((reference_sentinel_index, 0) ∷ []) asked held).1
apply_deletes-Answers_example =
    apply_deletes-Answers F reference held well ((reference_sentinel_index, 0) ∷ []) asked kept
      kept-content held-filed

listed_there :
    (c v : ℕ)
    → contains (classes reference) c ≡ true
    → contains (below (held.catalog c) (held.current c)) v ≡ true
    → is_some (held.file c v) ≡ true
unfolding contains below prefix_below is_some
listed_there c v h l = ground arith

apply_deletes-completes_example :
    (apply_deletes F reference well ((reference_sentinel_index, 0) ∷ []) asked held).0.error ≡ none
unfolding is_some
apply_deletes-completes_example =
    apply_deletes-completes F well well-Healthy held reference ((reference_sentinel_index, 0) ∷ [])
      asked (inr refl, tt) listed_there

apply_deletes-minus_example :
    ContentOf F
      (maps F
        (classes reference)
        (apply_deletes F reference well ((reference_sentinel_index, 0) ∷ []) asked held).1)
      (minus F kept asked)
apply_deletes-minus_example =
    apply_deletes-minus F reference held well ((reference_sentinel_index, 0) ∷ []) asked kept
      kept-content held-filed apply_deletes-completes_example

-- The batch erases keys 1 and 2, and answers that 9 is absent.
answers :
    (apply_deletes F reference well ((reference_sentinel_index, 0) ∷ []) asked held).0 ≡ record {
      erased = record { key = 1; height = 5 } ∷ record { key = 2; height = 5 } ∷ [];
      absent = record { key = 9; height = 5 } ∷ [];
      unresolved = [];
      error = none;
    }
unfolding apply_deletes sweep classify walk_classes walk_versions walk_cached walk erase_in_file
    open_file settle_file step_over_file applied_one erase_active erase_in_latest working_set_of
    first_seen key_in sort_files insert_file file_in same_file is_some is_empty below prefix_below
    set_file set_at count_out count_off none_dirty lookup without find_metadata metadata_of
answers = refl

abbrev behind_only : ℕ → Option ℕ
behind_only k = if 2 == k then some 20 else none

behind_only-content : ContentOf F (λ (a : FileId). held.file a.0 a.1) behind_only
unfolding lookup
behind_only-content = record {
  sound = λ a m k v e h.
      let (_, is) = which_file a.0 a.1 m e in let (x, y) = find_older k v (rw is at h) in rw (x, y);
  complete = λ k v p. elim (Bool-cases (2 == k)) [
    | inl h ↦
        let p' : some 20 ≡ some v = rw h at p in
        ((reference_sentinel_index, 0), older, refl, rw h p')
    | inr h ↦ let p' : none ≡ some v = rw h at p in cc p'
  ];
  apart = λ a b m n k v w e e' h h'.
      let x = (which_file a.0 a.1 m e).0 in
      let y = (which_file b.0 b.1 n e').0 in same_pair a b (x.0 ∙ sym y.0) (x.1 ∙ sym y.1);
}
  where
    same_pair : (a b : FileId) → a.0 ≡ b.0 → a.1 ≡ b.1 → a ≡ b
    same_pair (c, v) (d, u) p q = cc (p, q)

resolve-Answers_example :
    Lookups.Answers F reference held well [] asked behind_only behind_only-content held-filed
      (resolve F held well reference [] asked)
resolve-Answers_example =
    Lookups.resolve-Answers F reference held well [] asked behind_only behind_only-content
      held-filed

resolve-IsResolved_example :
    IsResolved (resolve F held well reference ((reference_sentinel_index, 0) ∷ []) asked)
unfolding is_some
resolve-IsResolved_example =
    resolve-IsResolved F held well well-Healthy reference ((reference_sentinel_index, 0) ∷ []) asked
      (inr refl, tt) listed_there

-- Every file but version 7 opens, and its map is its own number.
abbrev disk : Opening ℕ ℕ
disk = record {
  open_existing_segment = λ a. if a.1 == 7 then none else some a.1;
  validate_stamp = λ segment a. segment == a.1;
  find_single_named = λ segment. some segment;
}

abbrev some_calls : List Call
some_calls = full_file 0 3 1 ∷ full_file 0 7 2 ∷ resize 2 ∷ full_file 1 4 3 ∷ full_file 0 3 4 ∷ []

get_or_open-transparent_example :
    ((get_or_open_file disk 0 5 9 (run disk some_calls (empty_cache 1))).0
      ≡ answer disk (is_cached (0, 5) (run disk some_calls (empty_cache 1))) (open_map disk (0, 5)))
    × ((get_or_open_reference_file disk 5 9 (run disk some_calls (empty_cache 1))).0
        ≡ answer disk
            (is_cached (reference_sentinel_index, 5) (run disk some_calls (empty_cache 1)))
            (open_map disk (reference_sentinel_index, 5)))
get_or_open-transparent_example = get_or_open-transparent disk some_calls 1 0 5 9

run-Fits_example : Fits 2 (run disk some_calls (empty_cache 1))
run-Fits_example =
    run-Fits disk 2 1 some_calls (omega arith) (omega arith)
      (tt, (tt, (omega arith, (tt, (tt, tt)))))

run-IsCounted_example : IsCounted disk some_calls 1 (run disk some_calls (empty_cache 1))
run-IsCounted_example = run-IsCounted disk 1 some_calls

-- Two files are opened, and the first is asked for again.
abbrev used : List Call
used = full_file 0 3 1 ∷ full_file 0 4 2 ∷ full_file 0 3 3 ∷ []

used-cold : is_cached (0, 5) (run disk used (empty_cache 2)) ≡ false
unfolding run call get_or_open_file get_or_open get_entry find_entry open_into open_map put_entry
    make_room same_file is_cached is_some count_access
used-cold = refl

used-full :
    (run disk used (empty_cache 2)).max_cached_files ≤ length (run disk used (empty_cache 2)).cache
unfolding run call get_or_open_file get_or_open get_entry find_entry open_into open_map put_entry
    make_room same_file is_cached is_some count_access
used-full = omega arith

used-some : (run disk used (empty_cache 2)).cache ≢ []
unfolding run call get_or_open_file get_or_open get_entry find_entry open_into open_map put_entry
    make_room same_file is_cached is_some count_access
used-some e = cc e

opens_five : open_map disk (0, 5) ≡ some 5
unfolding open_map
opens_five = refl

get_or_open-evicts_example :
    (v : FileId) × (t : ℕ) × (is_cached v (run disk used (empty_cache 2)) ≡ true)
    × (last_asked v none used ≡ some t)
    × All
        (λ x. (u : ℕ) × (last_asked x.0 none used ≡ some u) × (t ≤ u))
        (run disk used (empty_cache 2)).cache
    × ((x : FileId)
        → is_cached x (get_or_open disk (0, 5) 9 (run disk used (empty_cache 2))).1 ≡ (
            same_file (0, 5) x
            || (not (same_file v x) && is_cached x (run disk used (empty_cache 2)))))
get_or_open-evicts_example =
    get_or_open-evicts disk used 2 (0, 5) 9 5 used-cold opens_five used-full used-some
