-- ===== src/Tests/Merging.antt =====
-- A merge of two version files, cut short, and its recovery.
use utxo_z.Common.{
  ℕ, ◌≤◌, ◌≡◌, ◌⊎◌, refl, sym, ◌∙◌, ap, true, false, List, [], ◌∷◌, Option, none, some,
  if◌then◌else◌, ◌==◌, ==_iff, Bool-cases, inl, inr, arith, length,
}
use utxo_z.Sidecar.{contains, is_empty}
use utxo_z.FlatMap.{FlatMap, lookup}
use utxo_z.FlatMap.Reference.{nat_key, list_map}
use utxo_z.Catalog.{next_version}
use utxo_z.Dir.{
  Dir, Kind, name, data_file, building_file, sidecar_file, sidecar_temp, segment, file_at,
  same_name, exists_in, unlink, write,
}
use mathlib.Core.Path.{subst}
use utxo_z.Io.{
  World, Run, done, failed, crashed, proceeds, fails, crashes, and_then, judge, rule, draw_from,
  attempted, unwound, settle,
}
use utxo_z.Io.Rules.{Ensures}
use utxo_z.Instance.{
  State, path_exists, remove_file, checkpoint, create_file, create_unless, store_mapped,
}
use utxo_z.Merge.{Policy, merge_versions, merge_into, generate_merge_id, marker_of, build}
use utxo_z.Merge.View.{files, files-file_at, view, map_of, ContentOf}
use utxo_z.Merge.States.{Settled, Recoverable, settled}
use utxo_z.Merge.Safety.{IsMergeable, merge_versions-safe}
use utxo_z.Recovery.{recover_scope, recover_pending_merges}
use utxo_z.Recovery.Whole.{recover_scope-sweeps, recover_pending_merges-restores}
use utxo_z.Recovery.Progress.{recover_scope-finishes, merge_versions-recovers}

abbrev F : FlatMap ℕ ℕ
F = list_map 10

abbrev older : List (ℕ × ℕ)
older = (1, 10) ∷ []

abbrev newer : List (ℕ × ℕ)
newer = (2, 20) ∷ []

abbrev two_files : Dir (List (ℕ × ℕ))
two_files = (name data_file 0 0, segment none older) ∷ (name data_file 0 1, segment none newer) ∷ []

abbrev stored : ℕ → Option ℕ
stored k = if 1 == k then some 10 else if 2 == k then some 20 else none

no_record : (n : ℕ) → files sidecar_file 0 two_files n ≡ none
unfolding file_at same_name
no_record n = files-file_at sidecar_file 0 n two_files ∙ ground arith

shape :
    (n : ℕ)
    → view 0 two_files n ≡ (if 0 == n then some older else if 1 == n then some newer else none)
unfolding file_at same_name
shape n = rw (files-file_at data_file 0 n two_files) (ground arith)

which :
    (n : ℕ) (m : List (ℕ × ℕ))
    → view 0 two_files n ≡ some m
    → ((n ≡ 0) × (m ≡ older)) ⊎ ((n ≡ 1) × (m ≡ newer))
which n m e =
    let s = sym (shape n) ∙ e in
    elim (Bool-cases (0 == n)) [
      | inl h ↦ let s' : some older ≡ some m = rw h at s in inl (sym ((==_iff 0 n).0 h), cc)
      | inr h ↦ elim (Bool-cases (1 == n)) [
        | inl h' ↦
            let s' : some newer ≡ some m = rw (h, h') at s in inr (sym ((==_iff 1 n).0 h'), cc)
        | inr h' ↦ let s' : none ≡ some m = rw (h, h') at s in cc s'
      ]
    ]

find_older : (k v : ℕ) → lookup k older ≡ some v → (k ≡ 1) × (v ≡ 10)
unfolding lookup
find_older k v h = ground arith

find_newer : (k v : ℕ) → lookup k newer ≡ some v → (k ≡ 2) × (v ≡ 20)
unfolding lookup
find_newer k v h = ground arith

stored-content : ContentOf F (view 0 two_files) stored
unfolding lookup
stored-content = record {
  sound = λ n m k v p q. elim (which n m p) [
    | inl (_, e) ↦ let (a, b) = find_older k v (rw e at q) in rw (a, b)
    | inr (_, e) ↦ let (a, b) = find_newer k v (rw e at q) in rw (a, b)
  ];
  complete = λ k v p. elim (Bool-cases (1 == k)) [
    | inl h ↦ let p' : some 10 ≡ some v = rw h at p in (0, older, shape 0, rw h p')
    | inr h ↦ elim (Bool-cases (2 == k)) [
      | inl h' ↦ let p' : some 20 ≡ some v = rw (h, h') at p in (1, newer, shape 1, rw h' p')
      | inr h' ↦ let p' : none ≡ some v = rw (h, h') at p in cc p'
    ]
  ];
  apart = λ n n' m m' k v v' p q r s. elim (which n m p) [
    | inl (a, e) ↦ elim (which n' m' q) [
      | inl (a', e') ↦ cc (a, a')
      | inr (a', e') ↦
          absurd (omega (arith, (find_older k v (rw e at r)).0, (find_newer k v' (rw e' at s)).0))
    ]
    | inr (a, e) ↦ elim (which n' m' q) [
      | inl (a', e') ↦
          absurd (omega (arith, (find_newer k v (rw e at r)).0, (find_older k v' (rw e' at s)).0))
      | inr (a', e') ↦ cc (a, a')
    ]
  ];
}

stored-Settled : Settled F 0 stored two_files
stored-Settled = record { clear = no_record; content = stored-content }

abbrev policy : Policy ℕ ℕ
policy = record { index = 0; min_buckets = 15; height_of = λ v. v; render = λ m. [] }

abbrev before : State ℕ (List (ℕ × ℕ))
before = record {
  dir = two_files;
  catalog = record { versions = 0 ∷ 1 ∷ []; metadata = []; highest_issued = 1 };
  dirty = [];
  cleanup_pending = false;
}

-- A stray build cannot be removed, and then the process dies.
abbrev unlucky : World (State ℕ (List (ℕ × ℕ)))
unlucky = record {
  state = before;
  verdicts = proceeds ∷ proceeds ∷ proceeds ∷ fails ∷ proceeds ∷ crashes ∷ [];
  entropy = some (record { high = 7; low = 9 }) ∷ [];
}

abbrev both : List ℕ
both = 0 ∷ 1 ∷ []

two_files-IsMergeable : IsMergeable 0 (next_version before.catalog) both
unfolding next_version
two_files-IsMergeable = record {
  index_word = omega arith;
  target_word = omega arith;
  source_words = (omega arith, (omega arith, tt));
  ascending = (omega arith, tt);
  few = omega arith;
}

merge_versions-safe_example :
    Ensures
      (λ _ s.
        Settled F 0 stored s.dir
        × (2 ≤ length both → (n : ℕ) → contains both n ≡ true → files data_file 0 s.dir n ≡ none))
      (λ _ s. Recoverable F 0 stored s.dir × (s.cleanup_pending ≡ false → Settled F 0 stored s.dir))
      (λ s. Recoverable F 0 stored s.dir)
      (merge_versions F policy both unlucky)
merge_versions-safe_example =
    merge_versions-safe F policy stored both unlucky stored-Settled two_files-IsMergeable

abbrev left_by : Run (State ℕ (List (ℕ × ℕ))) (Unit {0}) → World (State ℕ (List (ℕ × ℕ)))
left_by (done a w) = w
left_by (failed e w) = w
left_by (crashed w) = w

dies :
    merge_versions F policy both unlucky ≡ crashed (left_by (merge_versions F policy both unlucky))
unfolding merge_versions path_exists and_then judge rule exists_in file_at same_name merge_into
    remove_file unlink checkpoint generate_merge_id draw_from marker_of is_empty build attempted
    unwound settle create_file create_unless write store_mapped next_version
dies = refl

merge_versions-recovers_example :
    (s' : State ℕ (List (ℕ × ℕ))) × (recover_scope 0 (record {
      state = (left_by (merge_versions F policy both unlucky)).state;
      verdicts = [];
      entropy = [];
    })
      ≡ done tt (record { state = s'; verdicts = []; entropy = [] }))
    × Settled F 0 stored s'.dir
merge_versions-recovers_example =
    merge_versions-recovers F stored policy both unlucky
      (left_by (merge_versions F policy both unlucky)) stored-Settled two_files-IsMergeable dies

recover_scope-finishes_example :
    (s' : State ℕ (List (ℕ × ℕ))) × (recover_scope 0
        (record { state = before; verdicts = []; entropy = [] })
      ≡ done tt (record { state = s'; verdicts = []; entropy = [] }))
    × Settled F 0 stored s'.dir
recover_scope-finishes_example = recover_scope-finishes F stored 0 before (settled stored-Settled)

recover_scope-sweeps_example :
    Ensures
      (λ _ s.
        (Settled F 0 stored s.dir
          × ((kind : Kind) (c' n : ℕ)
              → (0 == c') ≡ false
              → file_at (name kind c' n) s.dir ≡ file_at (name kind c' n) two_files))
        × ((n : ℕ) → files building_file 0 s.dir n ≡ none)
        × ((n : ℕ) → files sidecar_temp 0 s.dir n ≡ none))
      (λ _ s.
        Recoverable F 0 stored s.dir
        × ((kind : Kind) (c' n : ℕ)
            → (0 == c') ≡ false
            → file_at (name kind c' n) s.dir ≡ file_at (name kind c' n) two_files))
      (λ s.
        Recoverable F 0 stored s.dir
        × ((kind : Kind) (c' n : ℕ)
            → (0 == c') ≡ false
            → file_at (name kind c' n) s.dir ≡ file_at (name kind c' n) two_files))
      (recover_scope 0 unlucky)
recover_scope-sweeps_example = recover_scope-sweeps F stored 0 unlucky (settled stored-Settled)

-- The other containers are empty.
abbrev contents : ℕ → ℕ → Option ℕ
contents c k = if 0 == c then stored k else none

others_empty : (kind : Kind) (c n : ℕ) → (0 == c) ≡ false → files kind c two_files n ≡ none
unfolding file_at same_name
others_empty kind c n h = files-file_at kind c n two_files ∙ ground arith

each_recoverable : (c : ℕ) → Recoverable F c (contents c) two_files
each_recoverable c = elim (Bool-cases (0 == c)) [
  | inl h ↦
      subst (λ x. Recoverable F x (contents x) two_files) ((==_iff 0 c).0 h)
        (settled stored-Settled)
  | inr h ↦ settled (record {
    clear = λ n. others_empty sidecar_file c n h;
    content = record {
      sound = λ n m k v p q.
          let e : none ≡ some m = sym (ap map_of (others_empty data_file c n h)) ∙ p in cc e;
      complete = λ k v p. let e : none ≡ some v = rw h at p in cc e;
      apart = λ n n' m m' k v v' p q r s.
          let e : none ≡ some m = sym (ap map_of (others_empty data_file c n h)) ∙ p in cc e;
    };
  })
]

recover_pending_merges-restores_example :
    Ensures
      (λ _ s. (c : ℕ) → contains both c ≡ true → Settled F c (contents c) s.dir)
      (λ _ s. (c : ℕ) → Recoverable F c (contents c) s.dir)
      (λ s. (c : ℕ) → Recoverable F c (contents c) s.dir)
      (recover_pending_merges both unlucky)
recover_pending_merges-restores_example =
    recover_pending_merges-restores F contents both unlucky each_recoverable
