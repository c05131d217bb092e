-- ===== src/Cache/Ledger.antt =====
-- What each call on the file cache adds to its counters, and a whole history of calls.
use utxo_z.Common.{
  ℕ, ◌+◌, ◌≡◌, refl, Bool, true, false, List, [], ◌∷◌, Option, none, some, length, if◌then◌else◌,
  ◌==◌, arith,
}
use utxo_z.Deletion.{FileId, same_file, is_some, reference_sentinel_index}
use utxo_z.Cache.{CachedFile, find_entry}
use utxo_z.Cache.{
  Cache, Opening, Call, make_room, set_cache_size, clear, open_map, open_into, get_entry,
  get_or_open, get_or_open_file, get_or_open_reference_file, full_file, reference_file, resize,
  drop_all, call, run,
}
use utxo_z.Cache.Entries.{put_entry-length-found}
use utxo_z.Cache.Eviction.{run-IsWellFormed}
use utxo_z.Cache.Room.{IsWellFormed}
use utxo_z.Cache.Tally.{
  one_if, request_in, request_for, requests, requests_for, hit_in, opened_in, Tallied, Tallied-refl,
  Tallied-trans, count_access-accesses_of, put_entry-length-absent, make_room-Tallied,
  make_room-absent,
}

module _ {S M : Type 0} (o : Opening S M) where
  open_into-Tallied :
      (a : FileId) (now : ℕ) (x : Option M) (s t : Cache M)
      → is_some (find_entry a t.cache) ≡ false
      → Tallied s t 1 0 0 0 (λ y. one_if (same_file a y))
      → Tallied s
          (open_into o a now x t).1
          1
          (hit_in (open_into o a now x t).0)
          (opened_in (open_into o a now x t).0)
          0
          (λ y. one_if (same_file a y))
  unfolding open_into
  open_into-Tallied a now none s t cold d = d
  open_into-Tallied a now (some m) s t cold d = record {
    asks_exact = d.asks_exact;
    hits_exact = d.hits_exact;
    files_exact = omega (arith, put_entry-length-absent a _ t.cache cold, d.files_exact);
    freq_exact = d.freq_exact;
  }

  -- One request, from the count of it on.
  get_entry-Tallied :
      (a : FileId) (now : ℕ) (x : Option (CachedFile M)) (s t : Cache M)
      → IsWellFormed t
      → find_entry a t.cache ≡ x
      → Tallied s t 1 0 0 0 (λ y. one_if (same_file a y))
      → Tallied s
          (get_entry o a now x t).1
          1
          (hit_in (get_entry o a now x t).0)
          (opened_in (get_entry o a now x t).0)
          0
          (λ y. one_if (same_file a y))
  unfolding get_entry is_some
  get_entry-Tallied a now none s t w found d =
      let r = make_room-Tallied t w in
      open_into-Tallied a now (open_map o a) s (make_room t) (make_room-absent a t w (rw found))
        (record {
          asks_exact = omega (arith, d.asks_exact, r.asks_exact);
          hits_exact = omega (arith, d.hits_exact, r.hits_exact);
          files_exact = omega (arith, d.files_exact, r.files_exact);
          freq_exact = λ y. omega (arith, d.freq_exact y, r.freq_exact y);
        })
  get_entry-Tallied a now (some e) s t w found d = record {
    asks_exact = d.asks_exact;
    hits_exact = omega (arith, d.hits_exact);
    files_exact = omega (arith, put_entry-length-found a _ e t.cache found, d.files_exact);
    freq_exact = d.freq_exact;
  }

  get_or_open-Tallied :
      (a : FileId) (now : ℕ) (s : Cache M)
      → IsWellFormed s
      → Tallied s
          (get_or_open o a now s).1
          1
          (hit_in (get_or_open o a now s).0)
          (opened_in (get_or_open o a now s).0)
          0
          (λ y. one_if (same_file a y))
  unfolding get_or_open
  get_or_open-Tallied a now s w =
      get_entry-Tallied a now (find_entry a s.cache) s _
        (record { distinct = w.distinct; unpinned = w.unpinned }) refl
        (record {
          asks_exact = omega arith;
          hits_exact = omega arith;
          files_exact = omega arith;
          freq_exact = λ y. count_access-accesses_of a y s.access_frequency;
        })

  -- What a call answers, and how many open files it drops.
  abbrev pub answer_of : Call → Cache M → Option (M × Bool)
  answer_of (full_file c v now) s = (get_or_open_file o c v now s).0
  answer_of (reference_file v now) s = (get_or_open_reference_file o v now s).0
  answer_of (resize n) s = none
  answer_of drop_all s = none

  abbrev pub dropped_by : Call → Cache M → ℕ
  dropped_by drop_all s = length s.cache
  dropped_by (full_file c v now) s = 0
  dropped_by (reference_file v now) s = 0
  dropped_by (resize n) s = 0

  -- Over a history: the answers that were hits, those that opened a file, and the files dropped.
  abbrev pub hits_in : List Call → Cache M → ℕ
  hits_in [] s = 0
  hits_in (x ∷ xs) s = hit_in (answer_of x s) + hits_in xs (call o x s)

  abbrev pub opened_by : List Call → Cache M → ℕ
  opened_by [] s = 0
  opened_by (x ∷ xs) s = opened_in (answer_of x s) + opened_by xs (call o x s)

  abbrev pub dropped_in : List Call → Cache M → ℕ
  dropped_in [] s = 0
  dropped_in (x ∷ xs) s = dropped_by x s + dropped_in xs (call o x s)

  call-Tallied :
      (x : Call) (s : Cache M)
      → IsWellFormed s
      → Tallied s
          (call o x s)
          (request_in x)
          (hit_in (answer_of x s))
          (opened_in (answer_of x s))
          (dropped_by x s)
          (λ y. request_for y x)
  unfolding call get_or_open_file get_or_open_reference_file set_cache_size clear
  call-Tallied (full_file c v now) s w =
      guarded (c == reference_sentinel_index) (get_or_open-Tallied (c, v) now s w)
    where
      guarded :
          (b : Bool)
          → Tallied s
              (get_or_open o (c, v) now s).1
              1
              (hit_in (get_or_open o (c, v) now s).0)
              (opened_in (get_or_open o (c, v) now s).0)
              0
              (λ y. one_if (same_file (c, v) y))
          → Tallied s
              (if b then (none, s) else get_or_open o (c, v) now s).1
              (if b then 0 else 1)
              (hit_in (if b then (none, s) else get_or_open o (c, v) now s).0)
              (opened_in (if b then (none, s) else get_or_open o (c, v) now s).0)
              0
              (λ y. if b then 0 else one_if (same_file (c, v) y))
      guarded true d = Tallied-refl s
      guarded false d = d
  call-Tallied (reference_file v now) s w =
      get_or_open-Tallied (reference_sentinel_index, v) now s w
  call-Tallied (resize n) s w = record {
    asks_exact = omega arith;
    hits_exact = omega arith;
    files_exact = omega arith;
    freq_exact = λ y. omega arith;
  }
  call-Tallied drop_all s w = record {
    asks_exact = omega arith;
    hits_exact = omega arith;
    files_exact = omega arith;
    freq_exact = λ y. omega arith;
  }

  pub run-Tallied :
      (calls : List Call) (s : Cache M)
      → IsWellFormed s
      → Tallied s
          (run o calls s)
          (requests calls)
          (hits_in calls s)
          (opened_by calls s)
          (dropped_in calls s)
          (λ y. requests_for y calls)
  unfolding run
  run-Tallied [] s w = Tallied-refl s
  run-Tallied (x ∷ xs) s w =
      Tallied-trans s (call o x s) (run o xs (call o x s)) _ _ _ _ _ _ _ _ _ _ (call-Tallied x s w)
        (run-Tallied xs (call o x s) (run-IsWellFormed o (x ∷ []) s w))
