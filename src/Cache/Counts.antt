-- ===== src/Cache/Counts.antt =====
-- What the file cache counts.
use utxo_z.Common.{
  ℕ, suc, ◌+◌, ◌≤◌, ◌≡◌, refl, sym, ◌∙◌, List, [], ◌∷◌, Option, none, some, length, All, Bool-cases,
  inl, inr, arith,
}
use mathlib.Core.Path.{subst}
use utxo_z.Deletion.{FileId, same_file}
use utxo_z.Cache.{CachedFile, find_entry}
use utxo_z.Cache.{
  Cache, Opening, Call, empty_cache, make_room, set_cache_size, clear, open_map, open_into,
  get_entry, get_or_open, run,
}
use utxo_z.Cache.{count_access}
use utxo_z.Cache.Tally.{accesses_of, requests, requests_for}
use utxo_z.Cache.Ledger.{hits_in, opened_by, dropped_in, run-Tallied}
use utxo_z.Cache.Transparent.{run-keeps, make_room-cases}

-- The accesses counted for all files together.
unfoldable pub total_access : List (FileId × ℕ) → ℕ
total_access [] = 0
total_access (f ∷ fs) = f.1 + total_access fs

count_access-total :
    (a : FileId) (fs : List (FileId × ℕ)) → total_access (count_access a fs) ≡ total_access fs + 1
unfolding count_access total_access
count_access-total a [] = omega arith
count_access-total a ((b, n) ∷ fs) = elim (Bool-cases (same_file b a)) [
  | inl hit ↦ rw hit (omega arith)
  | inr miss ↦ rw miss (omega (arith, count_access-total a fs))
]

module _ {S M : Type 0} (o : Opening S M) where
  -- Every request is counted for its file; a request is a hit, or it is not and evicts at most one file.
  pub record Agrees (s : Cache M) : Type 0 where
    pub frequency : total_access s.access_frequency ≡ s.gets
    pub outcomes : s.hits + s.evictions ≤ s.gets

  open_into-Agrees :
      (a : FileId) (now : ℕ) (x : Option M) (s : Cache M)
      → Agrees s
      → Agrees (open_into o a now x s).1
  unfolding open_into
  open_into-Agrees a now none s c = c
  open_into-Agrees a now (some m) s c = record { frequency = c.frequency; outcomes = c.outcomes }

  -- One more request than was settled.
  abbrev Pending : Cache M → Type 0
  Pending s = (total_access s.access_frequency ≡ s.gets) × (suc (s.hits + s.evictions) ≤ s.gets)

  make_room-Agrees : (s : Cache M) → Pending s → Agrees (make_room s)
  make_room-Agrees s p = elim (make_room-cases s) [
    | inl e ↦ subst Agrees (sym e) (record { frequency = p.0; outcomes = omega (arith, p.1) })
    | inr (v, e) ↦ subst Agrees (sym e) (record { frequency = p.0; outcomes = omega (arith, p.1) })
  ]

  get_entry-Agrees :
      (a : FileId) (now : ℕ) (x : Option (CachedFile M)) (s : Cache M)
      → Pending s
      → Agrees (get_entry o a now x s).1
  unfolding get_entry
  get_entry-Agrees a now none s p =
      open_into-Agrees a now (open_map o a) (make_room s) (make_room-Agrees s p)
  get_entry-Agrees a now (some e) s p = record { frequency = p.0; outcomes = omega (arith, p.1) }

  get_or_open-Agrees :
      (a : FileId) (now : ℕ) (s : Cache M) → Agrees s → Agrees (get_or_open o a now s).1
  unfolding get_or_open
  get_or_open-Agrees a now s c = get_entry-Agrees a now (find_entry a s.cache) _ (
    count_access-total a s.access_frequency ∙ omega (arith, c.frequency),
    omega (arith, c.outcomes),
  )

  abbrev Anything : Call → Type 0
  Anything x = Unit

  All-Anything : (xs : List Call) → All Anything xs
  All-Anything [] = tt
  All-Anything (x ∷ xs) = (tt, All-Anything xs)

  run-Agrees : (n : ℕ) (calls : List Call) → Agrees (run o calls (empty_cache n))
  unfolding set_cache_size clear total_access
  run-Agrees n calls =
      run-keeps o Agrees Anything get_or_open-Agrees
        (λ k s _ c. record { frequency = c.frequency; outcomes = c.outcomes })
        (λ s c. record { frequency = c.frequency; outcomes = c.outcomes }) calls (empty_cache n)
        (All-Anything calls) (record { frequency = refl; outcomes = omega arith })

  -- What the counters stand for, after the calls on a cache that was empty.
  pub record IsCounted (calls : List Call) (n : ℕ) (s : Cache M) : Type 0 where
    pub asks : s.gets ≡ requests calls
    pub hits_counted : s.hits ≡ hits_in o calls (empty_cache n)
    pub evictions_counted :
        length s.cache + s.evictions + dropped_in o calls (empty_cache n)
        ≡ opened_by o calls (empty_cache n)
    pub each_file : (a : FileId) → accesses_of a s.access_frequency ≡ requests_for a calls
    pub all_files : total_access s.access_frequency ≡ s.gets
    pub outcomes_bounded : s.hits + s.evictions ≤ s.gets

  -- After any calls on a cache that was empty: the requests counted are those made, for each file and
  -- in all; the hits counted are the answers that said the file was open; the evictions counted are
  -- the files that were opened, less those still open and those dropped by a clearing; and hits and
  -- evictions together are not more than the requests.
  pub run-IsCounted : (n : ℕ) (calls : List Call) → IsCounted calls n (run o calls (empty_cache n))
  run-IsCounted n calls =
      let d = run-Tallied o calls (empty_cache n) (record { distinct = tt; unpinned = tt }) in
      let a = run-Agrees n calls in
      record {
        asks = omega (arith, d.asks_exact);
        hits_counted = omega (arith, d.hits_exact);
        evictions_counted = omega (arith, d.files_exact);
        each_file = λ x. omega (arith, d.freq_exact x);
        all_files = a.frequency;
        outcomes_bounded = a.outcomes;
      }
