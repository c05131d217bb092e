-- ===== src/Cache/Transparent.antt =====
-- The file cache against opening each file anew.
use utxo_z.Common.{
  ℕ, ◌+◌, ◌≡◌, refl, sym, Bool, true, false, List, [], ◌∷◌, Option, none, some, if◌then◌else◌, leb,
  ◌==◌, length, All, Bool-cases, inl, inr, ◌⊎◌,
}
use mathlib.Core.Path.{subst}
use utxo_z.Deletion.{FileId, is_some}
use utxo_z.Cache.{CachedFile, find_entry, erase_entry, min_element}
use utxo_z.Cache.{
  Cache, Opening, Call, full_file, reference_file, resize, drop_all, empty_cache, evict, evict_from,
  evict_lru, make_room, set_cache_size, clear, is_cached, open_map, open_into, get_entry,
  get_or_open, get_or_open_file, get_or_open_reference_file, call, run,
}
use utxo_z.Deletion.{reference_sentinel_index, is_some}
use utxo_z.Cache.Entries.{put_entry-All, erase_entry-All, find_entry-All}

module _ {M : Type 0} where
  -- Making room evicts one entry or none.
  abbrev pub Room : Cache M → Cache M → Type 0
  Room s t =
      (t ≡ s)
      ⊎ ((v : FileId) × (t
            ≡ record s { cache = erase_entry v s.cache; evictions = s.evictions + 1 }))

  pub make_room-cases : (s : Cache M) → Room s (make_room s)
  unfolding make_room evict_lru evict_from evict min_element
  make_room-cases s = full (leb s.max_cached_files (length s.cache))
    where
      chosen :
          (e : FileId × CachedFile M) (b : Bool)
          → Room s (
              if b
              then s
              else record s { cache = erase_entry e.0 s.cache; evictions = s.evictions + 1 })
      chosen e true = inl refl
      chosen e false = inr (e.0, refl)

      evicted : (es : List (FileId × CachedFile M)) → Room s (evict_from es s)
      evicted [] = inl refl
      evicted (e ∷ es) = chosen (min_element e es) (min_element e es).1.is_pinned

      full : (b : Bool) → Room s (if b then evict_lru s else s)
      full true = evicted s.cache
      full false = inl refl

-- What the operations keep, every history of calls keeps; the calls may be of a kind.
module _ {S M : Type 0} (o : Opening S M) (P : Cache M → Type 0) (Q : Call → Type 0)
    (gets : (a : FileId) (now : ℕ) (s : Cache M) → P s → P (get_or_open o a now s).1)
    (sizes : (n : ℕ) (s : Cache M) → Q (resize n) → P s → P (set_cache_size n s))
    (clears : (s : Cache M) → P s → P (clear s)) where
  call-keeps : (x : Call) (s : Cache M) → Q x → P s → P (call o x s)
  unfolding call get_or_open_file get_or_open_reference_file
  call-keeps (full_file c v now) s q p = guarded (c == reference_sentinel_index)
    where
      guarded : (b : Bool) → P (if b then (none, s) else get_or_open o (c, v) now s).1
      guarded true = p
      guarded false = gets (c, v) now s p
  call-keeps (reference_file v now) s q p = gets (reference_sentinel_index, v) now s p
  call-keeps (resize n) s q p = sizes n s q p
  call-keeps drop_all s q p = clears s p

  pub run-keeps : (xs : List Call) (s : Cache M) → All Q xs → P s → P (run o xs s)
  unfolding run
  run-keeps [] s q p = p
  run-keeps (x ∷ xs) s q p = run-keeps xs (call o x s) q.1 (call-keeps x s q.0 p)

module _ {S M : Type 0} (o : Opening S M) where
  -- What is cached is what opening the file gives.
  abbrev pub IsCoherent : Cache M → Type 0
  IsCoherent s = All (λ x. open_map o x.0 ≡ some x.1.map_ptr) s.cache

  -- What a call answers by the files alone.
  abbrev pub answer : Bool → Option M → Option (M × Bool)
  answer hit none = none
  answer hit (some m) = some (m, hit)

  make_room-IsCoherent : (s : Cache M) → IsCoherent s → IsCoherent (make_room s)
  make_room-IsCoherent s c = elim (make_room-cases s) [
    | inl e ↦ subst IsCoherent (sym e) c
    | inr (v, e) ↦
        subst IsCoherent (sym e)
          (erase_entry-All (λ x. open_map o x.0 ≡ some x.1.map_ptr) v s.cache c)
  ]

  open_into-IsCoherent :
      (a : FileId) (now : ℕ) (x : Option M) (s : Cache M)
      → open_map o a ≡ x
      → IsCoherent s
      → ((open_into o a now x s).0 ≡ answer false x) × IsCoherent (open_into o a now x s).1
  unfolding open_into
  open_into-IsCoherent a now none s h c = (refl, c)
  open_into-IsCoherent a now (some m) s h c =
      (refl, put_entry-All (λ x. open_map o x.0 ≡ some x.1.map_ptr) a _ s.cache h c)

  get_entry-IsCoherent :
      (a : FileId) (now : ℕ) (s : Cache M)
      → IsCoherent s
      → ((get_entry o a now (find_entry a s.cache) s).0 ≡ answer (is_cached a s) (open_map o a))
        × IsCoherent (get_entry o a now (find_entry a s.cache) s).1
  unfolding is_cached get_entry open_into is_some
  get_entry-IsCoherent a now s c = found (find_entry a s.cache) refl
    where
      found :
          (x : Option (CachedFile M))
          → find_entry a s.cache ≡ x
          → ((get_entry o a now x s).0 ≡ answer (is_some x) (open_map o a))
            × IsCoherent (get_entry o a now x s).1
      found none h =
          open_into-IsCoherent a now (open_map o a) (make_room s) refl (make_room-IsCoherent s c)
      found (some e) h =
          let this : open_map o a ≡ some e.map_ptr =
            find_entry-All (λ x. open_map o x.0 ≡ some x.1.map_ptr) a e s.cache c h in
          (rw this, put_entry-All (λ x. open_map o x.0 ≡ some x.1.map_ptr) a _ s.cache this c)

  pub get_or_open-IsCoherent :
      (a : FileId) (now : ℕ) (s : Cache M)
      → IsCoherent s
      → ((get_or_open o a now s).0 ≡ answer (is_cached a s) (open_map o a))
        × IsCoherent (get_or_open o a now s).1
  unfolding get_or_open is_cached
  get_or_open-IsCoherent a now s c = get_entry-IsCoherent a now _ c

  abbrev Anything : Call → Type 0
  Anything x = Unit

  pub run-IsCoherent : (xs : List Call) (s : Cache M) → IsCoherent s → IsCoherent (run o xs s)
  unfolding set_cache_size clear
  run-IsCoherent xs s h =
      run-keeps o IsCoherent Anything (λ a now t c. (get_or_open-IsCoherent a now t c).1)
        (λ n t _ c. c) (λ t c. tt) xs s (All-Unit xs) h
    where
      All-Unit : (ys : List Call) → All Anything ys
      All-Unit [] = tt
      All-Unit (y ∷ ys) = (tt, All-Unit ys)

  -- After any calls on a cache that was empty, and while the files do not change, asking for a file of
  -- either mode answers with the map that opening it gives, or throws where opening it fails; the flag
  -- says whether it was cached, and the sentinel is refused as a container of full mode.
  pub get_or_open-transparent :
      (calls : List Call) (n c v now : ℕ)
      → ((get_or_open_file o c v now (run o calls (empty_cache n))).0 ≡ (
          if c == reference_sentinel_index
          then none
          else answer (is_cached (c, v) (run o calls (empty_cache n))) (open_map o (c, v))))
        × ((get_or_open_reference_file o v now (run o calls (empty_cache n))).0
            ≡ answer
                (is_cached (reference_sentinel_index, v) (run o calls (empty_cache n)))
                (open_map o (reference_sentinel_index, v)))
  unfolding get_or_open_file get_or_open_reference_file
  get_or_open-transparent calls n c v now =
      let coherent = run-IsCoherent calls (empty_cache n) tt in
      (
        (elim (Bool-cases (c == reference_sentinel_index)) [
          | inl e ↦ rw e
          | inr e ↦
              rw e (get_or_open-IsCoherent (c, v) now (run o calls (empty_cache n)) coherent).0
        ]),
        (get_or_open-IsCoherent (reference_sentinel_index, v) now (run o calls (empty_cache n))
            coherent).0,
      )
