-- ===== src/Cache/Recency.antt =====
-- Which file was asked for longest ago, over the calls that were made.
use utxo_z.Common.{
  ℕ, ◌≤◌, Bool, ◌≡◌, refl, sym, true, false, ◌&&◌, ◌||◌, not, List, [], ◌∷◌, Option, none, some,
  if◌then◌else◌, ◌==◌, ◌≢◌, length, All, Bool-cases, inl, inr,
}
use mathlib.Core.Path.{subst}
use utxo_z.Deletion.{FileId, same_file, is_some, reference_sentinel_index}
use utxo_z.Cache.{CachedFile, find_entry, put_entry}
use utxo_z.Cache.{
  Cache, Opening, Call, full_file, reference_file, resize, drop_all, empty_cache, make_room,
  set_cache_size, clear, is_cached, open_map, open_into, get_entry, get_or_open, get_or_open_file,
  get_or_open_reference_file, call, run,
}
use utxo_z.Cache.Entries.{
  same_file-true, same_file_refl, put_entry-All, erase_entry-All, find_entry-All, is_found,
  IsDistinct,
}
use utxo_z.Cache.Transparent.{make_room-cases}
use utxo_z.Cache.Eviction.{get_or_open-IsWellFormed, run-IsWellFormed, get_or_open-closes}
use utxo_z.Cache.Room.{IsWellFormed}

-- When a file was asked for, if `a` was asked for at `now` and `before` is what was so until then.
abbrev pub asked : FileId → FileId → ℕ → Option ℕ → Option ℕ
asked x a now before = if same_file x a then some now else before

-- The time of the last request for a file, by the calls alone.
abbrev pub last_asked : FileId → Option ℕ → List Call → Option ℕ
last_asked x before [] = before
last_asked x before (full_file c v now ∷ xs) =
    last_asked x (if c == reference_sentinel_index then before else asked x (c, v) now before) xs
last_asked x before (reference_file v now ∷ xs) =
    last_asked x (asked x (reference_sentinel_index, v) now before) xs
last_asked x before (resize n ∷ xs) = last_asked x before xs
last_asked x before (drop_all ∷ xs) = last_asked x before xs

module _ {M : Type 0} (P Q : FileId × CachedFile M → Type 0) (a : FileId)
    (carry : (x : FileId × CachedFile M) → same_file x.0 a ≡ false → P x → Q x) where
  absent-All :
      (es : List (FileId × CachedFile M)) → is_some (find_entry a es) ≡ false → All P es → All Q es
  unfolding find_entry is_some
  absent-All [] h all = tt
  absent-All (e ∷ es) h all = elim (Bool-cases (same_file e.0 a)) [
    | inl hit ↦ let bad : true ≡ false = rw hit at h in cc bad
    | inr miss ↦ (carry e miss all.0, absent-All es (rw miss at h) all.1)
  ]

  put_entry-carry :
      (e : CachedFile M) (es : List (FileId × CachedFile M))
      → IsDistinct es
      → Q (a, e)
      → All P es
      → All Q (put_entry a e es)
  unfolding put_entry
  put_entry-carry e [] d q all = (q, tt)
  put_entry-carry e ((b, c) ∷ es) d q all = elim (Bool-cases (same_file b a)) [
    | inl hit ↦ rw hit (
      subst (λ y. Q (y, e)) (sym (same_file-true b a hit)) q,
      absent-All es (subst (λ y. is_some (find_entry y es) ≡ false) (same_file-true b a hit) d.0)
          all.1,
    )
    | inr miss ↦ rw miss (carry (b, c) miss all.0, put_entry-carry e es d.1 q all.1)
  ]

module _ {M : Type 0} (P Q R : FileId × CachedFile M → Type 0) where
  All-both :
      (es : List (FileId × CachedFile M))
      → ((x : FileId × CachedFile M) → P x → Q x → R x)
      → All P es
      → All Q es
      → All R es
  All-both [] h p q = tt
  All-both (e ∷ es) h p q = (h e p.0 q.0, All-both es h p.1 q.1)

module _ {S M : Type 0} (o : Opening S M) where
  -- Each open file was last used at the time given.
  abbrev Tracks : (FileId → Option ℕ) → Cache M → Type 0
  Tracks h s = All (λ x. h x.0 ≡ some x.1.last_used) s.cache

  make_room-Tracks : (h : FileId → Option ℕ) (s : Cache M) → Tracks h s → Tracks h (make_room s)
  make_room-Tracks h s t = elim (make_room-cases s) [
    | inl e ↦ subst (Tracks h) (sym e) t
    | inr (v, e) ↦
        subst (Tracks h) (sym e) (erase_entry-All (λ x. h x.0 ≡ some x.1.last_used) v s.cache t)
  ]

  asked_now : (a : FileId) (now : ℕ) (before : Option ℕ) → asked a a now before ≡ some now
  asked_now a now before = rw (same_file_refl a)

  asked_other :
      (h : FileId → Option ℕ) (a : FileId) (now : ℕ) (x : FileId × CachedFile M)
      → same_file x.0 a ≡ false
      → h x.0 ≡ some x.1.last_used
      → asked x.0 a now (h x.0) ≡ some x.1.last_used
  asked_other h a now x miss t = rw miss t

  open_into-Tracks :
      (h : FileId → Option ℕ) (a : FileId) (now : ℕ) (x : Option M) (s : Cache M)
      → h a ≡ some now
      → Tracks h s
      → Tracks h (open_into o a now x s).1
  unfolding open_into
  open_into-Tracks h a now none s at t = t
  open_into-Tracks h a now (some m) s at t =
      put_entry-All (λ x. h x.0 ≡ some x.1.last_used) a _ s.cache at t

  get_entry-Tracks :
      (h : FileId → Option ℕ) (a : FileId) (now : ℕ) (x : Option (CachedFile M)) (s : Cache M)
      → IsDistinct s.cache
      → find_entry a s.cache ≡ x
      → Tracks h s
      → Tracks (λ y. asked y a now (h y)) (get_entry o a now x s).1
  unfolding get_entry is_some
  get_entry-Tracks h a now none s d found t =
      open_into-Tracks (λ y. asked y a now (h y)) a now (open_map o a) (make_room s)
        (asked_now a now (h a))
        (make_room-Tracks (λ y. asked y a now (h y)) s
          (absent-All (λ x. h x.0 ≡ some x.1.last_used)
            (λ x. asked x.0 a now (h x.0) ≡ some x.1.last_used) a (asked_other h a now) s.cache
            (rw found) t))
  get_entry-Tracks h a now (some e) s d found t =
      put_entry-carry (λ x. h x.0 ≡ some x.1.last_used)
        (λ x. asked x.0 a now (h x.0) ≡ some x.1.last_used) a (asked_other h a now) _ s.cache d
        (asked_now a now (h a)) t

  get_or_open-Tracks :
      (h : FileId → Option ℕ) (a : FileId) (now : ℕ) (s : Cache M)
      → IsWellFormed s
      → Tracks h s
      → Tracks (λ y. asked y a now (h y)) (get_or_open o a now s).1
  unfolding get_or_open
  get_or_open-Tracks h a now s w t =
      get_entry-Tracks h a now (find_entry a s.cache) _ w.distinct refl t

  run-Tracks :
      (h : FileId → Option ℕ) (calls : List Call) (s : Cache M)
      → IsWellFormed s
      → Tracks h s
      → Tracks (λ x. last_asked x (h x) calls) (run o calls s)
  unfolding run call get_or_open_file get_or_open_reference_file set_cache_size clear
  run-Tracks h [] s w t = t
  run-Tracks h (full_file c v now ∷ xs) s w t =
      guarded (c == reference_sentinel_index) (run-Tracks h xs s w t) (
        run-Tracks (λ x. asked x (c, v) now (h x)) xs (get_or_open o (c, v) now s).1
          (get_or_open-IsWellFormed o (c, v) now s w) (get_or_open-Tracks h (c, v) now s w t))
    where
      guarded :
          (b : Bool)
          → Tracks (λ x. last_asked x (h x) xs) (run o xs s)
          → Tracks
              (λ x. last_asked x (asked x (c, v) now (h x)) xs)
              (run o xs (get_or_open o (c, v) now s).1)
          → Tracks
              (λ x. last_asked x (if b then h x else asked x (c, v) now (h x)) xs)
              (run o xs (if b then (none, s) else get_or_open o (c, v) now s).1)
      guarded true p q = p
      guarded false p q = q
  run-Tracks h (reference_file v now ∷ xs) s w t =
      run-Tracks (λ x. asked x (reference_sentinel_index, v) now (h x)) xs
        (get_or_open o (reference_sentinel_index, v) now s).1
        (get_or_open-IsWellFormed o (reference_sentinel_index, v) now s w)
        (get_or_open-Tracks h (reference_sentinel_index, v) now s w t)
  run-Tracks h (resize n ∷ xs) s w t =
      run-Tracks h xs (set_cache_size n s) (record { distinct = w.distinct; unpinned = w.unpinned })
        t
  run-Tracks h (drop_all ∷ xs) s w t =
      run-Tracks h xs (clear s) (record { distinct = tt; unpinned = tt }) tt

  is_cached_found :
      (a : FileId) (e : CachedFile M) (s : Cache M)
      → find_entry a s.cache ≡ some e
      → is_cached a s ≡ true
  unfolding is_cached
  is_cached_found a e s found = is_found a s.cache e found

  -- After any calls on a cache that was empty, where it is full and holds some file: a file that is
  -- not open and can be opened takes the place of one whose last request in those calls was no later
  -- than that of any other open file; that one is closed, and the rest stay open.
  pub get_or_open-evicts :
      (calls : List Call) (n : ℕ) (a : FileId) (now : ℕ) (m : M)
      → is_cached a (run o calls (empty_cache n)) ≡ false
      → open_map o a ≡ some m
      → (run o calls (empty_cache n)).max_cached_files ≤ length (run o calls (empty_cache n)).cache
      → (run o calls (empty_cache n)).cache ≢ []
      → (v : FileId) × (t : ℕ) × (is_cached v (run o calls (empty_cache n)) ≡ true)
        × (last_asked v none calls ≡ some t)
        × All
            (λ x. (u : ℕ) × (last_asked x.0 none calls ≡ some u) × (t ≤ u))
            (run o calls (empty_cache n)).cache
        × ((x : FileId)
            → is_cached x (get_or_open o a now (run o calls (empty_cache n))).1 ≡ (
                same_file a x
                || (not (same_file v x) && is_cached x (run o calls (empty_cache n)))))
  get_or_open-evicts calls n a now m cold opened full some_file =
      let w = run-IsWellFormed o calls (empty_cache n) (record { distinct = tt; unpinned = tt }) in
      let tracked =
        run-Tracks (λ x. none) calls (empty_cache n) (record { distinct = tt; unpinned = tt }) tt in
      let (v, found, least, rest) =
        get_or_open-closes o a now (run o calls (empty_cache n)) m w cold opened full some_file in
      (
        v.0,
        v.1.last_used,
        is_cached_found v.0 v.1 (run o calls (empty_cache n)) found,
        find_entry-All (λ x. last_asked x.0 none calls ≡ some x.1.last_used) v.0 v.1
            (run o calls (empty_cache n)).cache tracked found,
        All-both (λ x. last_asked x.0 none calls ≡ some x.1.last_used)
            (λ x. v.1.last_used ≤ x.1.last_used)
            (λ x. (u : ℕ) × (last_asked x.0 none calls ≡ some u) × (v.1.last_used ≤ u))
            (run o calls (empty_cache n)).cache (λ x at later. (x.1.last_used, at, later)) tracked
            least,
        rest,
      )
