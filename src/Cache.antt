-- ===== src/Cache.antt =====
-- src/detail/file_cache.hpp, `struct file_cache`: the historical files that are kept open. The hash
-- map of the code is a list of entries here, whose order stands for the order of its iteration. What
-- opening a file takes - the segment, its stamp, the map in it - is a parameter, as is the clock.
pub mod Entries
pub mod Choice
pub mod Room
pub mod Transparent
pub mod Eviction
pub mod Recency
pub mod Tally
pub mod Ledger
pub mod Counts
use utxo_z.Common.{
  ℕ, suc, ◌+◌, ◌^◌, ◌-◌, Bool, true, false, ◌&&◌, not, List, [], ◌∷◌, Option, none, some,
  if◌then◌else◌, ltb, leb, ◌==◌, length,
}
use utxo_z.Deletion.{FileId, reference_sentinel_index, same_file, is_some}

-- The three steps of opening a file, each of which may fail.
pub record Opening (S M : Type 0) : Type 0 where
  pub open_existing_segment : FileId → Option S
  pub validate_stamp : S → FileId → Bool
  pub find_single_named : S → Option M

pub record CachedFile (M : Type 0) : Type 0 where
  pub map_ptr : M
  pub last_used : ℕ
  pub access_count : ℕ
  pub is_pinned : Bool

pub record Cache (M : Type 0) : Type 0 where
  pub cache : List (FileId × CachedFile M)
  pub access_frequency : List (FileId × ℕ)
  pub max_cached_files : ℕ
  pub gets : ℕ
  pub hits : ℕ
  pub evictions : ℕ

unfoldable pub count_access : FileId → List (FileId × ℕ) → List (FileId × ℕ)
count_access a [] = (a, 1) ∷ []
count_access a ((b, n) ∷ fs) = if same_file b a then (b, n + 1) ∷ fs else (b, n) ∷ count_access a fs

module _ {M : Type 0} where
  abbrev pub empty_cache : ℕ → Cache M
  empty_cache max_size = record {
    cache = [];
    access_frequency = [];
    max_cached_files = max_size;
    gets = 0;
    hits = 0;
    evictions = 0;
  }

  unfoldable pub find_entry : FileId → List (FileId × CachedFile M) → Option (CachedFile M)
  find_entry a [] = none
  find_entry a ((b, e) ∷ es) = if same_file b a then some e else find_entry a es

  -- Assignment to an entry, which makes it if it is not there.
  unfoldable pub put_entry :
      FileId → CachedFile M → List (FileId × CachedFile M) → List (FileId × CachedFile M)
  put_entry a e [] = (a, e) ∷ []
  put_entry a e ((b, d) ∷ es) = if same_file b a then (b, e) ∷ es else (b, d) ∷ put_entry a e es

  unfoldable pub erase_entry : FileId → List (FileId × CachedFile M) → List (FileId × CachedFile M)
  erase_entry a [] = []
  erase_entry a ((b, d) ∷ es) = if same_file b a then es else (b, d) ∷ erase_entry a es

  -- The order of `evict_lru`: what is not pinned first, then what was used longer ago.
  unfoldable pub evict_before : CachedFile M → CachedFile M → Bool
  evict_before d e =
      if d.is_pinned
      then (if e.is_pinned then ltb d.last_used e.last_used else false)
      else if e.is_pinned
      then true
      else ltb d.last_used e.last_used

  -- `min_element`: the first entry that no other comes before.
  unfoldable pub min_element :
      FileId × CachedFile M → List (FileId × CachedFile M) → FileId × CachedFile M
  min_element best [] = best
  min_element best (e ∷ es) =
      if evict_before e.1 best.1 then min_element e es else min_element best es

  -- `max_element` by the time of the last use.
  unfoldable pub max_element :
      FileId × CachedFile M → List (FileId × CachedFile M) → FileId × CachedFile M
  max_element best [] = best
  max_element best (e ∷ es) =
      if ltb best.1.last_used e.1.last_used then max_element e es else max_element best es

  unfoldable pub evict : FileId × CachedFile M → Cache M → Cache M
  evict lru s =
      if lru.1.is_pinned
      then s
      else record s { cache = erase_entry lru.0 s.cache; evictions = s.evictions + 1 }

  unfoldable pub evict_from : List (FileId × CachedFile M) → Cache M → Cache M
  evict_from [] s = s
  evict_from (e ∷ es) s = evict (min_element e es) s

  unfoldable pub evict_lru : Cache M → Cache M
  evict_lru s = evict_from s.cache s

  unfoldable pub make_room : Cache M → Cache M
  make_room s = if leb s.max_cached_files (length s.cache) then evict_lru s else s

  unfoldable pub set_cache_size : ℕ → Cache M → Cache M
  set_cache_size n s = record s { max_cached_files = n }

  unfoldable pub clear : Cache M → Cache M
  clear s = record s { cache = [] }

  unfoldable pub is_cached : FileId → Cache M → Bool
  is_cached a s = is_some (find_entry a s.cache)

  abbrev keys_of : List (FileId × CachedFile M) → List FileId
  keys_of [] = []
  keys_of (e ∷ es) = e.0 ∷ keys_of es

  abbrev pub get_cached_files : Cache M → List FileId
  get_cached_files s = keys_of s.cache

  most_recent_of : List (FileId × CachedFile M) → Option FileId
  most_recent_of [] = none
  most_recent_of (e ∷ es) = some (max_element e es).0

-- The calls that change a cache, with the time of each.
pub data Call : Type 0 where
  full_file : ℕ → ℕ → ℕ → Call
  reference_file : ℕ → ℕ → Call
  resize : ℕ → Call
  drop_all : Call

module _ {S M : Type 0} (o : Opening S M) where
  -- Opening a file, in the order of the code: the segment, the stamp, the map.
  unfoldable pub open_map : FileId → Option M
  open_map a = elim (o.open_existing_segment a) [
    | none ↦ none
    | some segment ↦ if o.validate_stamp segment a then o.find_single_named segment else none
  ]

  -- A failure is thrown once room has been made.
  unfoldable pub open_into : FileId → ℕ → Option M → Cache M → Option (M × Bool) × Cache M
  open_into a now none s = (none, s)
  open_into a now (some m) s = (
    some (m, false),
    record s {
      cache =
          put_entry a (record { map_ptr = m; last_used = now; access_count = 1; is_pinned = false })
            s.cache;
    },
  )

  unfoldable pub get_entry :
      FileId → ℕ → Option (CachedFile M) → Cache M → Option (M × Bool) × Cache M
  get_entry a now (some e) s = (
    some (e.map_ptr, true),
    record s {
      cache = put_entry a (record e { last_used = now; access_count = e.access_count + 1 }) s.cache;
      hits = s.hits + 1;
    },
  )
  get_entry a now none s = open_into a now (open_map a) (make_room s)

  unfoldable pub get_or_open : FileId → ℕ → Cache M → Option (M × Bool) × Cache M
  get_or_open a now s =
      get_entry a now (find_entry a s.cache)
        (record s { gets = s.gets + 1; access_frequency = count_access a s.access_frequency })

  -- The sentinel is not an index of full mode, and is refused before anything is counted.
  unfoldable pub get_or_open_file : ℕ → ℕ → ℕ → Cache M → Option (M × Bool) × Cache M
  get_or_open_file c v now s =
      if c == reference_sentinel_index then (none, s) else get_or_open (c, v) now s

  unfoldable pub get_or_open_reference_file : ℕ → ℕ → Cache M → Option (M × Bool) × Cache M
  get_or_open_reference_file v now s = get_or_open (reference_sentinel_index, v) now s

  unfoldable pub call : Call → Cache M → Cache M
  call (full_file c v now) s = (get_or_open_file c v now s).1
  call (reference_file v now) s = (get_or_open_reference_file v now s).1
  call (resize n) s = set_cache_size n s
  call drop_all s = clear s

  unfoldable pub run : List Call → Cache M → Cache M
  run [] s = s
  run (x ∷ xs) s = run xs (call x s)
