-- ===== src/Insert.antt =====
-- src/database_impl.cpp, `insert`, `insert_in_index`, `rotate_for`, `new_version` and
-- `can_insert_safely`, with src/detail/insert_transition.hpp: adding an entry to one container class.
pub mod Keeping
pub mod Choice
pub mod Found
pub mod Typed
use utxo_z.Common.{
  ℕ, suc, ◌+◌, ◌*◌, Bool, true, false, ◌&&◌, not, List, [], ◌∷◌, Option, none, some, if◌then◌else◌,
  ltb, leb, ◌==◌,
}
use utxo_z.Errors.{ErrorCode, value_too_large, file_open_failed, entry_corrupt, insufficient_space}
use utxo_z.Capacity.{effective_insert_limit, RehashWatch, reset, detect_rehash}
use utxo_z.FlatMap.{Key, FlatMap, Emplaced, present, refused, added}
use utxo_z.Catalog.{Catalog, add, next_version, find_metadata, set_metadata}
use utxo_z.Metadata.{FileMetadata, blank, update_on_insert}
use utxo_z.Io.{Attempt, ok, err}

-- `get_index_from_size`: the first class that the value fits in, or the number of classes.
unfoldable pub get_index_from_size : List ℕ → ℕ → ℕ
get_index_from_size [] size = 0
get_index_from_size (c ∷ cs) size = if leb size c then 0 else suc (get_index_from_size cs size)

pub data Cause : Type 0 where
  preventive capacity_exception : Cause

pub record Snapshot : Type 0 where
  pub size : ℕ
  pub bucket_count : ℕ
  pub live_max_load : ℕ

unfoldable pub same_snapshot : Snapshot → Snapshot → Bool
same_snapshot a b =
    a.size == b.size && (a.bucket_count == b.bucket_count && a.live_max_load == b.live_max_load)

pub data PostException : Type 0 where
  map_intact map_mutated : PostException

unfoldable pub classify_post_exception : Snapshot → Snapshot → Bool → PostException
classify_post_exception before after key_present_after =
    if not (same_snapshot before after)
    then map_mutated
    else if key_present_after
    then map_mutated
    else map_intact

-- One class: the generation that is open, those before it, newest first, and the bookkeeping.
pub record Class (K Map : Type 0) : Type 0 where
  pub active : Map
  pub earlier : List (ℕ × Map)
  pub serving : Bool
  pub version : ℕ
  pub catalog : Catalog (FileMetadata K)
  pub dirty : List ℕ
  pub watch : RehashWatch
  pub entries_count : ℕ
  pub preventives : ℕ
  pub capacity_exceptions : ℕ
  pub failures : ℕ
  pub unexpected : ℕ
  pub integrity_latched : Option ErrorCode

-- What the platform decides: whether each rotation can create its file, and for each of the two
-- attempts whether the allocator throws against the map's promise, and what map it then leaves.
pub record Luck (Map : Type 0) : Type 0 where
  pub preventive_created : Bool
  pub retry_created : Bool
  pub first_throw : Option Map
  pub second_throw : Option Map

-- What the `try` block of one attempt comes to.
pub data Tried (Map : Type 0) : Type 0 where
  was_there : Tried Map
  stored threw : Map → Tried Map

unfoldable pub holds : {V : Type 0} → Option V → Bool
holds none = false
holds (some v) = true

-- `free_memory` answers `none` where the segment cannot be asked.
module _ {K V : Type 0} ⦃key : Key K⦄ (F : FlatMap K V) (min_buckets entry_size : ℕ)
    (free_memory : F.Map → Option ℕ) where
  unfoldable pub snapshot_of : F.Map → Snapshot
  snapshot_of m = record {
    size = F.size m;
    bucket_count = F.bucket_count m;
    live_max_load = F.max_load m;
  }

  unfoldable pub has_memory : Option ℕ → Bool
  has_memory none = false
  has_memory (some free) = ltb (entry_size * 10) free

  unfoldable pub can_insert_safely : F.Map → Bool
  can_insert_safely m =
      if ltb 0 (F.bucket_count m)
        && leb (effective_insert_limit (F.bucket_count m) (F.max_load m)) (F.size m)
      then false
      else has_memory (free_memory m)

  -- `close_container`, with the obligation that `new_version` records first.
  unfoldable pub close_container : Class K F.Map → Class K F.Map
  close_container s = record s {
    earlier = (s.version, s.active) ∷ s.earlier;
    serving = false;
    dirty = s.version ∷ s.dirty;
  }

  unfoldable pub new_version : Class K F.Map → Class K F.Map
  new_version s =
      let next = next_version s.catalog in
      record (close_container s) {
        active = F.construct min_buckets;
        serving = true;
        version = next;
        catalog = set_metadata (add s.catalog next) next blank;
        watch = reset s.watch (F.bucket_count (F.construct min_buckets));
      }

  unfoldable pub count : Cause → Class K F.Map → Class K F.Map
  count preventive s = record s { preventives = s.preventives + 1 }
  count capacity_exception s = record s { capacity_exceptions = s.capacity_exceptions + 1 }

  unfoldable pub rotate_for : Cause → Bool → Class K F.Map → Attempt (Unit {0}) × Class K F.Map
  rotate_for cause true s = (ok tt, count cause (new_version s))
  rotate_for cause false s = (
    err file_open_failed,
    record (close_container s) {
      failures = s.failures + 1;
      integrity_latched = some file_open_failed;
    },
  )

  unfoldable pub or_blank : Option (FileMetadata K) → FileMetadata K
  or_blank none = blank
  or_blank (some m) = m

  -- The bookkeeping of an entry that went in.
  unfoldable pub on_stored : Class K F.Map → F.Map → K → ℕ → Class K F.Map
  on_stored s m k height = record s {
    active = m;
    entries_count = s.entries_count + 1;
    watch = (detect_rehash s.watch (F.bucket_count m)).0;
    catalog =
        set_metadata s.catalog s.version
          (update_on_insert (or_blank (find_metadata s.catalog s.version)) k height);
  }

  unfoldable pub emplaced : F.Map → Emplaced F.Map → Tried F.Map
  emplaced m present = was_there
  emplaced m refused = threw m
  emplaced m (added m') = stored m'

  unfoldable pub try_emplace : Option F.Map → F.Map → K → V → Tried F.Map
  try_emplace (some left) m k v = threw left
  try_emplace none m k v = emplaced m (F.emplace m k v)

  -- A throw that left the map as it was goes on to `recover`; any other stops the instance.
  unfoldable pub after_throw :
      PostException
      → F.Map
      → Class K F.Map
      → (Class K F.Map → Attempt Bool × Class K F.Map)
      → Attempt Bool × Class K F.Map
  after_throw map_mutated left s recover = (
    err entry_corrupt,
    record s {
      active = left;
      unexpected = s.unexpected + 1;
      integrity_latched = some entry_corrupt;
    },
  )
  after_throw map_intact left s recover = recover (record s { active = left })

  unfoldable pub settle :
      Tried F.Map
      → Class K F.Map
      → K
      → ℕ
      → (Class K F.Map → Attempt Bool × Class K F.Map)
      → Attempt Bool × Class K F.Map
  settle was_there s k height recover = (ok false, s)
  settle (stored m) s k height recover = (ok true, on_stored s m k height)
  settle (threw left) s k height recover =
      after_throw
        (classify_post_exception (snapshot_of s.active) (snapshot_of left) (holds (F.find left k)))
        left s recover

  -- One pass through the loop.
  unfoldable pub attempt_insert :
      Option F.Map
      → Class K F.Map
      → K
      → V
      → ℕ
      → (Class K F.Map → Attempt Bool × Class K F.Map)
      → Attempt Bool × Class K F.Map
  attempt_insert throw s k v height recover =
      settle (try_emplace throw s.active k v) s k height recover

  unfoldable pub give_up : Class K F.Map → Attempt Bool × Class K F.Map
  give_up s = (err insufficient_space, s)

  unfoldable pub retried :
      Luck F.Map → K → V → ℕ → Attempt (Unit {0}) × Class K F.Map → Attempt Bool × Class K F.Map
  retried luck k v height (ok _, s) = attempt_insert luck.second_throw s k v height give_up
  retried luck k v height (err e, s) = (err e, s)

  -- The loop: one rotation and one retry.
  unfoldable pub insert_attempts :
      Luck F.Map → Class K F.Map → K → V → ℕ → Attempt Bool × Class K F.Map
  insert_attempts luck s k v height =
      attempt_insert luck.first_throw s k v height
        (λ s'. retried luck k v height (rotate_for capacity_exception luck.retry_created s'))

  unfoldable pub rotated :
      Luck F.Map → K → V → ℕ → Attempt (Unit {0}) × Class K F.Map → Attempt Bool × Class K F.Map
  rotated luck k v height (ok _, s) = insert_attempts luck s k v height
  rotated luck k v height (err e, s) = (err e, s)

  unfoldable pub insert_in_index :
      Luck F.Map → Class K F.Map → K → V → ℕ → Attempt Bool × Class K F.Map
  insert_in_index luck s k v height =
      if can_insert_safely s.active
      then insert_attempts luck s k v height
      else if holds (F.find s.active k)
      then (ok false, s)
      else rotated luck k v height (rotate_for preventive luck.preventive_created s)
