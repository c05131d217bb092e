-- ===== src/Cache/Eviction.antt =====
-- How many files stay open, and which one is closed to make room.
use utxo_z.Common.{
  ℕ, suc, ◌+◌, ◌≤◌, ◌≡◌, refl, ◌∙◌, ap, false, ◌&&◌, ◌||◌, not, List, [], ◌∷◌, Option, none, some,
  length, ◌≢◌, All, inl, inr, arith,
}
use utxo_z.Deletion.{FileId, same_file, is_some}
use utxo_z.Cache.{CachedFile, find_entry, put_entry, erase_entry}
use utxo_z.Cache.{
  Cache, Opening, Call, full_file, reference_file, resize, drop_all, empty_cache, make_room,
  set_cache_size, clear, is_cached, open_map, open_into, get_entry, get_or_open, run,
}
use utxo_z.Cache.Entries.{put_entry-All, find_entry-All}
use utxo_z.Deletion.{is_some}
use utxo_z.Deletion.Walk.{none-is}
use utxo_z.Cache.{count_access}
use utxo_z.Cache.Entries.{
  find_entry-put, find_entry-erase, put_entry-IsDistinct, put_entry-length, put_entry-length-found,
}
use utxo_z.Cache.Transparent.{run-keeps}
use utxo_z.Cache.Room.{
  IsWellFormed, Fits, make_room-Evicts, make_room-IsWellFormed, make_room-length, make_room-max,
}

module _ {S M : Type 0} (o : Opening S M) where
  put-IsWellFormed :
      (a : FileId) (e : CachedFile M) (s : Cache M)
      → e.is_pinned ≡ false
      → IsWellFormed s
      → IsWellFormed (record s { cache = put_entry a e s.cache })
  put-IsWellFormed a e s free w = record {
    distinct = put_entry-IsDistinct a e s.cache w.distinct;
    unpinned = put_entry-All (λ x. x.1.is_pinned ≡ false) a e s.cache free w.unpinned;
  }

  open_into-Fits :
      (n : ℕ) (a : FileId) (now : ℕ) (x : Option M) (s : Cache M)
      → IsWellFormed s
      → suc (length s.cache) ≤ n
      → s.max_cached_files ≤ n
      → Fits n (open_into o a now x s).1
  unfolding open_into
  open_into-Fits n a now none s w l m = record { well_formed = w; files = omega arith; allowed = m }
  open_into-Fits n a now (some y) s w l m =
      let e : CachedFile M = record {
        map_ptr = y;
        last_used = now;
        access_count = 1;
        is_pinned = false;
      } in
      record {
        well_formed = put-IsWellFormed a e s refl w;
        files = omega (arith, put_entry-length a e s.cache);
        allowed = m;
      }

  get_entry-Fits :
      (n : ℕ) (a : FileId) (now : ℕ) (x : Option (CachedFile M)) (s : Cache M)
      → 1 ≤ n
      → find_entry a s.cache ≡ x
      → Fits n s
      → Fits n (get_entry o a now x s).1
  unfolding get_entry
  get_entry-Fits n a now none s one h f =
      open_into-Fits n a now (open_map o a) (make_room s) (make_room-IsWellFormed s f.well_formed)
        (make_room-length s n f.well_formed f.files f.allowed one) (rw (make_room-max s) f.allowed)
  get_entry-Fits n a now (some e) s one h f =
      let d : CachedFile M = record e { last_used = now; access_count = e.access_count + 1 } in
      record {
        well_formed = record {
          distinct = put_entry-IsDistinct a d s.cache f.well_formed.distinct;
          unpinned =
              put_entry-All (λ x. x.1.is_pinned ≡ false) a d s.cache
                (find_entry-All (λ x. x.1.is_pinned ≡ false) a e s.cache f.well_formed.unpinned h)
                f.well_formed.unpinned;
        };
        files = omega (arith, put_entry-length-found a d e s.cache h, f.files);
        allowed = f.allowed;
      }

  -- A change of the size within the bound.
  abbrev pub SizedWithin : ℕ → Call → Type 0
  SizedWithin n (resize m) = m ≤ n
  SizedWithin n (full_file c v now) = Unit
  SizedWithin n (reference_file v now) = Unit
  SizedWithin n drop_all = Unit

  -- Whatever is asked for, the files that are open at once are within the largest size ever set, and
  -- one where that is none.
  pub run-Fits :
      (n m : ℕ) (calls : List Call)
      → 1 ≤ n
      → m ≤ n
      → All (SizedWithin n) calls
      → Fits n (run o calls (empty_cache m))
  unfolding get_or_open set_cache_size clear
  run-Fits n m calls one small sized =
      run-keeps o (Fits n) (SizedWithin n)
        (λ a now s f. get_entry-Fits n a now (find_entry a s.cache) _ one refl (record {
          well_formed = record {
            distinct = f.well_formed.distinct;
            unpinned = f.well_formed.unpinned;
          };
          files = f.files;
          allowed = f.allowed;
        }))
        (λ k s q f. record {
          well_formed = record {
            distinct = f.well_formed.distinct;
            unpinned = f.well_formed.unpinned;
          };
          files = f.files;
          allowed = q;
        })
        (λ s f. record {
          well_formed = record { distinct = tt; unpinned = tt };
          files = omega arith;
          allowed = f.allowed;
        })
        calls (empty_cache m) sized
        (record {
          well_formed = record { distinct = tt; unpinned = tt };
          files = omega arith;
          allowed = small;
        })

  pub get_or_open-IsWellFormed :
      (a : FileId) (now : ℕ) (s : Cache M) → IsWellFormed s → IsWellFormed (get_or_open o a now s).1
  unfolding get_or_open
  get_or_open-IsWellFormed a now s w =
      (get_entry-Fits (length s.cache + s.max_cached_files + 1) a now (find_entry a s.cache) _
        (omega arith) refl
        (record {
          well_formed = record { distinct = w.distinct; unpinned = w.unpinned };
          files = omega arith;
          allowed = omega arith;
        })).well_formed

  -- No call opens a file twice or pins one.
  pub run-IsWellFormed :
      (calls : List Call) (s : Cache M) → IsWellFormed s → IsWellFormed (run o calls s)
  unfolding set_cache_size clear
  run-IsWellFormed calls s w =
      run-keeps o IsWellFormed Any get_or_open-IsWellFormed
        (λ k t _ u. record { distinct = u.distinct; unpinned = u.unpinned })
        (λ t u. record { distinct = tt; unpinned = tt }) calls s (all calls) w
    where
      Any : Call → Type 0
      Any x = Unit

      all : (xs : List Call) → All Any xs
      all [] = tt
      all (x ∷ xs) = (tt, all xs)

  pub get_or_open-closes :
      (a : FileId) (now : ℕ) (s : Cache M) (m : M)
      → IsWellFormed s
      → is_cached a s ≡ false
      → open_map o a ≡ some m
      → s.max_cached_files ≤ length s.cache
      → s.cache ≢ []
      → (v : FileId × CachedFile M) × (find_entry v.0 s.cache ≡ some v.1)
        × All (λ x. v.1.last_used ≤ x.1.last_used) s.cache
        × ((x : FileId)
            → is_cached x (get_or_open o a now s).1
              ≡ (same_file a x || (not (same_file v.0 x) && is_cached x s)))
  unfolding get_or_open get_entry open_into is_cached
  get_or_open-closes a now s m w cold opened full some_file = elim (make_room-Evicts t w') [
    | inl (_, why) ↦ elim why [
      | inl less ↦ absurd (omega (arith, less, full))
      | inr empty ↦ absurd (some_file empty)
    ]
    | inr (_, (v, found, least, e)) ↦ (
      v,
      found,
      least,
      (λ x.
          ap (λ c. is_some (find_entry x c)) (after v e)
          ∙ find_entry-put a x fresh (erase_entry v.0 s.cache)
          ∙ ap (λ b. same_file a x || b) (find_entry-erase v.0 x s.cache w.distinct)),
    )
  ]
    where
      fresh : CachedFile M
      fresh = record { map_ptr = m; last_used = now; access_count = 1; is_pinned = false }

      t : Cache M
      t = record s { gets = s.gets + 1; access_frequency = count_access a s.access_frequency }

      w' : IsWellFormed t
      w' = record { distinct = w.distinct; unpinned = w.unpinned }

      after :
          (v : FileId × CachedFile M)
          → make_room t ≡ record t { cache = erase_entry v.0 t.cache; evictions = t.evictions + 1 }
          → (get_or_open o a now s).1.cache ≡ put_entry a fresh (erase_entry v.0 s.cache)
      after v e = rw (none-is (find_entry a s.cache) cold, opened, e)
