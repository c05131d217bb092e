-- ===== src/Insert/Found.antt =====
-- An entry that went in, looked up at once.
use utxo_z.Common.{ℕ, ◌≡◌, refl, ◌∙◌, Bool, true, false, Option, none, some, if◌then◌else◌}
use utxo_z.FlatMap.{Key, FlatMap, Emplaced, present, refused, added}
use utxo_z.Io.{Attempt, ok, err}
use utxo_z.Insert.{
  preventive, capacity_exception, PostException, map_intact, map_mutated, Class, Luck, Tried,
  was_there, stored, threw, holds, can_insert_safely, rotate_for, on_stored, emplaced, try_emplace,
  after_throw, settle, attempt_insert, give_up, retried, insert_attempts, rotated, insert_in_index,
}
use utxo_z.Insert.Typed.{ReferenceValue, reference_insert_typed, reference_find_typed}

module _ {K V : Type 0} ⦃key : Key K⦄ (F : FlatMap K V) (min_buckets entry_size : ℕ)
    (free_memory : F.Map → Option ℕ) (k : K) (v : V) where
  -- If the answer is that the entry was stored, the open generation has it.
  abbrev Finds : Attempt Bool × Class K F.Map → Type 0
  Finds x = x.0 ≡ ok true → F.find x.1.active k ≡ some v

  try_emplace-stored :
      (throw : Option F.Map) (m m' : F.Map)
      → try_emplace F min_buckets entry_size free_memory throw m k v ≡ stored m'
      → F.find m' k ≡ some v
  unfolding try_emplace emplaced
  try_emplace-stored (some left) m m' h = cc h
  try_emplace-stored none m m' h = by_emplace (F.emplace m k v) refl h
    where
      by_emplace :
          (e : Emplaced F.Map)
          → F.emplace m k v ≡ e
          → emplaced F min_buckets entry_size free_memory m e ≡ stored m'
          → F.find m' k ≡ some v
      by_emplace present e h = cc h
      by_emplace refused e h = cc h
      by_emplace (added n) e h =
          let here : F.find n k ≡ some v =
            (F.emplace_added m k v n e).1 k ∙ rw ((key.beq_iff k k).1 refl) in
          cc (h, here)

  after_throw-Finds :
      (p : PostException) (left : F.Map) (s : Class K F.Map)
      (recover : Class K F.Map → Attempt Bool × Class K F.Map)
      → ((t : Class K F.Map) → Finds (recover t))
      → Finds (after_throw F min_buckets entry_size free_memory p left s recover)
  unfolding after_throw
  after_throw-Finds map_mutated left s recover r h = cc h
  after_throw-Finds map_intact left s recover r h = r (record s { active = left }) h

  settle-Finds :
      (t : Tried F.Map) (s : Class K F.Map) (height : ℕ)
      (recover : Class K F.Map → Attempt Bool × Class K F.Map)
      → ((m : F.Map) → t ≡ stored m → F.find m k ≡ some v)
      → ((u : Class K F.Map) → Finds (recover u))
      → Finds (settle F min_buckets entry_size free_memory t s k height recover)
  unfolding settle on_stored
  settle-Finds was_there s height recover law r h = cc h
  settle-Finds (stored m) s height recover law r h = law m refl
  settle-Finds (threw left) s height recover law r h = after_throw-Finds _ left s recover r h

  attempt_insert-Finds :
      (throw : Option F.Map) (s : Class K F.Map) (height : ℕ)
      (recover : Class K F.Map → Attempt Bool × Class K F.Map)
      → ((u : Class K F.Map) → Finds (recover u))
      → Finds (attempt_insert F min_buckets entry_size free_memory throw s k v height recover)
  unfolding attempt_insert
  attempt_insert-Finds throw s height recover r =
      settle-Finds (try_emplace F min_buckets entry_size free_memory throw s.active k v) s height
        recover (λ m e. try_emplace-stored throw s.active m e) r

  give_up-Finds : (s : Class K F.Map) → Finds (give_up F min_buckets entry_size free_memory s)
  unfolding give_up
  give_up-Finds s h = cc h

  retried-Finds :
      (luck : Luck F.Map) (height : ℕ) (x : Attempt Unit × Class K F.Map)
      → Finds (retried F min_buckets entry_size free_memory luck k v height x)
  unfolding retried
  retried-Finds luck height (ok _, s) h =
      attempt_insert-Finds luck.second_throw s height (give_up F min_buckets entry_size free_memory)
        give_up-Finds h
  retried-Finds luck height (err e, s) h = cc h

  insert_attempts-Finds :
      (luck : Luck F.Map) (s : Class K F.Map) (height : ℕ)
      → Finds (insert_attempts F min_buckets entry_size free_memory luck s k v height)
  unfolding insert_attempts
  insert_attempts-Finds luck s height = attempt_insert-Finds luck.first_throw s height _ (λ u.
      retried-Finds luck height
        (rotate_for F min_buckets entry_size free_memory capacity_exception luck.retry_created u))

  rotated-Finds :
      (luck : Luck F.Map) (height : ℕ) (x : Attempt Unit × Class K F.Map)
      → Finds (rotated F min_buckets entry_size free_memory luck k v height x)
  unfolding rotated
  rotated-Finds luck height (ok _, s) h = insert_attempts-Finds luck s height h
  rotated-Finds luck height (err e, s) h = cc h

  -- An insert that answers true leaves the entry in the open generation, where `find` looks for it,
  -- whichever rotations and throws there were.
  pub insert_in_index-find :
      (luck : Luck F.Map) (s : Class K F.Map) (height : ℕ)
      → (insert_in_index F min_buckets entry_size free_memory luck s k v height).0 ≡ ok true
      → F.find (insert_in_index F min_buckets entry_size free_memory luck s k v height).1.active k
        ≡ some v
  unfolding insert_in_index
  insert_in_index-find luck s height =
      by_room (can_insert_safely F min_buckets entry_size free_memory s.active)
        (holds (F.find s.active k))
    where
      by_room :
          (room there : Bool)
          → Finds (
              if room
              then insert_attempts F min_buckets entry_size free_memory luck s k v height
              else if there
              then (ok false, s)
              else rotated F min_buckets entry_size free_memory luck k v height (
                  rotate_for F min_buckets entry_size free_memory preventive luck.preventive_created
                    s))
      by_room true there h = insert_attempts-Finds luck s height h
      by_room false true h = cc h
      by_room false false h =
          rotated-Finds luck height
            (rotate_for F min_buckets entry_size free_memory preventive luck.preventive_created s) h

module _ {K : Type 0} ⦃key : Key K⦄ (F : FlatMap K ReferenceValue) (min_buckets entry_size : ℕ)
    (free_memory : F.Map → Option ℕ) where
  -- In reference mode, an insert that answers true is read back at once with its three fields.
  pub reference_find-insert :
      (luck : Luck F.Map) (s : Class K F.Map) (k : K) (height file_number offset : ℕ)
      → (reference_insert_typed F min_buckets entry_size free_memory luck s k height file_number
          offset).0
        ≡ ok true
      → reference_find_typed F min_buckets entry_size free_memory
          (reference_insert_typed F min_buckets entry_size free_memory luck s k height file_number
            offset).1
          k
        ≡ some (record { height = height; file_number = file_number; offset = offset })
  unfolding reference_insert_typed reference_find_typed
  reference_find-insert luck s k height file_number offset h =
      insert_in_index-find F min_buckets entry_size free_memory k _ luck s height h
