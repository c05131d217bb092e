-- ===== src/Cache/Room.antt =====
-- Making room in the file cache.
use utxo_z.Common.{
  ℕ, suc, ◌+◌, ◌≤◌, ◌<◌, ◌≡◌, refl, sym, true, false, List, [], ◌∷◌, some, leb, length, leb→le, All,
  Bool-cases, inl, inr, ◌⊎◌, arith,
}
use mathlib.Core.Path.{subst}
use utxo_z.Deletion.{FileId}
use utxo_z.Cache.{CachedFile, find_entry, erase_entry, min_element}
use utxo_z.Cache.{Cache, evict, evict_from, evict_lru, make_room}
use utxo_z.Cache.Entries.{erase_entry-All}
use utxo_z.Cache.Entries.{
  IsDistinct, erase_entry-IsDistinct, erase_entry-length, all_found, is_found,
}
use utxo_z.Cache.Transparent.{make_room-cases}
use utxo_z.Cache.Choice.{min_element-least, min_element-All}

module _ {M : Type 0} where
  -- No file is open twice, and nothing is pinned.
  pub record IsWellFormed (s : Cache M) : Type 0 where
    pub distinct : IsDistinct s.cache
    pub unpinned : All (λ x. x.1.is_pinned ≡ false) s.cache

  -- The number of open files, and the number allowed, within a bound.
  pub record Fits (n : ℕ) (s : Cache M) : Type 0 where
    pub well_formed : IsWellFormed s
    pub files : length s.cache ≤ n
    pub allowed : s.max_cached_files ≤ n

  -- The entry evicted is one that was not used since any other.
  abbrev pub Evicts : Cache M → Cache M → Type 0
  Evicts s t =
      (v : FileId × CachedFile M) × (find_entry v.0 s.cache ≡ some v.1)
      × All (λ x. v.1.last_used ≤ x.1.last_used) s.cache
      × (t ≡ record s { cache = erase_entry v.0 s.cache; evictions = s.evictions + 1 })

  evict_from-Evicts :
      (s : Cache M) (e : FileId × CachedFile M) (es : List (FileId × CachedFile M))
      → s.cache ≡ e ∷ es
      → IsDistinct s.cache
      → All (λ x. x.1.is_pinned ≡ false) s.cache
      → Evicts s (evict (min_element e es) s)
  unfolding evict
  evict_from-Evicts s e es at d free =
      let free' = subst (All (λ x. x.1.is_pinned ≡ false)) at free in
      let found =
        min_element-All (λ x. find_entry x.0 s.cache ≡ some x.1) e es
          (subst (All (λ x. find_entry x.0 s.cache ≡ some x.1)) at (all_found s.cache d)) in
      let least =
        subst (All (λ x. (min_element e es).1.last_used ≤ x.1.last_used)) (sym at)
          (min_element-least e es free') in
      let loose = min_element-All (λ x. x.1.is_pinned ≡ false) e es free' in
      (min_element e es, found, least, rw loose)

  -- A cache that is full evicts, unless it is empty; one that is not stays as it is.
  pub make_room-Evicts :
      (s : Cache M)
      → IsWellFormed s
      → ((make_room s ≡ s) × ((length s.cache < s.max_cached_files) ⊎ (s.cache ≡ [])))
        ⊎ (s.max_cached_files ≤ length s.cache) × Evicts s (make_room s)
  unfolding make_room evict_lru evict_from
  make_room-Evicts s w = elim (Bool-cases (leb s.max_cached_files (length s.cache))) [
    | inr room ↦ inl (rw room, inl (not_full s.max_cached_files (length s.cache) room))
    | inl full ↦ rw full (inner full s.cache refl)
  ]
    where
      not_full : (m n : ℕ) → leb m n ≡ false → n < m
      not_full m n h = ground arith

      inner :
          leb s.max_cached_files (length s.cache) ≡ true
          → (es : List (FileId × CachedFile M)) → s.cache ≡ es
          → ((evict_from es s ≡ s) × ((length s.cache < s.max_cached_files) ⊎ (s.cache ≡ [])))
            ⊎ (s.max_cached_files ≤ length s.cache) × Evicts s (evict_from es s)
      inner full [] e = inl (refl, inr e)
      inner full (x ∷ xs) e = inr (
        leb→le s.max_cached_files (length s.cache) full,
        evict_from-Evicts s x xs e w.distinct w.unpinned,
      )

  pub make_room-IsWellFormed : (s : Cache M) → IsWellFormed s → IsWellFormed (make_room s)
  make_room-IsWellFormed s w = elim (make_room-cases s) [
    | inl e ↦ subst IsWellFormed (sym e) w
    | inr (v, e) ↦ subst IsWellFormed (sym e) (record {
      distinct = erase_entry-IsDistinct v s.cache w.distinct;
      unpinned = erase_entry-All (λ x. x.1.is_pinned ≡ false) v s.cache w.unpinned;
    })
  ]

  -- There is room for one more.
  pub make_room-length :
      (s : Cache M) (n : ℕ)
      → IsWellFormed s
      → length s.cache ≤ n
      → s.max_cached_files ≤ n
      → 1 ≤ n
      → suc (length (make_room s).cache) ≤ n
  make_room-length s n w l m one = elim (make_room-Evicts s w) [
    | inl (e, why) ↦ rw e (elim why [ inl less ↦ omega arith | inr empty ↦ rw empty (omega arith) ])
    | inr (_, (v, found, _, e)) ↦
        rw e (omega (arith, erase_entry-length v.0 s.cache (is_found v.0 s.cache v.1 found)))
  ]

  pub make_room-max : (s : Cache M) → (make_room s).max_cached_files ≡ s.max_cached_files
  make_room-max s = elim (make_room-cases s) [ inl e ↦ rw e | inr (v, e) ↦ rw e ]
