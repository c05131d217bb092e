-- ===== src/Cache/Tally.antt =====
-- What a history of calls on the file cache adds up to, by the calls and their answers, and what one
-- call adds.
use utxo_z.Common.{
  ℕ, ◌+◌, ◌≡◌, refl, sym, ◌∙◌, Bool, true, false, ◌&&◌, not, List, [], ◌∷◌, Option, none, some,
  if◌then◌else◌, ◌==◌, length, Bool-cases, inl, inr, arith,
}
use mathlib.Core.Path.{subst}
use utxo_z.Deletion.{FileId, same_file, is_some, reference_sentinel_index}
use utxo_z.Cache.{CachedFile, find_entry, put_entry, count_access}
use utxo_z.Cache.{Cache, Call, full_file, reference_file, resize, drop_all, make_room}
use utxo_z.Cache.Entries.{same_file-true, find_entry-erase, erase_entry-length, is_found}
use utxo_z.Cache.Transparent.{make_room-cases}
use utxo_z.Cache.Room.{IsWellFormed, make_room-Evicts}

-- How often a file was asked for, by the cache.
abbrev pub accesses_of : FileId → List (FileId × ℕ) → ℕ
accesses_of x [] = 0
accesses_of x ((b, n) ∷ fs) = if same_file b x then n else accesses_of x fs

abbrev pub one_if : Bool → ℕ
one_if b = if b then 1 else 0

-- The requests of a call; the sentinel is not one.
abbrev pub request_in : Call → ℕ
request_in (full_file c v now) = if c == reference_sentinel_index then 0 else 1
request_in (reference_file v now) = 1
request_in (resize n) = 0
request_in drop_all = 0

abbrev pub request_for : FileId → Call → ℕ
request_for x (full_file c v now) =
    if c == reference_sentinel_index then 0 else one_if (same_file (c, v) x)
request_for x (reference_file v now) = one_if (same_file (reference_sentinel_index, v) x)
request_for x (resize n) = 0
request_for x drop_all = 0

-- By the calls alone: how often any file, and one file, was asked for.
abbrev pub requests : List Call → ℕ
requests [] = 0
requests (x ∷ xs) = request_in x + requests xs

abbrev pub requests_for : FileId → List Call → ℕ
requests_for a [] = 0
requests_for a (x ∷ xs) = request_for a x + requests_for a xs

abbrev pub hit_in : {M : Type 0} → Option (M × Bool) → ℕ
hit_in none = 0
hit_in (some (m, hit)) = one_if hit

abbrev pub opened_in : {M : Type 0} → Option (M × Bool) → ℕ
opened_in none = 0
opened_in (some (m, hit)) = one_if (not hit)

pub count_access-accesses_of :
    (a x : FileId) (fs : List (FileId × ℕ))
    → accesses_of x (count_access a fs) ≡ accesses_of x fs + one_if (same_file a x)
unfolding count_access
count_access-accesses_of a x [] = ground arith
count_access-accesses_of a x ((b, n) ∷ fs) = elim (Bool-cases (same_file b a)) [
  | inl hit ↦
      rw (hit, same_file-true b a hit)
        (elim (Bool-cases (same_file a x)) [ inl h ↦ rw h | inr h ↦ rw h (omega arith) ])
  | inr miss ↦ rw miss (elim (Bool-cases (same_file b x)) [
    | inl here ↦
        let other : same_file a x ≡ false = elim (Bool-cases (same_file a x)) [
          | inl h ↦
              let e : same_file b a ≡ true =
                subst (λ y. same_file b y ≡ true) (sym (same_file-true a x h)) here in
              cc (e, miss)
          | inr h ↦ h
        ] in
        rw (here, other) (omega arith)
    | inr there ↦ rw there (count_access-accesses_of a x fs)
  ])
]

module _ {M : Type 0} where
  pub put_entry-length-absent :
      (a : FileId) (e : CachedFile M) (es : List (FileId × CachedFile M))
      → is_some (find_entry a es) ≡ false
      → length (put_entry a e es) ≡ length es + 1
  unfolding put_entry find_entry is_some
  put_entry-length-absent a e [] h = refl
  put_entry-length-absent a e ((b, c) ∷ es) h = elim (Bool-cases (same_file b a)) [
    | inl hit ↦ let bad : true ≡ false = rw hit at h in cc bad
    | inr miss ↦ rw miss (omega (arith, put_entry-length-absent a e es (rw miss at h)))
  ]

  -- From one state to another: what the counters, the open files and the frequencies have gained.
  pub record Tallied (s t : Cache M) (asks hits opens dropped : ℕ) (freq : FileId → ℕ)
      : Type 0 where
    pub asks_exact : t.gets ≡ s.gets + asks
    pub hits_exact : t.hits ≡ s.hits + hits
    pub files_exact : length t.cache + t.evictions + dropped ≡ length s.cache + s.evictions + opens
    pub freq_exact :
        (x : FileId) → accesses_of x t.access_frequency ≡ accesses_of x s.access_frequency + freq x

  pub Tallied-refl : (s : Cache M) → Tallied s s 0 0 0 0 (λ x. 0)
  Tallied-refl s = record {
    asks_exact = omega arith;
    hits_exact = omega arith;
    files_exact = omega arith;
    freq_exact = λ x. omega arith;
  }

  pub Tallied-trans :
      (s t u : Cache M) (a h o d a' h' o' d' : ℕ) (f f' : FileId → ℕ)
      → Tallied s t a h o d f
      → Tallied t u a' h' o' d' f'
      → Tallied s u (a + a') (h + h') (o + o') (d + d') (λ x. f x + f' x)
  Tallied-trans s t u a h o d a' h' o' d' f f' p q = record {
    asks_exact = omega (arith, p.asks_exact, q.asks_exact);
    hits_exact = omega (arith, p.hits_exact, q.hits_exact);
    files_exact = omega (arith, p.files_exact, q.files_exact);
    freq_exact = λ x. omega (arith, p.freq_exact x, q.freq_exact x);
  }

  -- Room is made by an eviction that is counted.
  pub make_room-Tallied : (s : Cache M) → IsWellFormed s → Tallied s (make_room s) 0 0 0 0 (λ x. 0)
  make_room-Tallied s w = elim (make_room-Evicts s w) [
    | inl (e, _) ↦ subst (λ t. Tallied s t 0 0 0 0 (λ x. 0)) (sym e) (Tallied-refl s)
    | inr (_, (v, found, _, e)) ↦
        subst (λ t. Tallied s t 0 0 0 0 (λ x. 0)) (sym e)
          (record {
            asks_exact = omega arith;
            hits_exact = omega arith;
            files_exact =
                omega (arith, erase_entry-length v.0 s.cache (is_found v.0 s.cache v.1 found));
            freq_exact = λ x. omega arith;
          })
  ]

  pub make_room-absent :
      (a : FileId) (s : Cache M)
      → IsWellFormed s
      → is_some (find_entry a s.cache) ≡ false
      → is_some (find_entry a (make_room s).cache) ≡ false
  make_room-absent a s w h = elim (make_room-cases s) [
    | inl e ↦ rw e h
    | inr (v, e) ↦ rw e (find_entry-erase v a s.cache w.distinct ∙ still (same_file v a) _ h)
  ]
    where
      still : (b c : Bool) → c ≡ false → (not b && c) ≡ false
      still true c h = refl
      still false c h = h
