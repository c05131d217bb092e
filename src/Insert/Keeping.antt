-- ===== src/Insert/Keeping.antt =====
-- What an insert changes of what is stored, with the rotations it makes.
use utxo_z.Common.{
  ℕ, ◌+◌, ◌≤◌, ◌<◌, ◌≡◌, ◌≢◌, ◌⊎◌, refl, ◌∙◌, Bool, true, false, List, [], ◌∷◌, Option, none, some,
  if◌then◌else◌, ==_refl, Bool-cases, Option-cases, inl, inr, arith, length,
}
use utxo_z.Errors.{file_open_failed, insufficient_space}
use utxo_z.FlatMap.{Key, FlatMap, Emplaced, present, refused, added}
use utxo_z.Io.{Attempt, ok, err}
use utxo_z.Insert.{
  Cause, preventive, capacity_exception, same_snapshot, classify_post_exception, Class, Luck, threw,
  holds, snapshot_of, can_insert_safely, close_container, new_version, count, rotate_for, on_stored,
  emplaced, try_emplace, after_throw, settle, attempt_insert, give_up, retried, insert_attempts,
  rotated, insert_in_index,
}

abbrev or_else : {A : Type 0} → Option A → Option A → Option A
or_else none y = y
or_else (some x) y = some x

module _ {K V : Type 0} ⦃key : Key K⦄ (F : FlatMap K V) (min_buckets entry_size : ℕ)
    (free_memory : F.Map → Option ℕ) where
  unfoldable pub find_earlier : List (ℕ × F.Map) → K → Option V
  find_earlier [] k = none
  find_earlier ((n, m) ∷ ms) k = or_else (F.find m k) (find_earlier ms k)

  -- The newest entry of a key in a class.
  unfoldable pub found : Class K F.Map → K → Option V
  found s k = or_else (F.find s.active k) (find_earlier s.earlier k)

  module _ (s₀ : Class K F.Map) (k : K) (v : V) where
    -- Nothing that is stored has changed, and at most `n` generations were closed.
    record Keeps (n : ℕ) (s : Class K F.Map) : Type 0 where
      stored_same : (j : K) → found s j ≡ found s₀ j
      count_same : s.entries_count ≡ s₀.entries_count
      latch_same : s.integrity_latched ≡ s₀.integrity_latched
      few_closed : length s.earlier ≤ length s₀.earlier + n

    -- What each answer of an insert says of the class it leaves.
    unfoldable pub Answered : Attempt Bool × Class K F.Map → Type 0
    Answered (ok true, s) =
        ((j : K) → found s j ≡ (if key.beq k j then some v else found s₀ j))
        × (s.entries_count ≡ s₀.entries_count + 1)
        × (s.integrity_latched ≡ s₀.integrity_latched)
        × (length s.earlier ≤ length s₀.earlier + 2)
    Answered (ok false, s) = (F.find s₀.active k ≢ none) × (s ≡ s₀)
    Answered (err e, s) =
        ((j : K) → found s j ≡ found s₀ j)
        × (s.entries_count ≡ s₀.entries_count)
        × (((e ≡ insufficient_space) × (s.integrity_latched ≡ s₀.integrity_latched))
            ⊎ ((e ≡ file_open_failed) × (s.integrity_latched ≡ some file_open_failed)))
        × (length s.earlier ≤ length s₀.earlier + 2)

    absent_twice : {A : Type 0} (x y : Option A) → or_else x (or_else x y) ≡ or_else x y
    absent_twice none y = refl
    absent_twice (some x) y = refl

    -- Closing a generation hides nothing, and an empty one on top of it hides nothing either.
    rotate_for_keeps :
        (cause : Cause) (n : ℕ) (s : Class K F.Map)
        → Keeps n s
        → Keeps (n + 1) (rotate_for F min_buckets entry_size free_memory cause true s).1
    unfolding rotate_for count new_version close_container found find_earlier
    rotate_for_keeps preventive n s h = record {
      stored_same = λ j. rw (F.find-construct min_buckets j) (h.stored_same j);
      count_same = h.count_same;
      latch_same = h.latch_same;
      few_closed = omega (arith, h.few_closed);
    }
    rotate_for_keeps capacity_exception n s h = record {
      stored_same = λ j. rw (F.find-construct min_buckets j) (h.stored_same j);
      count_same = h.count_same;
      latch_same = h.latch_same;
      few_closed = omega (arith, h.few_closed);
    }

    rotate_for_fails :
        (cause : Cause) (n : ℕ) (s : Class K F.Map)
        → n < 2
        → Keeps n s
        → Answered (
          err file_open_failed,
          (rotate_for F min_buckets entry_size free_memory cause false s).1,
        )
    unfolding rotate_for close_container found find_earlier Answered
    rotate_for_fails cause n s lt h = (
      (λ j. absent_twice (F.find s.active j) (find_earlier s.earlier j) ∙ h.stored_same j),
      h.count_same,
      inr (refl, refl),
      omega (arith, lt, h.few_closed),
    )

    stored_answers :
        (n height : ℕ) (s : Class K F.Map) (m : F.Map)
        → n ≤ 2
        → Keeps n s
        → F.emplace s.active k v ≡ added m
        → Answered (ok true, on_stored F min_buckets entry_size free_memory s m k height)
    unfolding Answered on_stored found
    stored_answers n height s m le h e = (
      (λ j. rw ((F.emplace_added s.active k v m e).1 j) (elim (Bool-cases (key.beq k j)) [
        | inl hit ↦ rw hit
        | inr miss ↦ rw miss (h.stored_same j)
      ])),
      rw h.count_same,
      h.latch_same,
      omega (arith, le, h.few_closed),
    )

    same_snapshot_refl :
        (m : F.Map)
        → same_snapshot
            (snapshot_of F min_buckets entry_size free_memory m)
            (snapshot_of F min_buckets entry_size free_memory m)
          ≡ true
    unfolding same_snapshot snapshot_of
    same_snapshot_refl m =
        rw (==_refl (F.size m), ==_refl (F.bucket_count m), ==_refl (F.max_load m))

    -- The allocator kept the map's promise.
    threw_answers :
        (height : ℕ) (s : Class K F.Map) (recover : Class K F.Map → Attempt Bool × Class K F.Map)
        → F.emplace s.active k v ≡ refused
        → Answered (recover s)
        → Answered (settle F min_buckets entry_size free_memory (threw s.active) s k height recover)
    unfolding settle after_throw classify_post_exception holds
    threw_answers height s recover e h = rw (same_snapshot_refl s.active, absent) h
      where
        absent : F.find s.active k ≡ none
        absent = elim (Option-cases (F.find s.active k)) [
          | inl e' ↦ e'
          | inr (x, e') ↦ let p = F.emplace_present s.active k v (λ q. cc (e', q)) in cc (e, p)
        ]

    attempt_answers :
        (n height : ℕ) (s : Class K F.Map) (recover : Class K F.Map → Attempt Bool × Class K F.Map)
        → n ≤ 2
        → Keeps n s
        → (F.find s.active k ≢ none → Answered (ok false, s))
        → Answered (recover s)
        → Answered (attempt_insert F min_buckets entry_size free_memory none s k v height recover)
    unfolding attempt_insert try_emplace settle emplaced
    attempt_answers n height s recover le h there again = go (F.emplace s.active k v) refl
      where
        go :
            (x : Emplaced F.Map)
            → F.emplace s.active k v ≡ x
            → Answered (
                settle F min_buckets entry_size free_memory
                  (emplaced F min_buckets entry_size free_memory s.active x)
                  s
                  k
                  height
                  recover)
        go present e = there (F.emplace_absent s.active k v e)
        go refused e = threw_answers height s recover e again
        go (added m) e = stored_answers n height s m le h e

    -- A generation just made holds nothing.
    fresh :
        (cause : Cause) (s : Class K F.Map)
        → F.find (rotate_for F min_buckets entry_size free_memory cause true s).1.active k ≡ none
    unfolding rotate_for count new_version
    fresh preventive s = F.find-construct min_buckets k
    fresh capacity_exception s = F.find-construct min_buckets k

    give_up_answers :
        (n : ℕ) (s : Class K F.Map)
        → n ≤ 2
        → Keeps n s
        → Answered (give_up F min_buckets entry_size free_memory s)
    unfolding give_up Answered
    give_up_answers n s le h =
        (h.stored_same, h.count_same, inl (refl, h.latch_same), omega (arith, le, h.few_closed))

    module _ (luck : Luck F.Map) (honest₁ : luck.first_throw ≡ none)
        (honest₂ : luck.second_throw ≡ none) (height : ℕ) where
      retried_answers :
          (n : ℕ) (b : Bool) (s : Class K F.Map)
          → n < 2
          → Keeps n s
          → Answered (
              retried F min_buckets entry_size free_memory luck k v height
                (rotate_for F min_buckets entry_size free_memory capacity_exception b s))
      unfolding retried rotate_for
      retried_answers n false s lt h = rotate_for_fails capacity_exception n s lt h
      retried_answers n true s lt h =
          let kept = rotate_for_keeps capacity_exception n s h in
          rw honest₂ (
            attempt_answers (n + 1) height _ _ (omega (arith, lt)) kept
              (λ there. absurd (there (fresh capacity_exception s)))
              (give_up_answers (n + 1) _ (omega (arith, lt)) kept))

      attempts_answer :
          (n : ℕ) (s : Class K F.Map)
          → n < 2
          → Keeps n s
          → (F.find s.active k ≢ none → Answered (ok false, s))
          → Answered (insert_attempts F min_buckets entry_size free_memory luck s k v height)
      unfolding insert_attempts retried
      attempts_answer n s lt h there = rw honest₁ (
          attempt_answers n height s _ (omega (arith, lt)) h there
            (retried_answers n luck.retry_created s lt h))

      start : Keeps 0 s₀
      start = record {
        stored_same = λ j. refl;
        count_same = refl;
        latch_same = refl;
        few_closed = omega arith;
      }

      rotated_answers :
          (b : Bool)
          → Answered (
              rotated F min_buckets entry_size free_memory luck k v height
                (rotate_for F min_buckets entry_size free_memory preventive b s₀))
      unfolding rotated rotate_for
      rotated_answers false = rotate_for_fails preventive 0 s₀ (omega arith) start
      rotated_answers true =
          attempts_answer 1 _ (omega arith) (rotate_for_keeps preventive 0 s₀ start)
            (λ there. absurd (there (fresh preventive s₀)))

      insert_answers :
          Answered (insert_in_index F min_buckets entry_size free_memory luck s₀ k v height)
      unfolding insert_in_index Answered holds
      insert_answers =
          elim (Bool-cases (can_insert_safely F min_buckets entry_size free_memory s₀.active)) [
            | inl e ↦ rw e (attempts_answer 0 s₀ (omega arith) start (λ there. (there, refl)))
            | inr e ↦ elim (Option-cases (F.find s₀.active k)) [
              | inl absent ↦ rw (e, absent) (rotated_answers luck.preventive_created)
              | inr (x, here) ↦ rw (e, here) ((λ q. cc (here, q)), refl)
            ]
          ]

module _ {K V : Type 0} ⦃key : Key K⦄ (F : FlatMap K V) (min_buckets entry_size : ℕ)
    (free_memory : F.Map → Option ℕ) where
  -- Where the allocator keeps the map's promise, and whichever rotations can be made: an insert that
  -- answers true stored the entry, and nothing else changed in what is found; one that answers false
  -- found the key in the open generation and changed nothing at all; and one that fails changed
  -- nothing that is stored or counted, and either latched the instance with the failed rotation or
  -- found no space. At most two generations are closed.
  pub insert_in_index-keeps :
      (luck : Luck F.Map) (s : Class K F.Map) (k : K) (v : V) (height : ℕ)
      → luck.first_throw ≡ none
      → luck.second_throw ≡ none
      → Answered F min_buckets entry_size free_memory s k v
          (insert_in_index F min_buckets entry_size free_memory luck s k v height)
  insert_in_index-keeps luck s k v height h₁ h₂ =
      insert_answers F min_buckets entry_size free_memory s k v luck h₁ h₂ height
