-- ===== src/Sidecar/RoundTrip.antt =====
-- `encode_merge_plan` against `decode_merge_plan`.
use mathlib.Core.List.{append_assoc, append-nil}
use utxo_z.Common.{
  ℕ, ◌+◌, ◌-◌, ◌*◌, ◌≤◌, ◌≡◌, refl, sym, ap, ◌∙◌, true, false, ltb, List, [], ◌++◌, some, arith,
  All, length, take, drop, length-append, take-append, drop-append, length-drop,
}
use utxo_z.Sidecar.{
  Plan, encoded_size_for, max_sources, put, get, magic, put_sources, body, checksum,
  encode_merge_plan, starts_with, get_sources, read_plan, intact, coherent, decode_merge_plan,
}
use utxo_z.Sidecar.Bytes.{
  IsByte, length-put, get-put, put-get, get-lt, All-drop, drop-drop, length-put_sources,
  get_sources-put_sources, put_sources-get_sources, length-get_sources, get_sources-words,
  checksum-lt, starts_with_split,
}
use utxo_z.Sidecar.Coherent.{IsCoherent, Fits, coherent_of, of_coherent}

-- What follows each field of the record, with the checksum behind it.
module _ (p : Plan) (tail : List ℕ) where
  after_count : List ℕ
  after_count = put_sources p.sources ++ tail

  drop_format : drop 4 (body p ++ tail) ≡ put 2 2 ++ drop 6 (body p ++ tail)
  unfolding body put
  drop_format = refl

  drop_reserved : drop 6 (body p ++ tail) ≡ put 2 0 ++ drop 8 (body p ++ tail)
  unfolding body put
  drop_reserved = refl

  drop_container : drop 8 (body p ++ tail) ≡ put 8 p.container ++ drop 16 (body p ++ tail)
  unfolding body put
  drop_container = refl

  drop_target : drop 16 (body p ++ tail) ≡ put 8 p.target ++ drop 24 (body p ++ tail)
  unfolding body put
  drop_target = refl

  drop_high : drop 24 (body p ++ tail) ≡ put 8 p.id.high ++ drop 32 (body p ++ tail)
  unfolding body put
  drop_high = refl

  drop_low : drop 32 (body p ++ tail) ≡ put 8 p.id.low ++ drop 40 (body p ++ tail)
  unfolding body put
  drop_low = refl

  drop_count : drop 40 (body p ++ tail) ≡ put 8 (length p.sources) ++ drop 48 (body p ++ tail)
  unfolding body put
  drop_count = refl

  drop_sources : drop 48 (body p ++ tail) ≡ put_sources p.sources ++ tail
  unfolding body put
  drop_sources = refl

  body_starts : starts_with magic (body p ++ tail) ≡ true
  unfolding body starts_with
  body_starts = refl

  module _ (f : Fits p) where
    get_count : get 8 (drop 40 (body p ++ tail)) ≡ length p.sources
    get_count = rw drop_count (get-put 8 (length p.sources) _ (omega (arith, f.few_sources)))

    read_plan-body : read_plan (body p ++ tail) ≡ p
    unfolding read_plan
    read_plan-body = rw (
      get_count,
      drop_container,
      get-put 8 p.container _ f.container_word,
      drop_target,
      get-put 8 p.target _ f.target_word,
      drop_high,
      get-put 8 p.id.high _ f.high_word,
      drop_low,
      get-put 8 p.id.low _ f.low_word,
      drop_sources,
      get_sources-put_sources p.sources tail f.source_words,
    )

length-body : (p : Plan) → length (body p) ≡ 48 + length p.sources * 8
unfolding body put
length-body p = omega (arith, length-put_sources p.sources)

module _ (p : Plan) (f : Fits p) where
  abbrev seal : List ℕ
  seal = put 4 (checksum (body p))

  length-encode : length (body p ++ seal) ≡ 48 + length p.sources * 8 + 4
  length-encode =
      omega (arith, length-append (body p) seal, length-put 4 (checksum (body p)), length-body p)

  sealed_at : length (body p ++ seal) - 4 ≡ length (body p)
  sealed_at = omega (arith, length-encode, length-body p)

  take-body : take (length (body p ++ seal) - 4) (body p ++ seal) ≡ body p
  take-body = rw sealed_at (take-append (body p) seal)

  get-seal : get 4 (drop (length (body p ++ seal) - 4) (body p ++ seal)) ≡ checksum (body p)
  get-seal =
      rw (sealed_at, drop-append (body p) seal)
        (ap (get 4) (sym (append-nil seal))
          ∙ get-put 4 (checksum (body p)) [] (omega (arith, checksum-lt (body p))))

  get_format : get 2 (drop 4 (body p ++ seal)) ≡ 2
  get_format = rw drop_format (get-put 2 2 _ (omega arith))

  get_reserved : get 2 (drop 6 (body p ++ seal)) ≡ 0
  get_reserved = rw drop_reserved (get-put 2 0 _ (omega arith))

  intact-encode : intact (body p ++ seal) ≡ true
  unfolding intact
  intact-encode =
      rw
        (
          body_starts p seal,
          get_format,
          get_reserved,
          get_count p seal f,
          take-body,
          get-seal,
          length-encode,
        )
        (ground (arith, f.some_source, f.few_sources))

  pub decode-encode_fits : IsCoherent p → decode_merge_plan (encode_merge_plan p) ≡ some p
  unfolding decode_merge_plan encode_merge_plan
  decode-encode_fits c =
      rw (intact-encode, read_plan-body p seal f, coherent_of p c) (ground (arith, length-encode))

  -- No record of a plan that fits is longer than the reader allows.
  pub length-encode_merge_plan :
      ltb (encoded_size_for max_sources) (length (encode_merge_plan p)) ≡ false
  unfolding encode_merge_plan
  length-encode_merge_plan = ground (arith, length-encode, f.few_sources)

-- The length of any record.
pub length-encoded : (p : Plan) → length (encode_merge_plan p) ≡ 48 + length p.sources * 8 + 4
unfolding encode_merge_plan
length-encoded p = omega (
  arith,
  length-append (body p) (put 4 (checksum (body p))),
  length-put 4 (checksum (body p)),
  length-body p,
)

-- A coherent plan whose numbers are 64-bit words and that names between one and sixty-four
-- sources is read back exactly from the record written for it.
pub decode-encode :
    (p : Plan) → Fits p → IsCoherent p → decode_merge_plan (encode_merge_plan p) ≡ some p
decode-encode p f c = decode-encode_fits p f c

-- Any bytes that pass the tests are the record of the plan that is read from them.
module _ (bs : List ℕ) (bytes : All IsByte bs) (long : 52 ≤ length bs) (ok : intact bs ≡ true) where
  abbrev count : ℕ
  count = get 8 (drop 40 bs)

  count_bounds : (1 ≤ count) × (count ≤ 64) × (length bs ≡ 48 + count * 8 + 4)
  unfolding intact
  count_bounds = ground arith

  format_two : (get 2 (drop 4 bs) ≡ 2) × (get 2 (drop 6 bs) ≡ 0)
  unfolding intact
  format_two = ground arith

  front : starts_with magic bs ≡ true
  unfolding intact
  front = ground arith

  checked : checksum (take (length bs - 4) bs) ≡ get 4 (drop (length bs - 4) bs)
  unfolding intact
  checked = ground arith

  field_at :
      (k n : ℕ) → k + n ≤ length bs → drop k bs ≡ put n (get n (drop k bs)) ++ drop (k + n) bs
  field_at k n h =
      rw (← drop-drop k n bs)
        (sym (put-get n (drop k bs) (omega (arith, length-drop k bs)) (All-drop k bs bytes)))

  read_plan-Fits : Fits (read_plan bs)
  unfolding read_plan
  read_plan-Fits = record {
    container_word = get-lt 8 _ (All-drop 8 bs bytes);
    target_word = get-lt 8 _ (All-drop 16 bs bytes);
    high_word = get-lt 8 _ (All-drop 24 bs bytes);
    low_word = get-lt 8 _ (All-drop 32 bs bytes);
    source_words = get_sources-words count _ (All-drop 48 bs bytes);
    some_source = omega (arith, count_bounds.0, length-get_sources count (drop 48 bs));
    few_sources = omega (arith, count_bounds.1, length-get_sources count (drop 48 bs));
  }

  tail_at : drop 48 bs ≡ put_sources (get_sources count (drop 48 bs)) ++ drop (length bs - 4) bs
  tail_at =
      let e : length bs - 4 ≡ 48 + count * 8 = omega (arith, count_bounds.2) in
      rw (e, ← drop-drop 48 (count * 8) bs)
        (sym (
          put_sources-get_sources count (drop 48 bs)
            (omega (arith, length-drop 48 bs, count_bounds.2)) (All-drop 48 bs bytes)))

  abbrev end : List ℕ
  end = drop (length bs - 4) bs

  abbrev spelled : List ℕ → List ℕ
  spelled rest =
      magic
      ++ (put 2 2
          ++ (put 2 0
              ++ (put 8 (get 8 (drop 8 bs))
                  ++ (put 8 (get 8 (drop 16 bs))
                      ++ (put 8 (get 8 (drop 24 bs)) ++ (put 8 (get 8 (drop 32 bs)) ++ rest))))))

  -- One word at an offset, and then the rest.
  word_at :
      (k : ℕ)
      → k + 8 ≤ 48
      → {rest : List ℕ} → drop (k + 8) bs ≡ rest
      → drop k bs ≡ put 8 (get 8 (drop k bs)) ++ rest
  word_at k h e = field_at k 8 (omega arith) ∙ ap (◌++◌ (put 8 (get 8 (drop k bs)))) e

  short_at :
      (k v : ℕ)
      → k + 2 ≤ 48
      → get 2 (drop k bs) ≡ v
      → {rest : List ℕ} → drop (k + 2) bs ≡ rest
      → drop k bs ≡ put 2 v ++ rest
  short_at k v h g e =
      field_at k 2 (omega arith) ∙ ap (λ t. put 2 t ++ drop (k + 2) bs) g ∙ ap (◌++◌ (put 2 v)) e

  spelled_read : bs ≡ spelled (put 8 count ++ (put_sources (get_sources count (drop 48 bs)) ++ end))
  spelled_read =
      starts_with_split magic bs front
      ∙ ap (◌++◌ magic) (
          short_at 4 2 (omega arith) format_two.0 (
            short_at 6 0 (omega arith) format_two.1 (
              word_at 8 (omega arith) (
                word_at 16 (omega arith) (
                  word_at 24 (omega arith)
                    (word_at 32 (omega arith) (word_at 40 (omega arith) tail_at)))))))

  body_read : bs ≡ body (read_plan bs) ++ end
  unfolding body read_plan
  body_read = rw length-get_sources (spelled_read ∙ simp append_assoc)

  length_sources_read : length (read_plan bs).sources ≡ count
  unfolding read_plan
  length_sources_read = length-get_sources count (drop 48 bs)

  take_read : take (length bs - 4) bs ≡ body (read_plan bs)
  take_read =
      let e : length bs - 4 ≡ length (body (read_plan bs)) =
        omega (arith, length-body (read_plan bs), length_sources_read, count_bounds.2) in
      rw e
        (ap (take (length (body (read_plan bs)))) body_read ∙ take-append (body (read_plan bs)) end)

  nothing_after : drop 4 end ≡ []
  nothing_after =
      let e : length bs - 4 + 4 ≡ length bs = omega (arith, long) in
      drop-drop (length bs - 4) 4 bs
      ∙ rw e (ap (drop (length bs)) (sym (append-nil bs)) ∙ drop-append bs [])

  end_read : put 4 (checksum (body (read_plan bs))) ≡ end
  end_read =
      rw (← take_read, checked)
        (sym (append-nil _)
          ∙ ap (◌++◌ (put 4 (get 4 end))) (sym nothing_after)
          ∙ put-get 4 end (omega (arith, length-drop (length bs - 4) bs, long))
              (All-drop (length bs - 4) bs bytes))

  pub encode_read : encode_merge_plan (read_plan bs) ≡ bs
  unfolding encode_merge_plan
  encode_read = ap (◌++◌ (body (read_plan bs))) end_read ∙ sym body_read

decode_cases :
    (bs : List ℕ) (p : Plan)
    → decode_merge_plan bs ≡ some p
    → (52 ≤ length bs) × (intact bs ≡ true) × (coherent (read_plan bs) ≡ true) × (read_plan bs ≡ p)
unfolding decode_merge_plan
decode_cases bs p h = ground arith

-- Whatever bytes are decoded to a plan, the plan fits the record and is coherent, and the bytes
-- are exactly the record that is written for that plan: nothing else is ever accepted.
pub decode_merge_plan_sound :
    (bs : List ℕ) (p : Plan)
    → All IsByte bs
    → decode_merge_plan bs ≡ some p
    → Fits p × IsCoherent p × (encode_merge_plan p ≡ bs)
decode_merge_plan_sound bs p bytes h =
    let (long, ok, good, e) = decode_cases bs p h in
    rw (← e) (
      read_plan-Fits bs bytes long ok,
      of_coherent (read_plan bs) good,
      encode_read bs bytes long ok,
    )
