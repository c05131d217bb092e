-- ===== src/Sidecar.antt =====
-- src/detail/merge_sidecar.hpp: the record that says a merge is in flight and what it supersedes.
-- Bytes are numbers below 256; `size_t` is 64 bits wide, so the width test passes.
pub mod Bytes
pub mod Coherent
pub mod RoundTrip
use Prim.Native.Nat.{bit_xor}
use utxo_z.Common.{
  ℕ, zero, suc, ◌+◌, ◌-◌, ◌*◌, ◌/◌, ◌%◌, ◌^◌, Bool, true, false, ◌&&◌, ◌||◌, not, List, [], ◌∷◌,
  ◌++◌, Option, none, some, ltb, leb, ◌==◌, if◌then◌else◌, length, take, drop,
}

-- `struct merge_marker`.
pub record Marker : Type 0 where
  pub high : ℕ
  pub low : ℕ

unfoldable pub is_empty : Marker → Bool
is_empty m = m.high == 0 && m.low == 0

-- `struct merge_plan`.
pub record Plan : Type 0 where
  pub container : ℕ
  pub target : ℕ
  pub id : Marker
  pub sources : List ℕ

-- `std::ranges::find(sources, version) != sources.end()`.
unfoldable pub contains : List ℕ → ℕ → Bool
contains [] v = false
contains (s ∷ ss) v = s == v || contains ss v

unfoldable pub supersedes : Plan → ℕ → Bool
supersedes p v = contains p.sources v

-- `checksum`: 32-bit FNV-1a.
unfoldable pub fnv : ℕ → List ℕ → ℕ
fnv hash [] = hash
fnv hash (b ∷ bs) = fnv (bit_xor hash b * 16777619 % 2 ^ 32) bs

unfoldable pub checksum : List ℕ → ℕ
checksum bytes = fnv 2166136261 bytes

-- `put` and `get` of an unsigned integer of n bytes, least significant first.
unfoldable pub put : ℕ → ℕ → List ℕ
put zero value = []
put (suc n) value = value % 256 ∷ put n (value / 256)

unfoldable pub get : ℕ → List ℕ → ℕ
get zero bytes = 0
get (suc n) [] = 0
get (suc n) (b ∷ bs) = b + 256 * get n bs

abbrev pub magic : List ℕ
magic = b'U' ∷ b'Z' ∷ b'M' ∷ b'G' ∷ []

abbrev pub current_format : ℕ
current_format = 2

abbrev pub max_sources : ℕ
max_sources = 64

abbrev pub header_size : ℕ
header_size = 48

abbrev pub encoded_size_for : ℕ → ℕ
encoded_size_for source_count = header_size + source_count * 8 + 4

unfoldable pub put_sources : List ℕ → List ℕ
put_sources [] = []
put_sources (s ∷ ss) = put 8 s ++ put_sources ss

-- What the checksum covers.
unfoldable pub body : Plan → List ℕ
body p =
    magic
    ++ (put 2 current_format
        ++ (put 2 0
            ++ (put 8 p.container
                ++ (put 8 p.target
                    ++ (put 8 p.id.high
                        ++ (put 8 p.id.low
                            ++ (put 8 (length p.sources) ++ put_sources p.sources)))))))

unfoldable pub encode_merge_plan : Plan → List ℕ
encode_merge_plan p = body p ++ put 4 (checksum (body p))

-- The byte comparison of `std::equal` against the magic.
unfoldable pub starts_with : List ℕ → List ℕ → Bool
starts_with [] bytes = true
starts_with (m ∷ ms) [] = false
starts_with (m ∷ ms) (b ∷ bs) = m == b && starts_with ms bs

unfoldable pub get_sources : ℕ → List ℕ → List ℕ
get_sources zero bytes = []
get_sources (suc n) bytes = get 8 bytes ∷ get_sources n (drop 8 bytes)

unfoldable pub adjacent_find : List ℕ → Bool
adjacent_find [] = false
adjacent_find (x ∷ []) = false
adjacent_find (x ∷ y ∷ rest) = x == y || adjacent_find (y ∷ rest)

unfoldable pub is_sorted : List ℕ → Bool
is_sorted [] = true
is_sorted (x ∷ []) = true
is_sorted (x ∷ y ∷ rest) = leb x y && is_sorted (y ∷ rest)

-- The coherence checks at the end of `decode_merge_plan`.
unfoldable pub coherent : Plan → Bool
coherent p =
    not (is_empty p.id)
    && (not (supersedes p p.target) && (not (adjacent_find p.sources) && is_sorted p.sources))

-- The plan that the bytes of a record spell, at the offsets the cursor passes through.
unfoldable pub read_plan : List ℕ → Plan
read_plan bytes = record {
  container = get 8 (drop 8 bytes);
  target = get 8 (drop 16 bytes);
  id = record { high = get 8 (drop 24 bytes); low = get 8 (drop 32 bytes) };
  sources = get_sources (get 8 (drop 40 bytes)) (drop 48 bytes);
}

-- The checks on the bytes that follow the length test, in the order of the code.
unfoldable pub intact : List ℕ → Bool
intact bytes =
    starts_with magic bytes
    && (get 2 (drop 4 bytes) == current_format
        && (get 2 (drop 6 bytes) == 0
            && (not (get 8 (drop 40 bytes) == 0 || ltb max_sources (get 8 (drop 40 bytes)))
                && (length bytes == encoded_size_for (get 8 (drop 40 bytes))
                    && checksum (take (length bytes - 4) bytes)
                      == get 4 (drop (length bytes - 4) bytes)))))

-- `none` is `sidecar_read_error::invalid`, the only error that the function answers.
unfoldable pub decode_merge_plan : List ℕ → Option Plan
decode_merge_plan bytes =
    if ltb (length bytes) (header_size + 4)
    then none
    else if intact bytes
    then (if coherent (read_plan bytes) then some (read_plan bytes) else none)
    else none
