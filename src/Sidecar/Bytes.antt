-- ===== src/Sidecar/Bytes.antt =====
-- Little-endian words of n bytes and lists of them: what `put` writes `get` reads, and back.
use Prim.Native.Nat.{bit_xor}
use mathlib.Core.List.{append_assoc}
use native.Mathlib.Nat.{pow-suc}
use utxo_z.Common.{
  ℕ, zero, suc, ◌+◌, ◌*◌, ◌/◌, ◌%◌, ◌^◌, ◌≤◌, ◌<◌, ◌≡◌, refl, sym, ◌∙◌, true, List, [], ◌∷◌, ◌++◌,
  arith, length, drop, All, length-append, length-drop,
}
use utxo_z.Sidecar.{put, get, put_sources, get_sources, fnv, checksum, starts_with}

abbrev pub IsByte : ℕ → Type 0
IsByte b = b < 256

abbrev pub IsWord : ℕ → Type 0
IsWord v = v < 2 ^ 64

pub length-put : (n v : ℕ) → length (put n v) ≡ n
unfolding put
length-put zero v = refl
length-put (suc n) v = omega (arith, length-put n (v / 256))

pub get-put : (n v : ℕ) (rest : List ℕ) → v < 256 ^ n → get n (put n v ++ rest) ≡ v
unfolding put get
get-put zero v rest h = omega arith
get-put (suc n) v rest h =
    let p : 256 ^ suc n ≡ 256 ^ n * 256 = pow-suc 256 n in
    omega (arith, get-put n (v / 256) rest (omega arith))

pub put-get :
    (n : ℕ) (bs : List ℕ) → n ≤ length bs → All IsByte bs → put n (get n bs) ++ drop n bs ≡ bs
unfolding put get
put-get zero bs h a = refl
put-get (suc n) [] h a = absurd (omega arith)
put-get (suc n) (b ∷ bs) h a =
    let low : (b + 256 * get n bs) % 256 ≡ b = omega (arith, a.0) in
    let high : (b + 256 * get n bs) / 256 ≡ get n bs = omega (arith, a.0) in
    rw (low, high, put-get n bs (omega arith) a.1)

pub get-lt : (n : ℕ) (bs : List ℕ) → All IsByte bs → get n bs < 256 ^ n
unfolding get
get-lt zero bs a = omega arith
get-lt (suc n) [] a =
    let p : 256 ^ suc n ≡ 256 ^ n * 256 = pow-suc 256 n in omega (arith, get-lt n [] tt)
get-lt (suc n) (b ∷ bs) a =
    let p : 256 ^ suc n ≡ 256 ^ n * 256 = pow-suc 256 n in omega (arith, get-lt n bs a.1, a.0)

pub All-drop : (n : ℕ) (bs : List ℕ) → All IsByte bs → All IsByte (drop n bs)
All-drop zero bs a = a
All-drop (suc n) [] a = a
All-drop (suc n) (b ∷ bs) a = All-drop n bs a.1

drop-nil : (n : ℕ) → drop {A = ℕ} n [] ≡ []
drop-nil zero = refl
drop-nil (suc n) = refl

pub drop-drop : (n m : ℕ) (xs : List ℕ) → drop m (drop n xs) ≡ drop (n + m) xs
drop-drop zero m xs = ground arith
drop-drop (suc n) m [] = drop-nil m ∙ sym (drop-nil (suc n + m))
drop-drop (suc n) m (x ∷ xs) =
    let e : suc n + m ≡ suc (n + m) = omega arith in rw e (drop-drop n m xs)

pub length-put_sources : (ss : List ℕ) → length (put_sources ss) ≡ length ss * 8
unfolding put_sources
length-put_sources [] = refl
length-put_sources (s ∷ ss) =
    omega (arith, length-append (put 8 s) (put_sources ss), length-put 8 s, length-put_sources ss)

drop_word : (v : ℕ) (rest : List ℕ) → drop 8 (put 8 v ++ rest) ≡ rest
unfolding put
drop_word v rest = refl

pub get_sources-put_sources :
    (ss : List ℕ) (rest : List ℕ)
    → All IsWord ss
    → get_sources (length ss) (put_sources ss ++ rest) ≡ ss
unfolding get_sources put_sources
get_sources-put_sources [] rest a = refl
get_sources-put_sources (s ∷ ss) rest a = rw (
  append_assoc,
  get-put 8 s (put_sources ss ++ rest) a.0,
  drop_word,
  get_sources-put_sources ss rest a.1,
)

pub put_sources-get_sources :
    (n : ℕ) (bs : List ℕ)
    → n * 8 ≤ length bs
    → All IsByte bs
    → put_sources (get_sources n bs) ++ drop (n * 8) bs ≡ bs
unfolding put_sources get_sources
put_sources-get_sources zero bs h a = refl
put_sources-get_sources (suc n) bs h a =
    let e : drop (suc n * 8) bs ≡ drop (n * 8) (drop 8 bs) =
      ground (arith, drop-drop 8 (n * 8) bs) in
    let l : n * 8 ≤ length (drop 8 bs) = omega (arith, length-drop 8 bs) in
    rw (append_assoc, e, put_sources-get_sources n (drop 8 bs) l (All-drop 8 bs a))
      (put-get 8 bs (omega arith) a)

pub length-get_sources : (n : ℕ) (bs : List ℕ) → length (get_sources n bs) ≡ n
unfolding get_sources
length-get_sources zero bs = refl
length-get_sources (suc n) bs = omega (arith, length-get_sources n (drop 8 bs))

pub get_sources-words : (n : ℕ) (bs : List ℕ) → All IsByte bs → All IsWord (get_sources n bs)
unfolding get_sources
get_sources-words zero bs a = tt
get_sources-words (suc n) bs a = (get-lt 8 bs a, get_sources-words n (drop 8 bs) (All-drop 8 bs a))

fnv-lt : (bs : List ℕ) (h : ℕ) → h < 2 ^ 32 → fnv h bs < 2 ^ 32
unfolding fnv
fnv-lt [] h lt = lt
fnv-lt (b ∷ bs) h lt = fnv-lt bs (bit_xor h b * 16777619 % 2 ^ 32) (omega arith)

pub checksum-lt : (bs : List ℕ) → checksum bs < 2 ^ 32
unfolding checksum
checksum-lt bs = fnv-lt bs 2166136261 (omega arith)

pub starts_with-append : (ms rest : List ℕ) → starts_with ms (ms ++ rest) ≡ true
unfolding starts_with
starts_with-append [] rest = refl
starts_with-append (m ∷ ms) rest = ground (arith, starts_with-append ms rest)

pub starts_with_split : (ms bs : List ℕ) → starts_with ms bs ≡ true → bs ≡ ms ++ drop (length ms) bs
unfolding starts_with
starts_with_split [] bs h = refl
starts_with_split (m ∷ ms) [] h = cc
starts_with_split (m ∷ ms) (b ∷ bs) h = ground (arith, starts_with_split ms bs)
