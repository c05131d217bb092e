-- ===== src/Value/RoundTrip.antt =====
-- Writing the bytes of an entry against reading them.
use mathlib.Core.List.{append-nil}
use utxo_z.Common.{
  ℕ, zero, suc, ◌-◌, ◌%◌, ◌^◌, ◌≤◌, ◌<◌, ◌≡◌, refl, sym, ◌∙◌, ap, List, [], ◌∷◌, length, take, min,
  arith, length-append, take-append, drop-append,
}
use utxo_z.Sidecar.{put, get}
use utxo_z.Sidecar.Bytes.{get-put}
use utxo_z.Value.{
  size_bytes, size_values, data_size, Value, zeros, set_data, get_data, make_outpoint, get_txid,
  get_output_index,
}

length-zeros : (n : ℕ) → length (zeros n) ≡ n
unfolding zeros
length-zeros zero = refl
length-zeros (suc n) = omega (arith, length-zeros n)

take_all : (bs : List ℕ) (n : ℕ) → length bs ≤ n → take n bs ≡ bs
take_all [] zero h = refl
take_all [] (suc n) h = refl
take_all (b ∷ bs) zero h = absurd (omega (arith, h))
take_all (b ∷ bs) (suc n) h = ap (λ (xs : List ℕ). b ∷ xs) (take_all bs n (omega (arith, h)))

-- A size that a class can have fits in the bytes kept for it.
size_fits : (size n : ℕ) → size ≤ 65536 → n ≤ data_size size → n % size_values size ≡ n
unfolding size_values data_size size_bytes
size_fits size n h le = ground arith

-- In every class of up to 65536 bytes a payload that fits is read back exactly as it was set, the
-- height is left alone, and the stored array has the length of the class whatever was there before.
pub get_data-set_data :
    (size : ℕ) (v : Value) (output : List ℕ)
    → size ≤ 65536
    → length output ≤ data_size size
    → (get_data (set_data size v output) ≡ output)
      × ((set_data size v output).block_height ≡ v.block_height)
      × (length (set_data size v output).bytes ≡ data_size size)
unfolding get_data set_data
get_data-set_data size v output small le =
    rw (exact, take_all output (length output) (omega arith))
      (
        take-append output (zeros (data_size size - length output)),
        refl,
        omega (
          arith,
          length-append output (zeros (data_size size - length output)),
          length-zeros (data_size size - length output),
          le,
        ),
      )
  where
    exact : min (length output) (data_size size) % size_values size ≡ length output
    exact =
        let e : min (length output) (data_size size) ≡ length output = omega (arith, le) in
        rw e (size_fits size (length output) small le)

-- An outpoint made of a 32-byte identity and a 32-bit index gives both back.
pub make_outpoint-parts :
    (txid : List ℕ) (output_index : ℕ)
    → length txid ≡ 32
    → output_index < 2 ^ 32
    → (get_txid (make_outpoint txid output_index) ≡ txid)
      × (get_output_index (make_outpoint txid output_index) ≡ output_index)
unfolding get_txid get_output_index make_outpoint
make_outpoint-parts txid output_index len small = (
  rw (← len) (take-append txid (put 4 output_index)),
  rw (← len, drop-append txid (put 4 output_index))
      (ap (get 4) (sym (append-nil (put 4 output_index)))
        ∙ get-put 4 output_index [] (omega (arith, small))),
)
