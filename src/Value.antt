-- ===== src/Value.antt =====
-- src/detail/utxo_value.hpp, `utxo_value`, and the outpoint helpers of src/utils.cpp: how the bytes
-- of an entry are laid out. The padding after the members is not part of the model.
pub mod RoundTrip
use utxo_z.Common.{
  ℕ, zero, suc, ◌+◌, ◌-◌, ◌%◌, Bool, List, [], ◌∷◌, ◌++◌, leb, if◌then◌else◌, length, take, drop,
  min,
}
use utxo_z.Sidecar.{put, get}

-- The bytes of `size_type<Size>`, and how many values it has.
unfoldable pub size_bytes : ℕ → ℕ
size_bytes size = if leb size 255 then 1 else 2

unfoldable pub size_values : ℕ → ℕ
size_values size = if leb size 255 then 256 else 65536

-- The length of `data`, here `bytes`, in a value of a class.
unfoldable pub data_size : ℕ → ℕ
data_size size = size - 4 - size_bytes size

pub record Value : Type 0 where
  pub block_height : ℕ
  pub actual_size : ℕ
  pub bytes : List ℕ

unfoldable pub zeros : ℕ → List ℕ
zeros zero = []
zeros (suc n) = 0 ∷ zeros n

-- The payload, cut to what fits, and zeros to the end of the array.
unfoldable pub set_data : ℕ → Value → List ℕ → Value
set_data size v output =
    let actual = min (length output) (data_size size) % size_values size in
    record v { actual_size = actual; bytes = take actual output ++ zeros (data_size size - actual) }

unfoldable pub get_data : Value → List ℕ
get_data v = take v.actual_size v.bytes

-- The index stands in four little-endian bytes after the transaction's identity.
unfoldable pub make_outpoint : List ℕ → ℕ → List ℕ
make_outpoint txid output_index = txid ++ put 4 output_index

unfoldable pub get_txid : List ℕ → List ℕ
get_txid outpoint = take 32 outpoint

unfoldable pub get_output_index : List ℕ → ℕ
get_output_index outpoint = get 4 (drop 32 outpoint)
