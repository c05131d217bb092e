-- ===== src/Insert/Typed.antt =====
-- src/database_impl.cpp, `reference_insert_typed` and `reference_find_typed`: the one container of
-- reference mode. Its insert goes through the same steps as that of a class of full mode, on its own
-- map, catalogue and counters, and so is that function at the value of reference mode.
use utxo_z.Common.{ℕ, Bool, Option}
use utxo_z.FlatMap.{Key, FlatMap}
use utxo_z.Io.{Attempt}
use utxo_z.Insert.{Class, Luck, insert_in_index}

pub record ReferenceValue : Type 0 where
  pub height : ℕ
  pub file_number : ℕ
  pub offset : ℕ

module _ {K : Type 0} ⦃key : Key K⦄ (F : FlatMap K ReferenceValue) (min_buckets entry_size : ℕ)
    (free_memory : F.Map → Option ℕ) where
  unfoldable pub reference_insert_typed :
      Luck F.Map → Class K F.Map → K → ℕ → ℕ → ℕ → Attempt Bool × Class K F.Map
  reference_insert_typed luck s k height file_number offset =
      insert_in_index F min_buckets entry_size free_memory luck s k
        (record { height = height; file_number = file_number; offset = offset }) height

  unfoldable pub reference_find_typed : Class K F.Map → K → Option ReferenceValue
  reference_find_typed s k = F.find s.active k
