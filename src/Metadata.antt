-- ===== src/Metadata.antt =====
-- src/detail/file_metadata.hpp: what is remembered of a version file's contents.
pub mod Range
use utxo_z.Common.{
  ℕ, ◌+◌, ◌-◌, ◌%◌, ◌^◌, Bool, ◌&&◌, ltb, leb, ◌==◌, if◌then◌else◌, min, max, u64_mod, Option, none,
  some,
}
use utxo_z.FlatMap.{Key}

-- The key bounds are absent until the first entry; in the code they then hold the extreme keys.
pub record FileMetadata (K : Type 0) : Type 0 where
  pub min_block_height : ℕ
  pub max_block_height : ℕ
  pub key_bounds : Option (K × K)
  pub entry_count : ℕ
  pub container_index : ℕ
  pub version : ℕ

module _ {K : Type 0} ⦃key : Key K⦄ where
  unfoldable pub blank : FileMetadata K
  blank = record {
    min_block_height = 2 ^ 32 - 1;
    max_block_height = 0;
    key_bounds = none;
    entry_count = 0;
    container_index = 0;
    version = 0;
  }

  -- Before any key the bounds are the extreme ones, which every key moves to itself.
  extend : K → Option (K × K) → K × K
  extend k none = (k, k)
  extend k (some (lo, hi)) = (if key.less k lo then k else lo, if key.less hi k then k else hi)

  first : FileMetadata K → K → ℕ → FileMetadata K
  first m k height = record m {
    min_block_height = height;
    max_block_height = height;
    key_bounds = some (k, k);
    entry_count = (m.entry_count + 1) % u64_mod;
  }

  unfoldable pub update_on_insert : FileMetadata K → K → ℕ → FileMetadata K
  unfolding first extend
  update_on_insert m k height = if m.entry_count == 0 then first m k height else record m {
    min_block_height = min m.min_block_height height;
    max_block_height = max m.max_block_height height;
    key_bounds = some (extend k m.key_bounds);
    entry_count = (m.entry_count + 1) % u64_mod;
  }

  unfoldable pub update_on_delete : FileMetadata K → FileMetadata K
  update_on_delete m =
      if ltb 0 m.entry_count then record m { entry_count = m.entry_count - 1 } else m

  unfoldable pub block_in_range : FileMetadata K → ℕ → Bool
  block_in_range m height =
      ltb 0 m.entry_count && (leb m.min_block_height height && leb height m.max_block_height)
