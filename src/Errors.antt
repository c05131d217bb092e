-- ===== src/Errors.antt =====
-- `error_code` of include/utxoz/types.hpp.
pub data ErrorCode : Type 0 where
  not_found not_resolved closed storage_mode_mismatch config_file_corrupt value_too_large :
      ErrorCode
  duplicate_key catalog_unreadable version_unreadable removal_failed sync_unsupported : ErrorCode
  sync_failed rename_failed database_in_use database_lock_unavailable entropy_unavailable :
      ErrorCode
  file_open_failed identity_collision insufficient_space recovery_required recovery_failed :
      ErrorCode
  metadata_write_failed format_unsupported migration_required geometry_mismatch : ErrorCode
  layout_mismatch hash_mismatch abi_mismatch database_identity_mismatch : ErrorCode
  segment_stamp_missing segment_stamp_corrupt segment_misplaced inspection_only : ErrorCode
  database_not_found entry_corrupt : ErrorCode
