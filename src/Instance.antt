-- ===== src/Instance.antt =====
-- The state that one container of an open instance keeps, with the directory, and the file
-- operations of src/detail/durability.hpp and src/database_impl.cpp on it.
pub mod Rules
use utxo_z.Common.{ℕ, Bool, true, false, List, [], ◌∷◌, Option, none, some, if◌then◌else◌, ◌==◌}
use utxo_z.Sidecar.{Marker}
use utxo_z.Errors.{
  ErrorCode, removal_failed, catalog_unreadable, file_open_failed, identity_collision,
  rename_failed, metadata_write_failed, version_unreadable, recovery_failed,
}
use utxo_z.Catalog.{Catalog}
use utxo_z.Metadata.{FileMetadata}
use utxo_z.Dir.{Dir, Name, Content, segment, raw, exists_in, file_at, unlink, write}
use utxo_z.Io.{M, ◌>>=◌, ◌>>◌, pure, fail, get, modify, syscall, barrier, ignore}

-- `dirty` is the part of `dirty_versions_` for this container.
pub record State (K Map : Type 0) : Type 0 where
  pub dir : Dir Map
  pub catalog : Catalog (FileMetadata K)
  pub dirty : List ℕ
  pub cleanup_pending : Bool

module _ {K Map : Type 0} where
  abbrev pub on_dir : (Dir Map → Dir Map) → State K Map → State K Map
  on_dir f s = record s { dir = f s.dir }

  -- `path_exists`: there, not there, or an error.
  unfoldable pub path_exists : Name → M (State K Map) Bool
  unfolding exists_in
  path_exists n = syscall catalog_unreadable (do s ← get; pure (exists_in (file_at n s.dir)))

  -- `remove_file`; removing what is not there is a success.
  unfoldable pub remove_file : Name → M (State K Map) (Unit {0})
  remove_file n = syscall removal_failed (modify (on_dir (unlink n)))

  -- `create_only` on a mapped file.
  unfoldable pub create_unless :
      Option (Content Map) → Name → Content Map → M (State K Map) (Unit {0})
  create_unless (some c) n new = fail file_open_failed
  create_unless none n new = modify (on_dir (write n new))

  unfoldable pub create_file : Name → Content Map → M (State K Map) (Unit {0})
  unfolding create_unless
  create_file n new = syscall file_open_failed (do s ← get; create_unless (file_at n s.dir) n new)

  -- A store into a mapped file: it cannot fail, and the process may die before it.
  unfoldable pub store_mapped : Name → Content Map → M (State K Map) (Unit {0})
  store_mapped n c = syscall file_open_failed (modify (on_dir (write n c)))

  unfoldable pub move : Option (Content Map) → Name → Name → M (State K Map) (Unit {0})
  move none from to = fail rename_failed
  move (some c) from to = modify (on_dir (λ d. write to c (unlink from d)))

  -- `replace_file_atomically`.
  unfoldable pub replace_file : Name → Name → M (State K Map) (Unit {0})
  unfolding move
  replace_file from to = syscall rename_failed (do s ← get; move (file_at from s.dir) from to)

  unfoldable pub link :
      Option (Content Map) → Option (Content Map) → Name → M (State K Map) (Unit {0})
  link (some taken) c to = fail identity_collision
  link none none to = fail rename_failed
  link none (some c) to = modify (on_dir (write to c))

  -- `publish_new_file`: link the new name, then unlink the old one, whose failure is ignored.
  unfoldable pub publish_new_file : Name → Name → M (State K Map) (Unit {0})
  unfolding link
  publish_new_file from to = do
    syscall rename_failed (do s ← get; link (file_at to s.dir) (file_at from s.dir) to)
    ignore (syscall removal_failed (modify (on_dir (unlink from))))

  unfoldable pub marker_in : Option (Content Map) → M (State K Map) Marker
  marker_in (some (segment (some id) m)) = pure id
  marker_in _ = fail recovery_failed

  -- `read_target_marker`: every reason to find no marker is the same error.
  unfoldable pub read_target_marker : Name → M (State K Map) Marker
  unfolding marker_in
  read_target_marker n = syscall recovery_failed (do s ← get; marker_in (file_at n s.dir))

  unfoldable pub map_in : Option (Content Map) → M (State K Map) Map
  map_in (some (segment id m)) = pure m
  map_in _ = fail file_open_failed

  -- Opening a source, with its stamp and its map found.
  unfoldable pub open_map : Name → M (State K Map) Map
  unfolding map_in
  open_map n = syscall file_open_failed (do s ← get; map_in (file_at n s.dir))

  unfoldable pub latch : M (State K Map) (Unit {0})
  latch = modify (λ s. record s { cleanup_pending = true })

  -- A check outside the directory, such as that for free space.
  unfoldable pub checkpoint : ErrorCode → M (State K Map) (Unit {0})
  checkpoint e = syscall e (pure tt)
