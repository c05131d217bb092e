-- ===== src/Merge.antt =====
-- src/database_impl.cpp, `merge_versions`, with `write_merge_sidecar` of
-- src/detail/merge_sidecar.hpp: one merge of several version files of a container into a new one.
pub mod View
pub mod States
pub mod Steps
pub mod Before
pub mod Naming
pub mod After
pub mod Closing
pub mod Safety
use utxo_z.Common.{
  ℕ, zero, suc, ◌+◌, ◌-◌, ◌%◌, u64_mod, Bool, true, false, ◌&&◌, List, [], ◌∷◌, Option, none, some,
  if◌then◌else◌, ltb, leb, ◌==◌, length, take, drop, ◌≡◌, refl, ==_refl,
}
use utxo_z.Sidecar.{Marker, is_empty, Plan, encode_merge_plan}
use utxo_z.Errors.{
  ErrorCode, removal_failed, file_open_failed, identity_collision, duplicate_key,
  insufficient_space, entropy_unavailable, recovery_required, recovery_failed,
  metadata_write_failed,
}
use utxo_z.Capacity.{max_size_without_rehash}
use utxo_z.FlatMap.{Key, FlatMap, Emplaced, present, refused, added}
use utxo_z.Catalog.{Catalog, next_version, add, remove, set_metadata}
use utxo_z.Metadata.{FileMetadata, blank, update_on_insert}
use utxo_z.Dir.{
  Name, name, data_file, metadata_file, building_file, sidecar_file, sidecar_temp, Content, segment,
  raw, write,
}
use utxo_z.Io.{
  M, Attempt, ok, err, ◌>>=◌, ◌>>◌, pure, fail, get, modify, attempt, syscall, barrier, draw,
  on_failure, ignore, succeeds,
}
use utxo_z.Instance.{
  State, on_dir, path_exists, remove_file, create_file, store_mapped, replace_file,
  publish_new_file, read_target_marker, open_map, latch, checkpoint,
}

-- What `full_merge_policy` and `reference_merge_policy` differ in, and how a metadata record is
-- written out.
pub record Policy (K V : Type 0) : Type 0 where
  pub index : ℕ
  pub min_buckets : ℕ
  pub height_of : V → ℕ
  pub render : FileMetadata K → List ℕ

unfoldable pub same_marker : Marker → Marker → Bool
same_marker a b = a.high == b.high && a.low == b.low

pub same_marker_refl : (a : Marker) → same_marker a a ≡ true
unfolding same_marker
same_marker_refl a = rw (==_refl a.high, ==_refl a.low)

abbrev pub without_version : ℕ → List ℕ → List ℕ
without_version v [] = []
without_version v (w ∷ ws) = if w == v then without_version v ws else w ∷ without_version v ws

module _ {K V : Type 0} ⦃key : Key K⦄ (F : FlatMap K V) (p : Policy K V) where
  abbrev pub S : Type 0
  S = State K F.Map

  abbrev pub data_path : ℕ → Name
  data_path v = name data_file p.index v

  abbrev pub building_path : ℕ → Name
  building_path v = name building_file p.index v

  abbrev pub sidecar_path : ℕ → Name
  sidecar_path v = name sidecar_file p.index v

  abbrev pub temp_path : ℕ → Name
  temp_path v = name sidecar_temp p.index v

  abbrev pub metadata_path : ℕ → Name
  metadata_path v = name metadata_file p.index v

  -- `generate_merge_id`: two 64-bit words, there is no fallback, and zero is refused.
  unfoldable pub marker_of : Option Marker → M S Marker
  marker_of none = fail entropy_unavailable
  marker_of (some drawn) =
      let id : Marker = record { high = drawn.high % u64_mod; low = drawn.low % u64_mod } in
      if is_empty id then fail entropy_unavailable else pure id

  unfoldable pub generate_merge_id : M S Marker
  generate_merge_id = do drawn ← draw; marker_of drawn

  unfoldable pub at_limit : Option V → ErrorCode
  at_limit (some v) = duplicate_key
  at_limit none = insufficient_space

  -- The map must not have grown; `max_size_without_rehash` bounds it, and this looks again.
  unfoldable pub placed : ℕ → Marker → ℕ → Emplaced F.Map → M S F.Map
  placed target id buckets present = fail duplicate_key
  placed target id buckets refused = fail insufficient_space
  placed target id buckets (added t) = do
    store_mapped (building_path target) (segment (some id) t)
    if F.bucket_count t == buckets then pure t else fail insufficient_space

  unfoldable pub copy_entry : ℕ → Marker → ℕ → ℕ → K → V → F.Map → M S F.Map
  copy_entry target id limit buckets k v t =
      if leb limit (F.size t)
      then fail (at_limit (F.find t k))
      else placed target id buckets (F.emplace t k v)

  unfoldable pub copy_entries : ℕ → Marker → ℕ → ℕ → List (K × V) → F.Map → M S F.Map
  copy_entries target id limit buckets [] t = pure t
  copy_entries target id limit buckets ((k, v) ∷ es) t = do
    t' ← copy_entry target id limit buckets k v t
    copy_entries target id limit buckets es t'

  unfoldable pub copy_sources : ℕ → Marker → ℕ → ℕ → List ℕ → F.Map → M S F.Map
  copy_sources target id limit buckets [] t = pure t
  copy_sources target id limit buckets (s ∷ ss) t = do
    m ← open_map (data_path s)
    t' ← copy_entries target id limit buckets (F.entries m) t
    copy_sources target id limit buckets ss t'

  -- The block that builds the target under its temporary name.
  unfoldable pub build : ℕ → Marker → List ℕ → M S F.Map
  build target id sources = do
    ignore (remove_file (building_path target))
    let empty = F.construct p.min_buckets
    on_failure (remove_file (building_path target)) do
      create_file (building_path target) (raw [])
      checkpoint file_open_failed
      store_mapped (building_path target) (segment none empty)
      store_mapped (building_path target) (segment (some id) empty)
      t ←
          copy_sources target id (max_size_without_rehash (F.bucket_count empty))
            (F.bucket_count empty) sources empty
      barrier
      pure t

  -- `write_merge_sidecar`: fails before anything is named, or says whether the name is durable.
  unfoldable pub write_merge_sidecar : Plan → M S Bool
  write_merge_sidecar plan = do
    syscall metadata_write_failed (modify (on_dir (write (temp_path plan.target) (raw []))))
    on_failure (remove_file (temp_path plan.target)) do
      syscall metadata_write_failed
          (modify (on_dir (write (temp_path plan.target) (raw (encode_merge_plan plan)))))
      barrier
      replace_file (temp_path plan.target) (sidecar_path plan.target)
    succeeds barrier

  unfoldable pub refuse_after_latch : {A : Type 0} → ErrorCode → M S A
  refuse_after_latch e = do latch; fail e

  -- The record is named and may not be durable: tidy up and stop.
  unfoldable pub require_durable : ℕ → Bool → M S (Unit {0})
  require_durable target true = pure tt
  require_durable target false = do
    ignore (remove_file (building_path target))
    ignore (remove_file (sidecar_path target))
    refuse_after_latch recovery_required

  -- Calling the merge off once its record is durable.
  unfoldable pub withdrawn : ℕ → ErrorCode → Attempt (Unit {0}) → M S (Unit {0})
  withdrawn target e (ok _) = do ignore (remove_file (building_path target)); fail e
  withdrawn target e (err _) = refuse_after_latch recovery_required

  unfoldable pub published : ℕ → Attempt (Unit {0}) → M S (Unit {0})
  published target (ok _) = pure tt
  published target (err e) = do
    r ← attempt (do remove_file (sidecar_path target); barrier)
    withdrawn target e r

  unfoldable pub publish : ℕ → M S (Unit {0})
  publish target = do
    r ← attempt (publish_new_file (building_path target) (data_path target))
    published target r

  unfoldable pub or_latch : {A : Type 0} → ErrorCode → Attempt A → M S A
  or_latch e (ok a) = pure a
  or_latch e (err _) = refuse_after_latch e

  -- Still the file that the plan meant, by the record's copy of the marker.
  unfoldable pub verified : Marker → Attempt Marker → M S (Unit {0})
  verified id (err e) = refuse_after_latch recovery_failed
  verified id (ok found) =
      if same_marker found id then pure tt else refuse_after_latch recovery_failed

  unfoldable pub confirm_target : Plan → M S (Unit {0})
  confirm_target plan = do
    synced ← attempt barrier
    or_latch recovery_required synced
    marker ← attempt (read_target_marker (data_path plan.target))
    verified plan.id marker

  unfoldable pub forget : List ℕ → S → S
  forget [] s = s
  forget (v ∷ vs) s =
      forget vs (record s { catalog = remove s.catalog v; dirty = without_version v s.dirty })

  unfoldable pub adopt : ℕ → List ℕ → S → S
  adopt target sources s = forget sources (record s { catalog = add s.catalog target })

  -- Every source is tried, and the answer says whether all are gone.
  unfoldable pub retire : List ℕ → M S Bool
  retire [] = pure true
  retire (s ∷ ss) = do
    a ← succeeds (remove_file (data_path s))
    b ← succeeds (remove_file (metadata_path s))
    rest ← retire ss
    pure (a && (b && rest))

  -- Metadata is rebuilt from the target, and failing to do so is only a warning.
  unfoldable pub summary : ℕ → Attempt F.Map → FileMetadata K
  summary target (err e) = record blank { container_index = p.index; version = target }
  summary target (ok m) =
      go (F.entries m) (record blank { container_index = p.index; version = target })
    where
      go : List (K × V) → FileMetadata K → FileMetadata K
      go [] d = d
      go ((k, v) ∷ es) d = go es (update_on_insert d k (p.height_of v))

  unfoldable pub summarise : ℕ → M S (Unit {0})
  summarise target = do
    m ← attempt (open_map (data_path target))
    modify (λ s. record s { catalog = set_metadata s.catalog target (summary target m) })
    ignore (
        syscall metadata_write_failed
          (modify (on_dir (write (metadata_path target) (raw (p.render (summary target m)))))))

  unfoldable pub finish : ℕ → Bool → M S (Unit {0})
  finish target false = refuse_after_latch recovery_required
  finish target true = do
    removed ← attempt (remove_file (sidecar_path target))
    or_latch recovery_required removed
    ignore barrier
    summarise target

  -- From the durable record on.
  unfoldable pub complete : Plan → M S (Unit {0})
  complete plan = do
    publish plan.target
    confirm_target plan
    modify (adopt plan.target plan.sources)
    gone ← retire plan.sources
    synced ← succeeds barrier
    finish plan.target (gone && synced)

  unfoldable pub plan_of : ℕ → Marker → List ℕ → Plan
  plan_of target id sources = record {
    container = p.index;
    target = target;
    id = id;
    sources = sources;
  }

  -- From the free identity on.
  unfoldable pub merge_into : ℕ → List ℕ → Bool → M S (Unit {0})
  merge_into target sources true = fail identity_collision
  merge_into target sources false = do
    remove_file (metadata_path target)
    checkpoint insufficient_space
    id ← generate_merge_id
    t ← build target id sources
    on_failure (remove_file (building_path target)) barrier
    durable ←
        on_failure (remove_file (building_path target))
          (write_merge_sidecar (plan_of target id sources))
    require_durable target durable
    complete (plan_of target id sources)

  unfoldable pub merge_versions : List ℕ → M S (Unit {0})
  merge_versions sources = if ltb (length sources) 2 then pure tt else do
    s ← get
    let target = next_version s.catalog
    taken ← path_exists (data_path target)
    merge_into target sources taken
