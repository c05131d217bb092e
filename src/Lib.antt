-- ===== src/Lib.antt =====
-- utxo-z: a store of unspent transaction outputs. The entries of a database are kept in container
-- classes by the size of their value; each class is a sequence of version files, each of which holds
-- one hash map in a mapped segment. This library models the parts that decide what is stored and
-- what survives a failure:
--
--   * Budget: the byte budget of src/detail/budget_meter.hpp (`acquire`, `release`), and the
--     allocator that calls it.
--   * Capacity: the capacities, growth points and rehash watch of src/detail/capacity_policy.hpp,
--     with `effective_insert_limit` of src/detail/insert_transition.hpp.
--   * Census: the checked arithmetic of src/detail/census_arithmetic.hpp.
--   * Sidecar: the merge record of src/detail/merge_sidecar.hpp, written and read byte by byte.
--   * Catalog, Metadata: src/detail/version_catalog.hpp and src/detail/file_metadata.hpp;
--     Catalog.Issued is about any history of changes to a catalogue.
--   * Dir: the directory of a database, under the names of src/database_impl.cpp, and the listing
--     of it by `enumerate_versions`.
--   * Io: effects that fail or are cut short. A system call takes the next verdict of a list: it
--     proceeds, is not supported, fails, or the process dies before it. A statement for all lists
--     covers every combination of failures and every point of a crash.
--   * Instance: the state of one container of an open database, and the file operations of
--     src/detail/durability.hpp on its directory.
--   * Insert: `insert_in_index` of src/database_impl.cpp with its rotations and its one retry, and
--     `reference_insert_typed` as the same steps on the container of reference mode.
--   * Deletion: `apply_deletes` of src/database_impl.cpp in both modes: the open versions, then the
--     cached files, then the listed ones. What opens, what can be listed and what throws are given.
--   * Resolve: `full_resolve` and `reference_resolve` of src/database_impl.cpp.
--   * Facade: the methods of src/database.cpp that delete and look up, with the refusals of
--     src/detail/database_impl.hpp before them, and `find` followed by `resolve`.
--   * Cache: the cache of open files of src/detail/file_cache.hpp, and any history of calls on it.
--     Recency and Tally say, by the calls and their answers alone, when a file was last asked for
--     and what the counters should be.
--   * Merge: `merge_versions` of src/database_impl.cpp, from the free identity to the removal of
--     the merge record.
--   * Recovery: `recover_pending_merges` and `recover_one` of src/database_impl.cpp.
--   * FlatMap: what the store uses of boost::unordered_flat_map, as an interface with laws; an
--     instance of it, FlatMap.Reference, shows that the laws can hold.
--   * Value: the bytes of an entry, of src/detail/utxo_value.hpp, and the outpoint helpers of
--     src/utils.cpp.
--   * Tests: the properties applied to small inputs.
--
-- Insert, Deletion, Resolve and Merge use the map through FlatMap and the versions through Catalog,
-- and Insert the growth points through Capacity. Facade puts the refusals before Deletion and
-- Resolve. Merge and Recovery meet in the directory: Merge.States names the states that a
-- merge passes through there, Merge.Steps says how they follow one another, and recovery starts
-- from any of them.
--
-- Numbers are natural numbers, with the wrap of a 64-bit word written out where the code can reach
-- it. No function of the model runs on fuel: the loops go over lists. A crash keeps what the calls
-- before it did: the loss of writes that were not synced is not modelled, and a barrier changes no
-- file. Not modelled are the statistics, the logging, the test seams (failpoints), the segment stamps
-- and the lock, and the census and the uniqueness walk over files. The lookups and deletions of a
-- batch are told which files are cached, and which of them open, whatever the cache does.
pub mod Common
pub mod Budget
pub mod Capacity
pub mod Census
pub mod Sidecar
pub mod Errors
pub mod FlatMap
pub mod Metadata
pub mod Dir
pub mod Catalog
pub mod Io
pub mod Instance
pub mod Insert
pub mod Deletion
pub mod Cache
pub mod Resolve
pub mod Facade
pub mod Merge
pub mod Recovery
pub mod Value
pub mod Tests
