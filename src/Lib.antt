-- ===== src/Lib.antt =====
-- unified-api: a cache of Ansible inventories that federates several sources.
--
-- A connector gathers a dataset, the hosts with their variables and the groups, from a source. The
-- program keeps one entry for each source in a cache, serves it with its age, refreshes hosts of
-- it one by one, merges what enrichers add, and routes the hosts of a view to the sources that own
-- them. This library models the domain and the parts of the application that decide what a reader
-- sees.
--
-- The files, and the code that each is about:
-- Prelude and its children: tests, lists, names, texts and results that the rest shares.
-- HashMap, HashMap/Laws: the standard library's map, as an association list, and its laws.
-- Json: serde_json's Value, as a tree.
-- Dataset: src/domain/dataset.rs, the types and add_group_members, with Ansible (the conversion of
--   inventory JSON), Inventory and Members.
-- CacheEntry: src/domain/cache_entry.rs. CacheEntry/Hosts has the operations on one host,
--   CacheEntry/Groups those on groups, CacheEntry/Merge the merges, CacheEntry/Serialized the
--   shared JSON and CacheEntry/Sharing the entries and cells that threads share. CacheEntry/Writes
--   gathers all mutating operations in one type. The other children hold the proofs: Freshness,
--   Membership, Retention, Stamps, Merging, Enriching, Cells, Coherence.
-- MemoryCache: src/adapters/out/cache/memory.rs; MemoryCache/Atomic has its executions.
-- GroupTrim: src/domain/group_trim.rs, with Fixpoint (its loop ends), Kept, Entries and
--   Trimming.
-- Source: the scope and the TTLs of src/domain/source.rs, with Ttl; Source/Hosts is the resolution of
--   hosts_from_source, with Resolved.
-- View: src/domain/view.rs, with Claims.
-- Views: the snapshot and the routes of src/application/views.rs, with Routing (the table
--   against the scan), Served, Refresh and Delegation (the route of a request), Effective (the
--   pattern a member is routed by), Reading (what a reader is answered) and the proofs about that
--   in Owned, Selected, Merged and Ages. The text of `?host=` is given as the names
--   that it holds.
-- SyncHealth: src/domain/sync_health.rs, with Streak and History.
-- HostFilter: the glob matcher of src/domain/host_filter.rs, with Suffixes (what a glob means), Walk
--   and Glob.
-- VarPath: src/domain/var_path.rs, with Dropped (what a path finds after another was dropped) and Kept (a path kept alone). A path
--   is given with its text and the segments its dots part it into.
-- Credentials: src/application/credentials.rs, what a connector is handed, with Unmixed (where it comes
--   from).
-- StaticInventory: src/domain/static_inventory.rs, with Vars (files of variables), Reading (the walk of
--   the group tree), Listed and Parsed. src/domain/yaml.rs, over its YAML parser, is a function there.
-- Enrich: src/application/enrich.rs and src/domain/enricher.rs, with Fields (what is taken of a source),
--   Declared (declarative enrichers) and Frame (what a run may change).
-- Sync: the types of src/application/sync.rs and src/ports/connector.rs. Sync/Apply is apply_to_cache,
--   with Retained, Scoped, Created and Completeness; Sync/Run is run_sync, with Config and Failure;
--   Sync/Coordinator is who gathers, with Coalescing; Sync/Service is sync_source under its lock, with
--   Recorded.
-- Refresh: src/application/refresh.rs, with Staleness; Refresh/Limits is its limit, with Permits.
-- Tests and its children: a small inventory, at which the properties are run.
--
-- How the code is modelled. A method that changes its object is a function from the old object to
-- the new one. An Instant and a Duration are numbers of nanoseconds, an instant counted from the
-- earliest that the clock can represent, where checked_sub stops; a call takes the clock from an
-- Env. Durations are not bounded: a TTL near 2^64 seconds overflows no sum here, as it does not in
-- the code, which compares Durations. The write generation wraps at 2^64. A call on the in-memory
-- cache holds its key's shard locked, so an execution of threads is a sequence of calls. The
-- write-once cell that clones of an entry share is an address in a store of cells; a read of the
-- serialization looks at the cell at one time and writes it at a later one, with any steps of
-- other threads between. The iteration order of a map is the order of its list; the theorems that
-- need it say that its keys are distinct. The loop of group_trim takes fuel, one more than there
-- are groups: a round that goes on keeps one more of them. The walk of a glob takes as much as there
-- are places for its last star, times one more than the pattern's length: between two returns to
-- the star the pattern only gets shorter.
--
-- A sync, an enricher and a refresh await: what other threads make of the cache meanwhile is a function
-- of the cache (between), or a second look at it. Requests for syncs of one source are threads of a
-- step relation, whose clock orders their steps.
--
-- Parameters: the reading of YAML (StaticInventory), the connector, the enricher's script, the
-- secrets backend and secrets_rs's names, what is asked of a checkout on disk (Sync/Run, Enrich,
-- Credentials), serde_json::to_string (Sync/Run), tokio's Semaphore with its documented counts
-- (Refresh/Limits), serde_json::to_vec and the standard hasher (CacheEntry/Serialized),
-- serde_json::from_value at the types of host variables and of groups (Dataset/Ansible),
-- CachePort::get where a snapshot reads it (Views).
--
-- Not modelled: the adapters that do input and output (HTTP, SSH, processes, git, LDAP, files),
-- the configuration files, the scheduler, and the services over them; metrics and logs.
pub mod Prelude
pub mod HashMap
pub mod Json
pub mod Dataset
pub mod CacheEntry
pub mod MemoryCache
pub mod GroupTrim
pub mod Source
pub mod View
pub mod Views
pub mod Credentials
pub mod Enrich
pub mod StaticInventory
pub mod Sync
pub mod Refresh
pub mod SyncHealth
pub mod HostFilter
pub mod Tests
pub mod VarPath
