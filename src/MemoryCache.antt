-- ===== src/MemoryCache.antt =====
-- adapters/out/cache/memory.rs: the cache of entries by source id, and the counter of its writes.
-- A call that holds the lock of its shard is one step.
pub mod Atomic
use mathlib.Core.Option
use unified_api.HashMap
use unified_api.Prelude.{
  Bool, List, Option, String, [], false, if◌then◌else◌, none, some, true, ℕ, ◌%◌, ◌+◌, ◌^◌,
}
use unified_api.HashMap.{HashMap, contains_key, insert, modify}
use unified_api.Dataset.{Dataset}
use unified_api.CacheEntry.{CacheEntry, Env, new, set_ttl}

pub record MemoryCache : Type 0 where
  pub store : HashMap CacheEntry
  pub generation : ℕ

-- `MemoryCache::new`
abbrev pub empty : MemoryCache
empty = record { store = []; generation = 0 }

-- the counter is 64 bits wide, and wraps
unfoldable pub bump_generation : MemoryCache → MemoryCache
bump_generation c = record c { generation = (c.generation + 1) % 2 ^ 64 }

unfoldable pub set : String → CacheEntry → MemoryCache → MemoryCache
unfolding bump_generation
set key entry c = bump_generation (record c { store = HashMap.insert key entry c.store })

abbrev pub get : String → MemoryCache → Option CacheEntry
get key c = HashMap.get key c.store

unfoldable pub remove : String → MemoryCache → MemoryCache
unfolding bump_generation
remove key c =
    if HashMap.contains_key key c.store
    then bump_generation (record c { store = HashMap.remove key c.store })
    else c

abbrev pub keys : MemoryCache → List String
keys c = HashMap.keys c.store

abbrev pub export : MemoryCache → List (String × CacheEntry)
export c = c.store

-- `f` runs on the entry while the shard is locked; false if there is none
unfoldable pub update : String → (CacheEntry → CacheEntry) → MemoryCache → MemoryCache × Bool
unfolding bump_generation
update key f c =
    if HashMap.contains_key key c.store
    then (bump_generation (record c { store = HashMap.modify key f c.store }), true)
    else (c, false)

unfoldable pub merge_or_insert :
    Env → String → Dataset → ℕ → (CacheEntry → Dataset → CacheEntry) → MemoryCache → MemoryCache
unfolding bump_generation
merge_or_insert env key dataset ttl_seconds f c = bump_generation (record c {
  store = elim (HashMap.get key c.store) [
    | some entry ↦ HashMap.insert key (f (set_ttl ttl_seconds entry) dataset) c.store
    | none ↦ HashMap.insert key (new env dataset ttl_seconds) c.store
  ];
})
