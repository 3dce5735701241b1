-- ===== src/CacheEntry.antt =====
-- domain/cache_entry.rs: a dataset with its cache metadata, and what a reader asks of it.
-- An `Instant` and a `Duration` are numbers of nanoseconds, an instant counted from the earliest
-- one that the clock can represent. A call takes the clock, and the address of the cell that
-- `Arc::new(OnceLock::new())` gives, from an `Env`.
pub mod Hosts
pub mod Groups
pub mod Merge
pub mod Membership
pub mod Writes
pub mod Stamps
pub mod Merging
pub mod Sharing
pub mod Cells
pub mod Coherence
pub mod Serialized
pub mod Enriching
pub mod Freshness
pub mod Retention
use unified_api.Prelude.{
  Bool, Option, String, false, if◌then◌else◌, leb, ltb, map_or, none, some, true, ℕ, ◌&&◌, ◌*◌, ◌-◌,
  ◌/◌,
}
use mathlib.Core.Option
use unified_api.HashMap
use unified_api.HashMap.{HashMap}
use unified_api.Dataset.{Dataset}

pub record Env : Type 0 where
  pub now : ℕ
  pub cell : ℕ

pub record CacheEntry : Type 0 where
  pub dataset : Dataset
  pub fetched_at : ℕ
  pub ttl : ℕ
  pub host_timestamps : HashMap ℕ
  pub complete : Bool
  -- the address of the cell that holds the serialized dataset
  pub serialized : ℕ

abbrev pub second : ℕ
second = 1000000000

-- `Duration::from_secs`, `Duration::as_secs`
unfoldable pub from_secs : ℕ → ℕ
from_secs s = s * second

unfoldable pub as_secs : ℕ → ℕ
as_secs d = d / second

-- `Instant::checked_sub`: none below the earliest instant
unfoldable pub checked_sub : ℕ → ℕ → Option ℕ
checked_sub instant d = if leb d instant then some (instant - d) else none

-- `instant.elapsed()`: zero for an instant that is still to come
abbrev pub elapsed : ℕ → ℕ → ℕ
elapsed now instant = now - instant

-- `CacheEntry::new`
unfoldable pub new : Env → Dataset → ℕ → CacheEntry
new env dataset ttl_seconds = record {
  dataset = dataset;
  fetched_at = env.now;
  ttl = from_secs ttl_seconds;
  host_timestamps = HashMap.collect (λ _. some env.now) dataset.hostvars;
  complete = true;
  serialized = env.cell;
}

-- `fetched_at` and `ttl` of a restored entry
unfoldable pub restored_clock : ℕ → ℕ → ℕ → ℕ × ℕ
restored_clock now ttl_seconds age_seconds = elim (checked_sub now (from_secs age_seconds)) [
  | some instant ↦ (instant, from_secs ttl_seconds)
  | none ↦ (now, 0)
]

-- `CacheEntry::restore`
unfoldable pub restore : Env → Dataset → ℕ → ℕ → HashMap ℕ → CacheEntry
restore env dataset ttl_seconds age_seconds host_ages =
    let (fetched_at, ttl) = restored_clock env.now ttl_seconds age_seconds in
    record {
      dataset = dataset;
      fetched_at = fetched_at;
      ttl = ttl;
      host_timestamps = HashMap.collect (λ age. checked_sub env.now (from_secs age)) host_ages;
      complete = true;
      serialized = env.cell;
    }

-- every mutation of the dataset drops the whole cell
unfoldable pub invalidate_serialized : Env → CacheEntry → CacheEntry
invalidate_serialized env e = record e { serialized = env.cell }

unfoldable pub is_fresh : ℕ → CacheEntry → Bool
is_fresh now e = e.complete && ltb (elapsed now e.fetched_at) e.ttl

abbrev pub is_complete : CacheEntry → Bool
is_complete e = e.complete

unfoldable pub set_ttl : ℕ → CacheEntry → CacheEntry
set_ttl ttl_seconds e = record e { ttl = from_secs ttl_seconds }

unfoldable pub mark_partial : CacheEntry → CacheEntry
mark_partial e = record e { complete = false }

unfoldable pub mark_gathered : Env → CacheEntry → CacheEntry
mark_gathered env e = record e { fetched_at = env.now; complete = true }

unfoldable pub age_seconds : ℕ → CacheEntry → ℕ
age_seconds now e = as_secs (elapsed now e.fetched_at)

unfoldable pub is_host_fresh : ℕ → CacheEntry → String → Option ℕ → Bool
is_host_fresh now e hostname ttl_override =
    let ttl = map_or e.ttl from_secs ttl_override in
    map_or false (λ timestamp. ltb (elapsed now timestamp) ttl)
      (HashMap.get hostname e.host_timestamps)

unfoldable pub host_age_seconds : ℕ → CacheEntry → String → Option ℕ
host_age_seconds now e hostname =
    Option.map (λ timestamp. as_secs (elapsed now timestamp))
      (HashMap.get hostname e.host_timestamps)
