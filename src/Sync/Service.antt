-- ===== src/Sync/Service.antt =====
-- application/sync.rs: `sync_source` under the source's lock: answer from another sync or gather,
-- record the run, and enrich again what was written.
use unified_api.HashMap.{HashMap}
use unified_api.Source.{AdvertisedScopes, Source}
use unified_api.SyncHealth.{
  RunRecord, SyncHealthRegistry, record_failure, record_run, record_success,
}
use unified_api.Enrich.{Enricher, Moment, Port, run_enrichers_for_target}
use unified_api.CacheEntry.{CacheEntry}
use unified_api.Sync.{SyncOutcome, SyncRequest, SyncScope, full, label, of_group, of_hosts, success}
use unified_api.Sync.Run.{Moments, Ports, run_sync}
use unified_api.MemoryCache
use unified_api.MemoryCache.{MemoryCache}
use unified_api.Prelude.{
  Bool, Option, String, false, if◌then◌else◌, length, map_or, nat_eq, none, not, some, true, ℕ, ◌%◌,
  ◌&&◌, ◌+◌, ◌^◌,
}

-- `Enrichment`, and the moment of each enricher's run
pub record Enrichment : Type 0 where
  pub port : Port
  pub enrichers : HashMap Enricher
  pub moments : String → Moment

pub record SyncState : Type 0 where
  pub cache : MemoryCache
  pub scopes : AdvertisedScopes
  pub health : SyncHealthRegistry
  -- the enrichers' own registry
  pub enrich_health : SyncHealthRegistry
  -- the counter of the source's full syncs
  pub full_syncs : ℕ

abbrev pub is_full : SyncScope → Bool
is_full full = true
is_full (of_hosts _) = false
is_full (of_group _) = false

unfoldable pub coalescable : SyncRequest → Bool
coalescable request = is_full request.scope && not request.refresh_origin

-- what another sync left in the cache
unfoldable pub coalesced_outcome : Option CacheEntry → SyncOutcome
coalesced_outcome entry = record {
  scope = label full;
  total_hosts = map_or 0 (λ (e : CacheEntry). length e.dataset.hostvars) entry;
  total_groups = map_or 0 (λ (e : CacheEntry). length e.dataset.groups) entry;
  duration_ms = 0;
  error = none;
  coalesced = true;
}

-- the run, as the history keeps it
unfoldable pub run_of : ℕ → SyncRequest → SyncOutcome → RunRecord
run_of started_at request outcome = record {
  started_at = started_at;
  duration_ms = outcome.duration_ms;
  trigger = request.run_trigger;
  by = request.by;
  scope = some outcome.scope;
  error = outcome.error;
  hosts = if success outcome then some outcome.total_hosts else none;
  groups = if success outcome then some outcome.total_groups else none;
  revision_before = none;
  revision = none;
}

unfoldable pub record_attempt : ℕ → String → Option String → SyncHealthRegistry → SyncHealthRegistry
record_attempt now id none health = record_success now id health
record_attempt now id (some message) health = record_failure now id message health

unfoldable pub record_sync :
    ℕ → ℕ → String → SyncRequest → SyncOutcome → SyncHealthRegistry → SyncHealthRegistry
unfolding record_attempt
record_sync now started_at id request outcome health =
    record_run id (run_of started_at request outcome) (record_attempt now id outcome.error health)

-- the enrichers of the source, after a sync that succeeded
unfoldable pub enrich_again :
    Option Enrichment
    → String
    → SyncRequest
    → SyncOutcome
    → MemoryCache × SyncHealthRegistry
    → MemoryCache × SyncHealthRegistry
enrich_again none id request outcome state = state
enrich_again (some e) id request outcome state =
    let (_, cache, health) =
      run_enrichers_for_target e.moments e.port e.enrichers id request.trigger state in
    if success outcome then (cache, health) else state

-- the gather and all that follows from it
unfoldable pub sync_now :
    Ports
    → Moments
    → Option Enrichment
    → ℕ
    → String
    → Source
    → SyncRequest
    → SyncState
    → SyncOutcome × SyncState
sync_now ports at enrichment started_at id source request s =
    let (outcome, written, scopes) = run_sync ports at id source request (s.cache, s.scopes) in
    let (cache, enrich_health) =
      enrich_again enrichment id request outcome (written, s.enrich_health) in
    (
      outcome,
      record {
        cache = cache;
        scopes = scopes;
        health = record_sync at.env.now started_at id request outcome s.health;
        enrich_health = enrich_health;
        full_syncs =
            if coalescable request && success outcome
            then (s.full_syncs + 1) % 2 ^ 64
            else s.full_syncs;
      },
    )

-- under the lock; `full_syncs_before` was read before it was taken
unfoldable pub sync_locked :
    Ports
    → Moments
    → Option Enrichment
    → ℕ
    → String
    → Source
    → SyncRequest
    → ℕ
    → SyncState
    → SyncOutcome × SyncState
sync_locked ports at enrichment started_at id source request full_syncs_before s =
    if coalescable request && not (nat_eq s.full_syncs full_syncs_before)
    then (coalesced_outcome (MemoryCache.get id s.cache), s)
    else sync_now ports at enrichment started_at id source request s
