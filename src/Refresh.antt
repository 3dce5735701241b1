-- ===== src/Refresh.antt =====
-- application/refresh.rs: an on-demand refresh. The two looks at the cache, before and after the
-- hosts' locks are taken, are two entries; the sync is a parameter that answers, or does not end
-- within the budget.
pub mod Limits
pub mod Permits
pub mod Staleness
use mathlib.Core.Option
use unified_api.HashMap
use unified_api.HashMap.{HashMap}
use unified_api.CacheEntry.{CacheEntry, as_secs, is_host_fresh, second}
use unified_api.Source.{Source, effective_ttl, group_ttl_by_host, group_ttls}
use unified_api.SyncHealth.{
  RunRecord, RunTrigger, SyncHealthRegistry, health, history, name, record_failure, record_run,
}
use unified_api.Sync.{SyncOutcome, SyncRequest, label, of_hosts, refreshing_origin, success}
use unified_api.Sync.Run.{is_refresh}
use unified_api.Prelude.{
  Bool, List, Option, String, [], decimal, false, if◌then◌else◌, is_empty, length, nat_eq, none,
  not, some, true, unwrap_or, ℕ, ◌&&◌, ◌+++◌, ◌-◌, ◌==◌, ◌∷◌,
}

pub record RefreshOutcome : Type 0 where
  pub refreshed : List String
  pub already_fresh : ℕ
  pub error : Option String

-- `RefreshOutcome::failed`
abbrev pub failed_refresh : String → RefreshOutcome
failed_refresh message = record { refreshed = []; already_fresh = 0; error = some message }

abbrev pub none_refreshed : ℕ → RefreshOutcome
none_refreshed already = record { refreshed = []; already_fresh = already; error = none }

-- the filter of `stale_hosts`
unfoldable pub stale_among : ℕ → CacheEntry → Source → HashMap ℕ → ℕ → List String → List String
stale_among now entry source group_ttls default_ttl [] = []
stale_among now entry source group_ttls default_ttl (hostname ∷ hosts) =
    let rest = stale_among now entry source group_ttls default_ttl hosts in
    let ttl = effective_ttl source hostname group_ttls default_ttl in
    if not (is_host_fresh now entry hostname (some ttl)) then hostname ∷ rest else rest

unfoldable pub stale_hosts : ℕ → Option CacheEntry → Source → List String → Option ℕ → List String
stale_hosts now none source hosts ttl_override = hosts
stale_hosts now (some entry) source hosts ttl_override =
    stale_among now entry source (group_ttl_by_host source entry.dataset)
      (unwrap_or ttl_override (as_secs entry.ttl)) hosts

-- one look at the cache
pub record Look : Type 0 where
  pub now : ℕ
  pub entry : Option CacheEntry

-- `DEFAULT_REFRESH_DEPTH`
abbrev pub default_refresh_depth : ℕ
default_refresh_depth = 3

-- what the sync of a refresh is asked
unfoldable pub request_for : List String → SyncRequest
request_for hosts = record (refreshing_origin (of_hosts hosts) default_refresh_depth) {
  trigger = some "refresh";
  run_trigger = RunTrigger.refresh;
}

-- the end of the sync, or of its budget
unfoldable pub settle : ℕ → ℕ → List String → Option SyncOutcome → RefreshOutcome
settle budget_seconds asked still_stale none =
    failed_refresh ("refresh did not finish within " +++ decimal budget_seconds +++ "s")
settle budget_seconds asked still_stale (some outcome) =
    if success outcome
    then record {
      refreshed = still_stale;
      already_fresh = asked - length still_stale;
      error = none;
    }
    else failed_refresh (unwrap_or outcome.error "sync reported no reason")

-- from the second look on, under the hosts' locks; `permit` is false if the limiter is closed
unfoldable pub refresh_stale :
    Look
    → Source
    → ℕ
    → List String
    → Option ℕ
    → Bool
    → ℕ
    → (SyncRequest → Option SyncOutcome)
    → RefreshOutcome
refresh_stale second source asked stale ttl_override permit budget_seconds sync =
    let still_stale = stale_hosts second.now second.entry source stale ttl_override in
    if is_empty still_stale
    then none_refreshed asked
    else if not permit
    then failed_refresh "refresh limiter unavailable"
    else settle budget_seconds asked still_stale (sync (request_for still_stale))

unfoldable pub refresh_hosts :
    Look
    → Look
    → Source
    → List String
    → Option ℕ
    → Bool
    → ℕ
    → (SyncRequest → Option SyncOutcome)
    → RefreshOutcome
refresh_hosts first second source hosts ttl_override permit budget_seconds sync =
    let stale = stale_hosts first.now first.entry source hosts ttl_override in
    if is_empty hosts
    then none_refreshed 0
    else if is_empty stale
    then none_refreshed (length hosts)
    else refresh_stale second source (length hosts) stale ttl_override permit budget_seconds sync

-- `PartialEq` of a run, by its fields
abbrev same {ℓ} : {A : Type ℓ} → (A → A → Bool) → Option A → Option A → Bool
same eq none none = true
same eq (some a) (some b) = eq a b
same eq _ _ = false

unfoldable pub same_run : RunRecord → RunRecord → Bool
same_run a b =
    nat_eq a.started_at b.started_at
    && nat_eq a.duration_ms b.duration_ms
    && name a.trigger == name b.trigger
    && same ◌==◌ a.by b.by
    && same ◌==◌ a.scope b.scope
    && same ◌==◌ a.error b.error
    && same nat_eq a.hosts b.hosts
    && same nat_eq a.groups b.groups
    && same ◌==◌ a.revision_before b.revision_before
    && same ◌==◌ a.revision b.revision

abbrev pub first {ℓ} : {A : Type ℓ} → List A → Option A
first [] = none
first (a ∷ _) = some a

-- did the sync of this refresh record its run before the budget was over?
unfoldable pub landed : Option RunRecord → Option RunRecord → List String → Bool
landed newest_before none hosts = false
landed newest_before (some run) hosts =
    not (same same_run (some run) newest_before)
    && is_refresh run.trigger
    && same ◌==◌ run.scope (some (label (of_hosts hosts)))

-- what a refresh past its budget records: nothing, if its sync has recorded itself
unfoldable pub record_timeout :
    (now started_at duration_ms : ℕ)
    → String
    → List String
    → String
    → Option RunRecord
    → SyncHealthRegistry
    → SyncHealthRegistry
record_timeout now started_at duration_ms id hosts message newest_before health =
    if landed newest_before (first (history id health)) hosts
    then health
    else record_run id
        (record {
          started_at = started_at;
          duration_ms = duration_ms;
          trigger = RunTrigger.refresh;
          by = none;
          scope = some (label (of_hosts hosts));
          error = some message;
          hosts = none;
          groups = none;
          revision_before = none;
          revision = none;
        })
        (record_failure now id message health)
