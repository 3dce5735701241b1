-- ===== src/Sync/Run.antt =====
-- application/sync.rs: `run_sync`, one gather and its effect on the cache. `Ports` holds what it asks
-- of the connector, of the secrets and of serde_json; `Moments` the clocks of its two parts and what
-- other threads make of the cache between its read and its writes.
use unified_api.HashMap
use unified_api.HashMap.{HashMap}
use unified_api.Credentials.{Secrets, resolve_credentials}
use unified_api.CacheEntry.{CacheEntry, Env}
use unified_api.Dataset.{add_group_members}
use unified_api.Source.{
  AdvertisedScopes, ConnectorType, HostsFromSource, Location, Source, location_name, record_scope,
  ssh,
}
use unified_api.Source.Hosts.{HostSpec}
use unified_api.Source.Hosts
use unified_api.SyncHealth.{RunTrigger}
use unified_api.Sync.{
  ConnectorOutput, SyncOutcome, SyncRequest, SyncScope, failed, full, label, of_group, of_hosts,
}
use unified_api.Sync.Apply.{apply_to_cache}
use unified_api.MemoryCache
use unified_api.MemoryCache.{MemoryCache}
use unified_api.Prelude.{
  Bool, List, Option, Result, String, decimal, err, false, if◌then◌else◌, is_empty, join, length,
  map, map_or, none, ok, replace_all, some, true, ℕ, ◌+++◌,
}

pub record Ports : Type 0 where
  -- `connector.execute` within the timeout; none: it did not end in time
  pub execute :
      String → List String → HashMap String → HashMap String → Option (Result ConnectorOutput)
  pub secrets : Secrets
  -- `serde_json::to_string`
  pub to_json : List HostSpec → Result String

pub record Moments : Type 0 where
  -- the writes of the two calls on the cache
  pub env : Env
  pub after : Env
  -- from the start of the credentials to the failure or the answer
  pub duration_ms : ℕ
  pub between : MemoryCache → MemoryCache

-- what becomes of a gather: a failed outcome, or the connector's answer
pub data Gathered : Type 0 where
  stopped : SyncOutcome → Gathered
  answer : ConnectorOutput → Gathered

unfoldable pub args_for_scope : Source → SyncScope → List String
args_for_scope source full = source.script_args
args_for_scope source (of_group group_name) = source.script_args
args_for_scope source (of_hosts names) =
    if is_empty source.host_args
    then source.script_args
    else map (replace_all "{target}" (join "," names)) source.host_args

-- the scope, as the script sees it
unfoldable pub config_scope : SyncScope → HashMap String → HashMap String
config_scope full config = config
config_scope (of_hosts names) config =
    HashMap.insert "target" (join "," names) (HashMap.insert "scope" "host" config)
config_scope (of_group group_name) config =
    HashMap.insert "target" group_name (HashMap.insert "scope" "group" config)

unfoldable pub config_trigger : Option String → HashMap String → HashMap String
config_trigger none config = config
config_trigger (some trigger) config = HashMap.insert "trigger" trigger config

abbrev pub is_refresh : RunTrigger → Bool
is_refresh RunTrigger.refresh = true
is_refresh _ = false

unfoldable pub config_refresh : SyncRequest → HashMap String → HashMap String
config_refresh request config =
    let asked =
      HashMap.insert "refresh_depth" (decimal request.refresh_depth)
        (HashMap.insert "refresh_origin" "true" config) in
    if request.refresh_origin
    then (if is_refresh request.run_trigger
        then HashMap.insert "refresh_on_read" "true" asked
        else asked)
    else config

-- an ssh source's location is set, or removed
unfoldable pub config_location : ConnectorType → Option Location → HashMap String → HashMap String
config_location ssh (some location) config =
    HashMap.insert "ssh_location" (location_name location) config
config_location ssh none config = HashMap.remove "ssh_location" config
config_location _ _ config = config

unfoldable pub config_for : Source → SyncRequest → Option String → HashMap String
unfolding config_scope config_trigger config_refresh config_location
config_for source request hosts_spec =
    let base =
      map_or source.config (λ spec. HashMap.insert "hosts_spec" spec source.config) hosts_spec in
    config_location source.connector_type source.ssh_location
      (config_refresh request (config_trigger request.trigger (config_scope request.scope base)))

-- the end of the connector's run, or of its time
unfoldable pub executed : Moments → Source → SyncScope → Option (Result ConnectorOutput) → Gathered
executed at source scope none = stopped (
    failed (label scope) at.duration_ms
      ("sync timed out after " +++ decimal source.timeout_seconds +++ "s"))
executed at source scope (some (err message)) =
    stopped (failed (label scope) at.duration_ms message)
executed at source scope (some (ok output)) = answer output

-- from the credentials on
unfoldable pub execute_with : Ports → Moments → Source → SyncRequest → Option String → Gathered
execute_with ports at source request hosts_spec =
    elim (resolve_credentials ports.secrets source.credential_ids) [
      | err message ↦ stopped (failed (label request.scope) at.duration_ms message)
      | ok credentials ↦ executed at source request.scope (
          ports.execute source.script_path (args_for_scope source request.scope)
            (config_for source request hosts_spec) credentials)
    ]

-- the hosts of the other source's entry
unfoldable pub with_hosts :
    Ports → Moments → Source → SyncRequest → HostsFromSource → Option CacheEntry → Gathered
with_hosts ports at source request hfs none = stopped (
    failed (label request.scope) 0
      ("hosts_from_source '" +++ hfs.source +++ "' is not in the cache yet — sync it first"))
with_hosts ports at source request hfs (some entry) =
    let specs = (Hosts.resolve hfs entry.dataset).0 in
    if is_empty specs
    then stopped (
        failed (label request.scope) 0 (
          "hosts_from_source '" +++ hfs.source
          +++ "' resolved to zero hosts (pattern too narrow, or empty source?)"))
    else elim (ports.to_json specs) [
      | err message ↦
          stopped (failed (label request.scope) 0 ("failed to serialize hosts_spec: " +++ message))
      | ok spec_json ↦ execute_with ports at source request (some spec_json)
    ]

unfoldable pub gather_from :
    Ports → Moments → Source → SyncRequest → Option HostsFromSource → MemoryCache → Gathered
gather_from ports at source request none cache = execute_with ports at source request none
gather_from ports at source request (some hfs) cache =
    with_hosts ports at source request hfs (MemoryCache.get hfs.source cache)

unfoldable pub gather : Ports → Moments → Source → SyncRequest → MemoryCache → Gathered
unfolding gather_from
gather ports at source request cache =
    gather_from ports at source request source.hosts_from_source cache

-- a full sync lists every member of a group as a host
unfoldable pub completed : SyncScope → ConnectorOutput → ConnectorOutput
completed full output = record output { dataset = add_group_members output.dataset }
completed (of_hosts _) output = output
completed (of_group _) output = output

abbrev pub Landed : Type 0
Landed = SyncOutcome × MemoryCache × AdvertisedScopes

unfoldable pub land :
    Moments → String → Source → SyncScope → Gathered → MemoryCache × AdvertisedScopes → Landed
land at id source scope (stopped outcome) (cache, scopes) = (outcome, at.between cache, scopes)
land at id source scope (answer came) (cache, scopes) =
    let output = completed scope came in
    (
      record {
        scope = label scope;
        total_hosts = length output.dataset.hostvars;
        total_groups = length output.dataset.groups;
        duration_ms = at.duration_ms;
        error = none;
        coalesced = false;
      },
      apply_to_cache at.env at.after id source scope output (at.between cache),
      map_or scopes (λ claim. record_scope id claim scopes) output.advertised_scope,
    )

unfoldable pub run_sync :
    Ports → Moments → String → Source → SyncRequest → MemoryCache × AdvertisedScopes → Landed
unfolding land
run_sync ports at id source request (cache, scopes) =
    land at id source request.scope (gather ports at source request cache) (cache, scopes)
