-- ===== src/Tests/Runs.antt =====
-- The properties of gathers, enrichers and refreshes at the small inventory.
use mathlib.Core.Option
use unified_api.HashMap
use unified_api.HashMap.{HashMap}
use unified_api.Json.{string}
use unified_api.CacheEntry.{CacheEntry, from_secs, is_host_fresh, new}
use unified_api.CacheEntry.Enriching.{var_of}
use unified_api.Source.{
  HostsFromSource, Source, effective_ttl, group_ttl_by_host, group_ttls, location_name,
  via_hostname,
}
use unified_api.Source.Hosts.{addresses_of, ansible_host, is_host_of, resolve}
use unified_api.Source.Resolved.{in_pattern_group, names_of, resolve_lem}
use unified_api.SyncHealth.{empty_registry, manual, shorten}
use unified_api.Sync.{SyncOutcome, SyncRequest, full, label, plain, refreshing_origin, success}
use unified_api.Sync.Run.{Moments, Ports, config_for, execute_with, gather, run_sync}
use unified_api.Sync.Config.{config_for_lem}
use unified_api.Sync.Failure.{run_sync_lem}
use unified_api.Enrich.{
  EnrichOutcome, Enricher, Moment, Port, admits, execute_declarative_merge, run_enricher,
  script_config,
}
use unified_api.Enrich.Declared.{declared_lem}
use unified_api.Enrich.Frame.{can_run, run_enricher_lem, succeeds}
use unified_api.Refresh.{Look, refresh_hosts, refresh_stale, settle, stale_among, stale_hosts}
use unified_api.Refresh.Staleness.{IsSynced, refresh_hosts_lem}
use unified_api.Tests.{enrichment, entry, env, inventory, later}
use unified_api.Tests.Syncs.{cache, lost, source}
use unified_api.MemoryCache
use unified_api.MemoryCache.{MemoryCache}
use unified_api.Sync.Service.{SyncState, sync_now}
use unified_api.Sync.Recorded.{failed_sync_lem, newest}
use unified_api.Credentials.{fetch, resolve_credentials, unseen}
use unified_api.Prelude.{
  Option, String, [], contains, err, false, length, none, ok, refl, some, true, ◌+◌, ◌∷◌, ◌≡◌,
}

-- A connector that answers, and a secrets backend that has no credential.
abbrev ports : Ports
ports = record {
  execute = λ path args config credentials. some (ok lost);
  secrets = record {
    resolve = λ id. err "no such credential";
    delivery_id = λ id. id;
    variable_part = λ field. field;
    to_uppercase = λ text. text;
  };
  to_json = λ specs. ok "[]";
}

abbrev moments : Moments
moments = record { env = later; after = later; duration_ms = 12; between = λ c. c }

abbrev guarded : Source
guarded = record source { credential_ids = "cred-ssh" ∷ [] }

run_sync_lem_example :
    (success (run_sync ports moments "estate" guarded (plain full) (cache, [])).0 ≡ false)
    × ((run_sync ports moments "estate" guarded (plain full) (cache, [])).1 ≡ cache)
    × ((run_sync ports moments "estate" guarded (plain full) (cache, [])).2 ≡ [])
unfolding resolve_credentials fetch unseen contains Option.bind
run_sync_lem_example = run_sync_lem ports moments "estate" guarded (plain full) cache []

-- The source's configuration names another location.
config_for_lem_example :
    HashMap.get "ssh_location" (config_for source (refreshing_origin full 3) none) ≡ some "host"
unfolding HashMap.get location_name
config_for_lem_example = config_for_lem "ssh_location" source (refreshing_origin full 3) none

abbrev hosts_of_web : HostsFromSource
hosts_of_web = record {
  source = "estate";
  match_pattern = record { groups = "web" ∷ []; hosts = "db1" ∷ "gone" ∷ [] };
  connect_via = via_hostname;
}

resolve_lem_example : contains "db1" (names_of (resolve hosts_of_web inventory).0) ≡ true
unfolding contains HashMap.get in_pattern_group is_host_of addresses_of ansible_host
resolve_lem_example = resolve_lem "db1" hosts_of_web inventory

-- An enricher that gives the hosts of "estate" the location that "sites" knows.
abbrev located : Enricher
located = record {
  target_id = "estate";
  script_path = none;
  script_args = [];
  project_id = none;
  source_id = some "sites";
  fields = some ("site" ∷ []);
  fields_excluded = none;
  groups = none;
  groups_excluded = none;
  config = [];
  timeout_seconds = 30;
}

abbrev sites : CacheEntry
sites = new env enrichment 60

abbrev two_entries : MemoryCache
two_entries = record { store = ("estate", entry) ∷ ("sites", sites) ∷ []; generation = 2 }

abbrev moment : Moment
moment = record { env = later; duration_ms = 5; between = λ c. c }

declared_lem_example :
    (Option.map
        (λ (o : EnrichOutcome). o.error)
        (execute_declarative_merge moment located two_entries).0
      ≡ some none)
    × ((e : CacheEntry) × (MemoryCache.get "estate"
            (execute_declarative_merge moment located two_entries).1
          ≡ some e)
        × (HashMap.contains_key "web1" e.dataset.hostvars ≡ true)
        × (e.host_timestamps ≡ entry.host_timestamps)
        × (var_of "web1" "site" e.dataset.hostvars ≡ some (string "north")))
unfolding HashMap.get admits contains new
declared_lem_example =
    declared_lem moment located two_entries "sites" entry sites entry "web1" "site" refl refl refl
      refl

abbrev port : Port
port = record {
  execute = λ path args config dataset. none;
  resolve_script_path = λ id project path. path;
  venv_bin_dir = λ project. none;
}

abbrev scripted : Enricher
scripted = record located { source_id = none; script_path = some "sites.py" }

run_enricher_lem_example :
    (succeeds (run_enricher moment port "enr" scripted none (cache, empty_registry)).0
      ≡ can_run port "enr" scripted none cache)
    × (MemoryCache.get "estate"
          (run_enricher moment port "enr" scripted none (cache, empty_registry)).1
        ≡ some entry)
unfolding HashMap.get script_config
run_enricher_lem_example =
    run_enricher_lem moment port "enr" scripted none cache empty_registry "estate" refl refl

abbrev look : Look
look = record { now = later.now; entry = some entry }

-- A sync that ends well, of a refresh with a TTL of five seconds.
abbrev well : SyncRequest → Option SyncOutcome
well request = some (record {
  scope = label request.scope;
  total_hosts = 1;
  total_groups = 0;
  duration_ms = 7;
  error = none;
  coalesced = false;
})

refresh_hosts_lem_example :
    (contains "web1" (refresh_hosts look look source ("web1" ∷ []) (some 5) true 30 well).refreshed
      ≡ true)
    × (length (refresh_hosts look look source ("web1" ∷ []) (some 5) true 30 well).refreshed
          + (refresh_hosts look look source ("web1" ∷ []) (some 5) true 30 well).already_fresh
        ≡ 1)
    × IsSynced well (refresh_hosts look look source ("web1" ∷ []) (some 5) true 30 well).refreshed
unfolding contains refresh_hosts stale_hosts stale_among is_host_fresh HashMap.get new
    HashMap.collect HashMap.insert from_secs effective_ttl group_ttl_by_host group_ttls
    refresh_stale settle
refresh_hosts_lem_example =
    refresh_hosts_lem look look source ("web1" ∷ []) (some 5) true 30 well "web1" refl

abbrev before : SyncState
before = record {
  cache = cache;
  scopes = [];
  health = empty_registry;
  enrich_health = empty_registry;
  full_syncs = 4;
}

failed_sync_lem_example :
    ((sync_now ports moments none 1700000000 "estate" guarded (plain full) before).1.cache ≡ cache)
    × ((sync_now ports moments none 1700000000 "estate" guarded (plain full) before).1.scopes ≡ [])
    × ((sync_now ports moments none 1700000000 "estate" guarded (plain full) before).1.enrich_health
        ≡ empty_registry)
    × ((sync_now ports moments none 1700000000 "estate" guarded (plain full) before).1.full_syncs
        ≡ 4)
    × ((message : String) × ((sync_now ports moments none 1700000000 "estate" guarded
            (plain full)
            before).0.error
          ≡ some message)
        × (newest "estate"
              (sync_now ports moments none 1700000000 "estate" guarded (plain full) before).1.health
            ≡ some (record {
              started_at = 1700000000;
              duration_ms =
                  (sync_now ports moments none 1700000000 "estate" guarded
                    (plain full)
                    before).0.duration_ms;
              trigger = manual;
              by = none;
              scope =
                  some
                    (sync_now ports moments none 1700000000 "estate" guarded
                      (plain full)
                      before).0.scope;
              error = some (shorten message);
              hosts = none;
              groups = none;
              revision_before = none;
              revision = none;
            })))
unfolding sync_now run_sync gather execute_with resolve_credentials fetch unseen contains
failed_sync_lem_example =
    failed_sync_lem ports moments none 1700000000 "estate" guarded (plain full) before refl
