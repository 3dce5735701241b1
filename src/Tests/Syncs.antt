-- ===== src/Tests/Syncs.antt =====
-- The properties of syncs at the small inventory.
use mathlib.Core.Option
use unified_api.HashMap
use unified_api.HashMap.{HashMap}
use unified_api.CacheEntry.{CacheEntry, as_secs, from_secs, host_age_seconds, is_complete, new}
use unified_api.CacheEntry.Membership.{is_member}
use unified_api.Source.{Source, at_host, replace, ssh}
use unified_api.Sync.{ConnectorOutput, of_hosts}
use unified_api.Sync.Apply.{apply_to_cache, reported_age, updates_of, write_full, write_hosts}
use unified_api.Sync.Retained.{replace_retains}
use unified_api.Sync.Scoped.{write_hosts_lem}
use unified_api.Sync.Completeness.{apply_to_cache_lem, brings_nothing}
use unified_api.Sync.Created.{created_lem}
use unified_api.Tests.{entry, group_of, later, vars_of_os}
use unified_api.MemoryCache
use unified_api.MemoryCache.{MemoryCache}
use unified_api.Dataset.{is_meta_group}
use unified_api.CacheEntry.Hosts.{groups_of}
use unified_api.Prelude.{
  [], arith, contains, distinct, false, if◌then◌else◌, none, refl, some, true, ◌∷◌, ◌≡◌,
}

abbrev pub source : Source
source = record {
  connector_type = ssh;
  ssh_location = some at_host;
  script_path = "gather.py";
  script_args = [];
  host_args = "--host={target}" ∷ [];
  timeout_seconds = 60;
  host_sync_updates_group_vars = true;
  sync_mode = replace;
  credential_ids = [];
  ttl_seconds = 600;
  ttl_overrides = record { groups = []; hosts = [] };
  hosts_from_source = none;
  advertise_scope = none;
  config = ("ssh_location", "instance") ∷ ("user", "ansible") ∷ [];
}

abbrev pub cache : MemoryCache
cache = record { store = ("estate", entry) ∷ []; generation = 1 }

-- One host came, and another could not be reached.
abbrev pub lost : ConnectorOutput
lost = record {
  dataset = record {
    hostvars = ("web1", vars_of_os "illumos") ∷ [];
    groups = ("web", group_of ("web1" ∷ []) []) ∷ [];
    remove_hosts = [];
  };
  ages = none;
  unreachable = "db1" ∷ [];
  advertised_scope = none;
}

-- One host, thirty seconds old.
abbrev pub aged : ConnectorOutput
aged = record lost {
  ages = some (record { dataset_age_seconds = 40; host_ages = ("web1", 30) ∷ [] });
  unreachable = [];
}

replace_retains_example :
    (e : CacheEntry) × (MemoryCache.get "estate" (write_full later "estate" source lost cache)
      ≡ some e)
    × (HashMap.get "db1" e.dataset.hostvars ≡ some (vars_of_os "bsd"))
    × (host_age_seconds later.now e "db1" ≡ some 10)
    × (is_member "db1" "db" e ≡ true)
unfolding contains HashMap.get host_age_seconds distinct new HashMap.collect HashMap.insert as_secs
replace_retains_example =
    replace_retains later "estate" source lost cache entry "db1" "db" later.now refl refl refl
      (omega arith)

write_hosts_lem_example :
    (e : CacheEntry) × (MemoryCache.get "estate"
        (write_hosts later later "estate" source ("web1" ∷ []) aged cache)
      ≡ some e)
    × (HashMap.get "web1" e.dataset.hostvars ≡ some (vars_of_os "illumos"))
    × (host_age_seconds later.now e "web1" ≡ some 30)
    × (is_member "web1" "web" e ≡ true)
unfolding contains HashMap.get host_age_seconds distinct from_secs is_meta_group reported_age
    groups_of as_secs
write_hosts_lem_example =
    write_hosts_lem later later "estate" source ("web1" ∷ []) aged cache entry "web1" "web"
      later.now refl refl (omega arith)

apply_to_cache_lem_example :
    (Option.map is_complete (
        MemoryCache.get "lab"
          (apply_to_cache later later "lab" source (of_hosts ("web1" ∷ [])) aged cache))
      ≡ some false)
    × (MemoryCache.get "estate"
          (apply_to_cache later later "lab" source (of_hosts ("web1" ∷ [])) aged cache)
        ≡ some entry)
    × ((if brings_nothing (of_hosts ("web1" ∷ [])) aged
          then apply_to_cache later later "lab" source (of_hosts ("web1" ∷ [])) aged cache
          else cache)
        ≡ cache)
unfolding HashMap.get updates_of
apply_to_cache_lem_example =
    apply_to_cache_lem later later "lab" "estate" source (of_hosts ("web1" ∷ [])) aged cache refl

created_lem_example :
    (e : CacheEntry) × (MemoryCache.get "lab"
        (write_hosts later later "lab" source ("web1" ∷ []) aged cache)
      ≡ some e)
    × (e.complete ≡ false)
    × (HashMap.get "web1" e.dataset.hostvars ≡ some (vars_of_os "illumos"))
    × (e.dataset.groups ≡ aged.dataset.groups)
    × (host_age_seconds later.now e "web1" ≡ some 30)
unfolding HashMap.get updates_of contains from_secs reported_age as_secs
created_lem_example =
    created_lem later later "lab" source ("web1" ∷ []) aged cache "web1" later.now refl refl
      (omega arith)
