-- ===== src/Tests/Cache.antt =====
-- The properties of a cache entry at the small inventory.
use unified_api.HashMap
use unified_api.HashMap.{HashMap, contains_key}
use unified_api.Dataset.{is_meta_group}
use unified_api.Prelude.{List, [], arith, contains, distinct, inr, refl, some, true, ◌∷◌, ◌≡◌}
use unified_api.CacheEntry.{CacheEntry, Env, as_secs, host_age_seconds, new}
use unified_api.CacheEntry.Hosts.{RetainedHost, capture_host, groups_of, restore_host}
use unified_api.CacheEntry.Groups.{set_host_groups}
use unified_api.CacheEntry.Merge.{merge_hostvar_fields, merge_into}
use unified_api.CacheEntry.Writes.{Write, drop_host, merge, perform_all, put_host}
use unified_api.CacheEntry.Membership.{is_member, set_host_groups_lem}
use unified_api.CacheEntry.Retention.{capture-restore}
use unified_api.CacheEntry.Stamps.{IsStamped, new-IsStamped}
use unified_api.CacheEntry.Merging.{Sees, merge_into_lem}
use unified_api.CacheEntry.Enriching.{merge_hostvar_fields_comm, var_of}
use unified_api.Tests.{enrichment, entry, env, inventory, later, partial_inventory, vars_of_os}

set_host_groups_lem_example :
    is_member "web1" "db" (set_host_groups later "web1" ("db" ∷ []) entry) ≡ true
unfolding is_meta_group contains
set_host_groups_lem_example = set_host_groups_lem later "web1" ("db" ∷ []) entry "web1" "db"

abbrev retained : RetainedHost
retained = record {
  hostname = "web1";
  vars = vars_of_os "linux";
  age_seconds = 0;
  groups = "all" ∷ "web" ∷ [];
}

abbrev emptied : CacheEntry
emptied = new later (record { hostvars = []; groups = []; remove_hosts = [] }) 60

capture-restore_example :
    (HashMap.get "web1" (restore_host later retained emptied).dataset.hostvars
      ≡ some (vars_of_os "linux"))
    × (host_age_seconds later.now (restore_host later retained emptied) "web1" ≡ some 0)
    × (is_member "web1" "web" (restore_host later retained emptied) ≡ true)
unfolding capture_host HashMap.get new host_age_seconds groups_of HashMap.collect contains
    HashMap.insert as_secs distinct
capture-restore_example =
    capture-restore later env.now later.now "web1" entry emptied retained "web1" "web" refl refl
      (ground arith) (ground arith)

abbrev writes : List (Env × Write)
writes =
    (later, put_host "web3" [] 0)
    ∷ (later, drop_host "web2")
    ∷ (later, merge true partial_inventory)
    ∷ []

new-IsStamped_example : IsStamped (perform_all writes (new env inventory 60))
new-IsStamped_example = new-IsStamped env inventory 60 writes

merge_into_lem_example :
    Sees
      (merge_into later partial_inventory true entry)
      "web1"
      "web"
      (some (vars_of_os "illumos"))
      (some later.now)
      true
unfolding contains HashMap.get
merge_into_lem_example = merge_into_lem later partial_inventory true entry "web1" "web"

merge_hostvar_fields_comm_example :
    var_of "web1" "site"
      (merge_hostvar_fields env enrichment
        (merge_hostvar_fields later partial_inventory entry)).dataset.hostvars
    ≡ var_of "web1" "site"
        (merge_hostvar_fields later partial_inventory
          (merge_hostvar_fields env enrichment entry)).dataset.hostvars
unfolding distinct contains HashMap.get
merge_hostvar_fields_comm_example =
    merge_hostvar_fields_comm env later enrichment partial_inventory entry "web1" "site" refl refl
      (inr refl)
