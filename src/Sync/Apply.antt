-- ===== src/Sync/Apply.antt =====
-- application/sync.rs: `apply_to_cache`. The calls of one closure share one clock; a second call
-- on the cache has a clock, and a cell, of its own.
use unified_api.HashMap
use unified_api.HashMap.{HashMap, contains_key}
use unified_api.Prelude.{
  List, Option, String, [], contains, if◌then◌else◌, is_empty, is_some, map_or, none, some,
  unwrap_or, ℕ, ◌&&◌, ◌++◌, ◌∷◌,
}
use unified_api.Dataset.{Dataset, Group, HostVars}
use unified_api.CacheEntry.{CacheEntry, Env, mark_gathered, mark_partial, new, restore}
use unified_api.CacheEntry.Hosts.{
  RetainedHost, capture_host, groups_of, restore_host, update_host_aged,
}
use unified_api.CacheEntry.Groups.{set_host_groups, update_group}
use unified_api.CacheEntry.Merge.{merge_dataset, merge_group_var_fields}
use unified_api.MemoryCache
use unified_api.MemoryCache.{MemoryCache, merge_or_insert}
use unified_api.Source.{Source, SyncMode}
use unified_api.Sync.{ConnectorOutput, DatasetAges, SyncScope, full, of_group, of_hosts}

-- one element of `updates`
pub record HostUpdate : Type 0 where
  pub hostname : String
  pub vars : HostVars
  pub age : ℕ

-- the age that the connector reports, or zero
unfoldable pub reported_age : Option DatasetAges → String → ℕ
reported_age ages host =
    map_or 0 (λ (a : DatasetAges). unwrap_or (HashMap.get host a.host_ages) 0) ages

-- the requested hosts that the connector returned
unfoldable pub updates_of : ConnectorOutput → List String → List HostUpdate
updates_of output [] = []
updates_of output (host ∷ hosts) =
    let rest = updates_of output hosts in
    elim (HashMap.get host output.dataset.hostvars) [
      | none ↦ rest
      | some vars ↦
          record { hostname = host; vars = vars; age = reported_age output.ages host } ∷ rest
    ]

-- where the connector places each of them; one that it places nowhere is left out
unfoldable pub memberships_of : HashMap Group → List HostUpdate → List (String × List String)
memberships_of groups [] = []
memberships_of groups (u ∷ updates) =
    let rest = memberships_of groups updates in
    let names = groups_of u.hostname groups in
    if is_empty names then rest else (u.hostname, names) ∷ rest

unfoldable pub claimed_by : List (String × List String) → List String
claimed_by [] = []
claimed_by ((_, names) ∷ memberships) = names ++ claimed_by memberships

-- the claimed groups that have vars, with no hosts
unfoldable pub claimed_groups : List String → HashMap Group → HashMap Group
claimed_groups claimed [] = []
claimed_groups claimed ((name, group) ∷ groups) =
    let rest = claimed_groups claimed groups in
    if contains name claimed && is_some group.vars
    then (name, record { hosts = []; children = group.children; vars = group.vars }) ∷ rest
    else rest

-- `group_vars`: none unless the source opts in
unfoldable pub group_vars_of : Source → HashMap Group → List (String × List String) → Option Dataset
group_vars_of source groups memberships =
    if source.host_sync_updates_group_vars
    then some (record {
      hostvars = [];
      groups = claimed_groups (claimed_by memberships) groups;
      remove_hosts = [];
    })
    else none

unfoldable pub apply_updates : Env → List HostUpdate → CacheEntry → CacheEntry
apply_updates env [] entry = entry
apply_updates env (u ∷ updates) entry =
    apply_updates env updates (update_host_aged env u.hostname u.vars u.age entry)

unfoldable pub apply_memberships : Env → List (String × List String) → CacheEntry → CacheEntry
apply_memberships env [] entry = entry
apply_memberships env ((hostname, names) ∷ memberships) entry =
    apply_memberships env memberships (set_host_groups env hostname names entry)

-- the closure of a host-scoped sync
unfoldable pub apply_hosts :
    Env → List HostUpdate → List (String × List String) → Option Dataset → CacheEntry → CacheEntry
apply_hosts env updates memberships group_vars entry =
    let placed = apply_memberships env memberships (apply_updates env updates entry) in
    elim group_vars [ none ↦ placed | some partial ↦ merge_group_var_fields env partial placed ]

-- the ages of an entry that this sync inserted
unfoldable pub backdate : Env → List HostUpdate → CacheEntry → CacheEntry
backdate env [] entry = entry
backdate env (u ∷ updates) entry =
    backdate env updates (elim (HashMap.get u.hostname entry.dataset.hostvars) [
      | none ↦ entry
      | some vars ↦ update_host_aged env u.hostname vars u.age entry
    ])

unfoldable pub write_hosts :
    Env → Env → String → Source → List String → ConnectorOutput → MemoryCache → MemoryCache
write_hosts env later source_id source hosts output cache =
    let updates = updates_of output hosts in
    let memberships = memberships_of output.dataset.groups updates in
    let group_vars = group_vars_of source output.dataset.groups memberships in
    let written =
      merge_or_insert env source_id output.dataset source.ttl_seconds
        (λ entry _. apply_hosts env updates memberships group_vars entry) cache in
    if is_empty updates
    then cache
    else if contains_key source_id cache.store
    then written
    else (MemoryCache.update source_id (λ entry. mark_partial (backdate later updates entry))
        written).0

unfoldable pub write_group :
    Env → String → Source → String → ConnectorOutput → MemoryCache → MemoryCache
write_group env source_id source group output cache =
    let written =
      merge_or_insert env source_id output.dataset source.ttl_seconds
        (λ entry new_data. update_group env group new_data entry) cache in
    if contains_key source_id cache.store
    then written
    else (MemoryCache.update source_id mark_partial written).0

-- an entry with the ages that the connector reports, or gathered now
unfoldable pub gathered_entry : Env → ℕ → Option DatasetAges → Dataset → CacheEntry
gathered_entry env ttl none dataset = new env dataset ttl
gathered_entry env ttl (some a) dataset = restore env dataset ttl a.dataset_age_seconds a.host_ages

-- the previous state of the hosts that were not reached, and that did not come all the same
unfoldable pub retained_hosts : ℕ → List String → Dataset → CacheEntry → List RetainedHost
retained_hosts now [] dataset entry = []
retained_hosts now (host ∷ unreachable) dataset entry =
    let rest = retained_hosts now unreachable dataset entry in
    if contains_key host dataset.hostvars
    then rest
    else elim (capture_host now host entry) [ none ↦ rest | some r ↦ r ∷ rest ]

unfoldable pub restore_hosts : Env → List RetainedHost → CacheEntry → CacheEntry
restore_hosts env [] entry = entry
restore_hosts env (r ∷ retained) entry = restore_hosts env retained (restore_host env r entry)

unfoldable pub write_full : Env → String → Source → ConnectorOutput → MemoryCache → MemoryCache
write_full env source_id source output cache = elim source.sync_mode [
  | SyncMode.replace ↦
      if is_empty output.unreachable
      then MemoryCache.set source_id
          (gathered_entry env source.ttl_seconds output.ages output.dataset) cache
      else merge_or_insert env source_id output.dataset source.ttl_seconds
          (λ entry new_data.
            restore_hosts env (retained_hosts env.now output.unreachable new_data entry)
              (gathered_entry env source.ttl_seconds output.ages new_data))
          cache
  | SyncMode.merge ↦
      merge_or_insert env source_id output.dataset source.ttl_seconds
        (λ entry new_data. mark_gathered env (merge_dataset env new_data entry)) cache
]

unfoldable pub apply_to_cache :
    Env → Env → String → Source → SyncScope → ConnectorOutput → MemoryCache → MemoryCache
apply_to_cache env later source_id source full output cache =
    write_full env source_id source output cache
apply_to_cache env later source_id source (of_hosts hosts) output cache =
    write_hosts env later source_id source hosts output cache
apply_to_cache env later source_id source (of_group group) output cache =
    write_group env source_id source group output cache
