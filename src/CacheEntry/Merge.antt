-- ===== src/CacheEntry/Merge.antt =====
-- domain/cache_entry.rs: the merges. A map's entries are walked last first, as `HashMap.extend` does.
use unified_api.Prelude.{
  if◌then◌else◌, unwrap_or, ℕ, String, Bool, true, false, not, ◌||◌, none, some, List, [], ◌∷◌,
}
use unified_api.HashMap
use unified_api.HashMap.{HashMap}
use unified_api.Dataset.{Dataset, Group, HostVars}
use unified_api.CacheEntry.{Env, CacheEntry, invalidate_serialized}
use unified_api.CacheEntry.Hosts.{without_host}

-- the loop of `merge_hostvar_fields`: a host that is not there is skipped
unfoldable pub patch_hosts : HashMap HostVars → HashMap HostVars → HashMap HostVars
patch_hosts hostvars [] = hostvars
patch_hosts hostvars ((hostname, vars) ∷ came) =
    HashMap.modify hostname (λ existing. HashMap.extend existing vars) (patch_hosts hostvars came)

unfoldable pub merge_hostvar_fields : Env → Dataset → CacheEntry → CacheEntry
unfolding invalidate_serialized
merge_hostvar_fields env partial e = record (invalidate_serialized env e) {
  dataset = record e.dataset { hostvars = patch_hosts e.dataset.hostvars partial.hostvars };
}

-- one group of `merge_group_var_fields`
unfoldable pub patch_group : String → Group → HashMap Group → HashMap Group
patch_group name group groups = elim group.vars [
  | none ↦ groups
  | some vars ↦ elim (HashMap.get name groups) [
    | some existing ↦
        HashMap.insert name
          (record existing { vars = some (HashMap.extend (unwrap_or existing.vars []) vars) })
          groups
    | none ↦
        HashMap.insert name
          (record { hosts = group.hosts; children = group.children; vars = some vars }) groups
  ]
]

unfoldable pub patch_groups : HashMap Group → HashMap Group → HashMap Group
patch_groups groups [] = groups
patch_groups groups ((name, group) ∷ came) = patch_group name group (patch_groups groups came)

unfoldable pub merge_group_var_fields : Env → Dataset → CacheEntry → CacheEntry
unfolding invalidate_serialized
merge_group_var_fields env partial e = record (invalidate_serialized env e) {
  dataset = record e.dataset { groups = patch_groups e.dataset.groups partial.groups };
}

-- the timestamps of `merge_into`
unfoldable pub stamp_hosts : ℕ → Bool → HashMap HostVars → HashMap ℕ → HashMap ℕ
stamp_hosts now restamp_existing [] timestamps = timestamps
stamp_hosts now restamp_existing ((hostname, _) ∷ came) timestamps =
    let done = stamp_hosts now restamp_existing came timestamps in
    if restamp_existing || not (HashMap.contains_key hostname done)
    then HashMap.insert hostname now done
    else done

-- `remove_hosts`: each host leaves the variables, the timestamps and every group
unfoldable pub drop_hosts : List String → CacheEntry → CacheEntry
drop_hosts [] e = e
drop_hosts (hostname ∷ hosts) e = drop_hosts hosts (record e {
  dataset = record e.dataset {
    hostvars = HashMap.remove hostname e.dataset.hostvars;
    groups = HashMap.map_values (λ _. without_host hostname) e.dataset.groups;
  };
  host_timestamps = HashMap.remove hostname e.host_timestamps;
})

unfoldable pub merge_into : Env → Dataset → Bool → CacheEntry → CacheEntry
unfolding invalidate_serialized
merge_into env partial restamp_existing e =
    drop_hosts partial.remove_hosts (record (invalidate_serialized env e) {
      dataset = record e.dataset {
        hostvars = HashMap.extend e.dataset.hostvars partial.hostvars;
        groups = HashMap.extend e.dataset.groups partial.groups;
      };
      host_timestamps = stamp_hosts env.now restamp_existing partial.hostvars e.host_timestamps;
    })

-- gathered data: every host that came was collected now
abbrev pub merge_dataset : Env → Dataset → CacheEntry → CacheEntry
merge_dataset env partial e = merge_into env partial true e

-- what a script enricher returns: a host that is there keeps its time
abbrev pub merge_enrichment : Env → Dataset → CacheEntry → CacheEntry
merge_enrichment env partial e = merge_into env partial false e
