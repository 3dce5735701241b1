-- ===== src/CacheEntry/Groups.antt =====
-- domain/cache_entry.rs: one host's membership, and one group's update.
use unified_api.Prelude.{
  List, Option, String, [], contains, if◌then◌else◌, map_or, none, some, ℕ, ◌||◌, ◌∷◌,
}
use unified_api.HashMap
use unified_api.HashMap.{HashMap, get, insert, map_values, modify, upsert}
use unified_api.Dataset.{Dataset, Group, HostVars, default_group, is_meta_group}
use unified_api.CacheEntry.{CacheEntry, Env, invalidate_serialized}
use unified_api.CacheEntry.Hosts.{with_host, without_host}

-- the first loop: the host leaves every group that is not named
unfoldable pub leave_group : String → List String → String → Group → Group
leave_group hostname groups name group =
    if is_meta_group name || contains name groups then group else without_host hostname group

-- the second loop: it joins the named ones, the meta-groups apart
unfoldable pub join_named : String → List String → HashMap Group → HashMap Group
join_named hostname [] groups = groups
join_named hostname (name ∷ names) groups = join_named hostname names (
    if is_meta_group name
    then groups
    else HashMap.upsert name default_group (with_host hostname) groups)

unfoldable pub set_host_groups : Env → String → List String → CacheEntry → CacheEntry
unfolding invalidate_serialized
set_host_groups env hostname groups e = record (invalidate_serialized env e) {
  dataset = record e.dataset {
    groups =
        join_named hostname groups
          (HashMap.map_values (leave_group hostname groups) e.dataset.groups);
  };
}

-- one member in the loop of `update_group`: its vars and its time, if it came
unfoldable pub refresh_host :
    ℕ → HashMap HostVars → String → HashMap HostVars × HashMap ℕ → HashMap HostVars × HashMap ℕ
refresh_host now came hostname s = elim (HashMap.get hostname came) [
  | none ↦ s
  | some vars ↦ (HashMap.insert hostname vars s.0, HashMap.insert hostname now s.1)
]

unfoldable pub refresh_hosts :
    ℕ → HashMap HostVars → List String → HashMap HostVars × HashMap ℕ → HashMap HostVars × HashMap ℕ
refresh_hosts now came [] s = s
refresh_hosts now came (hostname ∷ hosts) s =
    refresh_hosts now came hosts (refresh_host now came hostname s)

-- the members of a group that is there
abbrev pub hosts_in : String → HashMap Group → List String
hosts_in name groups = map_or [] (λ (g : Group). g.hosts) (HashMap.get name groups)

-- the end of `update_group`: the group's vars, if both sides have the group
unfoldable pub replace_vars : String → Option Group → HashMap Group → HashMap Group
replace_vars name none groups = groups
replace_vars name (some new_group) groups =
    HashMap.modify name (λ g. record g { vars = new_group.vars }) groups

unfoldable pub update_group : Env → String → Dataset → CacheEntry → CacheEntry
unfolding invalidate_serialized
update_group env group_name partial e =
    let (hostvars, timestamps) =
      refresh_hosts env.now partial.hostvars (hosts_in group_name e.dataset.groups)
        (e.dataset.hostvars, e.host_timestamps) in
    record (invalidate_serialized env e) {
      dataset = record e.dataset {
        hostvars = hostvars;
        groups = replace_vars group_name (HashMap.get group_name partial.groups) e.dataset.groups;
      };
      host_timestamps = timestamps;
    }
