-- ===== src/CacheEntry/Hosts.antt =====
-- domain/cache_entry.rs: the operations on one host.
use unified_api.Prelude.{
  if◌then◌else◌, unwrap_or, contains, without, push_new, ℕ, String, Option, List, [], ◌∷◌,
}
use mathlib.Core.Option
use unified_api.HashMap
use unified_api.HashMap.{HashMap}
use unified_api.Dataset.{Group, HostVars, default_group}
use unified_api.CacheEntry.{
  Env, CacheEntry, from_secs, checked_sub, invalidate_serialized, host_age_seconds,
}

pub record RetainedHost : Type 0 where
  pub hostname : String
  pub vars : HostVars
  pub age_seconds : ℕ
  pub groups : List String

-- `now.checked_sub(age).unwrap_or(now)`
unfoldable pub backdated : ℕ → ℕ → ℕ
backdated now age_seconds = unwrap_or (checked_sub now (from_secs age_seconds)) now

unfoldable pub update_host_aged : Env → String → HostVars → ℕ → CacheEntry → CacheEntry
unfolding invalidate_serialized
update_host_aged env hostname vars age_seconds e = record (invalidate_serialized env e) {
  dataset = record e.dataset { hostvars = HashMap.insert hostname vars e.dataset.hostvars };
  host_timestamps = HashMap.insert hostname (backdated env.now age_seconds) e.host_timestamps;
}

abbrev pub update_host : Env → String → HostVars → CacheEntry → CacheEntry
update_host env hostname vars e = update_host_aged env hostname vars 0 e

-- the names of the groups that list the host
unfoldable pub groups_of : String → HashMap Group → List String
groups_of hostname [] = []
groups_of hostname ((name, group) ∷ groups) =
    let rest = groups_of hostname groups in
    if contains hostname group.hosts then name ∷ rest else rest

unfoldable pub capture_host : ℕ → String → CacheEntry → Option RetainedHost
capture_host now hostname e =
    Option.map
      (λ vars. record {
        hostname = hostname;
        vars = vars;
        age_seconds = unwrap_or (host_age_seconds now e hostname) 0;
        groups = groups_of hostname e.dataset.groups;
      })
      (HashMap.get hostname e.dataset.hostvars)

-- `if !group.hosts.iter().any(..) { group.hosts.push(..) }`
abbrev pub with_host : String → Group → Group
with_host hostname group = record group { hosts = push_new hostname group.hosts }

-- `groups.entry(name).or_default()`, and the host put in, for each name
unfoldable pub join_groups : String → List String → HashMap Group → HashMap Group
join_groups hostname [] groups = groups
join_groups hostname (name ∷ names) groups =
    join_groups hostname names (HashMap.upsert name default_group (with_host hostname) groups)

unfoldable pub restore_host : Env → RetainedHost → CacheEntry → CacheEntry
restore_host env r e =
    let updated = update_host_aged env r.hostname r.vars r.age_seconds e in
    record updated {
      dataset = record updated.dataset {
        groups = join_groups r.hostname r.groups updated.dataset.groups;
      };
    }

-- `group.hosts.retain(|h| h != hostname)`
abbrev pub without_host : String → Group → Group
without_host hostname group = record group { hosts = without hostname group.hosts }

unfoldable pub remove_host : Env → String → CacheEntry → CacheEntry
unfolding invalidate_serialized
remove_host env hostname e = record (invalidate_serialized env e) {
  dataset = record e.dataset {
    hostvars = HashMap.remove hostname e.dataset.hostvars;
    groups = HashMap.map_values (λ _. without_host hostname) e.dataset.groups;
  };
  host_timestamps = HashMap.remove hostname e.host_timestamps;
}
