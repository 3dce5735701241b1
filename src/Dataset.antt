-- ===== src/Dataset.antt =====
-- domain/dataset.rs: an Ansible inventory as a connector produces it.
pub mod Ansible
pub mod Inventory
pub mod Members
use unified_api.Prelude.{Bool, List, Option, String, [], if◌then◌else◌, none, ◌==◌, ◌||◌, ◌∷◌}
use unified_api.HashMap
use unified_api.HashMap.{HashMap, contains_key}
use unified_api.Json.{Value}

-- A host's variables: a free key-value dictionary
abbrev pub HostVars : Type 0
HostVars = HashMap Value

pub record Group : Type 0 where
  pub hosts : List String
  pub children : List String
  pub vars : Option HostVars

pub record Dataset : Type 0 where
  pub hostvars : HashMap HostVars
  pub groups : HashMap Group
  pub remove_hosts : List String

-- `Group::default()`
abbrev pub default_group : Group
default_group = record { hosts = []; children = []; vars = none }

unfoldable pub is_meta_group : String → Bool
is_meta_group name = name == "all" || name == "ungrouped"

-- one host of one group: `if !hostvars.contains_key(host) { hostvars.insert(host, {}) }`
unfoldable pub add_member : HashMap HostVars → String → HashMap HostVars
add_member hostvars host =
    if contains_key host hostvars then hostvars else HashMap.insert host [] hostvars

unfoldable pub add_members : HashMap HostVars → List String → HashMap HostVars
add_members hostvars [] = hostvars
add_members hostvars (host ∷ hosts) = add_members (add_member hostvars host) hosts

unfoldable pub add_groups_members : HashMap HostVars → HashMap Group → HashMap HostVars
add_groups_members hostvars [] = hostvars
add_groups_members hostvars ((_, group) ∷ groups) =
    add_groups_members (add_members hostvars group.hosts) groups

-- `Dataset::add_group_members`
unfoldable pub add_group_members : Dataset → Dataset
add_group_members d = record d { hostvars = add_groups_members d.hostvars d.groups }
