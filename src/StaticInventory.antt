-- ===== src/StaticInventory.antt =====
-- domain/static_inventory.rs: Ansible's static inventories. The reading of YAML is a parameter.
pub mod Listed
pub mod Parsed
pub mod Reading
pub mod Vars
use unified_api.HashMap
use unified_api.HashMap.{HashMap, contains_key}
use unified_api.Dataset.{Dataset, Group, HostVars}
use unified_api.Json.{Value, entries}
use unified_api.StaticInventory.Vars.{check_not_vaulted, parse_vars_files}
use unified_api.StaticInventory.Reading.{GroupInfo, Walk, walk_all}
use unified_api.Prelude.{
  Bool, List, Option, Result, String, [], dedup, err, if◌then◌else◌, is_empty, map_err, map_or,
  none, ok, some, sort, ◌+++◌, ◌++◌, ◌==◌, ◌>>=◌, ◌||◌, ◌∷◌,
}

-- the inventory file, and the files of each group and of each host, with their labels
pub record StaticInventoryInput : Type 0 where
  pub inventory : String
  pub group_vars : HashMap (List (String × String))
  pub host_vars : HashMap (List (String × String))

-- `vars.extend(file_vars)`, where a file is there
abbrev pub with_file : HostVars → Option HostVars → HostVars
with_file vars file = map_or vars (HashMap.extend vars) file

unfoldable pub effective_vars : HashMap HostVars → HashMap GroupInfo → HashMap HostVars
effective_vars files [] = []
effective_vars files ((name, info) ∷ groups) =
    HashMap.insert name (with_file info.inline_vars (HashMap.get name files))
      (effective_vars files groups)

-- the second pass, over the hosts
unfoldable pub own_vars : HashMap HostVars → HashMap HostVars → List String → HashMap HostVars
own_vars inline files [] = []
own_vars inline files (host ∷ hosts) =
    HashMap.insert host
      (with_file (with_file [] (HashMap.get host inline)) (HashMap.get host files))
      (own_vars inline files hosts)

-- the warnings on files of a group, or of a host, that the inventory lacks
unfoldable pub unmatched : String → String → (String → Bool) → List String → List String
unmatched kind what known [] = []
unmatched kind what known (name ∷ names) =
    let rest = unmatched kind what known names in
    if known name
    then rest
    else (kind +++ "/" +++ name +++ " has no matching " +++ what +++ " in the inventory") ∷ rest

-- `.filter(|v| !v.is_empty())`
abbrev pub non_empty : HostVars → Option HostVars
non_empty vars = if is_empty vars then none else some vars

abbrev pub emitted : HashMap HostVars → String → GroupInfo → Group
emitted effective name info = record {
  hosts = dedup (sort info.hosts);
  children = dedup (sort info.children);
  vars = map_or none non_empty (HashMap.get name effective);
}

-- the groups of the dataset
unfoldable pub emitted_groups : HashMap HostVars → HashMap GroupInfo → HashMap Group
emitted_groups effective [] = []
emitted_groups effective ((name, info) ∷ groups) =
    let rest = emitted_groups effective groups in
    if name == "ungrouped" then rest else HashMap.insert name (emitted effective name info) rest

-- both passes over what was walked
unfoldable pub built : HashMap HostVars → HashMap HostVars → Walk → Dataset × List String
built group_files host_files walk = (
  record {
    hostvars = own_vars walk.host_inline_vars host_files (HashMap.keys walk.host_memberships);
    groups = emitted_groups (effective_vars group_files walk.groups) walk.groups;
    remove_hosts = [];
  },
  unmatched "group_vars" "group" (λ name. contains_key name walk.groups || name == "all")
        (HashMap.keys group_files)
      ++ unmatched "host_vars" "host" (λ name. contains_key name walk.host_memberships)
          (HashMap.keys host_files),
)

-- the object of the root
unfoldable pub root_of : Value → Result (HashMap Value)
root_of (Value.object fs) = ok (entries fs)
root_of _ = err "inventory file must be a YAML mapping of groups"

unfoldable pub parse :
    (String → Result Value) → StaticInventoryInput → Result (Dataset × List String)
parse to_json input = check_not_vaulted "inventory file" input.inventory >>= λ _.
    map_err (◌+++◌ "inventory file is not valid YAML: ") (to_json input.inventory) >>= λ value.
    root_of value >>= λ root.
    parse_vars_files to_json "group_vars" input.group_vars >>= λ group_files.
    parse_vars_files to_json "host_vars" input.host_vars >>= λ host_files.
    walk_all root (record { groups = []; host_memberships = []; host_inline_vars = [] }) >>= λ walk.
    ok (built group_files host_files walk)
