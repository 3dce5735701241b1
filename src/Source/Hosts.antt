-- ===== src/Source/Hosts.antt =====
-- domain/source.rs: `HostsFromSource::resolve`, the hosts of an ssh source taken from another source's
-- dataset. It answers with the hosts and the warnings.
use mathlib.Core.Option
use unified_api.HashMap
use unified_api.HashMap.{HashMap, contains_key}
use unified_api.Json.{as_str}
use unified_api.Prelude.{
  Bool, List, Option, String, [], any, contains, dedup, if◌then◌else◌, none, some, sort, ◌+++◌,
  ◌++◌, ◌||◌, ◌∷◌,
}
use unified_api.Dataset.{Dataset, Group}
use unified_api.Source.{
  ConnectVia, HostsFromSource, ansible_host_first, hostname_first, is_empty_pattern,
  via_ansible_host, via_hostname,
}

pub record HostSpec : Type 0 where
  pub name : String
  pub addresses : List String

-- the loop over the pattern's groups
unfoldable pub picked_in : String → HashMap Group → List String → List String × List String
picked_in source groups [] = ([], [])
picked_in source groups (name ∷ names) =
    let (picked, warnings) = picked_in source groups names in
    elim (HashMap.get name groups) [
      | some g ↦ (g.hosts ++ picked, warnings)
      | none ↦ (
        picked,
        ("match_pattern group '" +++ name +++ "' does not exist in source '" +++ source +++ "'")
            ∷ warnings,
      )
    ]

-- is the host one of the dataset, with variables or in a group?
unfoldable pub is_host_of : Dataset → String → Bool
is_host_of dataset name =
    contains_key name dataset.hostvars
    || any (λ (e : String × Group). contains name e.1.hosts) dataset.groups

-- the loop over the pattern's hosts
unfoldable pub picked_among : String → Dataset → List String → List String × List String
picked_among source dataset [] = ([], [])
picked_among source dataset (name ∷ names) =
    let (picked, warnings) = picked_among source dataset names in
    if is_host_of dataset name then (name ∷ picked, warnings) else (
      picked,
      ("match_pattern host '" +++ name +++ "' does not exist in source '" +++ source +++ "'")
          ∷ warnings,
    )

-- the hosts that the pattern selects: all, if it is empty
unfoldable pub selected : HostsFromSource → Dataset → List String × List String
selected hfs dataset =
    if is_empty_pattern hfs.match_pattern
    then (HashMap.keys dataset.hostvars, [])
    else let (in_groups, no_groups) =
        picked_in hfs.source dataset.groups hfs.match_pattern.groups in
      let (by_name, no_hosts) = picked_among hfs.source dataset hfs.match_pattern.hosts in
      (in_groups ++ by_name, no_groups ++ no_hosts)

-- the host's `ansible_host`, if it is a text
unfoldable pub ansible_host : Dataset → String → Option String
ansible_host dataset name =
    Option.bind (Option.bind (HashMap.get name dataset.hostvars) (HashMap.get "ansible_host"))
      as_str

-- none: the host is skipped
unfoldable pub addresses_of : ConnectVia → String → Option String → Option (List String)
addresses_of via_hostname name _ = some (name ∷ [])
addresses_of via_ansible_host name (some address) = some (address ∷ [])
addresses_of via_ansible_host name none = none
addresses_of ansible_host_first name (some address) = some (address ∷ name ∷ [])
addresses_of ansible_host_first name none = some (name ∷ [])
addresses_of hostname_first name (some address) = some (name ∷ address ∷ [])
addresses_of hostname_first name none = some (name ∷ [])

-- the loop over the selected hosts
unfoldable pub specs_of : ConnectVia → Dataset → List String → List HostSpec × List String
specs_of via dataset [] = ([], [])
specs_of via dataset (name ∷ names) =
    let (specs, warnings) = specs_of via dataset names in
    elim (addresses_of via name (ansible_host dataset name)) [
      | none ↦ (
        specs,
        ("host '" +++ name
              +++ "' has no ansible_host variable and connect_via is ansible_host — skipped")
            ∷ warnings,
      )
      | some addresses ↦ (record { name = name; addresses = dedup addresses } ∷ specs, warnings)
    ]

unfoldable pub resolve : HostsFromSource → Dataset → List HostSpec × List String
resolve hfs dataset =
    let (picked, missing) = selected hfs dataset in
    let (specs, skipped) = specs_of hfs.connect_via dataset (dedup (sort picked)) in
    (specs, missing ++ skipped)
