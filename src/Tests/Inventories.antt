-- ===== src/Tests/Inventories.antt =====
-- The properties of a converted inventory.
use unified_api.HashMap
use unified_api.HashMap.{HashMap, contains_key}
use unified_api.Dataset.Ansible.{
  add_hosts, from_ansible_inventory, host_names, keep_group, parse_group, read_key, read_keys,
  read_meta, read_object, value_get,
}
use unified_api.Prelude.{Result, [], err, false, none, refl, ◌∷◌, ◌≡◌}
use unified_api.Json.{Value, array, as_object, end, entries, field, item, nil, object, string}
use unified_api.Dataset.{Dataset, Group, HostVars, is_meta_group}
use unified_api.Dataset.Inventory.{from_ansible_inventory_lem}
use unified_api.Tests.{inventory, vars_of_os}

abbrev named_only : Dataset
named_only = record inventory { hostvars = ("web1", vars_of_os "linux") ∷ [] }

-- Two groups in the list form, one of them a meta group, and a `_meta` without host variables.
abbrev printed : Value
printed = object (
    field "_meta" (object end) (
      field "web" (array (item (string "web1") nil))
        (field "all" (array (item (string "web1") (item (string "db1") nil))) end)))

-- Readers that accept nothing: the groups here have the list form.
abbrev no_hostvars : Value → Result (HashMap HostVars)
no_hostvars _ = err "unexpected"

abbrev no_group : Value → Result Group
no_group _ = err "unexpected"

abbrev converted : Dataset
converted = record {
  hostvars = ("web1", []) ∷ ("db1", []) ∷ [];
  groups = ("web", record { hosts = "web1" ∷ []; children = []; vars = none }) ∷ [];
  remove_hosts = [];
}

from_ansible_inventory_lem_example : contains_key "all" converted.groups ≡ false
unfolding as_object entries from_ansible_inventory read_object HashMap.get read_meta value_get
    read_keys read_key parse_group host_names keep_group is_meta_group add_hosts HashMap.insert
    HashMap.or_insert
from_ansible_inventory_lem_example =
    from_ansible_inventory_lem no_hostvars no_group printed
      (("_meta", object end)
        ∷ ("web", array (item (string "web1") nil))
        ∷ ("all", array (item (string "web1") (item (string "db1") nil)))
        ∷ [])
      converted [] refl refl "all"
