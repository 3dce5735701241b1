-- ===== src/Tests/Statics.antt =====
-- The properties of static inventories.
use unified_api.HashMap
use unified_api.HashMap.{HashMap, contains_key}
use unified_api.Dataset.{Dataset, Group, HostVars}
use unified_api.CacheEntry.Enriching.{var_of}
use unified_api.Json.{Value, end, entries, field, null, object, string}
use unified_api.StaticInventory.{
  StaticInventoryInput, built, effective_vars, emitted_groups, own_vars, parse, root_of, unmatched,
}
use unified_api.StaticInventory.Parsed.{parse_lem}
use unified_api.StaticInventory.Vars.{
  check_not_vaulted, is_whitespace, merge_parts, parse_vars_files, read_part, trim_start, yaml_vars,
}
use unified_api.StaticInventory.Reading.{
  add_hosts, add_vars, has_bracket, note_child, note_host, put_group, refused_key, take_group,
  walk_all, walk_group, walk_leaf,
}
use unified_api.Prelude.{
  Result, String, [], contains, dedup, if◌then◌else◌, leb_text, map_or, none, ok, refl, some, sort,
  true, ◌==◌, ◌∷◌, ◌≡◌,
}

-- an inventory that gives its host an operating system, and a file that gives it another
abbrev tree : Value
tree = object (
    field "all"
      (object (
        field "children"
          (object (
            field "web"
              (object (
                field "hosts" (object (field "web1" (object (field "os" (string "linux") end)) end))
                  end))
              end))
          end))
      end)

abbrev file_vars : HostVars
file_vars = ("os", string "illumos") ∷ []

abbrev read_yaml : String → Result Value
read_yaml text = if text == "tree" then ok tree else ok (object (field "os" (string "illumos") end))

abbrev input : StaticInventoryInput
input = record {
  inventory = "tree";
  group_vars = [];
  host_vars = ("web1", ("web1.yaml", "os: illumos") ∷ []) ∷ [];
}

abbrev web : Group
web = record { hosts = "web1" ∷ []; children = []; vars = none }

abbrev parsed : Dataset
parsed = record {
  hostvars = ("web1", file_vars) ∷ [];
  groups = ("all", record { hosts = []; children = "web" ∷ []; vars = none }) ∷ ("web", web) ∷ [];
  remove_hosts = [];
}

parse_lem_example :
    (contains_key "web1" parsed.hostvars ≡ true)
    × (map_or
          (var_of "web1" "os" parsed.hostvars)
          some
          (var_of "web1" "os" (("web1", file_vars) ∷ []))
        ≡ var_of "web1" "os" parsed.hostvars)
unfolding parse check_not_vaulted trim_start is_whitespace root_of parse_vars_files merge_parts
    read_part yaml_vars walk_all entries walk_group add_hosts has_bracket built own_vars
    emitted_groups unmatched put_group HashMap.insert note_host HashMap.get HashMap.extend
    HashMap.remove HashMap.upsert dedup leb_text sort add_vars note_child refused_key take_group
    walk_leaf effective_vars contains
parse_lem_example =
    parse_lem read_yaml input parsed [] (("web1", file_vars) ∷ []) "web" "web1" "os" web refl refl
      refl refl

-- A group that is nested below itself: the host of the inner one is in the dataset, and in no group.
abbrev nested : Value
nested = object (
    field "web"
      (object (
        field "children"
          (object (field "web" (object (field "hosts" (object (field "web1" null end)) end)) end))
          end))
      end)

nested_group_is_lost :
    parse (λ _. ok nested) (record { inventory = "tree"; group_vars = []; host_vars = [] })
    ≡ ok (
      record {
        hostvars = ("web1", []) ∷ [];
        groups = ("web", record { hosts = []; children = "web" ∷ []; vars = none }) ∷ [];
        remove_hosts = [];
      },
      [],
    )
unfolding parse check_not_vaulted trim_start is_whitespace root_of parse_vars_files merge_parts
    read_part yaml_vars walk_all entries walk_group add_hosts has_bracket built own_vars
    emitted_groups unmatched put_group HashMap.insert note_host HashMap.get HashMap.extend
    HashMap.remove HashMap.upsert dedup leb_text sort add_vars note_child refused_key take_group
    walk_leaf effective_vars contains
nested_group_is_lost = refl
