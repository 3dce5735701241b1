-- ===== src/Dataset/Ansible.antt =====
-- domain/dataset.rs: the conversion of Ansible inventory JSON. `hostvars_from` and `group_from` are
-- `serde_json::from_value` at the types of the host variables and of a group.
use unified_api.HashMap
use unified_api.HashMap.{HashMap, contains_key, keys}
use unified_api.Prelude.{
  Bool, List, Option, Result, String, [], all, any, err, false, if◌then◌else◌, is_empty, map_or,
  none, not, ok, some, ◌&&◌, ◌+++◌, ◌++◌, ◌==◌, ◌>>=◌, ◌||◌, ◌∷◌,
}
use unified_api.Json.{
  Items, Value, array, as_object, as_str, boolean, entries, is_object, item, nil, null, number,
  object, string,
}
use unified_api.Dataset.{Dataset, Group, HostVars, is_meta_group}

-- `matches!(k, "hosts" | "children" | "vars")`
unfoldable pub known : String → Bool
known k = k == "hosts" || k == "children" || k == "vars"

-- `names.join(", ")`
unfoldable pub joined : List String → String
joined [] = ""
joined (name ∷ []) = name
joined (name ∷ other ∷ names) = name +++ ", " +++ joined (other ∷ names)

-- `keys.filter(|k| !known(k))`
unfoldable pub unknown_keys : List String → List String
unknown_keys [] = []
unknown_keys (k ∷ ks) = let rest = unknown_keys ks in if known k then rest else k ∷ rest

unfoldable pub json_type_name : Value → String
json_type_name null = "null"
json_type_name (boolean _) = "a boolean"
json_type_name (number _) = "a number"
json_type_name (string _) = "a string"
json_type_name (array _) = "an array"
json_type_name (object _) = "an object"

-- the hosts of the list form
unfoldable pub host_names : String → Items → Result (List String)
host_names name nil = ok []
host_names name (item value rest) = elim (as_str value) [
  | none ↦ err ("group '" +++ name +++ "' uses the list form but contains a non-string entry")
  | some host ↦ do hosts ← host_names name rest; ok (host ∷ hosts)
]

-- `value.get(key)`: none of a value that is no object
unfoldable pub value_get : String → Value → Option Value
value_get key value = map_or none (HashMap.get key) (as_object value)

-- The old format has an object of objects there, with no key of a group among its keys.
unfoldable pub old_shape : String → HashMap Value → Bool
old_shape key obj =
    map_or false (λ m. all (λ e. is_object e.1) m && not (any known (HashMap.keys m)))
      (map_or none as_object (HashMap.get key obj))

-- `.map_err(|e| prefix + e)`
unfoldable pub with_prefix {ℓ} : {A : Type ℓ} → String → Result A → Result A
with_prefix prefix (err e) = err (prefix +++ e)
with_prefix prefix (ok a) = ok a

-- what the loop over the top-level keys has
pub record Reading : Type 0 where
  pub hostvars : HashMap HostVars
  pub groups : HashMap Group
  pub warnings : List String

-- `hostvars.entry(host.clone()).or_default()` for each host
unfoldable pub add_hosts : List String → HashMap HostVars → HashMap HostVars
add_hosts [] hostvars = hostvars
add_hosts (host ∷ hosts) hostvars = add_hosts hosts (HashMap.or_insert host [] hostvars)

-- what one parsed group adds
unfoldable pub keep_group : String → Group → Reading → Reading
keep_group name group r =
    if is_meta_group name
    then record {
      hostvars = add_hosts group.hosts r.hostvars;
      groups = r.groups;
      warnings =
          if map_or false (λ vars. not (is_empty vars)) group.vars
          then r.warnings
            ++ ("meta-group '" +++ name +++ "' carries vars that are dropped in the conversion")
              ∷ []
          else r.warnings;
    }
    else record r { groups = HashMap.insert name group r.groups }

abbrev pub old_format : String
old_format =
    "this is the {\"hostvars\", \"groups\"} format, which 0.36 no longer reads: print Ansible inventory JSON, with host variables under _meta.hostvars and each group as a top-level key"

abbrev pub no_meta : String
no_meta = "no _meta.hostvars in inventory output — hosts will have no variables"

module _ (hostvars_from : Value → Result (HashMap HostVars))
    (group_from : Value → Result Group) where
  -- the object form of a group
  unfoldable pub parse_object :
      String → Value → HashMap Value → List String → Result (Group × List String)
  parse_object name value keys warnings =
      if not (is_empty keys) && not (any known (HashMap.keys keys))
      then err (
          "group '"
          +++ name
          +++ "' has none of hosts, children or vars (it has "
          +++ joined (HashMap.keys keys)
          +++ ")")
      else do
        group ← with_prefix ("group '" +++ name +++ "' is malformed: ") (group_from value)
        ok (
          group,
          if is_empty (unknown_keys (HashMap.keys keys))
              then warnings
              else warnings
                ++ ("group '"
                    +++ name
                    +++ "': "
                    +++ joined (unknown_keys (HashMap.keys keys))
                    +++ " ignored — a group takes hosts, children and vars")
                  ∷ [],
        )

  unfoldable pub parse_group : String → Value → List String → Result (Group × List String)
  parse_group name (array is) warnings = do
    hosts ← host_names name is
    ok (record { hosts = hosts; children = []; vars = none }, warnings)
  parse_group name (object fs) warnings = parse_object name (object fs) (entries fs) warnings
  parse_group name other warnings = err (
      "group '"
      +++ name
      +++ "' must be an object or a list of hostnames, got "
      +++ json_type_name other)

  -- one top-level key
  unfoldable pub read_key : String → Value → Reading → Result Reading
  read_key name value r = if name == "_meta" then ok r else do
    parsed ← parse_group name value r.warnings
    ok (keep_group name parsed.0 (record r { warnings = parsed.1 }))

  unfoldable pub read_keys : HashMap Value → Reading → Result Reading
  read_keys [] r = ok r
  read_keys ((name, value) ∷ rest) r = read_key name value r >>= read_keys rest

  -- the host variables, and the warning that there are none
  unfoldable pub read_meta : HashMap Value → Result Reading
  read_meta obj = elim (HashMap.get "_meta" obj) [
    | none ↦ ok (record { hostvars = []; groups = []; warnings = no_meta ∷ [] })
    | some meta ↦ elim (value_get "hostvars" meta) [
      | none ↦ ok (record { hostvars = []; groups = []; warnings = [] })
      | some raw ↦ do
        hostvars ← with_prefix "_meta.hostvars is malformed: " (hostvars_from raw)
        ok (record { hostvars = hostvars; groups = []; warnings = [] })
    ]
  ]

  -- `Ok((Dataset { .. }, warnings))`
  abbrev pub dataset_of : Reading → Result (Dataset × List String)
  dataset_of r =
      ok (record { hostvars = r.hostvars; groups = r.groups; remove_hosts = [] }, r.warnings)

  abbrev pub read_groups : HashMap Value → Reading → Result (Dataset × List String)
  read_groups obj first = read_keys obj first >>= dataset_of

  unfoldable pub read_object : HashMap Value → Result (Dataset × List String)
  read_object obj =
      if not (contains_key "_meta" obj) && (old_shape "hostvars" obj || old_shape "groups" obj)
      then err old_format
      else read_meta obj >>= read_groups obj

  unfoldable pub from_ansible_inventory : Value → Result (Dataset × List String)
  from_ansible_inventory value = elim (as_object value) [
    | none ↦ err "expected a JSON object at the top level"
    | some obj ↦ read_object obj
  ]
