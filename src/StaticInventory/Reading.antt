-- ===== src/StaticInventory/Reading.antt =====
-- domain/static_inventory.rs: the walk of the group tree. What the walk holds of the group it is
-- at, apart from the groups it has read, is the first of a pair.
use Prim.Native.Char.{code}
use unified_api.HashMap
use unified_api.HashMap.{HashMap}
use unified_api.Dataset.{HostVars}
use unified_api.Json.{Fields, Value, entries}
use unified_api.StaticInventory.Vars.{yaml_vars}
use unified_api.Prelude.{
  Bool, List, Result, String, [], err, false, if◌then◌else◌, map_err, nat_eq, ok, unwrap_or, ◌+++◌,
  ◌++◌, ◌==◌, ◌>>=◌, ◌||◌, ◌∷◌,
}

pub record GroupInfo : Type 0 where
  pub hosts : List String
  pub children : List String
  pub inline_vars : HostVars

pub record Walk : Type 0 where
  pub groups : HashMap GroupInfo
  pub host_memberships : HashMap (List String)
  pub host_inline_vars : HashMap HostVars

-- `host.contains('[')`
unfoldable pub has_bracket : String → Bool
has_bracket String.[] = false
has_bracket (String.◌∷◌ c rest) = nat_eq (code c) 91 || has_bracket rest

-- what the map holds of the group, which is taken out of it
unfoldable pub take_group : String → Walk → GroupInfo × Walk
take_group name walk = (
  unwrap_or (HashMap.get name walk.groups) (record { hosts = []; children = []; inline_vars = [] }),
  record walk { groups = HashMap.remove name walk.groups },
)

unfoldable pub put_group : String → GroupInfo × Walk → Walk
put_group name (info, walk) = record walk { groups = HashMap.insert name info walk.groups }

-- a host of the group, with its inline variables
unfoldable pub note_host : String → String → HostVars → GroupInfo × Walk → GroupInfo × Walk
note_host group host vars (info, walk) = (
  record info { hosts = info.hosts ++ host ∷ [] },
  record walk {
    host_memberships = HashMap.upsert host [] (λ gs. gs ++ group ∷ []) walk.host_memberships;
    host_inline_vars = HashMap.upsert host [] (λ m. HashMap.extend m vars) walk.host_inline_vars;
  },
)

-- the loop of "hosts"
unfoldable pub add_hosts : String → HashMap Value → GroupInfo × Walk → Result (GroupInfo × Walk)
add_hosts group [] state = ok state
add_hosts group ((host, host_vars) ∷ hosts) state =
    let read = map_err (λ e. "host '" +++ host +++ "': " +++ e) (yaml_vars host_vars) in
    if has_bracket host
    then err ("host '" +++ host +++ "' looks like an Ansible range pattern, which is not supported")
    else (read >>= λ vars. add_hosts group hosts (note_host group host vars state))

-- "vars"
unfoldable pub add_vars : String → Value → GroupInfo × Walk → Result (GroupInfo × Walk)
add_vars group value (info, walk) =
    map_err (λ e. "group '" +++ group +++ "': " +++ e) (yaml_vars value) >>= λ vars.
    ok (record info { inline_vars = HashMap.extend info.inline_vars vars }, walk)

-- a child's name
unfoldable pub note_child : String → GroupInfo → GroupInfo
note_child child info = record info { children = info.children ++ child ∷ [] }

-- any other key, and a value that is no mapping where one must be
unfoldable pub refused_key : String → String → Result (GroupInfo × Walk)
refused_key group key =
    err ("group '" +++ group +++ "': unknown key '" +++ key +++ "' (expected hosts/children/vars)")

abbrev pub no_group : String → Result Walk
no_group name = err ("group '" +++ name +++ "' must be a mapping (hosts/children/vars) or empty")

-- a key whose value is no object
unfoldable pub walk_leaf : String → String → Value → GroupInfo × Walk → Result (GroupInfo × Walk)
walk_leaf group key value state =
    if key == "hosts"
    then err ("group '" +++ group +++ "': hosts must be a mapping of hostnames")
    else if key == "children"
    then err ("group '" +++ group +++ "': children must be a mapping of groups")
    else if key == "vars"
    then add_vars group value state
    else refused_key group key

-- `Walk::group`, with its loop over the keys and that over the children
unfoldable mutual
  pub walk_group : String → Value → Walk → Result Walk
  walk_group name Value.null walk = ok (put_group name (take_group name walk))
  walk_group name (Value.object fs) walk =
      walk_keys name fs (take_group name walk) >>= λ state. ok (put_group name state)
  walk_group name _ walk = no_group name

  pub walk_keys : String → Fields → GroupInfo × Walk → Result (GroupInfo × Walk)
  walk_keys group Fields.end state = ok state
  walk_keys group (Fields.field key value fs) state =
      walk_key group key value state >>= walk_keys group fs

  pub walk_key : String → String → Value → GroupInfo × Walk → Result (GroupInfo × Walk)
  walk_key group key (Value.object fs) state =
      let children = walk_children fs state in
      if key == "hosts"
      then add_hosts group (entries fs) state
      else if key == "children"
      then children
      else if key == "vars"
      then add_vars group (Value.object fs) state
      else refused_key group key
  walk_key group key value state = walk_leaf group key value state

  pub walk_children : Fields → GroupInfo × Walk → Result (GroupInfo × Walk)
  walk_children Fields.end state = ok state
  walk_children (Fields.field child node fs) (info, walk) =
      walk_group child node walk >>= λ walked. walk_children fs (note_child child info, walked)

-- the loop over the root
unfoldable pub walk_all : HashMap Value → Walk → Result Walk
walk_all [] walk = ok walk
walk_all ((name, node) ∷ root) walk = walk_group name node walk >>= walk_all root
