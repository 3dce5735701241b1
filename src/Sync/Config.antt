-- ===== src/Sync/Config.antt =====
-- What a connector's script is told, and what a sync that fails leaves behind.
use mathlib.Core.Option
use unified_api.HashMap
use unified_api.HashMap.{HashMap}
use unified_api.HashMap.Laws.{get-insert, get-remove}
use unified_api.Source.{
  ConnectorType, Location, Source, location_name, remote, script, ssh, static_inventory,
}
use unified_api.Sync.{SyncRequest, SyncScope, full, of_group, of_hosts}
use unified_api.Sync.Run.{
  config_for, config_location, config_refresh, config_scope, config_trigger, is_refresh,
}
use unified_api.Prelude.{
  Option, String, ap, arith, decimal, if◌then◌else◌, join, map_or, none, not, refl, some, ◌&&◌,
  ◌==◌, ◌∙◌, ◌≡◌,
}

-- the reserved keys that a scope sets
abbrev pub scope_key : String → SyncScope → Option String → Option String
scope_key j full old = old
scope_key j (of_hosts names) old =
    if "target" == j then some (join "," names) else if "scope" == j then some "host" else old
scope_key j (of_group g) old =
    if "target" == j then some g else if "scope" == j then some "group" else old

get-config_scope :
    (j : String) (scope : SyncScope) (config : HashMap String)
    → HashMap.get j (config_scope scope config) ≡ scope_key j scope (HashMap.get j config)
unfolding config_scope
get-config_scope j full config = refl
get-config_scope j (of_hosts names) config =
    get-insert j "target" (join "," names) (HashMap.insert "scope" "host" config)
    ∙ rw (get-insert j "scope" "host" config) refl
get-config_scope j (of_group g) config =
    get-insert j "target" g (HashMap.insert "scope" "group" config)
    ∙ rw (get-insert j "scope" "group" config) refl

get-config_trigger :
    (j : String) (trigger : Option String) (config : HashMap String)
    → HashMap.get j (config_trigger trigger config) ≡ (
        if "trigger" == j then map_or (HashMap.get j config) some trigger else HashMap.get j config)
unfolding config_trigger
get-config_trigger j none config = ground arith
get-config_trigger j (some t) config = get-insert j "trigger" t config

-- the reserved keys of a sync that makes the origin gather
abbrev pub refresh_key : String → SyncRequest → Option String → Option String
refresh_key j request old =
    if not request.refresh_origin
    then old
    else if is_refresh request.run_trigger && "refresh_on_read" == j
    then some "true"
    else if "refresh_depth" == j
    then some (decimal request.refresh_depth)
    else if "refresh_origin" == j
    then some "true"
    else old

get-config_refresh :
    (j : String) (request : SyncRequest) (config : HashMap String)
    → HashMap.get j (config_refresh request config) ≡ refresh_key j request (HashMap.get j config)
unfolding config_refresh
get-config_refresh j request config = ground (
  arith,
  get-insert j "refresh_on_read" "true" (
      HashMap.insert "refresh_depth" (decimal request.refresh_depth)
        (HashMap.insert "refresh_origin" "true" config)),
  get-insert j "refresh_depth" (decimal request.refresh_depth)
      (HashMap.insert "refresh_origin" "true" config),
  get-insert j "refresh_origin" "true" config,
)

-- the location of an ssh source's path, which no configuration of its own stands in for
abbrev pub location_key : String → ConnectorType → Option Location → Option String → Option String
location_key j ssh location old =
    if "ssh_location" == j then Option.map location_name location else old
location_key j _ location old = old

get-config_location :
    (j : String) (type : ConnectorType) (location : Option Location) (config : HashMap String)
    → HashMap.get j (config_location type location config)
      ≡ location_key j type location (HashMap.get j config)
unfolding config_location
get-config_location j ssh none config = get-remove j "ssh_location" config
get-config_location j ssh (some l) config = get-insert j "ssh_location" (location_name l) config
get-config_location j script location config = refl
get-config_location j static_inventory location config = refl
get-config_location j remote location config = refl

-- the host list of another source
abbrev pub spec_key : String → Option String → Option String → Option String
spec_key j none old = old
spec_key j (some spec) old = if "hosts_spec" == j then some spec else old

get-base :
    (j : String) (spec : Option String) (config : HashMap String)
    → HashMap.get j (map_or config (λ s. HashMap.insert "hosts_spec" s config) spec)
      ≡ spec_key j spec (HashMap.get j config)
get-base j none config = refl
get-base j (some s) config = get-insert j "hosts_spec" s config

-- The script is told the host list of another source, the scope, who asked and the refresh intent
-- under their reserved keys, each over what the source's own configuration has there, and an ssh
-- source's location, or its absence, whatever the configuration says; under any other key, what the
-- source's configuration says.
pub config_for_lem :
    (j : String) (source : Source) (request : SyncRequest) (spec : Option String)
    → HashMap.get j (config_for source request spec)
      ≡ location_key j source.connector_type source.ssh_location (
          refresh_key j request (
            let scoped =
              scope_key j request.scope (spec_key j spec (HashMap.get j source.config)) in
            if "trigger" == j then map_or scoped some request.trigger else scoped))
unfolding config_for
config_for_lem j source request spec =
    let base = map_or source.config (λ s. HashMap.insert "hosts_spec" s source.config) spec in
    let scoped = config_scope request.scope base in
    get-config_location j source.connector_type source.ssh_location
      (config_refresh request (config_trigger request.trigger scoped))
    ∙ ap (location_key j source.connector_type source.ssh_location) (
        get-config_refresh j request (config_trigger request.trigger scoped)
        ∙ ap (refresh_key j request) (
            get-config_trigger j request.trigger scoped
            ∙ ap (λ o. if "trigger" == j then map_or o some request.trigger else o)
                (get-config_scope j request.scope base
                  ∙ ap (scope_key j request.scope) (get-base j spec source.config))))
