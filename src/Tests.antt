-- ===== src/Tests.antt =====
-- A small inventory and its cache entries, at which the properties are run.
pub mod Cache
pub mod Stores
pub mod Pages
pub mod Routes
pub mod Health
pub mod Globs
pub mod Inventories
pub mod Paths
pub mod Syncs
pub mod Runs
pub mod Races
pub mod Permits
pub mod Secrets
pub mod Statics
use unified_api.HashMap
use unified_api.HashMap.{HashMap}
use unified_api.Prelude.{List, String, [], none, some, ◌∷◌}
use unified_api.Json.{string}
use unified_api.Dataset.{Dataset, Group, HostVars}
use unified_api.CacheEntry
use unified_api.CacheEntry.{CacheEntry, Env}

abbrev pub env : Env
env = record { now = 5000000000000; cell = 7 }

-- ten seconds after `env`
abbrev pub later : Env
later = record { now = 5010000000000; cell = 8 }

abbrev pub vars_of_os : String → HostVars
vars_of_os os = ("os", string os) ∷ []

abbrev pub group_of : List String → List String → Group
group_of hosts children = record { hosts = hosts; children = children; vars = none }

abbrev pub groups : HashMap Group
groups =
    ("all", group_of ("web1" ∷ "web2" ∷ "db1" ∷ []) ("web" ∷ []))
    ∷ ("web", group_of ("web1" ∷ "web2" ∷ []) [])
    ∷ ("db", group_of ("db1" ∷ []) [])
    ∷ []

abbrev pub inventory : Dataset
inventory = record {
  hostvars =
      ("web1", vars_of_os "linux") ∷ ("web2", vars_of_os "linux") ∷ ("db1", vars_of_os "bsd") ∷ [];
  groups = groups;
  remove_hosts = [];
}

-- A partial dataset: one host anew, one to be removed.
abbrev pub partial_inventory : Dataset
partial_inventory = record {
  hostvars = ("web1", vars_of_os "illumos") ∷ [];
  groups = ("web", group_of ("web1" ∷ []) []) ∷ [];
  remove_hosts = "web2" ∷ [];
}

-- An enrichment that adds another variable to a host, and the location of a group.
abbrev pub enrichment : Dataset
enrichment = record {
  hostvars = ("web1", ("site", string "north") ∷ []) ∷ [];
  groups =
      ("web", record { hosts = []; children = []; vars = some (("site", string "north") ∷ []) })
      ∷ [];
  remove_hosts = [];
}

abbrev pub entry : CacheEntry
entry = CacheEntry.new env inventory 60
