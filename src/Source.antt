-- ===== src/Source.antt =====
-- domain/source.rs: what a source advertises, and the TTLs of its hosts. Of a source's fields those
-- stand here that this code reads.
pub mod Ttl
pub mod Hosts
pub mod Resolved
use unified_api.HashMap
use unified_api.HashMap.{HashMap}
use unified_api.Prelude.{
  Bool, List, Option, String, [], false, is_empty, min, none, some, unwrap_or, ℕ, ◌&&◌, ◌∷◌,
}
use unified_api.Dataset.{Dataset, Group}

pub record MatchPattern : Type 0 where
  pub groups : List String
  pub hosts : List String

-- `MatchPattern::is_empty`
abbrev pub is_empty_pattern : MatchPattern → Bool
is_empty_pattern p = is_empty p.groups && is_empty p.hosts

pub record ScopeClaim : Type 0 where
  pub groups : List String
  pub hosts : List String
  pub catch_all : Bool

pub record TtlOverrides : Type 0 where
  pub groups : HashMap ℕ
  pub hosts : HashMap ℕ

pub data ConnectorType : Type 0 where
  script ssh static_inventory remote : ConnectorType

-- domain/connector.rs: where an ssh connector's path is
pub data Location : Type 0 where
  at_host at_instance : Location

unfoldable pub location_name : Location → String
location_name at_host = "host"
location_name at_instance = "instance"

pub data SyncMode : Type 0 where
  replace merge : SyncMode

pub data ConnectVia : Type 0 where
  via_hostname via_ansible_host ansible_host_first hostname_first : ConnectVia

pub record HostsFromSource : Type 0 where
  pub source : String
  pub match_pattern : MatchPattern
  pub connect_via : ConnectVia

pub record Source : Type 0 where
  pub connector_type : ConnectorType
  pub ssh_location : Option Location
  pub script_path : String
  pub script_args : List String
  pub host_args : List String
  pub timeout_seconds : ℕ
  pub host_sync_updates_group_vars : Bool
  pub sync_mode : SyncMode
  pub credential_ids : List String
  pub ttl_seconds : ℕ
  pub ttl_overrides : TtlOverrides
  pub hosts_from_source : Option HostsFromSource
  -- the `advertise_scope` block has the two lists of a pattern
  pub advertise_scope : Option MatchPattern
  pub config : HashMap String

unfoldable pub advertised_scope : Source → Option ScopeClaim
advertised_scope source = elim source.advertise_scope [
  | some explicit ↦
      some (record { groups = explicit.groups; hosts = explicit.hosts; catch_all = false })
  | none ↦ elim source.hosts_from_source [
    | some hfs ↦ some (record {
      groups = hfs.match_pattern.groups;
      hosts = hfs.match_pattern.hosts;
      catch_all = is_empty_pattern hfs.match_pattern;
    })
    | none ↦ none
  ]
]

-- `AdvertisedScopeRegistry`: the last known claim of each remote source
abbrev pub AdvertisedScopes : Type 0
AdvertisedScopes = HashMap ScopeClaim

abbrev pub record_scope : String → ScopeClaim → AdvertisedScopes → AdvertisedScopes
record_scope source_id claim scopes = HashMap.insert source_id claim scopes

-- `*current = (*current).min(*ttl)`, or the entry's first
unfoldable pub add_ttl : ℕ → List String → HashMap ℕ → HashMap ℕ
add_ttl ttl [] by_host = by_host
add_ttl ttl (member ∷ hosts) by_host =
    add_ttl ttl hosts (HashMap.upsert member ttl (λ current. min current ttl) by_host)

-- the overrides one by one, over the groups that the dataset has
unfoldable pub group_ttls : HashMap ℕ → HashMap Group → HashMap ℕ
group_ttls [] groups = []
group_ttls ((name, ttl) ∷ overrides) groups =
    let by_host = group_ttls overrides groups in
    elim (HashMap.get name groups) [ none ↦ by_host | some group ↦ add_ttl ttl group.hosts by_host ]

unfoldable pub group_ttl_by_host : Source → Dataset → HashMap ℕ
group_ttl_by_host source dataset = group_ttls source.ttl_overrides.groups dataset.groups

unfoldable pub effective_ttl : Source → String → HashMap ℕ → ℕ → ℕ
effective_ttl source name by_host fallback = elim (HashMap.get name source.ttl_overrides.hosts) [
  | some ttl ↦ ttl
  | none ↦ unwrap_or (HashMap.get name by_host) fallback
]
