-- ===== src/View.antt =====
-- domain/view.rs: which hosts a member of a view owns, and what a view advertises.
pub mod Claims
use unified_api.HashMap
use unified_api.HashMap.{HashMap, contains_key}
use unified_api.Prelude.{
  Bool, List, Option, String, [], any, contains, false, if◌then◌else◌, is_empty, map, map_or, not,
  push_new, true, ℕ, ◌&&◌, ◌++◌, ◌||◌, ◌∷◌,
}
use unified_api.Dataset.{Dataset, Group}
use unified_api.Source.{ScopeClaim}

pub record Ownership : Type 0 where
  pub source : String
  pub groups : List String
  pub hosts : List String
  pub advertised : Bool

pub record ViewMember : Type 0 where
  pub source : String
  pub owns : Ownership

pub record View : Type 0 where
  pub members : List ViewMember
  pub ttl_seconds : Option ℕ

unfoldable pub is_catch_all : Ownership → Bool
is_catch_all o = is_empty o.groups && is_empty o.hosts

-- does any group list the host?
abbrev pub any_group : String → HashMap Group → Bool
any_group hostname groups = any (λ g. contains hostname g.1.hosts) groups

-- is the host in the group of that name?
abbrev pub in_named : String → HashMap Group → String → Bool
in_named hostname groups name =
    map_or false (λ (g : Group). contains hostname g.hosts) (HashMap.get name groups)

unfoldable pub claims : Ownership → Dataset → String → Bool
claims o d hostname =
    if is_catch_all o
    then contains_key hostname d.hostvars || any_group hostname d.groups
    else if contains hostname o.hosts
    then true
    else any (in_named hostname d.groups) o.groups

-- every host of every group
unfoldable pub all_members : HashMap Group → List String
all_members [] = []
all_members ((_, group) ∷ groups) = group.hosts ++ all_members groups

-- the hosts of the groups named that are there
unfoldable pub named_members : List String → HashMap Group → List String
named_members [] groups = []
named_members (name ∷ names) groups =
    map_or [] (λ (g : Group). g.hosts) (HashMap.get name groups) ++ named_members names groups

-- The set of the claimed hosts, as a list that may name one twice.
unfoldable pub claimed_hosts : Ownership → Dataset → List String
claimed_hosts o d =
    if is_catch_all o
    then HashMap.keys d.hostvars ++ all_members d.groups
    else o.hosts ++ named_members o.groups d.groups

-- `for x in names { if !into.contains(x) { into.push(x) } }`
unfoldable pub push_all_new : List String → List String → List String
push_all_new [] into = into
push_all_new (name ∷ names) into = push_all_new names (push_new name into)

-- one member in the loop of `advertised_scope`
unfoldable pub add_claim : ViewMember → ScopeClaim → ScopeClaim
add_claim member claim = record {
  groups = push_all_new member.owns.groups claim.groups;
  hosts = push_all_new member.owns.hosts claim.hosts;
  catch_all = claim.catch_all || is_catch_all member.owns && not member.owns.advertised;
}

unfoldable pub add_claims : List ViewMember → ScopeClaim → ScopeClaim
add_claims [] claim = claim
add_claims (member ∷ members) claim = add_claims members (add_claim member claim)

-- `View::advertised_scope`
unfoldable pub view_scope : View → ScopeClaim
view_scope view = add_claims view.members (record { groups = []; hosts = []; catch_all = false })

-- `View::member_ids`
abbrev pub member_ids : View → List String
member_ids view = map (λ (m : ViewMember). m.source) view.members
