-- ===== src/Tests/Routes.antt =====
-- The properties of the TTLs, the claims and the routes at the small inventory.
use unified_api.HashMap
use unified_api.HashMap.{HashMap, contains_key}
use unified_api.Views.Refresh.{unowned}
use unified_api.Views.Reading
use unified_api.Views.Reading.{hostvars, select, vars_at}
use unified_api.Views.Owned.{first_claim, hostvars_lem}
use unified_api.Views.Selected.{select_lem, selects}
use unified_api.Views.Merged.{
  children_of_group, distinct_groups, first_vars, groups_lem, hosts_of_group, vars_of_group,
}
use unified_api.Views.Effective.{empty_scope_claims_all, unknown_claims_nothing}
use unified_api.Prelude.{
  Bool, List, Option, String, [], contains, distinct, false, inl, inr, none, refl, some, true, ◌∷◌,
  ◌≡◌,
}
use unified_api.CacheEntry.{CacheEntry, new}
use unified_api.Source.{ScopeClaim, Source, replace, script}
use unified_api.View.{Ownership, View, ViewMember, claims, is_catch_all}
use unified_api.Views.{
  ViewSnapshot, effective_ownership, has, hosts, known_claim, member_at, member_claimed_hosts,
  member_claims, owner_index, owner_of, position, route, serves, snapshot, snapshot_member,
}
use unified_api.Views.Routing.{IsRouted, owner_index_lem, snapshot-IsRouted}
use unified_api.Views.Served.{hosts-serves}
use unified_api.Views.Delegation.{route_lem}
use unified_api.Tests.{entry, vars_of_os}

abbrev source : Source
source = record {
  connector_type = script;
  ssh_location = none;
  script_path = "gather.py";
  script_args = [];
  host_args = [];
  timeout_seconds = 60;
  host_sync_updates_group_vars = false;
  sync_mode = replace;
  credential_ids = [];
  config = [];
  ttl_seconds = 600;
  ttl_overrides = record { groups = ("web", 300) ∷ ("all", 900) ∷ []; hosts = ("db1", 60) ∷ [] };
  advertise_scope = none;
  hosts_from_source = none;
}

abbrev owns_of : List String → List String → Bool → Ownership
owns_of names named waits = record {
  source = "estate";
  groups = names;
  hosts = named;
  advertised = waits;
}

abbrev web_member : ViewMember
web_member = record { source = "web"; owns = owns_of ("web" ∷ []) [] false }

abbrev rest_member : ViewMember
rest_member = record { source = "rest"; owns = owns_of [] [] false }

-- a member that waits for an advertisement
abbrev edge_member : ViewMember
edge_member = record { source = "edge"; owns = owns_of [] [] true }

abbrev view : View
view = record { members = web_member ∷ rest_member ∷ edge_member ∷ []; ttl_seconds = some 120 }

-- Every source has the one entry.
abbrev cache : String → Option CacheEntry
cache _ = some entry

abbrev taken : ViewSnapshot
taken = snapshot cache (("web", source) ∷ []) [] view

taken-IsRouted : IsRouted taken
taken-IsRouted = snapshot-IsRouted cache (("web", source) ∷ []) [] view

owner_index_lem_example : owner_index taken "db1" ≡ some 1
unfolding position snapshot member_claims snapshot_member effective_ownership claims is_catch_all
    contains HashMap.get new
owner_index_lem_example = owner_index_lem taken taken-IsRouted "db1"

hosts-serves_example : contains "db1" (hosts taken) ≡ true
unfolding serves owner_index snapshot position member_claims snapshot_member effective_ownership
    claims is_catch_all contains HashMap.get new member_at has
hosts-serves_example = hosts-serves taken taken-IsRouted "db1"

route_lem_example : route taken ("db1" ∷ "web1" ∷ "gone" ∷ "web2" ∷ []) ≡ inl ("gone" ∷ [])
unfolding unowned owner_index snapshot position member_claims snapshot_member effective_ownership
    claims is_catch_all contains HashMap.get new known_claim
route_lem_example = route_lem taken taken-IsRouted ("db1" ∷ "web1" ∷ "gone" ∷ "web2" ∷ [])

hostvars_lem_example :
    (HashMap.get "web1" (hostvars taken ("web1" ∷ "gone" ∷ [])) ≡ some (vars_of_os "linux"))
    × (contains_key "web1" (hostvars taken ("web1" ∷ "gone" ∷ [])) ≡ true)
unfolding contains first_claim serves owner_of owner_index snapshot position member_claims
    snapshot_member effective_ownership claims is_catch_all HashMap.get new member_at vars_at has
hostvars_lem_example = hostvars_lem taken taken-IsRouted ("web1" ∷ "gone" ∷ []) "web1"

select_lem_example : selects "web1" (select taken (some ("web1" ∷ "db1" ∷ [])) none) ≡ inr true
unfolding unowned owner_index snapshot position member_claims snapshot_member effective_ownership
    claims is_catch_all contains HashMap.get new serves member_at has
select_lem_example = select_lem taken taken-IsRouted (some ("web1" ∷ "db1" ∷ [])) none "web1"

groups_lem_example :
    (contains "web1" (hosts_of_group (HashMap.get "web" (Reading.groups taken))) ≡ true)
    × (contains "web1" (children_of_group (HashMap.get "web" (Reading.groups taken))) ≡ false)
    × (vars_of_group (HashMap.get "web" (Reading.groups taken)) ≡ none)
unfolding distinct_groups snapshot snapshot_member distinct new contains HashMap.get first_vars
groups_lem_example = groups_lem taken refl "web" "web1"

unknown_claims_nothing_example :
    (member_claims (snapshot_member cache [] [] edge_member) "web1" ≡ false)
    × (contains "web1" (member_claimed_hosts (snapshot_member cache [] [] edge_member)) ≡ false)
unfolding known_claim HashMap.get is_catch_all
unknown_claims_nothing_example =
    unknown_claims_nothing cache [] [] edge_member refl refl refl "web1"

-- What a view advertises whose members all wait for an advertisement themselves.
abbrev no_claim : ScopeClaim
no_claim = record { groups = []; hosts = []; catch_all = false }

abbrev waiting_view : View
waiting_view = record { members = edge_member ∷ []; ttl_seconds = none }

empty_scope_claims_all_example :
    owner_of (snapshot cache [] (("edge", no_claim) ∷ []) waiting_view) "db1"
    ≡ some (snapshot_member cache [] (("edge", no_claim) ∷ []) edge_member)
unfolding known_claim HashMap.get new
empty_scope_claims_all_example =
    empty_scope_claims_all cache [] (("edge", no_claim) ∷ []) waiting_view edge_member [] entry
      "db1" refl refl refl refl refl
