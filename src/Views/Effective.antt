-- ===== src/Views/Effective.antt =====
-- `effective_ownership`: the pattern a member is routed by.
use unified_api.HashMap
use unified_api.HashMap.{HashMap, contains_key}
use unified_api.Prelude.{
  List, Option, String, [], ap, arith, contains, false, is_empty, map, none, refl, some, true, ◌||◌,
  ◌∙◌, ◌∷◌, ◌≡◌,
}
use unified_api.Source.{AdvertisedScopes, Source}
use unified_api.View.{View, ViewMember, any_group, claims, is_catch_all}
use unified_api.CacheEntry.{CacheEntry}
use unified_api.Views.{
  MemberSnapshot, ViewSnapshot, effective_ownership, known_claim, member_at, member_claimed_hosts,
  member_claims, owner_index, owner_of, position, snapshot, snapshot_member,
}

-- A member that waits for an advertisement, with no claim known and no pattern of its own, claims
-- no host, whatever its inventory holds.
pub unknown_claims_nothing :
    (cache : String → Option CacheEntry) (sources : HashMap Source) (scopes : AdvertisedScopes)
    (member : ViewMember)
    → member.owns.advertised ≡ true
    → known_claim member (HashMap.get member.source sources) scopes ≡ none
    → is_catch_all member.owns ≡ true
    → (h : String)
    → (member_claims (snapshot_member cache sources scopes member) h ≡ false)
      × (contains h (member_claimed_hosts (snapshot_member cache sources scopes member)) ≡ false)
unfolding snapshot_member effective_ownership member_claims member_claimed_hosts contains
    is_catch_all
unknown_claims_nothing cache sources scopes member waits no_claim every h =
    let hosts : is_empty member.owns.hosts ≡ true = ground (arith, every) in
    let groups : is_empty member.owns.groups ≡ true = ground (arith, every) in
    rw (no_claim, waits, hosts, groups) (refl, refl)

empty_scope_is_catch_all :
    (cache : String → Option CacheEntry) (sources : HashMap Source) (scopes : AdvertisedScopes)
    (member : ViewMember) (inventory : CacheEntry)
    → member.owns.advertised ≡ true
    → known_claim member (HashMap.get member.source sources) scopes
      ≡ some (record { groups = []; hosts = []; catch_all = false })
    → cache member.owns.source ≡ some inventory
    → (h : String)
    → member_claims (snapshot_member cache sources scopes member) h
      ≡ (contains_key h inventory.dataset.hostvars || any_group h inventory.dataset.groups)
unfolding snapshot_member effective_ownership member_claims claims is_catch_all
empty_scope_is_catch_all cache sources scopes member inventory waits known cached h =
    rw (known, waits, cached) refl

abbrev unrouted : View → List MemberSnapshot → ViewSnapshot
unrouted view members = record { view = view; members = members; routing = none }

first_member_owns :
    (view : View) (m : MemberSnapshot) (ms : List MemberSnapshot) (h : String)
    → member_claims m h ≡ true
    → owner_of (unrouted view (m ∷ ms)) h ≡ some m
unfolding owner_of owner_index position member_at
first_member_owns view m ms h claimed = rw (owner_of, claimed) refl

-- Of a view whose first member waits for an advertisement, and has a known claim without groups and
-- hosts, which itself says that it is no claim of everything: each host of the member's inventory,
-- and each host of a group there, is owned by that member, whatever the other members claim.
pub empty_scope_claims_all :
    (cache : String → Option CacheEntry) (sources : HashMap Source) (scopes : AdvertisedScopes)
    (view : View) (member : ViewMember) (others : List ViewMember) (inventory : CacheEntry)
    (h : String)
    → view.members ≡ member ∷ others
    → member.owns.advertised ≡ true
    → known_claim member (HashMap.get member.source sources) scopes
      ≡ some (record { groups = []; hosts = []; catch_all = false })
    → cache member.owns.source ≡ some inventory
    → (contains_key h inventory.dataset.hostvars || any_group h inventory.dataset.groups) ≡ true
    → owner_of (snapshot cache sources scopes view) h
      ≡ some (snapshot_member cache sources scopes member)
unfolding snapshot
empty_scope_claims_all cache sources scopes view member others inventory h listed waits known cached
      held =
    ap (λ ms. owner_of (unrouted view (map (snapshot_member cache sources scopes) ms)) h) listed
    ∙ first_member_owns view (snapshot_member cache sources scopes member)
        (map (snapshot_member cache sources scopes) others) h
        (empty_scope_is_catch_all cache sources scopes member inventory waits known cached h ∙ held)
