-- ===== src/Views.antt =====
-- application/views.rs: a snapshot of a view, which routes each host to the member that owns it.
-- A member's index is its place in the declared order.
pub mod Routing
pub mod Effective
pub mod Served
pub mod Refresh
pub mod Delegation
pub mod Reading
pub mod Owned
pub mod Selected
pub mod Merged
pub mod Ages
use unified_api.HashMap
use unified_api.HashMap.{HashMap, contains_key, or_insert}
use unified_api.Prelude.{
  Bool, List, Option, String, [], contains, false, if◌then◌else◌, inl, inr, is_empty, is_some,
  length, ltb, map, map_or, none, not, some, sort, suc, true, zero, ℕ, ◌++◌, ◌||◌, ◌∷◌, ◌⊎◌,
}
use unified_api.Source.{AdvertisedScopes, ScopeClaim, Source, advertised_scope}
use unified_api.View.{Ownership, View, ViewMember, claimed_hosts, claims}
use unified_api.CacheEntry.{CacheEntry}

-- how `owns` was determined
pub data OwnershipMode : Type 0 where
  declared advertised fallback unknown : OwnershipMode

pub record MemberSnapshot : Type 0 where
  pub source_id : String
  pub source : Option Source
  pub entry : Option CacheEntry
  pub ownership : Option CacheEntry
  pub owns : Option Ownership
  pub ownership_mode : OwnershipMode

pub record ViewSnapshot : Type 0 where
  pub view : View
  pub members : List MemberSnapshot
  -- the routing table, once it is built
  pub routing : Option (HashMap ℕ)

unfoldable pub member_claims : MemberSnapshot → String → Bool
member_claims m hostname = elim m.owns [
  | none ↦ false
  | some owns ↦ elim m.ownership [
    | some entry ↦ claims owns entry.dataset hostname
    | none ↦ contains hostname owns.hosts
  ]
]

unfoldable pub member_claimed_hosts : MemberSnapshot → List String
member_claimed_hosts m = elim m.owns [
  | none ↦ []
  | some owns ↦ elim m.ownership [
    | some entry ↦ claimed_hosts owns entry.dataset
    | none ↦ owns.hosts
  ]
]

unfoldable pub has : MemberSnapshot → String → Bool
has m hostname = map_or false (λ (e : CacheEntry). contains_key hostname e.dataset.hostvars) m.entry

-- the source's own claim, or else the last one a sync of it fetched
unfoldable pub known_claim : ViewMember → Option Source → AdvertisedScopes → Option ScopeClaim
known_claim member source scopes = elim (map_or none advertised_scope source) [
  | some claim ↦ some claim
  | none ↦ HashMap.get member.source scopes
]

-- `effective_ownership`
unfoldable pub effective_ownership :
    ViewMember → Option Source → AdvertisedScopes → Option Ownership × OwnershipMode
effective_ownership member source scopes =
    if not member.owns.advertised
    then (some member.owns, declared)
    else elim (known_claim member source scopes) [
      | some claim ↦ (
        some (record {
          source = member.owns.source;
          groups = claim.groups;
          hosts = claim.hosts;
          advertised = true;
        }),
        OwnershipMode.advertised,
      )
      | none ↦
          if not (is_empty member.owns.groups) || not (is_empty member.owns.hosts)
          then (some (record member.owns { advertised = false }), fallback)
          else (none, unknown)
    ]

-- one member of `snapshot`; `cache` is `CachePort::get`
unfoldable pub snapshot_member :
    (String → Option CacheEntry) → HashMap Source → AdvertisedScopes → ViewMember → MemberSnapshot
snapshot_member cache sources scopes member =
    let (owns, mode) = effective_ownership member (HashMap.get member.source sources) scopes in
    record {
      source_id = member.source;
      source = HashMap.get member.source sources;
      entry = cache member.source;
      ownership = cache member.owns.source;
      owns = owns;
      ownership_mode = mode;
    }

unfoldable pub snapshot :
    (String → Option CacheEntry) → HashMap Source → AdvertisedScopes → View → ViewSnapshot
snapshot cache sources scopes view = record {
  view = view;
  members = map (snapshot_member cache sources scopes) view.members;
  routing = none;
}

-- `routing.entry(hostname).or_insert(index)` for each host of one member
unfoldable pub route_hosts : ℕ → List String → HashMap ℕ → HashMap ℕ
route_hosts index [] routing = routing
route_hosts index (hostname ∷ names) routing =
    route_hosts index names (or_insert hostname index routing)

unfoldable pub route_members : ℕ → List MemberSnapshot → HashMap ℕ → HashMap ℕ
route_members index [] routing = routing
route_members index (m ∷ members) routing =
    route_members (suc index) members (route_hosts index (member_claimed_hosts m) routing)

-- `routing()`: the table, built by the first to ask
unfoldable pub routing_of : ViewSnapshot → HashMap ℕ × ViewSnapshot
routing_of s = elim s.routing [
  | some table ↦ (table, s)
  | none ↦ let table = route_members 0 s.members [] in (table, record s { routing = some table })
]

unfoldable pub prepare_routing : ℕ → ViewSnapshot → ViewSnapshot
prepare_routing hosts_in_question s = if ltb 16 hosts_in_question then (routing_of s).1 else s

-- `members.iter().position(|m| m.claims(hostname))`, from an index on
unfoldable pub position : ℕ → String → List MemberSnapshot → Option ℕ
position index hostname [] = none
position index hostname (m ∷ members) =
    if member_claims m hostname then some index else position (suc index) hostname members

unfoldable pub owner_index : ViewSnapshot → String → Option ℕ
owner_index s hostname = elim s.routing [
  | some table ↦ HashMap.get hostname table
  | none ↦ position 0 hostname s.members
]

-- `members[index]`
unfoldable pub member_at : List MemberSnapshot → ℕ → Option MemberSnapshot
member_at [] index = none
member_at (m ∷ members) zero = some m
member_at (m ∷ members) (suc index) = member_at members index

unfoldable pub owner_of : ViewSnapshot → String → Option MemberSnapshot
owner_of s hostname = elim (owner_index s hostname) [
  | none ↦ none
  | some index ↦ member_at s.members index
]

-- the member at the index, which an index of the table always is, has the host
abbrev pub held_at : List MemberSnapshot → String → ℕ → Bool
held_at members hostname index = map_or false (λ m. has m hostname) (member_at members index)

unfoldable pub serves : ViewSnapshot → String → Bool
serves s hostname = map_or false (held_at s.members hostname) (owner_index s hostname)

unfoldable pub served : List MemberSnapshot → HashMap ℕ → List String
served members [] = []
served members ((hostname, index) ∷ table) =
    let rest = served members table in
    if held_at members hostname index then hostname ∷ rest else rest

-- `hosts()`
unfoldable pub hosts : ViewSnapshot → List String
hosts s = sort (served s.members (routing_of s).0)

-- `by_member.entry(index).or_default().push(hostname)`, with the map as a list in the order of its
-- keys
unfoldable pub push_at : ℕ → String → List (ℕ × List String) → List (ℕ × List String)
push_at index hostname [] = (index, hostname ∷ []) ∷ []
push_at index hostname ((i, names) ∷ by_member) =
    let rest = push_at index hostname by_member in
    if ltb index i
    then (index, hostname ∷ []) ∷ (i, names) ∷ by_member
    else if ltb i index
    then (i, names) ∷ rest
    else (i, names ++ hostname ∷ []) ∷ by_member

-- the loop of `route`
unfoldable pub route_all :
    ViewSnapshot
    → List String
    → List (ℕ × List String)
    → List String
    → List (ℕ × List String) × List String
route_all s [] by_member unclaimed = (by_member, unclaimed)
route_all s (hostname ∷ names) by_member unclaimed =
    let index = owner_index s hostname in
    route_all s names (map_or by_member (λ i. push_at i hostname by_member) index)
      (if is_some index then unclaimed else unclaimed ++ hostname ∷ [])

-- `members[index]` of each, an index of the snapshot's members always
unfoldable pub with_members :
    List MemberSnapshot → List (ℕ × List String) → List (MemberSnapshot × List String)
with_members members [] = []
with_members members ((index, names) ∷ by_member) =
    let rest = with_members members by_member in
    map_or rest (λ m. (m, names) ∷ rest) (member_at members index)

-- `route`, whose error, on the left, is `UnclaimedHosts`
unfoldable pub route :
    ViewSnapshot → List String → List String ⊎ List (MemberSnapshot × List String)
route s names =
    let (by_member, unclaimed) = route_all (prepare_routing (length names) s) names [] [] in
    if is_empty unclaimed then inr (with_members s.members by_member) else inl unclaimed
