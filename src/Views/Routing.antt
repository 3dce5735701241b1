-- ===== src/Views/Routing.antt =====
-- The routing table against the scan of the members in their declared order.
use unified_api.HashMap
use unified_api.HashMap.{HashMap, contains_key, or_insert}
use unified_api.HashMap.Laws.{get-or_insert}
use unified_api.Source.{AdvertisedScopes, Source}
use unified_api.View.{View}
use unified_api.Prelude.{
  Bool-cases, List, Option, Option-cases, String, [], ap, arith, contains, eq_iff, if◌then◌else◌,
  inl, inr, ltb, none, refl, some, some_inj, suc, sym, ℕ, ◌∙◌, ◌∷◌, ◌≡◌,
}
use unified_api.CacheEntry.{CacheEntry}
use unified_api.Views.{
  MemberSnapshot, ViewSnapshot, member_claimed_hosts, member_claims, owner_index, position,
  prepare_routing, route_hosts, route_members, routing_of, snapshot,
}
use unified_api.View.Claims.{claimed_hosts-claims}

member_claimed_hosts-claims :
    (m : MemberSnapshot) (h : String) → contains h (member_claimed_hosts m) ≡ member_claims m h
unfolding member_claimed_hosts member_claims contains
member_claimed_hosts-claims m h = elim (Option-cases m.owns) [
  | inl e ↦ rw e refl
  | inr (owns, e) ↦ elim (Option-cases m.ownership) [
    | inl f ↦ rw (e, f) refl
    | inr (entry, f) ↦ rw (e, f) (claimed_hosts-claims owns entry.dataset h)
  ]
]

get-route_hosts :
    (h : String) (index : ℕ) (names : List String) (routing : HashMap ℕ)
    → HashMap.get h (route_hosts index names routing) ≡ (
        if contains_key h routing
        then HashMap.get h routing
        else if contains h names
        then some index
        else none)
unfolding route_hosts contains
get-route_hosts h index [] routing = ground (arith, Option-cases (HashMap.get h routing))
get-route_hosts h index (k ∷ names) routing = ground (
  arith,
  get-route_hosts h index names (or_insert k index routing),
  get-or_insert h k index routing,
  eq_iff h k,
)

pub get-route_members :
    (h : String) (index : ℕ) (members : List MemberSnapshot) (routing : HashMap ℕ)
    → HashMap.get h (route_members index members routing)
      ≡ (if contains_key h routing then HashMap.get h routing else position index h members)
unfolding route_members position
get-route_members h index [] routing = ground (arith, Option-cases (HashMap.get h routing))
get-route_members h index (m ∷ members) routing = ground (
  arith,
  get-route_members h (suc index) members (route_hosts index (member_claimed_hosts m) routing),
  get-route_hosts h index (member_claimed_hosts m) routing,
  member_claimed_hosts-claims m h,
)

-- The snapshot's table is the one `routing` builds, or there is none yet.
pub IsRouted : ViewSnapshot → Type 0
IsRouted s = (table : HashMap ℕ) → s.routing ≡ some table → table ≡ route_members 0 s.members []

-- `snapshot` takes a routed one, and no read spoils it.
pub snapshot-IsRouted :
    (cache : String → Option CacheEntry) (sources : HashMap Source) (scopes : AdvertisedScopes)
    (view : View)
    → IsRouted (snapshot cache sources scopes view)
unfolding snapshot IsRouted
snapshot-IsRouted cache sources scopes view table h = ground (arith, h)

routing-routing_of : (s : ViewSnapshot) → (routing_of s).1.routing ≡ some (routing_of s).0
unfolding routing_of
routing-routing_of s = elim (Option-cases s.routing) [ inl e ↦ rw e refl | inr (t, e) ↦ rw e refl ]

pub members-routing_of : (s : ViewSnapshot) → (routing_of s).1.members ≡ s.members
unfolding routing_of
members-routing_of s = elim (Option-cases s.routing) [ inl e ↦ rw e refl | inr (t, e) ↦ rw e refl ]

pub routing_of_lem :
    (s : ViewSnapshot) → IsRouted s → (routing_of s).0 ≡ route_members 0 s.members []
unfolding routing_of IsRouted
routing_of_lem s r = elim (Option-cases s.routing) [ inl e ↦ rw e refl | inr (t, e) ↦ rw e (r t e) ]

pub routing_of-IsRouted : (s : ViewSnapshot) → IsRouted s → IsRouted (routing_of s).1
unfolding IsRouted
routing_of-IsRouted s r table h =
    some_inj (sym h ∙ routing-routing_of s)
    ∙ routing_of_lem s r
    ∙ ap (λ ms. route_members 0 ms []) (sym (members-routing_of s))

pub prepare_routing-IsRouted :
    (n : ℕ) (s : ViewSnapshot) → IsRouted s → IsRouted (prepare_routing n s)
unfolding prepare_routing
prepare_routing-IsRouted n s r = elim (Bool-cases (ltb 16 n)) [
  | inl e ↦ rw e (routing_of-IsRouted s r)
  | inr e ↦ rw e r
]

pub members-prepare_routing : (n : ℕ) (s : ViewSnapshot) → (prepare_routing n s).members ≡ s.members
unfolding prepare_routing
members-prepare_routing n s = elim (Bool-cases (ltb 16 n)) [
  | inl e ↦ rw e (members-routing_of s)
  | inr e ↦ rw e refl
]

-- In a routed snapshot, whether or not the table is built, the owner of a host is the first
-- member, in the declared order, that claims it.
pub owner_index_lem :
    (s : ViewSnapshot) → IsRouted s → (h : String) → owner_index s h ≡ position 0 h s.members
unfolding owner_index IsRouted position HashMap.get
owner_index_lem s r h = elim (Option-cases s.routing) [
  | inl e ↦ rw e refl
  | inr (t, e) ↦ rw e (ap (HashMap.get h) (r t e) ∙ get-route_members h 0 s.members [])
]

-- Building the table first changes no owner.
pub owner_index-prepared :
    (n : ℕ) (s : ViewSnapshot)
    → IsRouted s
    → (h : String) → owner_index (prepare_routing n s) h ≡ owner_index s h
owner_index-prepared n s r h =
    owner_index_lem (prepare_routing n s) (prepare_routing-IsRouted n s r) h
    ∙ ap (position 0 h) (members-prepare_routing n s)
    ∙ sym (owner_index_lem s r h)
