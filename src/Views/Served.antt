-- ===== src/Views/Served.antt =====
-- The list of the hosts a view serves against the test of one host.
use unified_api.HashMap
use unified_api.HashMap.{HashMap, contains_key, or_insert}
use unified_api.HashMap.Laws.{contains-keys, distinct-insert}
use unified_api.Prelude.{
  Bool-cases, List, Option-cases, String, [], ap, arith, contains, contains-sort, distinct, eq_iff,
  false, inl, inr, map_or, refl, suc, sym, true, ℕ, ◌∙◌, ◌∷◌, ◌≡◌,
}
use unified_api.Views.{
  MemberSnapshot, ViewSnapshot, held_at, hosts, member_claimed_hosts, owner_index, position,
  route_hosts, route_members, routing_of, served, serves,
}
use unified_api.Views.Routing.{IsRouted, get-route_members, owner_index_lem, routing_of_lem}

distinct-route_hosts :
    (index : ℕ) (names : List String) (routing : HashMap ℕ)
    → distinct (HashMap.keys routing) ≡ true
    → distinct (HashMap.keys (route_hosts index names routing)) ≡ true
unfolding route_hosts or_insert
distinct-route_hosts index [] routing d = d
distinct-route_hosts index (k ∷ names) routing d =
    distinct-route_hosts index names (or_insert k index routing)
      (elim (Bool-cases (contains_key k routing)) [
        | inl e ↦ rw e d
        | inr e ↦ rw e (distinct-insert k index routing d)
      ])

distinct-route_members :
    (index : ℕ) (members : List MemberSnapshot) (routing : HashMap ℕ)
    → distinct (HashMap.keys routing) ≡ true
    → distinct (HashMap.keys (route_members index members routing)) ≡ true
unfolding route_members
distinct-route_members index [] routing d = d
distinct-route_members index (m ∷ members) routing d =
    distinct-route_members (suc index) members (route_hosts index (member_claimed_hosts m) routing)
      (distinct-route_hosts index (member_claimed_hosts m) routing d)

contains-served :
    (h : String) (members : List MemberSnapshot) (table : HashMap ℕ)
    → distinct (HashMap.keys table) ≡ true
    → contains h (served members table) ≡ map_or false (held_at members h) (HashMap.get h table)
unfolding served contains distinct HashMap.get
contains-served h members [] d = refl
contains-served h members ((k, index) ∷ table) d = ground (
  arith,
  d,
  contains-served h members table,
  contains-keys k table,
  eq_iff k h,
  Option-cases (HashMap.get h table),
)

-- In a routed snapshot, the list of all hosts has a host exactly if the view, asked about that
-- host alone, serves it.
pub hosts-serves :
    (s : ViewSnapshot) → IsRouted s → (h : String) → contains h (hosts s) ≡ serves s h
unfolding hosts serves distinct position owner_index HashMap.get
hosts-serves s r h =
    contains-sort h (served s.members (routing_of s).0)
    ∙ ap (λ t. contains h (served s.members t)) (routing_of_lem s r)
    ∙ contains-served h s.members (route_members 0 s.members [])
        (distinct-route_members 0 s.members [] refl)
    ∙ ap (map_or false (held_at s.members h))
        (get-route_members h 0 s.members [] ∙ sym (owner_index_lem s r h))
