-- ===== src/View/Claims.antt =====
-- A member claims a host exactly if its set of claimed hosts has it, and what a view advertises is
-- the union of what its members declare.
use unified_api.HashMap
use unified_api.HashMap.{HashMap}
use unified_api.HashMap.Laws.{contains-keys}
use unified_api.Prelude.{
  List, Option-cases, String, [], any, ap, arith, contains, contains-append, contains-push_new,
  false, inl, inr, not, push_new, refl, ◌&&◌, ◌||◌, ◌∙◌, ◌∷◌, ◌≡◌,
}
use unified_api.Dataset.{Dataset, Group}
use unified_api.Source.{ScopeClaim}
use unified_api.View.{
  Ownership, View, ViewMember, add_claim, add_claims, all_members, any_group, claimed_hosts, claims,
  in_named, is_catch_all, named_members, push_all_new, view_scope,
}

contains-all_members :
    (h : String) (groups : HashMap Group) → contains h (all_members groups) ≡ any_group h groups
unfolding all_members contains
contains-all_members h [] = refl
contains-all_members h ((name, g) ∷ groups) =
    ground (arith, contains-append h g.hosts (all_members groups), contains-all_members h groups)

contains-named_members :
    (h : String) (names : List String) (groups : HashMap Group)
    → contains h (named_members names groups) ≡ any (in_named h groups) names
unfolding named_members contains
contains-named_members h [] groups = refl
contains-named_members h (name ∷ names) groups = elim (Option-cases (HashMap.get name groups)) [
  | inl e ↦ rw e (contains-named_members h names groups)
  | inr (g, e) ↦ rw e (
      contains-append h g.hosts (named_members names groups)
      ∙ ap (λ b. contains h g.hosts || b) (contains-named_members h names groups))
]

-- The whole set of a member's hosts holds a host exactly if the member, asked about that host
-- alone, claims it.
pub claimed_hosts-claims :
    (o : Ownership) (d : Dataset) (h : String) → contains h (claimed_hosts o d) ≡ claims o d h
unfolding claimed_hosts claims
claimed_hosts-claims o d h = ground (
  arith,
  contains-append h (HashMap.keys d.hostvars) (all_members d.groups),
  contains-append h o.hosts (named_members o.groups d.groups),
  contains-keys h d.hostvars,
  contains-all_members h d.groups,
  contains-named_members h o.groups d.groups,
)

contains-push_all_new :
    (x : String) (names into : List String)
    → contains x (push_all_new names into) ≡ (contains x names || contains x into)
unfolding push_all_new contains
contains-push_all_new x [] into = refl
contains-push_all_new x (n ∷ names) into =
    ground (arith, contains-push_all_new x names (push_new n into), contains-push_new x n into)

add_claims_lem :
    (members : List ViewMember) (claim : ScopeClaim) (x : String)
    → (contains x (add_claims members claim).groups
        ≡ (contains x claim.groups || any (λ (m : ViewMember). contains x m.owns.groups) members))
      × (contains x (add_claims members claim).hosts
          ≡ (contains x claim.hosts || any (λ (m : ViewMember). contains x m.owns.hosts) members))
      × ((add_claims members claim).catch_all ≡ (
          claim.catch_all
          || any (λ (m : ViewMember). is_catch_all m.owns && not m.owns.advertised) members))
unfolding add_claims add_claim
add_claims_lem [] claim x = (ground arith, ground arith, ground arith)
add_claims_lem (m ∷ members) claim x =
    let (groups, hosts, every) = add_claims_lem members (add_claim m claim) x in
    (
      ground (arith, groups, contains-push_all_new x m.owns.groups claim.groups),
      ground (arith, hosts, contains-push_all_new x m.owns.hosts claim.hosts),
      ground (arith, every),
    )

-- A view advertises exactly the groups and the hosts that its members declare, and everything
-- exactly if some member declares an empty pattern and does not wait for an advertisement.
pub view_scope_lem :
    (view : View) (x : String)
    → (contains x (view_scope view).groups
        ≡ any (λ (m : ViewMember). contains x m.owns.groups) view.members)
      × (contains x (view_scope view).hosts
          ≡ any (λ (m : ViewMember). contains x m.owns.hosts) view.members)
      × ((view_scope view).catch_all
          ≡ any (λ (m : ViewMember). is_catch_all m.owns && not m.owns.advertised) view.members)
unfolding view_scope contains
view_scope_lem view x =
    add_claims_lem view.members (record { groups = []; hosts = []; catch_all = false }) x
