-- ===== src/Dataset/Members.antt =====
-- The hosts that a full sync adds from the groups.
use unified_api.HashMap
use unified_api.HashMap.{HashMap, contains_key}
use unified_api.HashMap.Laws.{get-insert}
use unified_api.Prelude.{
  Bool-cases, List, Option-cases, String, [], any, arith, contains, eq_iff, if◌then◌else◌, inl, inr,
  none, refl, some, ◌==◌, ◌∷◌, ◌≡◌,
}
use unified_api.Dataset.{
  Dataset, Group, HostVars, add_group_members, add_groups_members, add_member, add_members,
}

get-add_member :
    (h k : String) (m : HashMap HostVars)
    → HashMap.get h (add_member m k)
      ≡ (if contains_key h m then HashMap.get h m else if k == h then some [] else none)
unfolding add_member
get-add_member h k m = elim (Bool-cases (contains_key k m)) [
  | inl e ↦ rw e (ground (arith, e, eq_iff k h, Option-cases (HashMap.get h m)))
  | inr e ↦
      rw e (ground (arith, e, eq_iff k h, get-insert h k [] m, Option-cases (HashMap.get h m)))
]

get-add_members :
    (h : String) (hosts : List String) (m : HashMap HostVars)
    → HashMap.get h (add_members m hosts)
      ≡ (if contains_key h m then HashMap.get h m else if contains h hosts then some [] else none)
unfolding add_members contains
get-add_members h [] m = ground (arith, Option-cases (HashMap.get h m))
get-add_members h (k ∷ hosts) m =
    ground (arith, get-add_members h hosts (add_member m k), get-add_member h k m)

get-add_groups_members :
    (h : String) (groups : HashMap Group) (m : HashMap HostVars)
    → HashMap.get h (add_groups_members m groups) ≡ (
        if contains_key h m
        then HashMap.get h m
        else if any (λ g. contains h g.1.hosts) groups
        then some []
        else none)
unfolding add_groups_members
get-add_groups_members h [] m = ground (arith, Option-cases (HashMap.get h m))
get-add_groups_members h ((name, g) ∷ groups) m =
    ground
      (arith, get-add_groups_members h groups (add_members m g.hosts), get-add_members h g.hosts m)

-- After a full sync exactly the hosts that had variables, and those that some group lists, are
-- hosts: the first keep their variables, and the others have none. No group changes.
pub add_group_members_lem :
    (d : Dataset) (h : String)
    → (HashMap.get h (add_group_members d).hostvars ≡ (
        if contains_key h d.hostvars
        then HashMap.get h d.hostvars
        else if any (λ g. contains h g.1.hosts) d.groups
        then some []
        else none))
      × ((add_group_members d).groups ≡ d.groups)
unfolding add_group_members
add_group_members_lem d h = (get-add_groups_members h d.groups d.hostvars, refl)
