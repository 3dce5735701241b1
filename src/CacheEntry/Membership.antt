-- ===== src/CacheEntry/Membership.antt =====
-- Who is in which group after `set_host_groups`, `restore_host`'s loop and a removal.
use unified_api.HashMap
use unified_api.Prelude.{
  Bool, Bool-cases, List, Option-cases, String, [], arith, contains, contains-push_new,
  contains-without, distinct, eq_iff, false, if◌then◌else◌, inl, inr, not, refl, true, ◌&&◌, ◌==◌,
  ◌||◌, ◌∷◌, ◌≡◌,
}
use unified_api.HashMap.{HashMap, keys, map_values, upsert}
use unified_api.HashMap.Laws.{get-map_values, get-upsert}
use unified_api.Dataset.{Group, default_group, is_meta_group}
use unified_api.CacheEntry.{CacheEntry, Env}
use unified_api.CacheEntry.Hosts.{groups_of, join_groups, with_host}
use unified_api.CacheEntry.Groups.{hosts_in, join_named, leave_group, set_host_groups}

-- Is the host a member of the group?
abbrev pub in_group : String → String → HashMap Group → Bool
in_group hostname name groups = contains hostname (hosts_in name groups)

abbrev pub is_member : String → String → CacheEntry → Bool
is_member hostname name e = in_group hostname name e.dataset.groups

in_group-upsert :
    (h x name g : String) (groups : HashMap Group)
    → in_group x g (HashMap.upsert name default_group (with_host h) groups)
      ≡ (h == x && name == g || in_group x g groups)
unfolding contains
in_group-upsert h x name g groups = rw (get-upsert g name default_group (with_host h) groups) (
    ground (
      arith,
      contains-push_new x h (hosts_in g groups),
      eq_iff name g,
      contains-push_new x h [],
      Option-cases (HashMap.get g groups),
    ))

pub in_group-join_groups :
    (h x g : String) (names : List String) (groups : HashMap Group)
    → in_group x g (join_groups h names groups)
      ≡ (h == x && contains g names || in_group x g groups)
unfolding join_groups contains
in_group-join_groups h x g [] groups = ground arith
in_group-join_groups h x g (name ∷ names) groups = ground (
  arith,
  in_group-join_groups h x g names (HashMap.upsert name default_group (with_host h) groups),
  in_group-upsert h x name g groups,
)

in_group-join_named :
    (h x g : String) (names : List String) (groups : HashMap Group)
    → in_group x g (join_named h names groups)
      ≡ (h == x && contains g names && not (is_meta_group g) || in_group x g groups)
unfolding join_named contains
in_group-join_named h x g [] groups = ground arith
in_group-join_named h x g (name ∷ names) groups = elim (Bool-cases (is_meta_group name)) [
  | inl meta ↦ rw (meta, in_group-join_named h x g names groups) (ground (arith, eq_iff name g))
  | inr plain ↦ rw plain (
      ground (
        arith,
        in_group-join_named h x g names (HashMap.upsert name default_group (with_host h) groups),
        in_group-upsert h x name g groups,
        eq_iff name g,
      ))
]

in_group-leave :
    (h x g : String) (names : List String) (groups : HashMap Group)
    → in_group x g (HashMap.map_values (leave_group h names) groups) ≡ (
        if is_meta_group g || contains g names
        then in_group x g groups
        else not (h == x) && in_group x g groups)
unfolding contains leave_group
in_group-leave h x g names groups = rw (get-map_values g (leave_group h names) groups) (
    ground (
      arith,
      contains-without x h (hosts_in g groups),
      Option-cases (HashMap.get g groups),
      eq_iff x h,
      eq_iff h x,
    ))

-- After a granular sync of `h` that named the groups `names`, `h` is in exactly the named groups
-- among those that are no meta-group; every other host, and both meta-groups, are as before.
pub set_host_groups_lem :
    (env : Env) (h : String) (names : List String) (e : CacheEntry) (x g : String)
    → is_member x g (set_host_groups env h names e) ≡ (
        if is_meta_group g
        then is_member x g e
        else if h == x
        then contains g names
        else is_member x g e)
unfolding set_host_groups
set_host_groups_lem env h names e x g = ground (
  arith,
  in_group-join_named h x g names (HashMap.map_values (leave_group h names) e.dataset.groups),
  in_group-leave h x g names e.dataset.groups,
)

hosts_in_absent :
    (h g : String) (groups : HashMap Group)
    → contains g (HashMap.keys groups) ≡ false
    → contains g (groups_of h groups) ≡ false
unfolding contains groups_of
hosts_in_absent h g [] a = refl
hosts_in_absent h g ((name, group) ∷ groups) a = ground (arith, hosts_in_absent h g groups)

pub contains-groups_of :
    (h g : String) (groups : HashMap Group)
    → distinct (HashMap.keys groups) ≡ true
    → contains g (groups_of h groups) ≡ in_group h g groups
unfolding groups_of contains distinct HashMap.get
contains-groups_of h g [] d = refl
contains-groups_of h g ((name, group) ∷ groups) d =
    ground (arith, contains-groups_of h g groups, eq_iff name g, hosts_in_absent h g groups)
