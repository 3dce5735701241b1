-- ===== src/CacheEntry/Merging.antt =====
-- What the merges leave of hosts, timestamps and groups.
use unified_api.HashMap
use unified_api.Prelude.{
  Bool, List, Option, Option-cases, String, [], arith, contains, contains-without, eq_iff, false,
  if◌then◌else◌, inl, inr, map_or, none, not, refl, some, true, ℕ, ◌&&◌, ◌==◌, ◌||◌, ◌∷◌, ◌≡◌,
}
use unified_api.HashMap.{HashMap, contains_key, extend, get, map_values, remove}
use unified_api.HashMap.Laws.{get-extend, get-insert, get-map_values, get-modify, get-remove}
use unified_api.Dataset.{Dataset, Group, HostVars}
use unified_api.CacheEntry.{CacheEntry, Env, host_age_seconds, invalidate_serialized}
use unified_api.CacheEntry.Hosts.{remove_host, without_host}
use unified_api.CacheEntry.Groups.{
  hosts_in, refresh_host, refresh_hosts, replace_vars, update_group,
}
use unified_api.CacheEntry.Merge.{drop_hosts, merge_enrichment, merge_into, stamp_hosts}
use unified_api.CacheEntry.Membership.{in_group, is_member}

in_group-without_host :
    (h x g : String) (groups : HashMap Group)
    → in_group x g (HashMap.map_values (λ _. without_host h) groups)
      ≡ (not (h == x) && in_group x g groups)
unfolding contains
in_group-without_host h x g groups = rw (get-map_values g (λ _. without_host h) groups) (
    ground (
      arith,
      contains-without x h (hosts_in g groups),
      Option-cases (HashMap.get g groups),
      eq_iff x h,
      eq_iff h x,
    ))

-- What a reader sees of one host and one group.
pub record Sees (e : CacheEntry) (x g : String) (vars : Option HostVars) (time : Option ℕ)
    (member : Bool) : Type 0 where
  pub vars_of : HashMap.get x e.dataset.hostvars ≡ vars
  pub time_of : HashMap.get x e.host_timestamps ≡ time
  pub member_of : is_member x g e ≡ member

drop_hosts_lem :
    (hosts : List String) (e : CacheEntry) (x g : String)
    → Sees
        (drop_hosts hosts e)
        x
        g
        (if contains x hosts then none else HashMap.get x e.dataset.hostvars)
        (if contains x hosts then none else HashMap.get x e.host_timestamps)
        (not (contains x hosts) && is_member x g e)
unfolding drop_hosts contains
drop_hosts_lem [] e x g = record { vars_of = refl; time_of = refl; member_of = refl }
drop_hosts_lem (h ∷ hosts) e x g =
    let dropped : CacheEntry = record e {
      dataset = record e.dataset {
        hostvars = HashMap.remove h e.dataset.hostvars;
        groups = HashMap.map_values (λ _. without_host h) e.dataset.groups;
      };
      host_timestamps = HashMap.remove h e.host_timestamps;
    } in
    let rest = drop_hosts_lem hosts dropped x g in
    record {
      vars_of = ground (arith, rest.vars_of, get-remove x h e.dataset.hostvars);
      time_of = ground (arith, rest.time_of, get-remove x h e.host_timestamps);
      member_of = ground (arith, rest.member_of, in_group-without_host h x g e.dataset.groups);
    }

get-stamp_hosts :
    (now : ℕ) (restamp : Bool) (x : String) (came : HashMap HostVars) (times : HashMap ℕ)
    → HashMap.get x (stamp_hosts now restamp came times) ≡ (
        if contains_key x came && (restamp || not (contains_key x times))
        then some now
        else HashMap.get x times)
unfolding stamp_hosts HashMap.get
get-stamp_hosts now restamp x [] times = refl
get-stamp_hosts now restamp x ((h, v) ∷ came) times = ground (
  arith,
  get-insert x h now (stamp_hosts now restamp came times),
  get-stamp_hosts now restamp x came times,
  eq_iff h x,
)

-- After a merge a host that the partial dataset removes is nowhere: it has no variables, no time
-- and no group. Any other host has the variables that came, or else those that it had; it has the
-- time of the merge if it came and is to be restamped or had no time, or else the time that it
-- had; and it is in a group as the group that came says, or else as the group that was there says.
pub merge_into_lem :
    (env : Env) (d : Dataset) (restamp : Bool) (e : CacheEntry) (x g : String)
    → Sees
        (merge_into env d restamp e)
        x
        g
        (if contains x d.remove_hosts
          then none
          else map_or (HashMap.get x e.dataset.hostvars) some (HashMap.get x d.hostvars))
        (if contains x d.remove_hosts
          then none
          else if contains_key x d.hostvars && (restamp || not (contains_key x e.host_timestamps))
          then some env.now
          else HashMap.get x e.host_timestamps)
        (not (contains x d.remove_hosts)
          && (if contains_key g d.groups then in_group x g d.groups else is_member x g e))
unfolding merge_into contains
merge_into_lem env d restamp e x g =
    let merged : CacheEntry = record (invalidate_serialized env e) {
      dataset = record e.dataset {
        hostvars = HashMap.extend e.dataset.hostvars d.hostvars;
        groups = HashMap.extend e.dataset.groups d.groups;
      };
      host_timestamps = stamp_hosts env.now restamp d.hostvars e.host_timestamps;
    } in
    let rest = drop_hosts_lem d.remove_hosts merged x g in
    record {
      vars_of = ground (arith, rest.vars_of, get-extend x e.dataset.hostvars d.hostvars);
      time_of =
          ground
            (arith, rest.time_of, get-stamp_hosts env.now restamp x d.hostvars e.host_timestamps);
      member_of = ground (
        arith,
        rest.member_of,
        get-extend g e.dataset.groups d.groups,
        Option-cases (HashMap.get g d.groups),
      );
    }

-- A host that is in the cache is exactly as fresh after a script enrichment as before, unless the
-- script removes it, which leaves it with no age.
pub merge_enrichment_age :
    (env : Env) (d : Dataset) (e : CacheEntry) (x : String) (t : ℕ)
    → contains_key x e.host_timestamps ≡ true
    → host_age_seconds t (merge_enrichment env d e) x
      ≡ (if contains x d.remove_hosts then none else host_age_seconds t e x)
unfolding host_age_seconds
merge_enrichment_age env d e x t there =
    let seen = merge_into_lem env d false e x x in rw (seen.time_of) (ground arith)

-- A removed host is nowhere; every other host is as before.
pub remove_host_lem :
    (env : Env) (h : String) (e : CacheEntry) (x g : String)
    → Sees
        (remove_host env h e)
        x
        g
        (if h == x then none else HashMap.get x e.dataset.hostvars)
        (if h == x then none else HashMap.get x e.host_timestamps)
        (not (h == x) && is_member x g e)
unfolding remove_host
remove_host_lem env h e x g = record {
  vars_of = get-remove x h e.dataset.hostvars;
  time_of = get-remove x h e.host_timestamps;
  member_of = in_group-without_host h x g e.dataset.groups;
}

-- the two maps of `refresh_hosts`
refresh_host_vars :
    (now : ℕ) (came : HashMap HostVars) (h x : String) (s : HashMap HostVars × HashMap ℕ)
    → (HashMap.get x (refresh_host now came h s).0
        ≡ (if h == x && contains_key x came then HashMap.get x came else HashMap.get x s.0))
      × (HashMap.get x (refresh_host now came h s).1
          ≡ (if h == x && contains_key x came then some now else HashMap.get x s.1))
unfolding refresh_host
refresh_host_vars now came h x s = elim (Option-cases (HashMap.get h came)) [
  | inl e ↦ rw (e, refresh_host) (ground (arith, eq_iff h x))
  | inr (vars, e) ↦
      rw (e, refresh_host)
        (ground (arith, get-insert x h vars s.0, get-insert x h now s.1, eq_iff h x))
]

refresh_hosts_lem :
    (now : ℕ) (came : HashMap HostVars) (hosts : List String) (x : String)
    (s : HashMap HostVars × HashMap ℕ)
    → (HashMap.get x (refresh_hosts now came hosts s).0 ≡ (
        if contains x hosts && contains_key x came then HashMap.get x came else HashMap.get x s.0))
      × (HashMap.get x (refresh_hosts now came hosts s).1
          ≡ (if contains x hosts && contains_key x came then some now else HashMap.get x s.1))
unfolding refresh_hosts contains
refresh_hosts_lem now came [] x s = (refl, refl)
refresh_hosts_lem now came (h ∷ hosts) x s = ground (
  arith,
  refresh_hosts_lem now came hosts x (refresh_host now came h s),
  refresh_host_vars now came h x s,
)

in_group-replace_vars :
    (x g name : String) (o : Option Group) (groups : HashMap Group)
    → in_group x g (replace_vars name o groups) ≡ in_group x g groups
unfolding replace_vars
in_group-replace_vars x g name none groups = refl
in_group-replace_vars x g name (some new_group) groups =
    rw get-modify (ground (arith, Option-cases (HashMap.get g groups)))

-- A group sync writes, and stamps, exactly the members of the group that came; every other host,
-- and the membership of every group, is as before.
pub update_group_lem :
    (env : Env) (name : String) (d : Dataset) (e : CacheEntry) (x g : String)
    → Sees
        (update_group env name d e)
        x
        g
        (if is_member x name e && contains_key x d.hostvars
          then HashMap.get x d.hostvars
          else HashMap.get x e.dataset.hostvars)
        (if is_member x name e && contains_key x d.hostvars
          then some env.now
          else HashMap.get x e.host_timestamps)
        (is_member x g e)
unfolding update_group contains
update_group_lem env name d e x g =
    let (vars, times) =
      refresh_hosts_lem env.now d.hostvars (hosts_in name e.dataset.groups) x
        (e.dataset.hostvars, e.host_timestamps) in
    record {
      vars_of = vars;
      time_of = times;
      member_of = in_group-replace_vars x g name (HashMap.get name d.groups) e.dataset.groups;
    }
