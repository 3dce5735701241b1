-- ===== src/Sync/Scoped.antt =====
-- What a sync of named hosts does to the entry that is there, and to the one that it has to create.
use mathlib.Core.Option
use unified_api.MemoryCache
use unified_api.HashMap
use unified_api.HashMap.{HashMap, contains_key}
use unified_api.HashMap.Laws.{get-insert}
use unified_api.CacheEntry.Freshness.{update_host_aged_age}
use unified_api.CacheEntry.Hosts.{groups_of, update_host_aged}
use unified_api.CacheEntry.{CacheEntry, Env, as_secs, elapsed, from_secs, host_age_seconds, set_ttl}
use unified_api.Sync.Apply.{
  HostUpdate, apply_hosts, apply_memberships, apply_updates, claimed_groups, group_vars_of,
  memberships_of, reported_age, updates_of, write_hosts,
}
use unified_api.Dataset.{Group, HostVars, is_meta_group}
use unified_api.Sync.{ConnectorOutput}
use unified_api.CacheEntry.Membership.{contains-groups_of, in_group, is_member, set_host_groups_lem}
use unified_api.CacheEntry.Groups.{set_host_groups}
use unified_api.CacheEntry.Merge.{merge_group_var_fields, patch_group, patch_groups}
use unified_api.Source.{Source}
use unified_api.MemoryCache.{MemoryCache}
use unified_api.MemoryCache.Atomic.{get-merge_there}
use unified_api.Prelude.{
  Bool, Bool-cases, List, List-cases, Option-cases, String, [], ap, arith, contains, distinct,
  eq_iff, false, if◌then◌else◌, inl, inr, is_empty, is_some, leb, not, refl, some, true, unwrap_or,
  ℕ, ◌&&◌, ◌+◌, ◌-◌, ◌==◌, ◌∙◌, ◌∷◌, ◌≡◌, ◌≤◌,
}

-- Is the host one that was asked for, and that the connector returned?
abbrev pub answered : ConnectorOutput → List String → String → Bool
answered output hosts x = contains x hosts && contains_key x output.dataset.hostvars

pub hostvars-update :
    (env : Env) (h x : String) (v : HostVars) (a : ℕ) (e : CacheEntry)
    → HashMap.get x (update_host_aged env h v a e).dataset.hostvars
      ≡ (if h == x then some v else HashMap.get x e.dataset.hostvars)
unfolding update_host_aged
hostvars-update env h x v a e = get-insert x h v e.dataset.hostvars

module _ (env : Env) (t : ℕ) (x : String) (output : ConnectorOutput) (later : env.now ≤ t) where
  -- the variables and the age of one host
  apply_updates_lem :
      (hosts : List String) (e : CacheEntry)
      → (HashMap.get x (apply_updates env (updates_of output hosts) e).dataset.hostvars ≡ (
          if answered output hosts x
          then HashMap.get x output.dataset.hostvars
          else HashMap.get x e.dataset.hostvars))
        × (host_age_seconds t (apply_updates env (updates_of output hosts) e) x ≡ (
            if answered output hosts x
            then some (
                (if leb (from_secs (reported_age output.ages x)) env.now
                  then reported_age output.ages x
                  else 0)
                + as_secs (t - env.now))
            else host_age_seconds t e x))
  unfolding apply_updates updates_of contains
  apply_updates_lem [] e = (refl, refl)
  apply_updates_lem (h ∷ hosts) e = elim (Option-cases (HashMap.get h output.dataset.hostvars)) [
    | inl gone ↦
        let (vars, age) = apply_updates_lem hosts e in
        rw (gone, updates_of)
          (ground (arith, vars, gone, eq_iff h x), ground (arith, age, gone, eq_iff h x))
    | inr (v, came) ↦
        let written = update_host_aged env h v (reported_age output.ages h) e in
        let (vars, age) = apply_updates_lem hosts written in
        rw (came, updates_of)
          (
            vars
                ∙ rw (hostvars-update env h x v (reported_age output.ages h) e)
                    (ground (arith, came, eq_iff h x)),
            age
                ∙ rw (update_host_aged_age env h x v (reported_age output.ages h) t e later)
                    (ground (arith, came, eq_iff h x)),
          )
  ]

groups-apply_updates :
    (env : Env) (us : List HostUpdate) (e : CacheEntry)
    → (apply_updates env us e).dataset.groups ≡ e.dataset.groups
unfolding apply_updates update_host_aged
groups-apply_updates env [] e = refl
groups-apply_updates env (u ∷ us) e =
    groups-apply_updates env us (update_host_aged env u.hostname u.vars u.age e)

-- Does the connector place the host in some group?
abbrev pub placed : ConnectorOutput → String → Bool
placed output x = not (is_empty (groups_of x output.dataset.groups))

apply_memberships_lem :
    (env : Env) (output : ConnectorOutput) (x g : String) (hosts : List String) (e : CacheEntry)
    → is_member x g
        (apply_memberships env (memberships_of output.dataset.groups (updates_of output hosts)) e)
      ≡ (if is_meta_group g
          then is_member x g e
          else if answered output hosts x && placed output x
          then contains g (groups_of x output.dataset.groups)
          else is_member x g e)
unfolding apply_memberships memberships_of updates_of contains
apply_memberships_lem env output x g [] e = ground arith
apply_memberships_lem env output x g (h ∷ hosts) e =
    elim (Option-cases (HashMap.get h output.dataset.hostvars)) [
      | inl gone ↦
          rw (gone, updates_of)
            (apply_memberships_lem env output x g hosts e ∙ ground (arith, gone, eq_iff h x))
      | inr (v, came) ↦ elim (List-cases (groups_of h output.dataset.groups)) [
        | inl nowhere ↦
            rw (came, updates_of)
              (rw nowhere (
                apply_memberships_lem env output x g hosts e
                ∙ ground (arith, came, nowhere, eq_iff h x)))
        | inr (n, ns, somewhere) ↦
            rw (came, updates_of)
              (rw somewhere (
                apply_memberships_lem env output x g hosts (set_host_groups env h (n ∷ ns) e)
                ∙ rw (set_host_groups_lem env h (n ∷ ns) e x g)
                    (ground (arith, came, somewhere, eq_iff h x))))
      ]
    ]

-- the groups of a host sync touch neither variables nor ages
apply_memberships_keeps :
    (env : Env) (ms : List (String × List String)) (e : CacheEntry)
    → ((apply_memberships env ms e).dataset.hostvars ≡ e.dataset.hostvars)
      × ((apply_memberships env ms e).host_timestamps ≡ e.host_timestamps)
unfolding apply_memberships set_host_groups
apply_memberships_keeps env [] e = (refl, refl)
apply_memberships_keeps env ((h, ns) ∷ ms) e =
    apply_memberships_keeps env ms (set_host_groups env h ns e)

-- group vars that come with no hosts leave every group's members
in_group-patch_group :
    (x g name : String) (group : Group) (groups : HashMap Group)
    → group.hosts ≡ []
    → in_group x g (patch_group name group groups) ≡ in_group x g groups
unfolding patch_group contains
in_group-patch_group x g name group groups bare = elim (Option-cases group.vars) [
  | inl e ↦ rw (e, patch_group) refl
  | inr (v, e) ↦ elim (Option-cases (HashMap.get name groups)) [
    | inl f ↦
        rw (e, patch_group)
          (rw (f, patch_group)
            (ground (
              arith,
              get-insert g name
                  (record { hosts = group.hosts; children = group.children; vars = some v }) groups,
              eq_iff name g,
              f,
              bare,
            )))
    | inr (old, f) ↦
        rw (e, patch_group)
          (rw (f, patch_group)
            (ground (
              arith,
              get-insert g name
                  (record old { vars = some (HashMap.extend (unwrap_or old.vars []) v) }) groups,
              eq_iff name g,
              f,
            )))
  ]
]

in_group-claimed_groups :
    (x g : String) (claimed : List String) (came groups : HashMap Group)
    → in_group x g (patch_groups groups (claimed_groups claimed came)) ≡ in_group x g groups
unfolding patch_groups claimed_groups
in_group-claimed_groups x g claimed [] groups = refl
in_group-claimed_groups x g claimed ((name, group) ∷ came) groups =
    elim (Bool-cases (contains name claimed && is_some group.vars)) [
      | inl e ↦ rw e (
          in_group-patch_group x g name _ (patch_groups groups (claimed_groups claimed came)) refl
          ∙ in_group-claimed_groups x g claimed came groups)
      | inr e ↦ rw e (in_group-claimed_groups x g claimed came groups)
    ]

-- the closure on the entry that is there
abbrev placed_entry : Env → Source → ConnectorOutput → List String → CacheEntry → CacheEntry
placed_entry env source output hosts old =
    let updates = updates_of output hosts in
    let memberships = memberships_of output.dataset.groups updates in
    apply_hosts env updates memberships (group_vars_of source output.dataset.groups memberships) old

-- One host and one group after a sync of named hosts.
record Synced (env : Env) (t : ℕ) (x g : String) (output : ConnectorOutput) (hosts : List String)
    (old e : CacheEntry) : Type 0 where
  pub vars_of : HashMap.get x e.dataset.hostvars ≡ (
      if answered output hosts x
      then HashMap.get x output.dataset.hostvars
      else HashMap.get x old.dataset.hostvars)
  pub age_of : host_age_seconds t e x ≡ (
      if answered output hosts x
      then some (
          (if leb (from_secs (reported_age output.ages x)) env.now
            then reported_age output.ages x
            else 0)
          + as_secs (t - env.now))
      else host_age_seconds t old x)
  pub member_of : is_member x g e ≡ (
      if is_meta_group g
      then is_member x g old
      else if answered output hosts x && placed output x
      then in_group x g output.dataset.groups
      else is_member x g old)

module _ (env : Env) (t : ℕ) (x g : String) (source : Source) (output : ConnectorOutput)
    (hosts : List String) (dist : distinct (HashMap.keys output.dataset.groups) ≡ true)
    (later : env.now ≤ t) where
  apply_both_lem :
      (old : CacheEntry)
      → Synced env t x g output hosts old (
          apply_memberships env
            (memberships_of output.dataset.groups (updates_of output hosts))
            (apply_updates env (updates_of output hosts) old))
  unfolding host_age_seconds
  apply_both_lem old =
      let updated = apply_updates env (updates_of output hosts) old in
      let keep =
        apply_memberships_keeps env (memberships_of output.dataset.groups (updates_of output hosts))
          updated in
      let (vars, age) = apply_updates_lem env t x output later hosts old in
      record {
        vars_of = ap (HashMap.get x) keep.0 ∙ vars;
        age_of =
            ap (λ ts. Option.map (λ timestamp. as_secs (elapsed t timestamp)) (HashMap.get x ts))
              keep.1
            ∙ age;
        member_of =
            apply_memberships_lem env output x g hosts updated
            ∙ rw
                (
                  groups-apply_updates env (updates_of output hosts) old,
                  contains-groups_of x g output.dataset.groups dist,
                )
                refl;
      }

  apply_hosts_lem :
      (old : CacheEntry)
      → Synced env t x g output hosts old (placed_entry env source output hosts old)
  unfolding apply_hosts group_vars_of merge_group_var_fields host_age_seconds
  apply_hosts_lem old =
      let s = apply_both_lem old in
      elim (Bool-cases source.host_sync_updates_group_vars) [
        | inr e ↦ rw e s
        | inl e ↦ rw e (record {
          vars_of = s.vars_of;
          age_of = s.age_of;
          member_of = in_group-claimed_groups x g _ output.dataset.groups _ ∙ s.member_of;
        })
      ]

none_answered :
    (output : ConnectorOutput) (hosts : List String) (x : String)
    → is_empty (updates_of output hosts) ≡ true
    → answered output hosts x ≡ false
unfolding updates_of contains
none_answered output [] x h = refl
none_answered output (y ∷ hosts) x h = elim (Option-cases (HashMap.get y output.dataset.hostvars)) [
  | inl e ↦ ground (arith, e, eq_iff y x, none_answered output hosts x, h)
  | inr (v, e) ↦ absurd (ground (arith, e, h))
]

-- A sync of named hosts, into an entry that is there, from an answer that names no group twice,
-- leaves an entry. A host that was asked for and came has the variables that came, at every later
-- time the age that the connector reported (zero if it reports none, or one that the clock cannot
-- represent) and the time since; among the groups that are no meta-group, if the connector places it
-- at all, it is in exactly those in which the connector places it. Every other host keeps its
-- variables, its age and its groups, and so do the members of both meta-groups.
pub write_hosts_lem :
    (env after : Env) (id : String) (source : Source) (hosts : List String)
    (output : ConnectorOutput) (c : MemoryCache) (old : CacheEntry) (x g : String) (t : ℕ)
    → MemoryCache.get id c ≡ some old
    → distinct (HashMap.keys output.dataset.groups) ≡ true
    → env.now ≤ t
    → (e : CacheEntry) × (MemoryCache.get id (write_hosts env after id source hosts output c)
        ≡ some e)
      × (HashMap.get x e.dataset.hostvars ≡ (
          if answered output hosts x
          then HashMap.get x output.dataset.hostvars
          else HashMap.get x old.dataset.hostvars))
      × (host_age_seconds t e x ≡ (
          if answered output hosts x
          then some (
              (if leb (from_secs (reported_age output.ages x)) env.now
                then reported_age output.ages x
                else 0)
              + as_secs (t - env.now))
          else host_age_seconds t old x))
      × (is_member x g e ≡ (
          if is_meta_group g
          then is_member x g old
          else if answered output hosts x && placed output x
          then in_group x g output.dataset.groups
          else is_member x g old))
unfolding write_hosts set_ttl host_age_seconds
write_hosts_lem env after id source hosts output c old x g t there dist later =
    elim (Bool-cases (is_empty (updates_of output hosts))) [
      | inl e ↦
          let absent = none_answered output hosts x e in
          (old, rw e there, rw absent refl, rw absent refl, ground (arith, absent))
      | inr e ↦
          let lem =
            apply_hosts_lem env t x g source output hosts dist later
              (set_ttl source.ttl_seconds old) in
          (
            placed_entry env source output hosts (set_ttl source.ttl_seconds old),
            rw (e, there) (get-merge_there id c env output.dataset source.ttl_seconds _ old there),
            lem.vars_of,
            lem.age_of,
            lem.member_of,
          )
    ]
