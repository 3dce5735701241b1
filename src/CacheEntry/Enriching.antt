-- ===== src/CacheEntry/Enriching.antt =====
-- What the key by key merges of derived data leave.
use mathlib.Core.Option
use unified_api.HashMap
use unified_api.Prelude.{
  Bool, Bool-cases, Option, Option-cases, String, [], ap, arith, contains, distinct, eq_iff, false,
  if◌then◌else◌, inl, inr, is_some, map_or, none, refl, some, true, unwrap_or, ◌==◌, ◌∙◌, ◌∷◌, ◌≡◌,
  ◌⊎◌,
}
use unified_api.HashMap.{HashMap, contains_key, extend, get, keys}
use unified_api.HashMap.Laws.{get-extend, get-insert, get-modify}
use unified_api.Json.{Value}
use unified_api.Dataset.{Dataset, Group, HostVars}
use unified_api.CacheEntry.{CacheEntry, Env}
use unified_api.CacheEntry.Merge.{
  merge_group_var_fields, merge_hostvar_fields, patch_group, patch_groups, patch_hosts,
}

-- The value of one variable of one host.
abbrev pub var_of : String → String → HashMap HostVars → Option Value
var_of h k hostvars = map_or none (HashMap.get k) (HashMap.get h hostvars)

patch_hosts_absent :
    (h : String) (hostvars came : HashMap HostVars)
    → contains h (HashMap.keys came) ≡ false
    → HashMap.get h (patch_hosts hostvars came) ≡ HashMap.get h hostvars
unfolding patch_hosts contains
patch_hosts_absent h hostvars [] a = refl
patch_hosts_absent h hostvars ((j, vars) ∷ came) a = ground (
  arith,
  get-modify h j (λ existing. HashMap.extend existing vars) (patch_hosts hostvars came),
  patch_hosts_absent h hostvars came,
)

-- the variables of a patched host
get-patch_hosts :
    (h : String) (hostvars came : HashMap HostVars)
    → distinct (HashMap.keys came) ≡ true
    → HashMap.get h (patch_hosts hostvars came)
      ≡ Option.map
          (λ existing. HashMap.extend existing (unwrap_or (HashMap.get h came) []))
          (HashMap.get h hostvars)
unfolding patch_hosts HashMap.get contains distinct HashMap.extend
get-patch_hosts h hostvars [] d = ground (arith, Option-cases (HashMap.get h hostvars))
get-patch_hosts h hostvars ((j, vars) ∷ came) d = ground (
  arith,
  get-modify h j (λ existing. HashMap.extend existing vars) (patch_hosts hostvars came),
  get-patch_hosts h hostvars came,
  patch_hosts_absent h hostvars came,
  eq_iff j h,
)

patched_field :
    (k : String) (there came : Option HostVars)
    → map_or none
        (HashMap.get k)
        (Option.map (λ existing. HashMap.extend existing (unwrap_or came [])) there)
      ≡ (if is_some there
          then map_or (map_or none (HashMap.get k) there) some (map_or none (HashMap.get k) came)
          else none)
unfolding HashMap.extend
patched_field k none came = refl
patched_field k (some existing) none = refl
patched_field k (some existing) (some vars) = get-extend k existing vars

-- Enrichment with a dataset that names no host twice adds or replaces, on the hosts that are
-- there, exactly the variables that come; it leaves every other variable, adds no host, and
-- touches no timestamp and no group.
pub merge_hostvar_fields_lem :
    (env : Env) (d : Dataset) (e : CacheEntry) (h k : String)
    → distinct (HashMap.keys d.hostvars) ≡ true
    → (var_of h k (merge_hostvar_fields env d e).dataset.hostvars ≡ (
        if contains_key h e.dataset.hostvars
        then map_or (var_of h k e.dataset.hostvars) some (var_of h k d.hostvars)
        else none))
      × (contains_key h (merge_hostvar_fields env d e).dataset.hostvars
          ≡ contains_key h e.dataset.hostvars)
      × ((merge_hostvar_fields env d e).host_timestamps ≡ e.host_timestamps)
      × ((merge_hostvar_fields env d e).dataset.groups ≡ e.dataset.groups)
unfolding merge_hostvar_fields
merge_hostvar_fields_lem env d e h k dist =
    let patched = get-patch_hosts h e.dataset.hostvars d.hostvars dist in
    (
      rw patched (patched_field k (HashMap.get h e.dataset.hostvars) (HashMap.get h d.hostvars)),
      rw patched (ground (arith, Option-cases (HashMap.get h e.dataset.hostvars))),
      refl,
      refl,
    )

apart_comm :
    (there : Bool) (o a b : Option Value)
    → (a ≡ none) ⊎ (b ≡ none)
    → (if there then map_or (if there then map_or o some b else none) some a else none)
      ≡ (if there then map_or (if there then map_or o some a else none) some b else none)
apart_comm there o a b apart = ground arith

-- Two enrichers that write no common variable of a host, each naming no host twice, cannot lose
-- each other's work: whichever comes first, each variable ends up the same.
pub merge_hostvar_fields_comm :
    (env₁ env₂ : Env) (d₁ d₂ : Dataset) (e : CacheEntry) (h k : String)
    → distinct (HashMap.keys d₁.hostvars) ≡ true
    → distinct (HashMap.keys d₂.hostvars) ≡ true
    → (var_of h k d₁.hostvars ≡ none) ⊎ (var_of h k d₂.hostvars ≡ none)
    → var_of h k (merge_hostvar_fields env₁ d₁ (merge_hostvar_fields env₂ d₂ e)).dataset.hostvars
      ≡ var_of h k (merge_hostvar_fields env₂ d₂ (merge_hostvar_fields env₁ d₁ e)).dataset.hostvars
merge_hostvar_fields_comm env₁ env₂ d₁ d₂ e h k p q apart =
    let (f₁, t₁, _, _) = merge_hostvar_fields_lem env₁ d₁ e h k p in
    let (f₂, t₂, _, _) = merge_hostvar_fields_lem env₂ d₂ e h k q in
    let (f₁₂, _, _, _) = merge_hostvar_fields_lem env₁ d₁ (merge_hostvar_fields env₂ d₂ e) h k p in
    let (f₂₁, _, _, _) = merge_hostvar_fields_lem env₂ d₂ (merge_hostvar_fields env₁ d₁ e) h k q in
    rw (f₁₂, f₂₁, t₁, t₂, f₁, f₂)
      (apart_comm (HashMap.contains_key h e.dataset.hostvars) (var_of h k e.dataset.hostvars)
        (var_of h k d₁.hostvars) (var_of h k d₂.hostvars) apart)

-- the group that a merge of group vars leaves
abbrev pub patched_group : Option Group → Option Group → Option Group
patched_group there none = there
patched_group none (some g) =
    Option.map (λ vars. record { hosts = g.hosts; children = g.children; vars = some vars }) g.vars
patched_group (some existing) (some g) = some (record existing {
  vars = elim g.vars [
    | none ↦ existing.vars
    | some vars ↦ some (HashMap.extend (unwrap_or existing.vars []) vars)
  ];
})

get-patch_group :
    (name j : String) (group : Group) (groups : HashMap Group)
    → HashMap.get j (patch_group name group groups) ≡ (
        if name == j
        then patched_group (HashMap.get name groups) (some group)
        else HashMap.get j groups)
unfolding patch_group
get-patch_group name j group groups = elim (Option-cases group.vars) [
  | inl e ↦ ground (arith, eq_iff name j)
  | inr (vars, e) ↦ elim (Option-cases (HashMap.get name groups)) [
    | inl a ↦
        rw (e, a, patch_group)
          (get-insert j name
            (record { hosts = group.hosts; children = group.children; vars = some vars }) groups)
    | inr (existing, a) ↦
        rw (e, a, patch_group)
          (get-insert j name
            (record existing { vars = some (HashMap.extend (unwrap_or existing.vars []) vars) })
            groups)
  ]
]

patch_groups_absent :
    (g : String) (groups came : HashMap Group)
    → contains g (HashMap.keys came) ≡ false
    → HashMap.get g (patch_groups groups came) ≡ HashMap.get g groups
unfolding patch_groups contains
patch_groups_absent g groups [] a = refl
patch_groups_absent g groups ((j, group) ∷ came) a =
    ground (
      arith,
      get-patch_group j g group (patch_groups groups came),
      patch_groups_absent g groups came,
    )

get-patch_groups :
    (g : String) (groups came : HashMap Group)
    → distinct (HashMap.keys came) ≡ true
    → HashMap.get g (patch_groups groups came)
      ≡ patched_group (HashMap.get g groups) (HashMap.get g came)
unfolding patch_groups HashMap.get contains distinct
get-patch_groups g groups [] d = refl
get-patch_groups g groups ((j, group) ∷ came) d = elim (Bool-cases (j == g)) [
  | inl e ↦
      let same : j ≡ g = (eq_iff j g).0 e in
      rw e (
        get-patch_group j g group (patch_groups groups came)
        ∙ (rw e (
            ap (λ o. patched_group o (some group))
              (rw same (patch_groups_absent g groups came (ground (arith, eq_iff j g)))))))
  | inr e ↦ rw e (
      get-patch_group j g group (patch_groups groups came)
      ∙ (rw e (get-patch_groups g groups came (ground arith))))
]

-- A merge of group vars, from a dataset that names no group twice, makes each group what its two
-- sides say: one that did not come, or came without vars, is as before; one that is there keeps
-- its hosts and children and gets the vars that came, key by key; a missing one is created with
-- its hosts, children and vars. It touches no host and no timestamp.
pub merge_group_var_fields_lem :
    (env : Env) (d : Dataset) (e : CacheEntry) (g : String)
    → distinct (HashMap.keys d.groups) ≡ true
    → (HashMap.get g (merge_group_var_fields env d e).dataset.groups
        ≡ patched_group (HashMap.get g e.dataset.groups) (HashMap.get g d.groups))
      × ((merge_group_var_fields env d e).dataset.hostvars ≡ e.dataset.hostvars)
      × ((merge_group_var_fields env d e).host_timestamps ≡ e.host_timestamps)
unfolding merge_group_var_fields
merge_group_var_fields_lem env d e g dist =
    (get-patch_groups g e.dataset.groups d.groups dist, refl, refl)
