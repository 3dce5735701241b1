-- ===== src/Dataset/Inventory.antt =====
-- The groups of a converted inventory.
use unified_api.HashMap
use unified_api.HashMap.{HashMap, contains_key, keys}
use unified_api.HashMap.Laws.{get-insert}
use unified_api.Prelude.{
  Bool, Bool-cases, List, Option-cases, Result, String, [], ap, arith, eq_iff, inl, inr, not, ok,
  ok-injective, some, sym, value_before, ◌&&◌, ◌==◌, ◌||◌, ◌∙◌, ◌∷◌, ◌≡◌,
}
use unified_api.Json.{Value, as_object}
use unified_api.Dataset.{Dataset, Group, HostVars, is_meta_group}
use unified_api.Dataset.Ansible.{
  Reading, dataset_of, from_ansible_inventory, keep_group, old_shape, parse_group, read_groups,
  read_key, read_keys, read_meta, read_object, value_get, with_prefix,
}

-- a top-level key that is a group of its own
abbrev pub is_ordinary : String → Bool
is_ordinary name = not (name == "_meta") && not (is_meta_group name)

contains_key-keep_group :
    (g name : String) (group : Group) (r : Reading)
    → contains_key g (keep_group name group r).groups
      ≡ (contains_key g r.groups || name == g && not (is_meta_group g))
unfolding keep_group
contains_key-keep_group g name group r = elim (Bool-cases (is_meta_group name)) [
  | inl e ↦ rw e (ground (arith, e, eq_iff name g))
  | inr e ↦ rw e (ground (arith, e, eq_iff name g, get-insert g name group r.groups))
]

module _ (hostvars_from : Value → Result (HashMap HostVars))
    (group_from : Value → Result Group) where
  read_key-groups :
      (name : String) (value : Value) (r r' : Reading) (g : String)
      → read_key hostvars_from group_from name value r ≡ ok r'
      → contains_key g r'.groups ≡ (contains_key g r.groups || name == g && is_ordinary g)
  unfolding read_key
  read_key-groups name value r r' g h = elim (Bool-cases (name == "_meta")) [
    | inl e ↦
        let same : r ≡ r' = ok-injective (rw e at h) in
        ground (arith, e, eq_iff name g, ap (λ (x : Reading). x.groups) same)
    | inr e ↦
        let (parsed, _, kept) =
          value_before (parse_group hostvars_from group_from name value r.warnings)
            (λ p. ok (keep_group name p.0 (record r { warnings = p.1 }))) r' (rw e at h) in
        ap (λ (x : Reading). contains_key g x.groups) (sym (ok-injective kept))
        ∙ contains_key-keep_group g name parsed.0 (record r { warnings = parsed.1 })
        ∙ ground (arith, e, eq_iff name g)
  ]

  read_keys-groups :
      (obj : HashMap Value) (r r' : Reading) (g : String)
      → read_keys hostvars_from group_from obj r ≡ ok r'
      → contains_key g r'.groups ≡ (contains_key g r.groups || contains_key g obj && is_ordinary g)
  unfolding read_keys HashMap.get
  read_keys-groups [] r r' g h = ground (arith, ap (λ (x : Reading). x.groups) (ok-injective h))
  read_keys-groups ((name, value) ∷ rest) r r' g h =
      let (r₁, first, later) =
        value_before (read_key hostvars_from group_from name value r)
          (read_keys hostvars_from group_from rest) r' h in
      read_keys-groups rest r₁ r' g later ∙ ground (arith, read_key-groups name value r r₁ g first)

  read_meta-groups :
      (obj : HashMap Value) (r : Reading)
      → read_meta hostvars_from group_from obj ≡ ok r
      → r.groups ≡ []
  unfolding read_meta with_prefix
  read_meta-groups obj r h = elim (Option-cases (HashMap.get "_meta" obj)) [
    | inl e ↦ ap (λ (x : Reading). x.groups) (sym (ok-injective (rw (e, read_meta) at h)))
    | inr (meta, e) ↦ elim (Option-cases (value_get "hostvars" meta)) [
      | inl f ↦ ap (λ (x : Reading). x.groups) (sym (ok-injective (rw (e, f, read_meta) at h)))
      | inr (raw, f) ↦
          let (hostvars, _, done) =
            value_before (with_prefix "_meta.hostvars is malformed: " (hostvars_from raw))
              (λ hs. ok (record { hostvars = hs; groups = []; warnings = [] })) r
              (rw (e, f, read_meta) at h) in
          ap (λ (x : Reading). x.groups) (sym (ok-injective done))
    ]
  ]

  read_object-groups :
      (obj : HashMap Value) (d : Dataset) (warnings : List String) (g : String)
      → read_object hostvars_from group_from obj ≡ ok (d, warnings)
      → contains_key g d.groups ≡ (contains_key g obj && is_ordinary g)
  unfolding read_object HashMap.get
  read_object-groups obj d warnings g h =
      elim (Bool-cases
        (not (contains_key "_meta" obj) && (old_shape "hostvars" obj || old_shape "groups" obj))) [
          | inl e ↦ absurd (ground (arith, rw e at h))
          | inr e ↦
              let (first, meta, later) =
                value_before (read_meta hostvars_from group_from obj)
                  (read_groups hostvars_from group_from obj) (d, warnings) (rw e at h) in
              let (r, keys, done) =
                value_before (read_keys hostvars_from group_from obj first)
                  (dataset_of hostvars_from group_from) (d, warnings) later in
              ap (λ (x : Dataset × List String). contains_key g x.0.groups)
                (sym (ok-injective done))
              ∙ read_keys-groups obj first r g keys
              ∙ ground (arith, ap (HashMap.get g) (read_meta-groups obj first meta))
        ]

  -- A conversion of an object that succeeds drops no group and makes none up: the dataset's
  -- groups are the top-level keys but for `_meta` and the two meta groups.
  pub from_ansible_inventory_lem :
      (value : Value) (obj : HashMap Value) (d : Dataset) (warnings : List String)
      → as_object value ≡ some obj
      → from_ansible_inventory hostvars_from group_from value ≡ ok (d, warnings)
      → (g : String) → contains_key g d.groups ≡ (contains_key g obj && is_ordinary g)
  unfolding from_ansible_inventory read_object
  from_ansible_inventory_lem value obj d warnings o h g =
      read_object-groups obj d warnings g (rw (o, from_ansible_inventory) at h)
