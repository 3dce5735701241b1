-- ===== src/StaticInventory/Parsed.antt =====
-- What an inventory makes of the hosts that its groups list, and of their files.
use mathlib.Core.Option
use unified_api.HashMap
use unified_api.HashMap.{HashMap, contains_key}
use unified_api.CacheEntry.Enriching.{var_of}
use unified_api.Dataset.{Dataset, Group, HostVars}
use unified_api.Json.{Value}
use unified_api.StaticInventory.{
  StaticInventoryInput, built, effective_vars, emitted, emitted_groups, own_vars, parse, root_of,
  with_file,
}
use unified_api.StaticInventory.Vars.{check_not_vaulted, parse_vars_files}
use unified_api.StaticInventory.Reading.{GroupInfo, Walk, walk_all, walk_group}
use unified_api.StaticInventory.Listed.{Good-walk_group, Sound}
use unified_api.HashMap.Laws.{contains-keys, get-extend, get-insert}
use unified_api.Prelude.{
  Bool, Bool-cases, List, Option, Result, String, [], ap, arith, contains, contains-dedup,
  contains-sort, eq_iff, false, if◌then◌else◌, inl, inr, is_some, map_err, map_or, none, ok,
  ok-injective, refl, some, sort, subst, sym, true, value_before, ◌+++◌, ◌==◌, ◌∙◌, ◌∷◌, ◌≡◌,
}

Sound-walk_all :
    (root : HashMap Value) (walk after : Walk)
    → walk_all root walk ≡ ok after
    → Sound walk
    → Sound after
unfolding walk_all
Sound-walk_all [] walk after run sound = subst Sound (ok-injective run) sound
Sound-walk_all ((name, node) ∷ root) walk after run sound =
    let (walked, first, rest) = value_before (walk_group name node walk) _ after run in
    Sound-walk_all root walked after rest (Good-walk_group name node walk walked first sound).0

get-emitted_groups :
    (effective : HashMap HostVars) (g : String) (groups : HashMap GroupInfo)
    → HashMap.get g (emitted_groups effective groups)
      ≡ (if g == "ungrouped" then none else Option.map (emitted effective g) (HashMap.get g groups))
unfolding emitted_groups HashMap.get
get-emitted_groups effective g [] = ground arith
get-emitted_groups effective g ((name, info) ∷ groups) = elim (Bool-cases (name == "ungrouped")) [
  | inl e ↦ rw e (
      ground (
        arith,
        e,
        get-emitted_groups effective g groups,
        eq_iff name g,
        eq_iff name "ungrouped",
        eq_iff g "ungrouped",
      ))
  | inr e ↦ rw e (elim (Bool-cases (name == g)) [
    | inl f ↦
        let same : name ≡ g = (eq_iff name g).0 f in
        let listed : (g == "ungrouped") ≡ false = ap (λ n. n == "ungrouped") (sym same) ∙ e in
        get-insert g name (emitted effective name info) (emitted_groups effective groups)
        ∙ rw (f, listed) (ap (λ n. some (emitted effective n info)) same)
    | inr f ↦ ground (
      arith,
      e,
      f,
      get-insert g name (emitted effective name info) (emitted_groups effective groups),
      get-emitted_groups effective g groups,
    )
  ])
]

get-own_vars :
    (inline files : HashMap HostVars) (x : String) (hosts : List String)
    → HashMap.get x (own_vars inline files hosts) ≡ (
        if contains x hosts
        then some (with_file (with_file [] (HashMap.get x inline)) (HashMap.get x files))
        else none)
unfolding own_vars contains HashMap.get
get-own_vars inline files x [] = refl
get-own_vars inline files x (host ∷ hosts) = elim (Bool-cases (host == x)) [
  | inl e ↦
      get-insert x host _ (own_vars inline files hosts)
      ∙ rw e (
          ap (λ n. some (with_file (with_file [] (HashMap.get n inline)) (HashMap.get n files)))
            ((eq_iff host x).0 e))
  | inr e ↦
      get-insert x host _ (own_vars inline files hosts) ∙ rw e (get-own_vars inline files x hosts)
]

abbrev start : Walk
start = record { groups = []; host_memberships = []; host_inline_vars = [] }

Sound-start : Sound start
unfolding Sound HashMap.get
Sound-start name info h = absurd cc

-- what was read of an inventory
steps :
    (to_json : String → Result Value) (input : StaticInventoryInput) (out : Dataset × List String)
    → parse to_json input ≡ ok out
    → (group_files : HashMap HostVars) × ((host_files : HashMap HostVars) × ((root : HashMap Value)
          × ((walk : Walk) × (parse_vars_files to_json "host_vars" input.host_vars ≡ ok host_files)
              × (walk_all root start ≡ ok walk)
              × (built group_files host_files walk ≡ out))))
unfolding parse
steps to_json input out run =
    let (_, _, run1) =
      value_before (check_not_vaulted "inventory file" input.inventory) _ out run in
    let (value, _, run2) =
      value_before (map_err (◌+++◌ "inventory file is not valid YAML: ") (to_json input.inventory))
        _ out run1 in
    let (root, _, run3) = value_before (root_of value) _ out run2 in
    let (group_files, _, run4) =
      value_before (parse_vars_files to_json "group_vars" input.group_vars) _ out run3 in
    let (host_files, first, run5) =
      value_before (parse_vars_files to_json "host_vars" input.host_vars) _ out run4 in
    let (walk, walked, run6) = value_before (walk_all root start) _ out run5 in
    (group_files, (host_files, (root, (walk, first, walked, ok-injective run6))))

get-with_file :
    (vars : HostVars) (k : String) (file : Option HostVars)
    → HashMap.get k (with_file vars file)
      ≡ map_or (HashMap.get k vars) some (map_or none (HashMap.get k) file)
get-with_file vars k none = refl
get-with_file vars k (some file) = get-extend k vars file

over_again : {A : Type 0} (a b : Option A) → map_or (map_or a some b) some b ≡ map_or a some b
over_again a none = refl
over_again a (some b) = refl

-- a group of the dataset is one that was read
taken {ℓ} :
    {A : Type ℓ} (b : Bool) (o : Option A) (f : A → Group) (group : Group)
    → (if b then none else Option.map f o) ≡ some group
    → (a : A) × (o ≡ some a) × (f a ≡ group)
taken true o f group h = absurd cc
taken false none f group h = absurd cc
taken false (some a) f group h = (a, refl, cc)

-- the host is there, with the value that the files give the variable
abbrev Given : HashMap HostVars → String → String → HashMap HostVars → Type 0
Given files x k hostvars =
    (contains_key x hostvars ≡ true)
    × (map_or (var_of x k hostvars) some (var_of x k files) ≡ var_of x k hostvars)

built_lem :
    (group_files files : HashMap HostVars) (walk : Walk) (g x k : String) (group : Group)
    → Sound walk
    → HashMap.get g (built group_files files walk).0.groups ≡ some group
    → contains x group.hosts ≡ true
    → Given files x k (built group_files files walk).0.hostvars
unfolding built Sound
built_lem group_files files walk g x k group sound there listed =
    let effective = effective_vars group_files walk.groups in
    let (info, e, is_info) =
      taken (g == "ungrouped") (HashMap.get g walk.groups) (emitted effective g) group
        (sym (get-emitted_groups effective g walk.groups) ∙ there) in
    let held : contains x info.hosts ≡ true =
      sym (contains-dedup x (sort info.hosts) ∙ contains-sort x info.hosts)
      ∙ ap (λ i. contains x i.hosts) is_info
      ∙ listed in
    let noted : contains x (HashMap.keys walk.host_memberships) ≡ true =
      contains-keys x walk.host_memberships ∙ sound g info e x held in
    let base = with_file [] (HashMap.get x walk.host_inline_vars) in
    let vars = own_vars walk.host_inline_vars files (HashMap.keys walk.host_memberships) in
    let own : HashMap.get x vars ≡ some (with_file base (HashMap.get x files)) =
      get-own_vars walk.host_inline_vars files x (HashMap.keys walk.host_memberships)
      ∙ rw noted refl in
    let value : var_of x k vars ≡ map_or (HashMap.get k base) some (var_of x k files) =
      ap (map_or none (HashMap.get k)) own ∙ get-with_file base k (HashMap.get x files) in
    (
      ap is_some own,
      ap (λ o. map_or o some (var_of x k files)) value
          ∙ over_again (HashMap.get k base) (var_of x k files)
          ∙ sym value,
    )

-- Of an inventory that is read, each host that a group of the dataset lists is in the dataset, and
-- each variable that its files set has there the value that they give it, whatever the inventory
-- file says.
pub parse_lem :
    (to_json : String → Result Value) (input : StaticInventoryInput) (dataset : Dataset)
    (warnings : List String) (files : HashMap HostVars) (g x k : String) (group : Group)
    → parse to_json input ≡ ok (dataset, warnings)
    → parse_vars_files to_json "host_vars" input.host_vars ≡ ok files
    → HashMap.get g dataset.groups ≡ some group
    → contains x group.hosts ≡ true
    → (contains_key x dataset.hostvars ≡ true)
      × (map_or (var_of x k dataset.hostvars) some (var_of x k files) ≡ var_of x k dataset.hostvars)
parse_lem to_json input dataset warnings files g x k group run files_read there listed =
    let (group_files, (host_files, (root, (walk, first, walked, made)))) =
      steps to_json input (dataset, warnings) run in
    let same : host_files ≡ files = ok-injective (sym first ∙ files_read) in
    let sound : Sound walk = Sound-walk_all root start walk walked Sound-start in
    let is_dataset : (built group_files host_files walk).0 ≡ dataset = ap (λ o. o.0) made in
    let result =
      built_lem group_files host_files walk g x k group sound
        (ap (λ d. HashMap.get g d.groups) is_dataset ∙ there) listed in
    subst (λ d. Given files x k d.hostvars) is_dataset
      (subst (λ f. Given f x k (built group_files host_files walk).0.hostvars) same result)
