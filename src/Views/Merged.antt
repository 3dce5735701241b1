-- ===== src/Views/Merged.antt =====
-- The groups of a view: for each name, what all members together say.
use mathlib.Core.Option
use unified_api.HashMap
use unified_api.HashMap.{HashMap}
use unified_api.HashMap.Laws.{contains-keys, get-map_values, get-upsert}
use unified_api.Prelude.{
  Bool, Bool-cases, List, Option, String, [], all, any, ap, arith, contains, contains-append,
  contains-dedup, contains-sort, distinct, eq_iff, inl, inr, none, refl, some, sort, sym, true,
  unwrap_or, ◌==◌, ◌||◌, ◌∙◌, ◌∷◌, ◌≡◌,
}
use unified_api.Dataset.{Group, HostVars, default_group}
use unified_api.CacheEntry.{CacheEntry}
use unified_api.Views.{MemberSnapshot, ViewSnapshot}
use unified_api.Views.Reading.{groups, join_group, merge_entry, merge_member, merge_members, tidy}

abbrev pub distinct_in : Option CacheEntry → Bool
distinct_in none = true
distinct_in (some entry) = distinct (HashMap.keys entry.dataset.groups)

-- No member's data has two groups of one name.
unfoldable pub distinct_groups : List MemberSnapshot → Bool
distinct_groups members = all (λ (m : MemberSnapshot). distinct_in m.entry) members

-- what a list of members says of a group: their lists one after the other, and the first vars
unfoldable pub said : Option Group → Option Group → Option Group
said none target = target
said (some g) target = some (join_group g (unwrap_or target default_group))

abbrev pub group_in : String → Option CacheEntry → Option Group
group_in name none = none
group_in name (some entry) = HashMap.get name entry.dataset.groups

unfoldable pub said_all : String → List MemberSnapshot → Option Group → Option Group
said_all name [] target = target
said_all name (m ∷ members) target = said_all name members (said (group_in name m.entry) target)

get-merge_member :
    (name : String) (gs merged : HashMap Group)
    → distinct (HashMap.keys gs) ≡ true
    → HashMap.get name (merge_member gs merged)
      ≡ said (HashMap.get name gs) (HashMap.get name merged)
unfolding merge_member said distinct contains HashMap.get
get-merge_member name [] merged d = refl
get-merge_member name ((k, g) ∷ gs) merged d =
    let joined : HashMap Group = HashMap.upsert k default_group (join_group g) merged in
    let later = get-merge_member name gs joined (ground (arith, d)) in
    let put = get-upsert name k default_group (join_group g) merged in
    elim (Bool-cases (k == name)) [
      | inl e ↦
          let same = (eq_iff k name).0 e in
          let gone : HashMap.get name gs ≡ none = ground (arith, d, same, contains-keys k gs) in
          rw e (later ∙ ap (λ o. said o (HashMap.get name joined)) gone ∙ put ∙ rw (e, same) refl)
      | inr e ↦ rw e (later ∙ ap (said (HashMap.get name gs)) (put ∙ rw e refl))
    ]

get-merge_entry :
    (name : String) (o : Option CacheEntry) (merged : HashMap Group)
    → distinct_in o ≡ true
    → HashMap.get name (merge_entry o merged) ≡ said (group_in name o) (HashMap.get name merged)
unfolding said
get-merge_entry name none merged d = refl
get-merge_entry name (some entry) merged d = get-merge_member name entry.dataset.groups merged d

get-merge_members :
    (name : String) (members : List MemberSnapshot) (merged : HashMap Group)
    → distinct_groups members ≡ true
    → HashMap.get name (merge_members members merged)
      ≡ said_all name members (HashMap.get name merged)
unfolding merge_members said_all distinct_groups
get-merge_members name [] merged d = refl
get-merge_members name (m ∷ members) merged d =
    get-merge_members name members (merge_entry m.entry merged) (ground (arith, d))
    ∙ ap (said_all name members) (get-merge_entry name m.entry merged (ground (arith, d)))

-- the lists of a group that may be missing
abbrev pub hosts_of_group : Option Group → List String
hosts_of_group none = []
hosts_of_group (some g) = g.hosts

abbrev pub children_of_group : Option Group → List String
children_of_group none = []
children_of_group (some g) = g.children

abbrev pub vars_of_group : Option Group → Option HostVars
vars_of_group none = none
vars_of_group (some g) = g.vars

-- the vars of the first member whose group of that name has some
abbrev or_vars : Option HostVars → Option HostVars → Option HostVars
or_vars none other = other
or_vars (some vars) other = some vars

or_vars-none : (vars : Option HostVars) → or_vars vars none ≡ vars
or_vars-none none = refl
or_vars-none (some vars) = refl

or_vars_assoc : (a b c : Option HostVars) → or_vars (or_vars a b) c ≡ or_vars a (or_vars b c)
or_vars_assoc none b c = refl
or_vars_assoc (some vars) b c = refl

or_vars_lem : (a b : Option HostVars) → (elim a [ some vars ↦ some vars | none ↦ b ]) ≡ or_vars a b
or_vars_lem none b = refl
or_vars_lem (some vars) b = refl

-- the vars of the first member whose group of that name has some
unfoldable pub first_vars : String → List MemberSnapshot → Option HostVars
first_vars name [] = none
first_vars name (m ∷ members) =
    or_vars (vars_of_group (group_in name m.entry)) (first_vars name members)

contains-said :
    (x : String) (g target : Option Group)
    → (contains x (hosts_of_group (said g target))
        ≡ (contains x (hosts_of_group target) || contains x (hosts_of_group g)))
      × (contains x (children_of_group (said g target))
          ≡ (contains x (children_of_group target) || contains x (children_of_group g)))
      × (vars_of_group (said g target) ≡ or_vars (vars_of_group target) (vars_of_group g))
unfolding said join_group contains
contains-said x none none = (refl, refl, refl)
contains-said x none (some t) = (ground arith, ground arith, sym (or_vars-none t.vars))
contains-said x (some g) none = (refl, refl, refl)
contains-said x (some g) (some t) = (
  contains-append x t.hosts g.hosts,
  contains-append x t.children g.children,
  or_vars_lem t.vars g.vars,
)

contains-said_all :
    (x name : String) (members : List MemberSnapshot) (target : Option Group)
    → (contains x (hosts_of_group (said_all name members target)) ≡ (
        contains x (hosts_of_group target)
        || any
            (λ (m : MemberSnapshot). contains x (hosts_of_group (group_in name m.entry)))
            members))
      × (contains x (children_of_group (said_all name members target)) ≡ (
          contains x (children_of_group target)
          || any
              (λ (m : MemberSnapshot). contains x (children_of_group (group_in name m.entry)))
              members))
      × (vars_of_group (said_all name members target)
          ≡ or_vars (vars_of_group target) (first_vars name members))
unfolding said_all first_vars
contains-said_all x name [] target =
    (ground arith, ground arith, sym (or_vars-none (vars_of_group target)))
contains-said_all x name (m ∷ members) target =
    let (h, c, v) = contains-said_all x name members (said (group_in name m.entry) target) in
    let (h', c', v') = contains-said x (group_in name m.entry) target in
    (
      ground (arith, h, h'),
      ground (arith, c, c'),
      v
          ∙ ap (λ o. or_vars o (first_vars name members)) v'
          ∙ or_vars_assoc (vars_of_group target) (vars_of_group (group_in name m.entry))
              (first_vars name members),
    )

tidied :
    (x : String) (o : Option Group)
    → (contains x (hosts_of_group (Option.map tidy o)) ≡ contains x (hosts_of_group o))
      × (contains x (children_of_group (Option.map tidy o)) ≡ contains x (children_of_group o))
      × (vars_of_group (Option.map tidy o) ≡ vars_of_group o)
unfolding tidy
tidied x none = (refl, refl, refl)
tidied x (some g) = (
  contains-dedup x (sort g.hosts) ∙ contains-sort x g.hosts,
  contains-dedup x (sort g.children) ∙ contains-sort x g.children,
  refl,
)

-- Where no member's data names a group twice, a view's group of a name lists exactly the hosts,
-- and the children, that some member's group of that name lists, and it has the vars of the first
-- member, in the declared order, whose group has some.
pub groups_lem :
    (s : ViewSnapshot)
    → distinct_groups s.members ≡ true
    → (name x : String)
    → (contains x (hosts_of_group (HashMap.get name (groups s)))
        ≡ any
            (λ (m : MemberSnapshot). contains x (hosts_of_group (group_in name m.entry)))
            s.members)
      × (contains x (children_of_group (HashMap.get name (groups s)))
          ≡ any
              (λ (m : MemberSnapshot). contains x (children_of_group (group_in name m.entry)))
              s.members)
      × (vars_of_group (HashMap.get name (groups s)) ≡ first_vars name s.members)
unfolding groups contains HashMap.get
groups_lem s d name x =
    let merged =
      get-map_values name (λ _. tidy) (merge_members s.members [])
      ∙ ap (Option.map tidy) (get-merge_members name s.members [] d) in
    let (h, c, v) = tidied x (said_all name s.members none) in
    let (h', c', v') = contains-said_all x name s.members none in
    (
      ap (λ o. contains x (hosts_of_group o)) merged ∙ h ∙ h',
      ap (λ o. contains x (children_of_group o)) merged ∙ c ∙ c',
      ap vars_of_group merged ∙ v ∙ v',
    )
