-- ===== src/Source/Resolved.antt =====
-- Which hosts an ssh source gathers.
use unified_api.HashMap
use unified_api.HashMap.{HashMap, contains_key}
use unified_api.HashMap.Laws.{contains-keys}
use unified_api.Prelude.{
  Bool, Bool-cases, List, Option-cases, String, [], arith, contains, contains-append,
  contains-dedup, contains-sort, dedup, eq_iff, false, if◌then◌else◌, inl, inr, is_some, map,
  map_or, refl, sort, ◌&&◌, ◌||◌, ◌∙◌, ◌∷◌, ◌≡◌,
}
use unified_api.Dataset.{Dataset, Group}
use unified_api.Source.{ConnectVia, HostsFromSource, is_empty_pattern}
use unified_api.Source.Hosts.{
  HostSpec, addresses_of, ansible_host, is_host_of, picked_among, picked_in, resolve, selected,
  specs_of,
}

-- Is the host listed by a group of the pattern that the dataset has?
unfoldable pub in_pattern_group : HashMap Group → String → List String → Bool
in_pattern_group groups x [] = false
in_pattern_group groups x (name ∷ names) =
    map_or false (λ (g : Group). contains x g.hosts) (HashMap.get name groups)
    || in_pattern_group groups x names

-- Does the pattern select the host?
abbrev pub selects : HostsFromSource → Dataset → String → Bool
selects hfs dataset x =
    if is_empty_pattern hfs.match_pattern
    then contains_key x dataset.hostvars
    else in_pattern_group dataset.groups x hfs.match_pattern.groups
      || contains x hfs.match_pattern.hosts && is_host_of dataset x

-- Can it be reached the way the source connects?
abbrev pub reachable : HostsFromSource → Dataset → String → Bool
reachable hfs dataset x = is_some (addresses_of hfs.connect_via x (ansible_host dataset x))

contains-picked_in :
    (x source : String) (groups : HashMap Group) (names : List String)
    → contains x (picked_in source groups names).0 ≡ in_pattern_group groups x names
unfolding picked_in in_pattern_group contains
contains-picked_in x source groups [] = refl
contains-picked_in x source groups (name ∷ names) = elim (Option-cases (HashMap.get name groups)) [
  | inl e ↦ rw (e, picked_in) (contains-picked_in x source groups names)
  | inr (g, e) ↦
      rw (e, picked_in)
        (contains-append x g.hosts (picked_in source groups names).0
          ∙ rw (contains-picked_in x source groups names) refl)
]

contains-picked_among :
    (x source : String) (dataset : Dataset) (names : List String)
    → contains x (picked_among source dataset names).0 ≡ (contains x names && is_host_of dataset x)
unfolding picked_among contains
contains-picked_among x source dataset [] = refl
contains-picked_among x source dataset (name ∷ names) =
    elim (Bool-cases (is_host_of dataset name)) [
      | inl e ↦
          rw e (ground (arith, contains-picked_among x source dataset names, e, eq_iff name x))
      | inr e ↦
          rw e (ground (arith, contains-picked_among x source dataset names, e, eq_iff name x))
    ]

contains-selected :
    (x : String) (hfs : HostsFromSource) (dataset : Dataset)
    → contains x (selected hfs dataset).0 ≡ selects hfs dataset x
unfolding selected
contains-selected x hfs dataset = elim (Bool-cases (is_empty_pattern hfs.match_pattern)) [
  | inl e ↦ rw e (contains-keys x dataset.hostvars)
  | inr e ↦ rw e (
      contains-append x (picked_in hfs.source dataset.groups hfs.match_pattern.groups).0
        (picked_among hfs.source dataset hfs.match_pattern.hosts).0
      ∙ rw
          (
            contains-picked_in x hfs.source dataset.groups hfs.match_pattern.groups,
            contains-picked_among x hfs.source dataset hfs.match_pattern.hosts,
          )
          refl)
]

-- the names of the hosts that are gathered
abbrev pub names_of : List HostSpec → List String
names_of = map (λ (s : HostSpec). s.name)

contains-specs_of :
    (x : String) (via : ConnectVia) (dataset : Dataset) (names : List String)
    → contains x (names_of (specs_of via dataset names).0)
      ≡ (contains x names && is_some (addresses_of via x (ansible_host dataset x)))
unfolding specs_of contains
contains-specs_of x via dataset [] = refl
contains-specs_of x via dataset (name ∷ names) =
    elim (Option-cases (addresses_of via name (ansible_host dataset name))) [
      | inl e ↦
          rw (e, specs_of) (ground (arith, contains-specs_of x via dataset names, e, eq_iff name x))
      | inr (a, e) ↦
          rw (e, specs_of) (ground (arith, contains-specs_of x via dataset names, e, eq_iff name x))
    ]

-- A host is gathered exactly if the pattern selects it (an empty pattern selects every host that has
-- variables; any other, the members of its groups that exist and its hosts that the dataset knows)
-- and it can be reached the way the source connects.
pub resolve_lem :
    (x : String) (hfs : HostsFromSource) (dataset : Dataset)
    → contains x (names_of (resolve hfs dataset).0)
      ≡ (selects hfs dataset x && reachable hfs dataset x)
unfolding resolve
resolve_lem x hfs dataset =
    contains-specs_of x hfs.connect_via dataset (dedup (sort (selected hfs dataset).0))
    ∙ rw
        (
          contains-dedup x (sort (selected hfs dataset).0),
          contains-sort x (selected hfs dataset).0,
          contains-selected x hfs dataset,
        )
        refl
