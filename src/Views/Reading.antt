-- ===== src/Views/Reading.antt =====
-- application/views.rs: what a snapshot answers a reader: the selected hosts, their variables, the
-- groups, the ages and the TTLs, and the count of a view's hosts that is kept between scrapes.
use unified_api.HashMap
use unified_api.HashMap.{HashMap}
use unified_api.Prelude.{
  Bool, List, Option, String, [], all, dedup, false, if◌then◌else◌, inl, inr, is_empty, is_some,
  length, ltb, map_or, nat_eq, none, not, some, sort, unwrap_or, ℕ, ◌&&◌, ◌++◌, ◌∷◌, ◌⊎◌,
}
use unified_api.Dataset.{Dataset, Group, HostVars, default_group}
use unified_api.CacheEntry
use unified_api.CacheEntry.{CacheEntry}
use unified_api.Source
use unified_api.Source.{Source, group_ttls}
use unified_api.View.{View}
use unified_api.Views.{MemberSnapshot, ViewSnapshot, hosts, owner_of, prepare_routing}

unfoldable pub ownership_cached : MemberSnapshot → Bool
ownership_cached m = is_some m.ownership

-- `default_ttl`: the view's, or the entry's, or the source's, or zero
unfoldable pub default_ttl : View → MemberSnapshot → ℕ
default_ttl view m = elim view.ttl_seconds [
  | some ttl ↦ ttl
  | none ↦ elim m.entry [
    | some entry ↦ CacheEntry.as_secs entry.ttl
    | none ↦ map_or 0 (λ (s : Source). s.ttl_seconds) m.source
  ]
]

-- `group_ttls`
unfoldable pub member_group_ttls : MemberSnapshot → HashMap ℕ
member_group_ttls m = elim m.source [
  | none ↦ []
  | some source ↦ elim m.entry [
    | none ↦ []
    | some entry ↦ Source.group_ttl_by_host source entry.dataset
  ]
]

-- `MemberSnapshot::effective_ttl`
unfoldable pub member_ttl : View → String → HashMap ℕ → MemberSnapshot → ℕ
member_ttl view hostname group_ttls m =
    let fallback = default_ttl view m in
    map_or fallback (λ source. Source.effective_ttl source hostname group_ttls fallback) m.source

-- the variables that a member has for the host
unfoldable pub vars_at : String → MemberSnapshot → Option HostVars
vars_at hostname m = elim m.entry [
  | none ↦ none
  | some entry ↦ HashMap.get hostname entry.dataset.hostvars
]

-- one name of `?host=`, after the later ones: selected if its owner has data for it, unclaimed if
-- nobody owns it
abbrev pub choose :
    String → Option MemberSnapshot → List String × List String → List String × List String
choose name none rest = (rest.0, name ∷ rest.1)
choose name (some owner) rest =
    (if is_some (vars_at name owner) then name ∷ rest.0 else rest.0, rest.1)

-- the loop of `select` over the names of `?host=`: those selected, and those nobody claims
unfoldable pub select_named : ViewSnapshot → List String → List String × List String
select_named s [] = ([], [])
select_named s (name ∷ names) = choose name (owner_of s name) (select_named s names)

-- the hosts that a member's group of that name lists
abbrev pub group_hosts : String → MemberSnapshot → List String
group_hosts group m = elim m.entry [
  | none ↦ []
  | some entry ↦ map_or [] (λ (g : Group). g.hosts) (HashMap.get group entry.dataset.groups)
]

unfoldable pub select_group : String → List MemberSnapshot → List String
select_group group [] = []
select_group group (m ∷ members) = group_hosts group m ++ select_group group members

-- `select`, given the names that the text of `?host=` holds: the error, on the left, is
-- `UnclaimedHosts`
unfoldable pub select :
    ViewSnapshot → Option (List String) → Option String → List String ⊎ List String
select s (some names) group =
    let (selected, unclaimed) = select_named s names in
    if is_empty unclaimed then inr (dedup (sort selected)) else inl unclaimed
select s none (some group) = inr (dedup (sort (select_group group s.members)))
select s none none = inr (dedup (sort (hosts s)))

-- one host of `hostvars`
unfoldable pub owned_vars : ViewSnapshot → String → Option HostVars
owned_vars s hostname = elim (owner_of s hostname) [
  | none ↦ none
  | some owner ↦ vars_at hostname owner
]

-- the host's entry, if it has one
abbrev pub insert_some : String → Option HostVars → HashMap HostVars → HashMap HostVars
insert_some hostname none vars = vars
insert_some hostname (some found) vars = HashMap.insert hostname found vars

unfoldable pub hostvars_of : ViewSnapshot → List String → HashMap HostVars
hostvars_of s [] = []
hostvars_of s (hostname ∷ selection) =
    insert_some hostname (owned_vars s hostname) (hostvars_of s selection)

-- `ViewSnapshot::hostvars`
unfoldable pub hostvars : ViewSnapshot → List String → HashMap HostVars
hostvars s selection = hostvars_of (prepare_routing (length selection) s) selection

-- `target.hosts.extend(..)`, `target.children.extend(..)`, and the vars if it has none
unfoldable pub join_group : Group → Group → Group
join_group group target = record {
  hosts = target.hosts ++ group.hosts;
  children = target.children ++ group.children;
  vars = elim target.vars [ some vars ↦ some vars | none ↦ group.vars ];
}

-- the loop over one member's groups
unfoldable pub merge_member : HashMap Group → HashMap Group → HashMap Group
merge_member [] merged = merged
merge_member ((name, group) ∷ groups) merged =
    merge_member groups (HashMap.upsert name default_group (join_group group) merged)

-- a member without an entry has no groups
abbrev pub merge_entry : Option CacheEntry → HashMap Group → HashMap Group
merge_entry none merged = merged
merge_entry (some entry) merged = merge_member entry.dataset.groups merged

unfoldable pub merge_members : List MemberSnapshot → HashMap Group → HashMap Group
merge_members [] merged = merged
merge_members (m ∷ members) merged = merge_members members (merge_entry m.entry merged)

unfoldable pub tidy : Group → Group
tidy g = record g { hosts = dedup (sort g.hosts); children = dedup (sort g.children) }

-- `ViewSnapshot::groups`
unfoldable pub groups : ViewSnapshot → HashMap Group
groups s = HashMap.map_values (λ _. tidy) (merge_members s.members [])

-- `ViewSnapshot::dataset`
unfoldable pub dataset : ViewSnapshot → List String → Dataset
dataset s selection = record {
  hostvars = hostvars s selection;
  groups = groups s;
  remove_hosts = [];
}

abbrev pub max : ℕ → ℕ → ℕ
max m n = if ltb m n then n else m

-- the greatest age of the members that have data, or zero
unfoldable pub oldest : ℕ → List MemberSnapshot → ℕ
oldest now [] = 0
oldest now (m ∷ members) =
    let rest = oldest now members in
    map_or rest (λ e. max (CacheEntry.age_seconds now e) rest) m.entry

-- `ViewSnapshot::age_seconds`
abbrev pub view_age : ℕ → ViewSnapshot → ℕ
view_age now s = oldest now s.members

-- `ViewSnapshot::is_fresh`
unfoldable pub view_fresh : ℕ → ViewSnapshot → Bool
view_fresh now s =
    not (is_empty s.members)
    && all (λ (m : MemberSnapshot). map_or false (CacheEntry.is_fresh now) m.entry) s.members

unfoldable pub loosest : View → List MemberSnapshot → ℕ
loosest view [] = 0
loosest view (m ∷ members) = max (default_ttl view m) (loosest view members)

-- `ViewSnapshot::ttl_seconds`
unfoldable pub view_ttl : ViewSnapshot → ℕ
view_ttl s = unwrap_or s.view.ttl_seconds (loosest s.view s.members)

-- `ViewHostsMemo`: the generation and the count of the last scrape of each view
abbrev pub ViewHostsMemo : Type 0
ViewHostsMemo = HashMap (ℕ × ℕ)

-- `compute()`, and `memo.insert(..)`
abbrev pub recounted : String → ℕ → ℕ → ViewHostsMemo → ℕ × ViewHostsMemo
recounted view_id generation computed memo =
    (computed, HashMap.insert view_id (generation, computed) memo)

abbrev pub count_from : Option (ℕ × ℕ) → String → ℕ → ℕ → ViewHostsMemo → ℕ × ViewHostsMemo
count_from none view_id generation computed memo = recounted view_id generation computed memo
count_from (some (seen, count)) view_id generation computed memo =
    if nat_eq seen generation then (count, memo) else recounted view_id generation computed memo

-- `ViewHostsMemo::hosts_count`, where `computed` is what `compute` would give
unfoldable pub hosts_count : String → ℕ → ℕ → ViewHostsMemo → ℕ × ViewHostsMemo
hosts_count view_id generation computed memo =
    count_from (HashMap.get view_id memo) view_id generation computed memo
