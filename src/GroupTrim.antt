-- ===== src/GroupTrim.antt =====
-- domain/group_trim.rs: `groups=matching`, the groups that a page of hosts belongs to.
pub mod Fixpoint
pub mod Kept
pub mod Entries
pub mod Trimming
use unified_api.HashMap
use unified_api.HashMap.{HashMap, contains_key}
use unified_api.Prelude.{
  Bool, List, Option, String, [], any, contains, false, if◌then◌else◌, is_empty, length, none, not,
  some, suc, zero, ℕ, ◌&&◌, ◌+◌, ◌||◌, ◌∷◌,
}

-- one item of the iterator: a group's name, hosts and children
pub record Listed : Type 0 where
  pub name : String
  pub hosts : List String
  pub children : List String

pub record Trimmed : Type 0 where
  pub hosts : List String
  pub children : List String

-- `names.iter().filter(|n| set.contains(n)).collect()`
unfoldable pub among : List String → List String → List String
among set [] = []
among set (n ∷ ns) = let rest = among set ns in if contains n set then n ∷ rest else rest

-- the first loop: the groups with a host on the page, their hosts cut to those
unfoldable pub seed_group : List String → Listed → HashMap Trimmed → HashMap Trimmed
seed_group page g kept =
    let on_page = among page g.hosts in
    if is_empty on_page
    then kept
    else HashMap.insert g.name (record { hosts = on_page; children = [] }) kept

unfoldable pub seed : List String → List Listed → HashMap Trimmed → HashMap Trimmed
seed page [] kept = kept
seed page (g ∷ listed) kept = seed page listed (seed_group page g kept)

-- the test of the second loop
unfoldable pub joins : Listed → HashMap Trimmed → Bool
joins g kept = not (contains_key g.name kept) && any (λ c. contains_key c kept) g.children

-- the body of the second loop
unfoldable pub join : Listed → HashMap Trimmed → HashMap Trimmed
join g kept =
    if joins g kept then HashMap.insert g.name (record { hosts = []; children = [] }) kept else kept

-- one round of it: the groups that are kept now, and whether any joined
unfoldable pub grow : List Listed → HashMap Trimmed → HashMap Trimmed × Bool
grow [] kept = (kept, false)
grow (g ∷ listed) kept =
    let (kept', grew) = grow listed (join g kept) in (kept', joins g kept || grew)

-- `loop { .. }`; none if the fuel runs out
unfoldable pub grow_all : ℕ → List Listed → HashMap Trimmed → Option (HashMap Trimmed)
grow_all zero listed kept = none
grow_all (suc fuel) listed kept =
    let (kept', grew) = grow listed kept in
    let rest = grow_all fuel listed kept' in if grew then rest else some kept'

-- `trimmed.children = children.iter().filter(..).collect()`
abbrev pub with_children : List String → Listed → Trimmed → Trimmed
with_children names g t = record t { children = among names g.children }

-- the last loop: each kept group's children, cut to the kept ones
unfoldable pub trim_children : List String → List Listed → HashMap Trimmed → HashMap Trimmed
trim_children names [] kept = kept
trim_children names (g ∷ listed) kept =
    trim_children names listed (HashMap.modify g.name (with_children names g) kept)

-- a round that goes on adds a group, so there are at most as many as groups
unfoldable pub matching : List Listed → List String → Option (HashMap Trimmed)
matching listed page = elim (grow_all (length listed + 1) listed (seed page listed [])) [
  | none ↦ none
  | some kept ↦ some (trim_children (HashMap.keys kept) listed kept)
]
