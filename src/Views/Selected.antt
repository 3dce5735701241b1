-- ===== src/Views/Selected.antt =====
-- `select`: the hosts of a request.
use unified_api.Prelude.{
  Bool, Bool-cases, List, Option, String, [], any, ap, arith, contains, contains-append,
  contains-dedup, contains-sort, dedup, eq_iff, if◌then◌else◌, inl, inr, is_empty, is_some, map_or,
  none, refl, some, sort, sym, ◌&&◌, ◌==◌, ◌||◌, ◌∙◌, ◌∷◌, ◌≡◌, ◌⊎◌,
}
use unified_api.Views.{MemberSnapshot, ViewSnapshot, hosts, owner_index, owner_of, serves}
use unified_api.Views.Routing.{IsRouted, owner_index_lem}
use unified_api.Views.Refresh.{unowned}
use unified_api.Views.Served.{hosts-serves}
use unified_api.Views.Reading.{
  choose, group_hosts, owned_vars, select, select_group, select_named, vars_at,
}
use unified_api.Views.Owned.{first_claim-none, owner_of_lem, serves-owned_vars}

is_some-owner_of :
    (s : ViewSnapshot)
    → IsRouted s
    → (h : String) → is_some (owner_of s h) ≡ is_some (owner_index s h)
is_some-owner_of s r h =
    ap is_some (owner_of_lem s r h)
    ∙ first_claim-none 0 h s.members
    ∙ ap is_some (sym (owner_index_lem s r h))

serves-owner_of :
    (s : ViewSnapshot) (h : String) → serves s h ≡ is_some (map_or none (vars_at h) (owner_of s h))
unfolding owned_vars
serves-owner_of s h = sym (serves-owned_vars s h)

contains-choose :
    (x name : String) (o : Option MemberSnapshot) (rest : List String × List String)
    → contains x (choose name o rest).0
      ≡ (is_some (map_or none (vars_at name) o) && name == x || contains x rest.0)
unfolding contains
contains-choose x name none rest = refl
contains-choose x name (some m) rest = ground arith

unclaimed-choose :
    (name : String) (o : Option MemberSnapshot) (rest : List String × List String)
    → (choose name o rest).1 ≡ (if is_some o then rest.1 else name ∷ rest.1)
unclaimed-choose name none rest = refl
unclaimed-choose name (some m) rest = refl

select_named_lem :
    (s : ViewSnapshot) (x : String) (names : List String)
    → IsRouted s
    → (contains x (select_named s names).0 ≡ (contains x names && serves s x))
      × ((select_named s names).1 ≡ unowned s names)
unfolding select_named contains unowned
select_named_lem s x [] r = (refl, refl)
select_named_lem s x (name ∷ names) r =
    let (chosen, unclaimed) = select_named_lem s x names r in
    (
      contains-choose x name (owner_of s name) (select_named s names)
          ∙ ground (arith, chosen, serves-owner_of s name, eq_iff name x),
      unclaimed-choose name (owner_of s name) (select_named s names)
          ∙ ground (arith, unclaimed, is_some-owner_of s r name),
    )

contains-select_group :
    (x group : String) (members : List MemberSnapshot)
    → contains x (select_group group members) ≡ any (λ m. contains x (group_hosts group m)) members
unfolding select_group contains
contains-select_group x group [] = refl
contains-select_group x group (m ∷ members) =
    contains-append x (group_hosts group m) (select_group group members)
    ∙ ap (λ b. contains x (group_hosts group m) || b) (contains-select_group x group members)

-- whether the answer of `select` has the host
abbrev pub selects : String → List String ⊎ List String → List String ⊎ Bool
selects x (inl unclaimed) = inl unclaimed
selects x (inr selected) = inr (contains x selected)

abbrev pub selected :
    ViewSnapshot → Option (List String) → Option String → String → List String ⊎ Bool
selected s (some names) group x =
    if is_empty (unowned s names)
    then inr (contains x names && serves s x)
    else inl (unowned s names)
selected s none (some group) x = inr (any (λ m. contains x (group_hosts group m)) s.members)
selected s none none x = inr (serves s x)

contains-sorted : (x : String) (ns : List String) → contains x (dedup (sort ns)) ≡ contains x ns
contains-sorted x ns = contains-dedup x (sort ns) ∙ contains-sort x ns

-- In a routed snapshot, a request for named hosts is refused with exactly the names that nobody
-- owns, in its order, if there is one, and otherwise selects exactly the named hosts that the
-- view serves; one for a group selects the hosts that any member's group of that name lists; and
-- one for neither selects the hosts that the view serves.
pub select_lem :
    (s : ViewSnapshot)
    → IsRouted s
    → (host : Option (List String)) (group : Option String) (x : String)
    → selects x (select s host group) ≡ selected s host group x
unfolding select
select_lem s r (some names) group x =
    let (chosen, unclaimed) = select_named_lem s x names r in
    rw unclaimed (elim (Bool-cases (is_empty (unowned s names))) [
      | inl e ↦ rw e (ap inr (contains-sorted x (select_named s names).0 ∙ chosen))
      | inr e ↦ rw e refl
    ])
select_lem s r none (some group) x =
    ap inr
      (contains-sorted x (select_group group s.members) ∙ contains-select_group x group s.members)
select_lem s r none none x = ap inr (contains-sorted x (hosts s) ∙ hosts-serves s r x)
