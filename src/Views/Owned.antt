-- ===== src/Views/Owned.antt =====
-- The owner of a host, and the variables that a reader gets: those of each host from its owner.
use unified_api.HashMap
use unified_api.HashMap.{HashMap, contains_key}
use unified_api.HashMap.Laws.{get-insert}
use unified_api.Prelude.{
  Bool-cases, List, Option, Option-cases, String, [], ap, arith, contains, eq_iff, if◌then◌else◌,
  inl, inr, is_some, length, map_or, none, refl, some, suc, sym, ℕ, ◌&&◌, ◌-◌, ◌==◌, ◌∙◌, ◌∷◌, ◌≡◌,
  ◌≤◌,
}
use unified_api.Dataset.{HostVars}
use unified_api.CacheEntry.{CacheEntry}
use unified_api.Views.{
  MemberSnapshot, ViewSnapshot, has, member_at, member_claims, owner_index, owner_of, position,
  prepare_routing, serves,
}
use unified_api.Views.Routing.{
  IsRouted, members-prepare_routing, owner_index_lem, prepare_routing-IsRouted,
}
use unified_api.Views.Reading.{hostvars, hostvars_of, insert_some, owned_vars, vars_at}

-- the first member that claims the host
unfoldable pub first_claim : String → List MemberSnapshot → Option MemberSnapshot
first_claim h [] = none
first_claim h (m ∷ members) = if member_claims m h then some m else first_claim h members

position-le :
    (i j : ℕ) (h : String) (members : List MemberSnapshot) → position i h members ≡ some j → i ≤ j
unfolding position
position-le i j h [] e = ground (arith, e)
position-le i j h (m ∷ members) e = ground (arith, e, position-le (suc i) j h members)

member_at-position :
    (i j : ℕ) (h : String) (members : List MemberSnapshot)
    → position i h members ≡ some j
    → member_at members (j - i) ≡ first_claim h members
unfolding position first_claim member_at
member_at-position i j h [] e = ground (arith, e)
member_at-position i j h (m ∷ members) e = elim (Bool-cases (member_claims m h)) [
  | inl c ↦ let here : j - i ≡ 0 = ground (arith, e, c) in rw (c, here) refl
  | inr c ↦
      let after : position (suc i) h members ≡ some j = ground (arith, e, c) in
      let next : j - i ≡ suc (j - suc i) = ground (arith, position-le (suc i) j h members after) in
      rw (c, next) (member_at-position (suc i) j h members after)
]

pub first_claim-none :
    (i : ℕ) (h : String) (members : List MemberSnapshot)
    → is_some (first_claim h members) ≡ is_some (position i h members)
unfolding position first_claim
first_claim-none i h [] = refl
first_claim-none i h (m ∷ members) = ground (arith, first_claim-none (suc i) h members)

-- In a routed snapshot the owner of a host is the first member, in the declared order, that
-- claims it: the index that `members[index]` takes is never out of range.
pub owner_of_lem :
    (s : ViewSnapshot) → IsRouted s → (h : String) → owner_of s h ≡ first_claim h s.members
unfolding owner_of
owner_of_lem s r h = elim (Option-cases (position 0 h s.members)) [
  | inl e ↦ rw (owner_index_lem s r h ∙ e, owner_of) (sym (none_here e))
  | inr (i, e) ↦ rw (owner_index_lem s r h ∙ e, owner_of) (some_here i e)
]
  where
    none_here : position 0 h s.members ≡ none → first_claim h s.members ≡ none
    none_here e = ground (arith, e, first_claim-none 0 h s.members)

    some_here :
        (i : ℕ) → position 0 h s.members ≡ some i → member_at s.members i ≡ first_claim h s.members
    some_here i e = ap (member_at s.members) (ground arith) ∙ member_at-position 0 i h s.members e

owner_of-prepared :
    (n : ℕ) (s : ViewSnapshot)
    → IsRouted s
    → (h : String) → owner_of (prepare_routing n s) h ≡ owner_of s h
owner_of-prepared n s r h =
    owner_of_lem (prepare_routing n s) (prepare_routing-IsRouted n s r) h
    ∙ ap (first_claim h) (members-prepare_routing n s)
    ∙ sym (owner_of_lem s r h)

has-vars_at : (h : String) (m : MemberSnapshot) → is_some (vars_at h m) ≡ has m h
unfolding vars_at has
has-vars_at h m = elim (Option-cases m.entry) [ inl e ↦ rw e refl | inr (entry, e) ↦ rw e refl ]

-- A view serves a host exactly if its owner has variables for it.
pub serves-owned_vars : (s : ViewSnapshot) (h : String) → is_some (owned_vars s h) ≡ serves s h
unfolding owned_vars serves owner_of
serves-owned_vars s h = elim (Option-cases (owner_index s h)) [
  | inl e ↦ rw (e, owned_vars, owner_of) refl
  | inr (i, e) ↦ elim (Option-cases (member_at s.members i)) [
    | inl f ↦ rw (e, f, owned_vars, owner_of) refl
    | inr (m, f) ↦ rw (e, f, owned_vars, owner_of) (has-vars_at h m)
  ]
]

get-insert_some :
    (h k : String) (o : Option HostVars) (vars : HashMap HostVars)
    → HashMap.get h (insert_some k o vars) ≡ (if k == h && is_some o then o else HashMap.get h vars)
get-insert_some h k none vars = ground arith
get-insert_some h k (some found) vars = ground (arith, get-insert h k found vars)

get-hostvars_of :
    (s : ViewSnapshot) (h : String) (selection : List String)
    → HashMap.get h (hostvars_of s selection)
      ≡ (if contains h selection then owned_vars s h else none)
unfolding hostvars_of contains HashMap.get
get-hostvars_of s h [] = refl
get-hostvars_of s h (k ∷ selection) = ground (
  arith,
  get-insert_some h k (owned_vars s k) (hostvars_of s selection),
  eq_iff k h,
  get-hostvars_of s h selection,
  Option-cases (owned_vars s h),
)

owned_vars-prepared :
    (n : ℕ) (s : ViewSnapshot)
    → IsRouted s
    → (h : String) → owned_vars (prepare_routing n s) h ≡ owned_vars s h
unfolding owned_vars
owned_vars-prepared n s r h = ap (map_or none (vars_at h)) (owner_of-prepared n s r h)

-- what the member's entry holds for the host
abbrev pub held : String → MemberSnapshot → Option HostVars
held h m = map_or none (λ (e : CacheEntry). HashMap.get h e.dataset.hostvars) m.entry

held-vars_at :
    (h : String) (o : Option MemberSnapshot) → map_or none (vars_at h) o ≡ map_or none (held h) o
unfolding vars_at
held-vars_at h none = refl
held-vars_at h (some m) = elim (Option-cases m.entry) [
  | inl e ↦ rw e refl
  | inr (entry, e) ↦ rw e refl
]

owned_vars_lem :
    (s : ViewSnapshot)
    → IsRouted s
    → (h : String) → owned_vars s h ≡ map_or none (held h) (first_claim h s.members)
unfolding owned_vars
owned_vars_lem s r h =
    held-vars_at h (owner_of s h) ∙ ap (map_or none (held h)) (owner_of_lem s r h)

-- In a routed snapshot, the variables of a selection are, for each host of it that the view
-- serves, those that the entry of the first member that claims the host has for it, whatever other
-- members have; no other host has any.
pub hostvars_lem :
    (s : ViewSnapshot)
    → IsRouted s
    → (selection : List String) (h : String)
    → (HashMap.get h (hostvars s selection)
        ≡ (if contains h selection then map_or none (held h) (first_claim h s.members) else none))
      × (contains_key h (hostvars s selection) ≡ (contains h selection && serves s h))
unfolding hostvars
hostvars_lem s r selection h =
    let found =
      get-hostvars_of (prepare_routing (length selection) s) h selection
      ∙ ap (λ o. if contains h selection then o else none)
          (owned_vars-prepared (length selection) s r h) in
    (
      found ∙ ap (λ o. if contains h selection then o else none) (owned_vars_lem s r h),
      ap is_some found ∙ ground (arith, serves-owned_vars s h),
    )
