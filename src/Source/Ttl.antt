-- ===== src/Source/Ttl.antt =====
-- The group TTL of a host is the shortest that any of its groups asks for.
use mathlib.Core.List.{Memᴰ}
use unified_api.HashMap
use unified_api.HashMap.{HashMap}
use unified_api.HashMap.Laws.{get-upsert}
use unified_api.Prelude.{
  Bool, List, Option, Option-cases, String, [], ap, arith, contains, eq_iff, if◌then◌else◌, inl,
  inr, map_or, min, none, refl, some, sym, true, ℕ, ◌∙◌, ◌∷◌, ◌≡◌, ◌≤◌, ◌⊎◌,
}
use unified_api.Dataset.{Dataset, Group}
use unified_api.Source.{Source, add_ttl, effective_ttl, group_ttl_by_host, group_ttls}

-- the shorter of two TTLs, where there may be none
abbrev pub shorter : Option ℕ → Option ℕ → Option ℕ
shorter none o = o
shorter (some t) none = some t
shorter (some t) (some u) = some (min t u)

-- the host is in the group of that name
abbrev pub listed_in : String → String → HashMap Group → Bool
listed_in h name groups = contains h (map_or [] (λ (g : Group). g.hosts) (HashMap.get name groups))

-- what one override gives the host
abbrev pub override_for : String → String × ℕ → HashMap Group → Option ℕ
override_for h o groups = if listed_in h o.0 groups then some o.1 else none

-- The TTLs that the overrides give one host through its groups, the shortest of them.
unfoldable pub shortest : String → HashMap ℕ → HashMap Group → Option ℕ
shortest h [] groups = none
shortest h (o ∷ overrides) groups = shorter (override_for h o groups) (shortest h overrides groups)

get-add_ttl :
    (h : String) (ttl : ℕ) (hosts : List String) (by_host : HashMap ℕ)
    → HashMap.get h (add_ttl ttl hosts by_host)
      ≡ shorter (if contains h hosts then some ttl else none) (HashMap.get h by_host)
unfolding add_ttl contains
get-add_ttl h ttl [] by_host = refl
get-add_ttl h ttl (x ∷ hosts) by_host = ground (
  arith,
  get-add_ttl h ttl hosts (HashMap.upsert x ttl (λ current. min current ttl) by_host),
  get-upsert h x ttl (λ current. min current ttl) by_host,
  eq_iff x h,
)

get-group_ttls :
    (h : String) (overrides : HashMap ℕ) (groups : HashMap Group)
    → HashMap.get h (group_ttls overrides groups) ≡ shortest h overrides groups
unfolding group_ttls shortest HashMap.get contains
get-group_ttls h [] groups = refl
get-group_ttls h ((name, ttl) ∷ overrides) groups = elim (Option-cases (HashMap.get name groups)) [
  | inl e ↦ rw (e, group_ttls) (get-group_ttls h overrides groups)
  | inr (g, e) ↦
      rw (e, group_ttls)
        (get-add_ttl h ttl g.hosts (group_ttls overrides groups)
          ∙ ap (shorter (if contains h g.hosts then some ttl else none))
              (get-group_ttls h overrides groups))
]

shorter_le :
    (a b : Option ℕ) (ttl : ℕ)
    → (a ≡ some ttl) ⊎ ((t : ℕ) × (b ≡ some t) × (t ≤ ttl))
    → (t : ℕ) × (shorter a b ≡ some t) × (t ≤ ttl)
shorter_le none none ttl h = absurd (ground arith)
shorter_le none (some u) ttl h = (u, refl, ground arith)
shorter_le (some t) none ttl h = (t, refl, ground arith)
shorter_le (some t) (some u) ttl h = (min t u, refl, ground arith)

shortest_le :
    (h name : String) (ttl : ℕ) (overrides : HashMap ℕ) (groups : HashMap Group)
    → Memᴰ (name, ttl) overrides
    → listed_in h name groups ≡ true
    → (t : ℕ) × (shortest h overrides groups ≡ some t) × (t ≤ ttl)
unfolding shortest
shortest_le h name ttl [] groups m there = elim m [ ]
shortest_le h name ttl (o ∷ overrides) groups (Memᴰ.head p) there =
    shorter_le (override_for h o groups) (shortest h overrides groups) ttl
      (inl (rw (← p) (rw there)))
shortest_le h name ttl (o ∷ overrides) groups (Memᴰ.tail m) there =
    shorter_le (override_for h o groups) (shortest h overrides groups) ttl
      (inr (shortest_le h name ttl overrides groups m there))

shorter_attained : (a b : Option ℕ) (t : ℕ) → shorter a b ≡ some t → (a ≡ some t) ⊎ (b ≡ some t)
shorter_attained none b t h = inr h
shorter_attained (some a) none t h = inl h
shorter_attained (some a) (some b) t h = ground arith

shortest_attained :
    (h : String) (t : ℕ) (overrides : HashMap ℕ) (groups : HashMap Group)
    → shortest h overrides groups ≡ some t
    → (name : String) × Memᴰ (name, t) overrides × (listed_in h name groups ≡ true)
unfolding shortest
shortest_attained h t [] groups e = absurd (ground arith)
shortest_attained h t ((name, ttl) ∷ overrides) groups e =
    elim (shorter_attained (override_for h (name, ttl) groups) (shortest h overrides groups) t e) [
      | inl here ↦ (name, Memᴰ.head (ap (λ x. (name, x)) (ground arith)), ground arith)
      | inr later ↦
          let (n, m, there) = shortest_attained h t overrides groups later in
          (n, Memᴰ.tail m, there)
    ]

-- A host that is in a group with an override has a group TTL, and no group override that reaches
-- it is shorter.
pub group_ttl_le :
    (source : Source) (d : Dataset) (h name : String) (ttl : ℕ)
    → Memᴰ (name, ttl) source.ttl_overrides.groups
    → listed_in h name d.groups ≡ true
    → (t : ℕ) × (HashMap.get h (group_ttl_by_host source d) ≡ some t) × (t ≤ ttl)
unfolding group_ttl_by_host
group_ttl_le source d h name ttl m there =
    let (t, e, le) = shortest_le h name ttl source.ttl_overrides.groups d.groups m there in
    (t, get-group_ttls h source.ttl_overrides.groups d.groups ∙ e, le)

by_host_shortest :
    (source : Source) (d : Dataset) (h : String)
    → shortest h source.ttl_overrides.groups d.groups ≡ HashMap.get h (group_ttl_by_host source d)
unfolding group_ttl_by_host
by_host_shortest source d h = sym (get-group_ttls h source.ttl_overrides.groups d.groups)

-- The TTL that decides a host's freshness is its own override, if it has one; or else, if a group
-- TTL applies, that of some group override whose group lists the host; or else the fallback.
pub effective_ttl_source :
    (source : Source) (d : Dataset) (h : String) (fallback t : ℕ)
    → effective_ttl source h (group_ttl_by_host source d) fallback ≡ t
    → (HashMap.get h source.ttl_overrides.hosts ≡ some t)
      ⊎ ((name : String) × Memᴰ (name, t) source.ttl_overrides.groups
          × (listed_in h name d.groups ≡ true))
      ⊎ ((fallback ≡ t) × (HashMap.get h (group_ttl_by_host source d) ≡ none))
unfolding effective_ttl
effective_ttl_source source d h fallback t e =
    elim (Option-cases (HashMap.get h source.ttl_overrides.hosts)) [
      | inr (own, p) ↦ inl (ground arith)
      | inl p ↦ elim (Option-cases (HashMap.get h (group_ttl_by_host source d))) [
        | inl q ↦ inr (inr (ground arith, q))
        | inr (u, q) ↦
            let same : u ≡ t = ground arith in
            inr (
              inl (
                shortest_attained h t source.ttl_overrides.groups d.groups
                  (by_host_shortest source d h ∙ q ∙ ap some same)))
      ]
    ]
