-- ===== src/Views/Delegation.antt =====
-- What `route` answers, against the owner of each host.

use unified_api.Views.Routing.{IsRouted, owner_index-prepared}
use unified_api.Prelude.{
  Bool, Bool-cases, List, Option-cases, String, [], ap, arith, false, if◌then◌else◌, inl, inr,
  is_empty, is_some, leb, length, map_or, nat_eq, none, not, refl, suc, true, ℕ, ◌&&◌, ◌++◌, ◌+◌,
  ◌-◌, ◌∙◌, ◌∷◌, ◌≡◌,
}
use unified_api.Views.{
  MemberSnapshot, ViewSnapshot, member_at, owner_index, prepare_routing, push_at, route, route_all,
  with_members,
}
use unified_api.Views.Refresh.{
  ascending, ascending-weaken, names_at, names_at-below, owned, route_all_lem, unowned,
}

-- Each index has a name at least.
unfoldable inhabited : List (ℕ × List String) → Bool
inhabited [] = true
inhabited ((_, names) ∷ by_member) = not (is_empty names) && inhabited by_member

inhabited-push_at :
    (i : ℕ) (h : String) (by_member : List (ℕ × List String))
    → inhabited by_member ≡ true
    → inhabited (push_at i h by_member) ≡ true
unfolding inhabited push_at
inhabited-push_at i h [] a = refl
inhabited-push_at i h ((j, []) ∷ by_member) a = ground (arith, a)
inhabited-push_at i h ((j, n ∷ names) ∷ by_member) a =
    ground (arith, a, inhabited-push_at i h by_member)

inhabited-route_all :
    (s : ViewSnapshot) (names : List String) (by_member : List (ℕ × List String))
    (unclaimed : List String)
    → inhabited by_member ≡ true
    → inhabited (route_all s names by_member unclaimed).0 ≡ true
unfolding route_all
inhabited-route_all s [] by_member unclaimed a = a
inhabited-route_all s (h ∷ names) by_member unclaimed a =
    inhabited-route_all s names (map_or by_member (λ j. push_at j h by_member) (owner_index s h))
      (if is_some (owner_index s h) then unclaimed else unclaimed ++ h ∷ [])
      (elim (Option-cases (owner_index s h)) [
        | inl e ↦ rw e a
        | inr (j, e) ↦ rw e (inhabited-push_at j h by_member a)
      ])

-- The members from the index on that own a name, with their names.
unfoldable pub delegated :
    (ℕ → List String) → ℕ → List MemberSnapshot → List (MemberSnapshot × List String)
delegated own i [] = []
delegated own i (m ∷ members) =
    let rest = delegated own (suc i) members in if is_empty (own i) then rest else (m, own i) ∷ rest

with_members-none :
    (members : List MemberSnapshot) (i : ℕ) (by_member : List (ℕ × List String))
    → ((j : ℕ) → leb i j ≡ true → member_at members j ≡ none)
    → ascending i by_member ≡ true
    → with_members members by_member ≡ []
unfolding with_members ascending
with_members-none members i [] out a = refl
with_members-none members i ((j, names) ∷ by_member) out a = rw (out j (ground (arith, a))) (
    with_members-none members i by_member out
      (ascending-weaken (suc j) i by_member (ground (arith, a)) (ground (arith, a))))

with_members-delegated :
    (members rest : List MemberSnapshot) (i : ℕ) (by_member : List (ℕ × List String))
    (own : ℕ → List String)
    → ((j k : ℕ) → j ≡ i + k → member_at members j ≡ member_at rest k)
    → ((j : ℕ) → leb i j ≡ true → names_at j by_member ≡ own j)
    → ascending i by_member ≡ true
    → inhabited by_member ≡ true
    → with_members members by_member ≡ delegated own i rest
unfolding with_members delegated names_at ascending inhabited member_at
with_members-delegated members [] i by_member own at names a b =
    with_members-none members i by_member (λ j l. at j (j - i) (ground (arith, l))) a
with_members-delegated members (m ∷ rest) i [] own at names a b = ground (
  arith,
  names i,
  with_members-delegated members rest (suc i) [] own (λ j k e. at j (suc k) (ground (arith, e)))
      (λ j l. names j (ground (arith, l))) refl refl,
)
with_members-delegated members (m ∷ rest) i ((j, ns) ∷ by_member) own at names a b =
    elim (Bool-cases (nat_eq i j)) [
      | inl e ↦
          let mine : own i ≡ ns = ground (arith, e, names i) in
          let full : is_empty ns ≡ false = ground (arith, b) in
          rw (at j 0 (ground (arith, e)), mine, full)
            (ap (λ r. (m, ns) ∷ r)
              (with_members-delegated members rest (suc i) by_member own
                (λ j k e. at j (suc k) (ground (arith, e))) (λ k l. ground (arith, l, names k, e))
                (ground (arith, a, e)) (ground (arith, b))))
      | inr e ↦
          let mine : own i ≡ [] =
            ground (arith, a, e, names i, names_at-below (suc j) i by_member) in
          rw mine (
            with_members-delegated members rest (suc i) ((j, ns) ∷ by_member) own
              (λ j k e. at j (suc k) (ground (arith, e))) (λ j l. names j (ground (arith, l)))
              (ground (arith, a, e)) b)
    ]

owned-prepared :
    (n i : ℕ) (s : ViewSnapshot)
    → IsRouted s
    → (names : List String) → owned (prepare_routing n s) i names ≡ owned s i names
unfolding owned
owned-prepared n i s r [] = refl
owned-prepared n i s r (h ∷ names) =
    rw (owner_index-prepared n s r h, owned-prepared n i s r names) refl

unowned-prepared :
    (n : ℕ) (s : ViewSnapshot)
    → IsRouted s
    → (names : List String) → unowned (prepare_routing n s) names ≡ unowned s names
unfolding unowned
unowned-prepared n s r [] = refl
unowned-prepared n s r (h ∷ names) =
    rw (owner_index-prepared n s r h, unowned-prepared n s r names) refl

-- In a routed snapshot, a request is refused with exactly the names nobody owns, in its order, if
-- there is one; otherwise each member that owns a name of it is asked for exactly those it owns,
-- the members in their declared order and the names in the request's.
pub route_lem :
    (s : ViewSnapshot)
    → IsRouted s
    → (names : List String)
    → route s names ≡ (
        if is_empty (unowned s names)
        then inr (delegated (λ i. owned s i names) 0 s.members)
        else inl (unowned s names))
unfolding route ascending inhabited owned prepare_routing names_at
route_lem s r names =
    let p = prepare_routing (length names) s in
    let lost : (route_all p names [] []).1 ≡ unowned s names =
      (route_all_lem p 0 names [] [] refl).1 ∙ unowned-prepared (length names) s r names in
    let found : with_members s.members (route_all p names [] []).0
        ≡ delegated (λ i. owned s i names) 0 s.members =
      with_members-delegated s.members s.members 0 (route_all p names [] []).0
        (λ i. owned s i names) (λ j k e. ap (member_at s.members) (ground (arith, e)))
        (λ j l. (route_all_lem p j names [] [] refl).0 ∙ owned-prepared (length names) j s r names)
        (route_all_lem p 0 names [] [] refl).2 (inhabited-route_all p names [] [] refl) in
    rw (lost, found) refl
