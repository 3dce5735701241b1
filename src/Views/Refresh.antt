-- ===== src/Views/Refresh.antt =====
-- `route`: the hosts of a request by the member that owns them.

use unified_api.Prelude.{
  Bool, Bool-cases, List, Option, String, [], ap, append-nil, append_assoc, arith, false,
  if◌then◌else◌, inl, inr, is_some, leb, ltb, map_or, nat_eq, none, refl, some, suc, sym, true, ℕ,
  ◌&&◌, ◌++◌, ◌∙◌, ◌∷◌, ◌≡◌,
}
use unified_api.Views.{ViewSnapshot, owner_index, push_at, route_all}

-- the names at an index
unfoldable pub names_at : ℕ → List (ℕ × List String) → List String
names_at i [] = []
names_at i ((j, names) ∷ by_member) = if nat_eq i j then names else names_at i by_member

-- The indices grow, from one on.
unfoldable pub ascending : ℕ → List (ℕ × List String) → Bool
ascending n [] = true
ascending n ((i, _) ∷ by_member) = leb n i && ascending (suc i) by_member

-- the names that the member at the index owns, in the order of the request
unfoldable pub owned : ViewSnapshot → ℕ → List String → List String
owned s i [] = []
owned s i (h ∷ names) =
    let rest = owned s i names in
    if map_or false (nat_eq i) (owner_index s h) then h ∷ rest else rest

-- the names that nobody owns, in the order of the request
unfoldable pub unowned : ViewSnapshot → List String → List String
unowned s [] = []
unowned s (h ∷ names) =
    let rest = unowned s names in if is_some (owner_index s h) then rest else h ∷ rest

pub names_at-below :
    (n i : ℕ) (by_member : List (ℕ × List String))
    → ascending n by_member ≡ true
    → ltb i n ≡ true
    → names_at i by_member ≡ []
unfolding names_at ascending
names_at-below n i [] a l = refl
names_at-below n i ((j, names) ∷ by_member) a l =
    ground (arith, a, l, names_at-below (suc j) i by_member)

pub ascending-weaken :
    (n k : ℕ) (by_member : List (ℕ × List String))
    → ascending n by_member ≡ true
    → leb k n ≡ true
    → ascending k by_member ≡ true
unfolding ascending
ascending-weaken n k [] a l = refl
ascending-weaken n k ((j, names) ∷ by_member) a l = ground (arith, a, l)

push_at-ascending :
    (n i : ℕ) (h : String) (by_member : List (ℕ × List String))
    → ascending n by_member ≡ true
    → leb n i ≡ true
    → ascending n (push_at i h by_member) ≡ true
unfolding push_at ascending
push_at-ascending n i h [] a l = ground (arith, l)
push_at-ascending n i h ((j, names) ∷ by_member) a l =
    ground (arith, a, l, push_at-ascending (suc j) i h by_member)

names_at-push_at :
    (n i k : ℕ) (h : String) (by_member : List (ℕ × List String))
    → ascending n by_member ≡ true
    → names_at k (push_at i h by_member)
      ≡ names_at k by_member ++ (if nat_eq k i then h ∷ [] else [])
unfolding push_at names_at ascending
names_at-push_at n i k h [] a = ground arith
names_at-push_at n i k h ((j, names) ∷ by_member) a = elim (Bool-cases (ltb i j)) [
  | inl e ↦ rw e (
      ground (
        arith,
        a,
        e,
        names_at-below (suc j) k by_member,
        append-nil names,
        append-nil (names_at k by_member),
      ))
  | inr e ↦ elim (Bool-cases (ltb j i)) [
    | inl f ↦
        rw (e, f)
          (ground (
            arith,
            a,
            f,
            names_at-push_at (suc j) i k h by_member,
            append-nil names,
            append-nil (names_at k by_member),
          ))
    | inr f ↦
        rw (e, f) (ground (arith, a, e, f, append-nil names, append-nil (names_at k by_member)))
  ]
]

names_at-place :
    (i : ℕ) (h : String) (o : Option ℕ) (by_member : List (ℕ × List String))
    → ascending 0 by_member ≡ true
    → names_at i (map_or by_member (λ j. push_at j h by_member) o)
      ≡ names_at i by_member ++ (if map_or false (nat_eq i) o then h ∷ [] else [])
names_at-place i h none by_member a = sym (append-nil (names_at i by_member))
names_at-place i h (some j) by_member a = names_at-push_at 0 j i h by_member a

place-ascending :
    (h : String) (o : Option ℕ) (by_member : List (ℕ × List String))
    → ascending 0 by_member ≡ true
    → ascending 0 (map_or by_member (λ j. push_at j h by_member) o) ≡ true
place-ascending h none by_member a = a
place-ascending h (some j) by_member a = push_at-ascending 0 j h by_member a (ground arith)

append-if :
    (b : Bool) (h : String) (xs ys : List String)
    → (xs ++ (if b then h ∷ [] else [])) ++ ys ≡ xs ++ (if b then h ∷ ys else ys)
append-if true h xs ys = append_assoc xs (h ∷ []) ys
append-if false h xs ys = append_assoc xs [] ys

append-unless :
    (b : Bool) (h : String) (xs ys : List String)
    → (if b then xs else xs ++ h ∷ []) ++ ys ≡ xs ++ (if b then ys else h ∷ ys)
append-unless true h xs ys = refl
append-unless false h xs ys = append_assoc xs (h ∷ []) ys

-- What the loop has at each index, and nowhere, when it ends.
pub route_all_lem :
    (s : ViewSnapshot) (i : ℕ) (names : List String) (by_member : List (ℕ × List String))
    (unclaimed : List String)
    → ascending 0 by_member ≡ true
    → (names_at i (route_all s names by_member unclaimed).0
        ≡ names_at i by_member ++ owned s i names)
      × ((route_all s names by_member unclaimed).1 ≡ unclaimed ++ unowned s names)
      × (ascending 0 (route_all s names by_member unclaimed).0 ≡ true)
unfolding route_all owned unowned
route_all_lem s i [] by_member unclaimed a =
    (sym (append-nil (names_at i by_member)), sym (append-nil unclaimed), a)
route_all_lem s i (h ∷ names) by_member unclaimed a =
    let o = owner_index s h in
    let (at, out, up) =
      route_all_lem s i names (map_or by_member (λ j. push_at j h by_member) o)
        (if is_some o then unclaimed else unclaimed ++ h ∷ []) (place-ascending h o by_member a) in
    (
      at
          ∙ ap (λ ns. ns ++ owned s i names) (names_at-place i h o by_member a)
          ∙ append-if (map_or false (nat_eq i) o) h (names_at i by_member) (owned s i names),
      out ∙ append-unless (is_some o) h unclaimed (unowned s names),
      up,
    )
