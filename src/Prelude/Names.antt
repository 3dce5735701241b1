-- ===== src/Prelude/Names.antt =====
-- Lists of names, as the program uses `Vec<String>`: membership, removal, addition without a double.
use Prim.Native.Nat.{Ordering}
use Prim.Native.String.{String, compare}
use mathlib.Core.Path.{◌≡◌, refl}
use mathlib.Core.Bool.{Bool, true, false, ◌||◌}
use mathlib.Core.List.{List, [], ◌∷◌, ◌++◌}
use native.Mathlib.Omega.{arith}
use text.Mathlib.Text.{◌==◌}
use text.Mathlib.TextEquality.{eq_iff}
use unified_api.Prelude.Tests.{if◌then◌else◌}

-- `names.iter().any(|n| n == name)`, `names.contains(name)`
unfoldable pub contains : String → List String → Bool
contains name [] = false
contains name (n ∷ ns) = n == name || contains name ns

-- `names.retain(|n| n != name)`
unfoldable pub without : String → List String → List String
without name [] = []
without name (n ∷ ns) = let rest = without name ns in if n == name then rest else n ∷ rest

-- `if !names.contains(name) { names.push(name) }`
unfoldable pub push_new : String → List String → List String
push_new name ns = if contains name ns then ns else ns ++ name ∷ []

pub contains-append :
    (x : String) (xs ys : List String) → contains x (xs ++ ys) ≡ (contains x xs || contains x ys)
unfolding contains
contains-append x [] ys = refl
contains-append x (n ∷ ns) ys = ground (arith, contains-append x ns ys)

pub contains-without :
    (x y : String) (ns : List String)
    → contains x (without y ns) ≡ (if x == y then false else contains x ns)
unfolding contains without
contains-without x y [] = ground arith
contains-without x y (n ∷ ns) =
    ground (arith, contains-without x y ns, eq_iff n y, eq_iff n x, eq_iff x y)

pub contains-push_new :
    (x y : String) (ns : List String) → contains x (push_new y ns) ≡ (y == x || contains x ns)
unfolding push_new contains
contains-push_new x y ns =
    ground (arith, contains-append x ns (y ∷ []), eq_iff y x, contains x ns, contains y ns)

-- No name stands twice.
unfoldable pub distinct : List String → Bool
distinct [] = true
distinct (n ∷ ns) = if contains n ns then false else distinct ns

-- The order of `sort_unstable` on texts, by their bytes.
unfoldable pub leb_text : String → String → Bool
leb_text s t = elim (compare s t) [ Ordering.gt ↦ false | _ ↦ true ]

insert_sorted : String → List String → List String
insert_sorted x [] = x ∷ []
insert_sorted x (n ∷ ns) = if leb_text x n then x ∷ n ∷ ns else n ∷ insert_sorted x ns

-- `names.sort_unstable()`
unfoldable pub sort : List String → List String
unfolding insert_sorted leb_text
sort [] = []
sort (n ∷ ns) = insert_sorted n (sort ns)

-- `names.dedup()`: of equal neighbours the first stays
unfoldable pub dedup : List String → List String
dedup [] = []
dedup (n ∷ []) = n ∷ []
dedup (n ∷ m ∷ ns) = let rest = dedup (m ∷ ns) in if n == m then rest else n ∷ rest

contains-insert_sorted :
    (x y : String) (ns : List String) → contains x (insert_sorted y ns) ≡ (y == x || contains x ns)
unfolding contains insert_sorted
contains-insert_sorted x y [] = refl
contains-insert_sorted x y (n ∷ ns) = ground (arith, contains-insert_sorted x y ns, leb_text y n)

pub contains-sort : (x : String) (ns : List String) → contains x (sort ns) ≡ contains x ns
unfolding contains sort
contains-sort x [] = refl
contains-sort x (n ∷ ns) = ground (arith, contains-insert_sorted x n (sort ns), contains-sort x ns)

pub contains-dedup : (x : String) (ns : List String) → contains x (dedup ns) ≡ contains x ns
unfolding contains dedup
contains-dedup x [] = refl
contains-dedup x (n ∷ []) = refl
contains-dedup x (n ∷ m ∷ ns) = ground (arith, contains-dedup x (m ∷ ns), eq_iff n m)
