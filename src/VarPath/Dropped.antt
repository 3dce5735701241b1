-- ===== src/VarPath/Dropped.antt =====
-- What a path leads to after a path has been removed.
use mathlib.Core.Option
use unified_api.HashMap
use unified_api.HashMap.{HashMap, contains_key}
use unified_api.HashMap.Laws.{get-modify, get-remove}
use unified_api.Dataset.{HostVars}
use unified_api.Prelude.{
  sym, Bool, Bool-cases, List, Option, Option-cases, String, [], ap, arith, eq_iff, false,
  if◌then◌else◌, inl, inr, is_empty, map_or, none, not, refl, some, true, ◌&&◌, ◌==◌, ◌∙◌, ◌∷◌, ◌≡◌,
}
use unified_api.Json.{
  Value, array, as_object, boolean, entries, entries-fields, null, number, object, string,
}
use unified_api.VarPath.{VarPath, drop_path, lookup, on_object, remove_path, value_at}

as_object-on_object :
    (f : HashMap Value → HashMap Value) (v : Value)
    → as_object (on_object f v) ≡ Option.map f (as_object v)
unfolding as_object
as_object-on_object f null = refl
as_object-on_object f (boolean _) = refl
as_object-on_object f (number _) = refl
as_object-on_object f (string _) = refl
as_object-on_object f (array _) = refl
as_object-on_object f (object fs) = ap some (entries-fields (f (entries fs)))

-- One path goes through, or to, what the other leads to.
unfoldable pub related : List String → List String → Bool
related [] q = true
related (s ∷ p) [] = true
related (s ∷ p) (t ∷ q) = s == t && related p q

-- one path is the other, or leads below it
unfoldable pub reaches : List String → List String → Bool
reaches [] q = true
reaches (s ∷ p) [] = false
reaches (s ∷ p) (t ∷ q) = s == t && reaches p q

get-option :
    (k : String) (o : Option (HashMap Value)) (f : HashMap Value → HashMap Value)
    → map_or none (HashMap.get k) (Option.map f o) ≡ map_or none (λ m. HashMap.get k (f m)) o
get-option k none f = refl
get-option k (some m) f = refl

-- a step into an object that is changed
value_at-on_object :
    (f : HashMap Value → HashMap Value) (t : String) (q : List String) (v : Value)
    → value_at (t ∷ q) (on_object f v)
      ≡ map_or none (value_at q) (map_or none (λ m. HashMap.get t (f m)) (as_object v))
unfolding value_at
value_at-on_object f t q v =
    ap (λ o. map_or none (value_at q) (map_or none (HashMap.get t) o)) (as_object-on_object f v)
    ∙ ap (map_or none (value_at q)) (get-option t (as_object v) f)

removed :
    (p q : List String) (v : Value)
    → is_empty p ≡ false
    → reaches p q ≡ true
    → value_at q (remove_path p v) ≡ none
unfolding remove_path reaches value_at
removed [] q v h r = absurd (ground (arith, h))
removed (s ∷ p) [] v h r = absurd (ground (arith, r))
removed (s ∷ []) (t ∷ q) v h r =
    value_at-on_object (HashMap.remove s) t q v ∙ elim (Option-cases (as_object v)) [
      | inl e ↦ rw e refl
      | inr (m, e) ↦
          let gone : HashMap.get t (HashMap.remove s m) ≡ none =
            ground (arith, r, get-remove t s m, eq_iff s t) in
          rw (e, gone) refl
    ]
removed (s ∷ next ∷ p) (t ∷ q) v h r =
    value_at-on_object (HashMap.modify s (remove_path (next ∷ p))) t q v
    ∙ elim (Option-cases (as_object v)) [
      | inl e ↦ rw e refl
      | inr (m, e) ↦ elim (Option-cases (HashMap.get t m)) [
        | inl f ↦
            let there : HashMap.get t (HashMap.modify s (remove_path (next ∷ p)) m) ≡ none =
              get-modify t s (remove_path (next ∷ p)) m ∙ ground (arith, f, r) in
            rw (e, there) refl
        | inr (c, f) ↦
            let there : HashMap.get t (HashMap.modify s (remove_path (next ∷ p)) m)
                ≡ some (remove_path (next ∷ p) c) =
              get-modify t s (remove_path (next ∷ p)) m ∙ ground (arith, f, r) in
            rw (e, there) (removed (next ∷ p) q c refl (ground (arith, r)))
      ]
    ]

untouched :
    (p q : List String) (v : Value)
    → related p q ≡ false
    → value_at q (remove_path p v) ≡ value_at q v
unfolding remove_path related value_at
untouched [] q v r = absurd (ground (arith, r))
untouched (s ∷ p) [] v r = absurd (ground (arith, r))
untouched (s ∷ []) (t ∷ q) v r =
    value_at-on_object (HashMap.remove s) t q v ∙ elim (Option-cases (as_object v)) [
      | inl e ↦ rw e refl
      | inr (m, e) ↦
          let kept : HashMap.get t (HashMap.remove s m) ≡ HashMap.get t m =
            ground (arith, r, get-remove t s m, eq_iff s t) in
          rw (e, kept) refl
    ]
untouched (s ∷ next ∷ p) (t ∷ q) v r =
    value_at-on_object (HashMap.modify s (remove_path (next ∷ p))) t q v
    ∙ elim (Option-cases (as_object v)) [
      | inl e ↦ rw e refl
      | inr (m, e) ↦
          let found = get-modify t s (remove_path (next ∷ p)) m in
          elim (Bool-cases (s == t)) [
            | inr f ↦
                let kept : HashMap.get t (HashMap.modify s (remove_path (next ∷ p)) m)
                    ≡ HashMap.get t m =
                  found ∙ rw f refl in
                rw (e, kept) refl
            | inl f ↦ elim (Option-cases (HashMap.get t m)) [
              | inl g ↦
                  let there : HashMap.get t (HashMap.modify s (remove_path (next ∷ p)) m) ≡ none =
                    found ∙ rw (f, g) refl in
                  rw (e, there, g) refl
              | inr (c, g) ↦
                  let there : HashMap.get t (HashMap.modify s (remove_path (next ∷ p)) m)
                      ≡ some (remove_path (next ∷ p) c) =
                    found ∙ rw (f, g) refl in
                  rw (e, there, g) (untouched (next ∷ p) q c (ground (arith, r, f)))
            ]
          ]
    ]

-- the path with its root
abbrev whole : VarPath → List String
whole path = path.root ∷ path.rest

same_branches : {A : Type 0} → (b : Bool) (x : A) → (if b then x else x) ≡ x
same_branches true x = refl
same_branches false x = refl

-- below the roots
dropped_below :
    (path other : VarPath) (vars : HostVars)
    → is_empty path.rest ≡ false
    → (related (whole path) (whole other) && not (reaches (whole path) (whole other))) ≡ false
    → map_or none
        (value_at other.rest)
        (HashMap.get other.root (HashMap.modify path.root (remove_path path.rest) vars))
      ≡ (if reaches (whole path) (whole other)
          then none
          else map_or none (value_at other.rest) (HashMap.get other.root vars))
unfolding related reaches
dropped_below path other vars c d =
    let found = get-modify other.root path.root (remove_path path.rest) vars in
    elim (Bool-cases (path.root == other.root)) [
      | inr f ↦
          let kept : HashMap.get other.root (HashMap.modify path.root (remove_path path.rest) vars)
              ≡ HashMap.get other.root vars =
            found ∙ rw f refl in
          rw (kept, f) refl
      | inl f ↦ elim (Option-cases (HashMap.get other.root vars)) [
        | inl g ↦
            let there : HashMap.get other.root
                  (HashMap.modify path.root (remove_path path.rest) vars)
                ≡ none =
              found ∙ rw (f, g) refl in
            rw (there, f, g) (sym (same_branches (reaches path.rest other.rest) none))
        | inr (v, g) ↦
            let there : HashMap.get other.root
                  (HashMap.modify path.root (remove_path path.rest) vars)
                ≡ some (remove_path path.rest v) =
              found ∙ rw (f, g) refl in
            rw (there, f, g)
              (elim (Bool-cases (reaches path.rest other.rest)) [
                | inl r ↦ rw r (removed path.rest other.rest v c r)
                | inr r ↦
                    let apart : related path.rest other.rest ≡ false = ground (arith, d, f, r) in
                    rw r (untouched path.rest other.rest v apart)
              ])
      ]
    ]

-- a path that is no variable's name as it stands
pub lookup-nameless :
    (other : VarPath) (vars : HostVars)
    → HashMap.get other.text vars ≡ none
    → lookup vars other ≡ map_or none (value_at other.rest) (HashMap.get other.root vars)
unfolding lookup
lookup-nameless other vars e = rw (lookup, e) refl

drop_path-below :
    (path : VarPath) (vars : HostVars)
    → contains_key path.text vars ≡ false
    → is_empty path.rest ≡ false
    → drop_path path vars ≡ HashMap.modify path.root (remove_path path.rest) vars
unfolding drop_path
drop_path-below path vars a c = rw (a, c) refl

-- Dropping a dotted path, where neither it nor the path looked up is a variable's name as it
-- stands: it and every path below it are found no more, and every path that neither leads below it
-- nor above it finds what it found.
pub drop_path_lem :
    (path other : VarPath) (vars : HostVars)
    → contains_key path.text vars ≡ false
    → contains_key other.text vars ≡ false
    → is_empty path.rest ≡ false
    → (related (whole path) (whole other) && not (reaches (whole path) (whole other))) ≡ false
    → lookup (drop_path path vars) other
      ≡ (if reaches (whole path) (whole other) then none else lookup vars other)
drop_path_lem path other vars a b c d =
    let changed = HashMap.modify path.root (remove_path path.rest) vars in
    let nameless : HashMap.get other.text vars ≡ none =
      ground (arith, b, Option-cases (HashMap.get other.text vars)) in
    let still : HashMap.get other.text changed ≡ none =
      get-modify other.text path.root (remove_path path.rest) vars
      ∙ rw nameless (same_branches (path.root == other.text) none) in
    let before : lookup (drop_path path vars) other
        ≡ map_or none (value_at other.rest) (HashMap.get other.root changed) =
      ap (λ m. lookup m other) (drop_path-below path vars a c)
      ∙ lookup-nameless other changed still in
    before
    ∙ dropped_below path other vars c d
    ∙ ap (λ o. if reaches (whole path) (whole other) then none else o)
        (sym (lookup-nameless other vars nameless))
