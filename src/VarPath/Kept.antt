-- ===== src/VarPath/Kept.antt =====
-- What is kept of the variables.
use unified_api.HashMap
use unified_api.Json.{Fields, Value, as_object, entries, entries-fields, object}
use unified_api.VarPath.Dropped.{lookup-nameless}
use unified_api.VarPath.{
  VarPath, insert_path, keep_below, keep_loop, keep_path, keep_paths, lookup, value_at,
}
use unified_api.HashMap.Laws.{get-insert, get-upsert, get-upsert_same}
use unified_api.Dataset.{HostVars}
use unified_api.Prelude.{
  Bool-cases, List, Option-cases, String, [], ap, eq_iff, eq_refl, false, inl, inr, is_empty,
  map_or, none, refl, some, sym, ◌==◌, ◌∙◌, ◌∷◌, ◌≡◌,
}

abbrev nothing : Value
nothing = object Fields.end

-- What is inserted below an empty object is found there, whatever the depth.
value_at-insert_path :
    (path : List String) (value : Value)
    → is_empty path ≡ false
    → value_at path (insert_path path value (object Fields.end)) ≡ some value
unfolding insert_path value_at as_object entries HashMap.get
value_at-insert_path [] value h = absurd cc
value_at-insert_path (s ∷ []) value h =
    let there : HashMap.get s (HashMap.insert s value []) ≡ some value =
      get-insert s s value [] ∙ rw (eq_refl s) refl in
    ap (map_or none some) (ap (HashMap.get s) (entries-fields (HashMap.insert s value [])) ∙ there)
value_at-insert_path (s ∷ next ∷ rest) value h =
    ap (map_or none (value_at (next ∷ rest))) (
      ap (HashMap.get s)
        (entries-fields (HashMap.upsert s nothing (insert_path (next ∷ rest) value) []))
      ∙ get-upsert_same s nothing (insert_path (next ∷ rest) value) [])
    ∙ value_at-insert_path (next ∷ rest) value refl

-- a path that leads to a value below a variable has not the variable's name
text-root :
    (path : VarPath) (vars : HostVars) (value : Value)
    → HashMap.get path.text vars ≡ none
    → lookup vars path ≡ some value
    → (path.root == path.text) ≡ false
unfolding lookup
text-root path vars value e found = elim (Bool-cases (path.root == path.text)) [
  | inr f ↦ f
  | inl f ↦
      let same : path.root ≡ path.text = (eq_iff path.root path.text).0 f in
      let absent : HashMap.get path.root vars ≡ none = ap (λ n. HashMap.get n vars) same ∙ e in
      let gone : none ≡ some value = sym (rw (lookup, e, absent) refl) ∙ found in absurd cc
]

lookup-empty : (path : VarPath) → lookup [] path ≡ none
unfolding lookup HashMap.get
lookup-empty path = refl

lookup-named :
    (path : VarPath) (vars : HostVars) (value : Value)
    → HashMap.get path.text vars ≡ some value
    → lookup vars path ≡ some value
unfolding lookup
lookup-named path vars value e = rw (lookup, e) refl

-- what is kept below a root is found there
lookup-keep_below :
    (path : VarPath) (value : Value)
    → is_empty path.rest ≡ false
    → (path.root == path.text) ≡ false
    → lookup (keep_below path value []) path ≡ some value
unfolding keep_below HashMap.get
lookup-keep_below path value dotted other =
    let out = HashMap.upsert path.root nothing (insert_path path.rest value) [] in
    let unnamed : HashMap.get path.text out ≡ none =
      get-upsert path.text path.root nothing (insert_path path.rest value) [] ∙ rw other refl in
    let there : HashMap.get path.root out ≡ some (insert_path path.rest value nothing) =
      get-upsert_same path.root nothing (insert_path path.rest value) [] in
    let made : keep_below path value [] ≡ out = refl in
    ap (λ m. lookup m path) made
    ∙ lookup-nameless path out unnamed
    ∙ ap (map_or none (value_at path.rest)) there
    ∙ value_at-insert_path path.rest value dotted

-- A dotted path that is kept alone leads to what it led to.
pub keep_paths_lem :
    (path : VarPath) (vars : HostVars)
    → is_empty path.rest ≡ false
    → lookup (keep_paths vars (path ∷ [])) path ≡ lookup vars path
unfolding keep_paths keep_loop keep_path
keep_paths_lem path vars dotted = elim (Option-cases (HashMap.get path.text vars)) [
  | inr (v, e) ↦
      let kept : keep_path vars path [] ≡ HashMap.insert path.text v [] = rw (keep_path, e) refl in
      ap (λ m. lookup m path) kept
      ∙ lookup-named path (HashMap.insert path.text v []) v
          (get-insert path.text path.text v [] ∙ rw (eq_refl path.text) refl)
      ∙ sym (lookup-named path vars v e)
  | inl e ↦ elim (Option-cases (lookup vars path)) [
    | inl f ↦
        let kept : keep_path vars path [] ≡ [] = rw (keep_path, e, f) refl in
        ap (λ m. lookup m path) kept ∙ lookup-empty path ∙ sym f
    | inr (value, f) ↦
        let kept : keep_path vars path [] ≡ keep_below path value [] = rw (keep_path, e, f) refl in
        ap (λ m. lookup m path) kept
        ∙ lookup-keep_below path value dotted (text-root path vars value e f)
        ∙ sym f
  ]
]
