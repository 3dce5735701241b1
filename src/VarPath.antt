-- ===== src/VarPath.antt =====
-- domain/var_path.rs: dotted paths into host variables. A path is given with its text and with the
-- segments that its dots part it into, of which there is one at least.
pub mod Dropped
pub mod Kept
use mathlib.Core.Option
use unified_api.HashMap
use unified_api.HashMap.{HashMap, contains_key}
use unified_api.Prelude.{
  Bool, List, Option, String, [], false, if◌then◌else◌, is_empty, is_some, map_or, none, not, some,
  ◌&&◌, ◌∷◌,
}
use unified_api.Json.{Fields, Value, as_object, entries, fields, is_object, object}
use unified_api.Dataset.{HostVars}

pub record VarPath : Type 0 where
  pub text : String
  pub root : String
  pub rest : List String

-- the loop of `lookup`
unfoldable pub value_at : List String → Value → Option Value
value_at [] value = some value
value_at (segment ∷ rest) value =
    map_or none (value_at rest) (map_or none (HashMap.get segment) (as_object value))

unfoldable pub lookup : HostVars → VarPath → Option Value
lookup vars path = elim (HashMap.get path.text vars) [
  | some value ↦ some value
  | none ↦ map_or none (value_at path.rest) (HashMap.get path.root vars)
]

-- a change of the object that a value is, and no change of any other value
abbrev pub on_object : (HashMap Value → HashMap Value) → Value → Value
on_object f (object fs) = object (fields (f (entries fs)))
on_object f value = value

unfoldable pub remove_path : List String → Value → Value
remove_path [] value = value
remove_path (segment ∷ []) value = on_object (HashMap.remove segment) value
remove_path (segment ∷ next ∷ rest) value =
    on_object (HashMap.modify segment (remove_path (next ∷ rest))) value

-- one path of `drop_paths`
unfoldable pub drop_path : VarPath → HostVars → HostVars
drop_path path vars =
    if contains_key path.text vars
    then HashMap.remove path.text vars
    else if is_empty path.rest
    then vars
    else HashMap.modify path.root (remove_path path.rest) vars

unfoldable pub drop_paths : List VarPath → HostVars → HostVars
drop_paths [] vars = vars
drop_paths (path ∷ paths) vars = drop_paths paths (drop_path path vars)

unfoldable pub insert_path : List String → Value → Value → Value
insert_path [] value target = target
insert_path (segment ∷ []) value target = on_object (HashMap.insert segment value) target
insert_path (segment ∷ next ∷ rest) value target =
    on_object (HashMap.upsert segment (object Fields.end) (insert_path (next ∷ rest) value)) target

-- a path that is no variable's name, and leads to a value
unfoldable pub keep_below : VarPath → Value → HostVars → HostVars
keep_below path value out =
    if map_or false (λ v. not (is_object v)) (HashMap.get path.root out)
    then out
    else HashMap.upsert path.root (object Fields.end) (insert_path path.rest value) out

-- one path of `keep_paths`
unfoldable pub keep_path : HostVars → VarPath → HostVars → HostVars
keep_path vars path out = elim (HashMap.get path.text vars) [
  | some value ↦ HashMap.insert path.text value out
  | none ↦ map_or out (λ value. keep_below path value out) (lookup vars path)
]

unfoldable pub keep_loop : HostVars → List VarPath → HostVars → HostVars
keep_loop vars [] out = out
keep_loop vars (path ∷ paths) out = keep_loop vars paths (keep_path vars path out)

unfoldable pub keep_paths : HostVars → List VarPath → HostVars
keep_paths vars paths = keep_loop vars paths []

-- `fields` and `exclude_fields`
pub record VarSelect : Type 0 where
  pub keep : Option (List VarPath)
  pub drop : List VarPath

abbrev pub drops_nothing : VarSelect → Bool
drops_nothing select = is_empty select.drop

abbrev pub is_identity : VarSelect → Bool
is_identity select = not (is_some select.keep) && drops_nothing select

-- `VarSelect::host`, `VarSelect::group_vars`
abbrev pub host : VarSelect → HostVars → HostVars
host select vars = drop_paths select.drop (map_or vars (keep_paths vars) select.keep)

abbrev pub group_vars : VarSelect → HostVars → HostVars
group_vars select vars = drop_paths select.drop vars
