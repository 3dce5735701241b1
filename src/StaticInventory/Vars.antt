-- ===== src/StaticInventory/Vars.antt =====
-- domain/static_inventory.rs: the files of variables.
use Prim.Native.Char.{code}
use text.Mathlib.Text.{starts_with}
use unified_api.HashMap
use unified_api.HashMap.{HashMap}
use unified_api.Dataset.{HostVars}
use unified_api.Json.{Value, entries}
use unified_api.Prelude.{
  Bool, List, Result, String, [], err, if◌then◌else◌, leb, map_err, nat_eq, ok, ℕ, ◌&&◌, ◌+++◌,
  ◌>>=◌, ◌||◌, ◌∷◌,
}

-- `yaml_vars`: null is no variables
unfoldable pub yaml_vars : Value → Result HostVars
yaml_vars Value.null = ok []
yaml_vars (Value.object fs) = ok (HashMap.extend [] (entries fs))
yaml_vars _ = err "vars must be a mapping"

-- `char::is_whitespace`
unfoldable pub is_whitespace : ℕ → Bool
is_whitespace c =
    (leb 9 c && leb c 13)
    || nat_eq c 32
    || nat_eq c 133
    || nat_eq c 160
    || nat_eq c 5760
    || (leb 8192 c && leb c 8202)
    || nat_eq c 8232
    || nat_eq c 8233
    || nat_eq c 8239
    || nat_eq c 8287
    || nat_eq c 12288

-- `text.trim_start()`
unfoldable pub trim_start : String → String
trim_start String.[] = ""
trim_start (String.◌∷◌ c rest) =
    let trimmed = trim_start rest in if is_whitespace (code c) then trimmed else String.◌∷◌ c rest

unfoldable pub check_not_vaulted : String → String → Result {0} Unit
check_not_vaulted what contents =
    if starts_with (trim_start contents) "$ANSIBLE_VAULT"
    then err (what +++ " is ansible-vault encrypted — unified-api cannot decrypt it")
    else ok tt

-- one file
unfoldable pub read_part : (String → Result Value) → String → String → String → Result HostVars
read_part to_json kind label contents =
    let place = kind +++ "/" +++ label in
    check_not_vaulted place contents >>= λ _.
    map_err (λ e. place +++ " is not valid YAML: " +++ e) (to_json contents) >>= λ value.
    map_err (λ e. place +++ ": " +++ e) (yaml_vars value)

-- the files of one name, a later one over an earlier
unfoldable pub merge_parts :
    (String → Result Value) → String → HostVars → List (String × String) → Result HostVars
merge_parts to_json kind vars [] = ok vars
merge_parts to_json kind vars ((label, contents) ∷ parts) =
    read_part to_json kind label contents >>= λ file_vars.
    merge_parts to_json kind (HashMap.extend vars file_vars) parts

unfoldable pub parse_vars_files :
    (String → Result Value) → String → HashMap (List (String × String)) → Result (HashMap HostVars)
parse_vars_files to_json kind [] = ok []
parse_vars_files to_json kind ((name, parts) ∷ files) =
    merge_parts to_json kind [] parts >>= λ vars.
    parse_vars_files to_json kind files >>= λ parsed. ok (HashMap.insert name vars parsed)
