-- ===== src/Json.antt =====
-- `serde_json::Value` and its `Map`, as far as the program uses them. A number is held as the text
-- that JSON writes for it. An object and a `HostVars` hold the same entries: `fields` and
-- `entries` go from one to the other.
use unified_api.Prelude.{
  String, ◌≡◌, refl, ap, Bool, true, false, Option, none, some, List, [], ◌∷◌,
}
use unified_api.HashMap.{HashMap}

mutual
  pub data Value : Type 0 where
    null : Value
    boolean : Bool → Value
    number : String → Value
    string : String → Value
    array : Items → Value
    object : Fields → Value

  pub data Items : Type 0 where
    nil : Items
    item : Value → Items → Items

  pub data Fields : Type 0 where
    end : Fields
    field : String → Value → Fields → Fields

unfoldable pub entries : Fields → HashMap Value
entries end = []
entries (field k v fs) = (k, v) ∷ entries fs

unfoldable pub fields : HashMap Value → Fields
fields [] = end
fields ((k, v) ∷ m) = field k v (fields m)

unfoldable pub items : Items → List Value
items nil = []
items (item v is) = v ∷ items is

pub entries-fields : (m : HashMap Value) → entries (fields m) ≡ m
unfolding entries fields
entries-fields [] = refl
entries-fields ((k, v) ∷ m) = ap (◌∷◌ (k, v)) (entries-fields m)

pub fields-entries : (fs : Fields) → fields (entries fs) ≡ fs
unfolding entries fields
fields-entries end = refl
fields-entries (field k v fs) = ap (field k v) (fields-entries fs)

-- `value.as_object()`
unfoldable pub as_object : Value → Option (HashMap Value)
as_object (object fs) = some (entries fs)
as_object _ = none

abbrev pub is_object : Value → Bool
is_object (object _) = true
is_object _ = false

-- `value.as_str()`
abbrev pub as_str : Value → Option String
as_str (string s) = some s
as_str _ = none
