-- ===== src/Credentials.antt =====
-- application/credentials.rs: what a connector is handed of the credentials that its source names.
-- The secrets backend, and the naming of secrets_rs, are parameters.
pub mod Unmixed
use Prim.Native.String.{len}
use text.Mathlib.Text.{starts_with}
use unified_api.HashMap
use unified_api.HashMap.{HashMap}
use unified_api.Prelude.{
  List, Result, String, [], contains, err, if◌then◌else◌, ltb, nat_eq, none, not, ok, some,
  unwrap_or, ℕ, ◌&&◌, ◌+++◌, ◌+◌, ◌==◌, ◌>>=◌, ◌||◌, ◌∷◌,
}

pub record Secrets : Type 0 where
  -- `SecretsPort::resolve`: a credential's fields
  pub resolve : String → Result (HashMap String)
  -- `delivery_id` and `variable_part` of secrets_rs, `str::to_uppercase`
  pub delivery_id : String → String
  pub variable_part : String → String
  pub to_uppercase : String → String

-- `.filter(|id| seen.insert(id))`
unfoldable pub unseen : List String → List String → List String
unseen seen [] = []
unseen seen (id ∷ ids) =
    let rest = unseen (id ∷ seen) ids in if contains id seen then unseen seen ids else id ∷ rest

-- the first loop: the first error ends it
unfoldable pub fetch : Secrets → List String → Result (List (String × HashMap String))
fetch secrets [] = ok []
fetch secrets (id ∷ ids) =
    let rest = fetch secrets ids in
    elim (secrets.resolve id) [
      | err message ↦ err ("credential '" +++ id +++ "': " +++ message)
      | ok fields ↦ rest >>= λ others. ok ((id, fields) ∷ others)
    ]

unfoldable pub count_fields : Secrets → HashMap String → HashMap ℕ → HashMap ℕ
count_fields secrets [] holders = holders
count_fields secrets ((field, _) ∷ fields) holders =
    count_fields secrets fields
      (HashMap.upsert (secrets.variable_part field) 0 (λ n. n + 1) holders)

-- how many credentials have a field of each variable
unfoldable pub holders_of : Secrets → List (String × HashMap String) → HashMap ℕ → HashMap ℕ
holders_of secrets [] holders = holders
holders_of secrets ((_, fields) ∷ resolved) holders =
    holders_of secrets resolved (count_fields secrets fields holders)

-- the two maps that the deliveries build: from a variable to the credential and the field that reach
-- it, and from a name to the value
pub record Delivered : Type 0 where
  pub origin : HashMap (String × String)
  pub all : HashMap String

-- `deliver`
unfoldable pub deliver : Secrets → String → String → String → String → Delivered → Result Delivered
deliver secrets name value credential_id field d =
    let variable = secrets.variable_part name in
    let delivered : Delivered = record {
      origin = HashMap.insert variable (credential_id, field) d.origin;
      all = HashMap.insert name value d.all;
    } in
    elim (HashMap.get variable d.origin) [
      | none ↦ ok delivered
      | some (other, other_field) ↦
          if not (other == credential_id) || not (other_field == field)
          then err (
              "credentials '"
              +++ other
              +++ "' (field '"
              +++ other_field
              +++ "') and '"
              +++ credential_id
              +++ "' (field '"
              +++ field
              +++ "') would both reach the connector as CREDENTIAL_"
              +++ secrets.to_uppercase variable
              +++ " — rename one of the fields")
          else ok delivered
    ]

-- one field of one credential
unfoldable pub deliver_field :
    Secrets → HashMap ℕ → String → String → String → Delivered → Result Delivered
deliver_field secrets holders credential_id field value d =
    let prefix = secrets.delivery_id credential_id +++ "_" in
    let variable = secrets.variable_part field in
    let unshared = nat_eq (unwrap_or (HashMap.get variable holders) 0) 1 in
    let hand_made = unshared && ltb (len prefix) (len variable) && starts_with variable prefix in
    if hand_made
    then deliver secrets field value credential_id field d
    else (deliver secrets (prefix +++ field) value credential_id field d >>= λ d'.
        if unshared then deliver secrets field value credential_id field d' else ok d')

unfoldable pub deliver_fields :
    Secrets → HashMap ℕ → String → HashMap String → Delivered → Result Delivered
deliver_fields secrets holders credential_id [] d = ok d
deliver_fields secrets holders credential_id ((field, value) ∷ fields) d =
    deliver_field secrets holders credential_id field value d
    >>= deliver_fields secrets holders credential_id fields

unfoldable pub deliver_all :
    Secrets → HashMap ℕ → List (String × HashMap String) → Delivered → Result Delivered
deliver_all secrets holders [] d = ok d
deliver_all secrets holders ((credential_id, fields) ∷ resolved) d =
    deliver_fields secrets holders credential_id fields d >>= deliver_all secrets holders resolved

unfoldable pub resolve_credentials : Secrets → List String → Result (HashMap String)
resolve_credentials secrets credential_ids =
    fetch secrets (unseen [] credential_ids) >>= λ resolved.
    deliver_all secrets (holders_of secrets resolved []) resolved (record { origin = []; all = [] })
    >>= λ d. ok d.all
