-- ===== src/Tests/Secrets.antt =====
-- The properties of the credentials that a connector is handed.
use unified_api.HashMap
use unified_api.HashMap.{HashMap, keys}
use unified_api.Credentials.{
  Secrets, count_fields, deliver, deliver_all, deliver_field, deliver_fields, fetch, holders_of,
  resolve_credentials, unseen,
}
use unified_api.Credentials.Unmixed.{resolve_credentials_lem}
use unified_api.Prelude.{
  String, [], contains, distinct, ok, ok-injective, refl, some, subst, true, ◌+++◌, ◌∷◌, ◌≡◌, ◌⊎◌,
}

abbrev account : HashMap String
account = ("user", "root") ∷ ("password", "secret") ∷ []

-- a backend with the same account under every identity
abbrev secrets : Secrets
secrets = record {
  resolve = λ _. ok account;
  delivery_id = λ id. id;
  variable_part = λ name. name;
  to_uppercase = λ name. name;
}

-- two credentials with the same fields: each under its own name only
abbrev handed : HashMap String
handed =
    ("db_user", "root")
    ∷ ("db_password", "secret")
    ∷ ("api_user", "root")
    ∷ ("api_password", "secret")
    ∷ []

resolve_credentials_lem_example :
    (◌≡◌ {A = String} "root" "root")
    × ((id : String) × ((field : String) × (contains id ("db" ∷ "api" ∷ []) ≡ true)
          × (("db_user" ≡ field) ⊎ ("db_user" ≡ (id +++ "_") +++ field))
          × ((fields : HashMap String) × (secrets.resolve id ≡ ok fields)
              × (HashMap.get field fields ≡ some "root"))))
unfolding resolve_credentials unseen fetch deliver_all deliver_fields deliver_field deliver
    holders_of count_fields HashMap.get HashMap.insert HashMap.upsert contains distinct
resolve_credentials_lem_example =
    resolve_credentials_lem secrets ("db" ∷ "api" ∷ []) handed "db_user" "db_user" "root" "root"
      (λ id fields p. subst (λ m. distinct (keys m) ≡ true) (ok-injective p) refl) refl refl refl
      refl
