-- ===== src/HashMap/Laws.antt =====
-- The laws of the map, each in a form without a side condition.
use unified_api.Prelude.{
  Option, Option-cases, String, [], arith, contains, distinct, eq_iff, eq_refl, false,
  if◌then◌else◌, inl, inr, map_or, none, refl, some, true, unwrap_or, ◌==◌, ◌∙◌, ◌∷◌, ◌≡◌,
}
use unified_api.HashMap.{
  HashMap, collect, contains_key, extend, get, insert, keys, map_values, modify, or_insert, remove,
  upsert,
}
use mathlib.Core.Option

module _ {ℓ} {V : Type ℓ} where
  pub get-insert :
      (j k : String) (v : V) (m : HashMap V)
      → get j (insert k v m) ≡ (if k == j then some v else get j m)
  unfolding get insert
  get-insert j k v [] = refl
  get-insert j k v ((i, w) ∷ m) =
      ground (arith, eq_iff k j, eq_iff i k, eq_iff i j, get-insert j k v m)

  pub get-remove :
      (j k : String) (m : HashMap V) → get j (remove k m) ≡ (if k == j then none else get j m)
  unfolding get remove
  get-remove j k [] = ground arith
  get-remove j k ((i, w) ∷ m) = ground (arith, eq_iff k j, eq_iff i k, eq_iff i j, get-remove j k m)

  pub get-modify :
      (j k : String) (f : V → V) (m : HashMap V)
      → get j (modify k f m) ≡ (if k == j then Option.map f (get j m) else get j m)
  unfolding get modify
  get-modify j k f [] = ground arith
  get-modify j k f ((i, w) ∷ m) =
      ground (arith, eq_iff k j, eq_iff i k, eq_iff i j, get-modify j k f m)

  pub get-upsert :
      (j k : String) (d : V) (f : V → V) (m : HashMap V)
      → get j (upsert k d f m) ≡ (if k == j then some (f (unwrap_or (get k m) d)) else get j m)
  unfolding upsert
  get-upsert j k d f m = get-insert j k (f (unwrap_or (get k m) d)) m

  pub get-upsert_same :
      (k : String) (d : V) (f : V → V) (m : HashMap V)
      → get k (upsert k d f m) ≡ some (f (unwrap_or (get k m) d))
  get-upsert_same k d f m = get-upsert k k d f m ∙ rw (eq_refl k) refl

  pub get-map_values :
      (j : String) (f : String → V → V) (m : HashMap V)
      → get j (map_values f m) ≡ Option.map (f j) (get j m)
  unfolding get map_values
  get-map_values j f [] = refl
  get-map_values j f ((i, w) ∷ m) = ground (arith, eq_iff i j, get-map_values j f m)

  -- A key is listed exactly when it is bound.
  pub contains-keys : (k : String) (m : HashMap V) → contains k (keys m) ≡ contains_key k m
  unfolding get contains
  contains-keys k [] = refl
  contains-keys k ((i, w) ∷ m) = ground (arith, contains-keys k m)

module _ {ℓ} {V : Type ℓ} where
  pub get-extend :
      (j : String) (m other : HashMap V)
      → get j (extend m other) ≡ map_or (get j m) some (get j other)
  unfolding get extend
  get-extend j m [] = refl
  get-extend j m ((k, v) ∷ other) =
      ground (arith, get-insert j k v (extend m other), get-extend j m other)

module _ {ℓ κ} {A : Type ℓ} {B : Type κ} (f : A → Option B) (j : String) where
  get-collect_absent : (m : HashMap A) → contains j (keys m) ≡ false → get j (collect f m) ≡ none
  unfolding get contains collect
  get-collect_absent [] h = refl
  get-collect_absent ((k, a) ∷ m) h =
      elim (f a)
        as (λ o. get j (elim o [ none ↦ collect f m | some b ↦ insert k b (collect f m) ]) ≡ none) [
          | none ↦ get-collect_absent m (ground arith)
          | some b ↦
              ground (arith, get-insert j k b (collect f m), get-collect_absent m, eq_iff k j)
        ]

  -- Where no key stands twice, each binding is kept exactly if `f` takes its value.
  pub get-collect :
      (m : HashMap A) → distinct (keys m) ≡ true → get j (collect f m) ≡ Option.bind (get j m) f
  unfolding get contains distinct collect Option.bind
  get-collect [] h = refl
  get-collect ((k, a) ∷ m) h = elim (Option-cases (f a)) [
    | inl e ↦ ground (arith, get-collect_absent m, get-collect m, eq_iff k j)
    | inr (b, e) ↦
        ground
          (arith, get-insert j k b (collect f m), get-collect_absent m, get-collect m, eq_iff k j)
  ]

-- A map that gives every key of another a value binds the same keys.
pub contains_key-collect {ℓ κ} :
    {A : Type ℓ} {B : Type κ} (b : B) (j : String) (m : HashMap A)
    → contains_key j (collect (λ _. some b) m) ≡ contains_key j m
unfolding get collect
contains_key-collect b j [] = refl
contains_key-collect b j ((k, a) ∷ m) =
    ground
      (arith, get-insert j k b (collect (λ _. some b) m), contains_key-collect b j m, eq_iff k j)

pub get-or_insert {ℓ} :
    {A : Type ℓ}
    → (j k : String) (v : A) (m : HashMap A)
    → get j (or_insert k v m)
      ≡ (if contains_key j m then get j m else if k == j then some v else none)
unfolding or_insert
get-or_insert j k v m = ground (arith, get-insert j k v m, eq_iff k j, Option-cases (get k m))

-- No key stands twice in a map.
pub distinct-insert {ℓ} :
    {V : Type ℓ} (k : String) (v : V) (m : HashMap V)
    → distinct (keys m) ≡ true
    → distinct (keys (insert k v m)) ≡ true
unfolding distinct contains insert
distinct-insert k v [] h = refl
distinct-insert k v ((j, w) ∷ m) h = ground (
  arith,
  h,
  distinct-insert k v m,
  contains-keys j (insert k v m),
  contains-keys j m,
  get-insert j k v m,
  eq_iff j k,
  eq_iff k j,
)
