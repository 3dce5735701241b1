-- ===== src/HashMap.antt =====
-- The standard library's `HashMap<String, V>`: an association list. An insertion replaces in place
-- or adds at the end; the order of the entries stands for the iteration order, which the program
-- does not rely on.
pub mod Laws
use unified_api.Prelude.{
  Bool, List, Option, String, [], if◌then◌else◌, is_some, map, none, some, unwrap_or, ◌==◌, ◌∷◌,
}

abbrev pub HashMap {ℓ} : Type ℓ → Type ℓ
HashMap V = List (String × V)

module _ {ℓ} {V : Type ℓ} where
  -- `m.get(k)`
  unfoldable pub get : String → HashMap V → Option V
  get k [] = none
  get k ((j, v) ∷ m) = if j == k then some v else get k m

  abbrev pub contains_key : String → HashMap V → Bool
  contains_key k m = is_some (get k m)

  -- `m.insert(k, v)`
  unfoldable pub insert : String → V → HashMap V → HashMap V
  insert k v [] = (k, v) ∷ []
  insert k v ((j, w) ∷ m) = if j == k then (j, v) ∷ m else (j, w) ∷ insert k v m

  -- `m.remove(k)`
  unfoldable pub remove : String → HashMap V → HashMap V
  remove k [] = []
  remove k ((j, v) ∷ m) = let rest = remove k m in if j == k then rest else (j, v) ∷ rest

  -- `if let Some(v) = m.get_mut(k) { *v = f(v) }`
  unfoldable pub modify : String → (V → V) → HashMap V → HashMap V
  modify k f [] = []
  modify k f ((j, v) ∷ m) = if j == k then (j, f v) ∷ modify k f m else (j, v) ∷ modify k f m

  -- `*m.entry(k).or_insert(d) = f(..)`
  unfoldable pub upsert : String → V → (V → V) → HashMap V → HashMap V
  upsert k d f m = insert k (f (unwrap_or (get k m) d)) m

  -- `for (k, v) in m.iter_mut() { *v = f(k, v) }`
  unfoldable pub map_values : (String → V → V) → HashMap V → HashMap V
  map_values f [] = []
  map_values f ((j, v) ∷ m) = (j, f j v) ∷ map_values f m

  -- `for (k, v) in other { m.insert(k, v) }`, also `m.extend(other)`. The order in which a map is
  -- walked is not specified: here the last entry comes first.
  unfoldable pub extend : HashMap V → HashMap V → HashMap V
  extend m [] = m
  extend m ((k, v) ∷ other) = insert k v (extend m other)

  -- `m.keys()`
  abbrev pub keys : HashMap V → List String
  keys = map (λ e. e.0)

-- `m.into_iter().filter_map(|(k, a)| f(a).map(|b| (k, b))).collect()`
unfoldable pub collect {ℓ κ} : {A : Type ℓ} {B : Type κ} → (A → Option B) → HashMap A → HashMap B
collect f [] = []
collect f ((k, a) ∷ m) =
    let rest = collect f m in elim (f a) [ none ↦ rest | some b ↦ insert k b rest ]

-- `entry(k).or_insert(v)`
unfoldable pub or_insert {ℓ} : {A : Type ℓ} → String → A → HashMap A → HashMap A
or_insert k v m = if contains_key k m then m else insert k v m
