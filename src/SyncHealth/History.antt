-- ===== src/SyncHealth/History.antt =====
-- The history of an id: bounded, the newest run first, and its errors cut on a character.
use Prim.Native.String.{len, slice}
use text.Mathlib.Text.{is_char_boundary}
use text.Mathlib.TextPositions.{boundary-zero, len-append}
use unified_api.HashMap
use unified_api.HashMap.{HashMap}
use unified_api.HashMap.{HashMap}
use unified_api.Prelude.{
  Bool-cases, List, String, [], ap, arith, eq_iff, if◌then◌else◌, inl, inr, refl, suc, take, true,
  unwrap_or, zero, ℕ, ◌+◌, ◌==◌, ◌∙◌, ◌∷◌, ◌≡◌, ◌≤◌,
}
use unified_api.HashMap.Laws.{get-upsert, get-upsert_same}
use unified_api.SyncHealth.{
  RunRecord, SyncHealthRegistry, char_floor, empty_registry, history, history_error, history_size,
  kept_run, record_run, shorten,
}

-- the runs of any ids, the latest first
unfoldable pub record_runs : List (String × RunRecord) → SyncHealthRegistry → SyncHealthRegistry
record_runs [] r = r
record_runs ((id, run) ∷ past) r = record_run id run (record_runs past r)

-- the runs of the one id, as they are kept
unfoldable pub runs_of : String → List (String × RunRecord) → List RunRecord
runs_of id [] = []
runs_of id ((j, run) ∷ past) =
    let rest = runs_of id past in if j == id then kept_run run ∷ rest else rest

take-take-suc {ℓ} : {A : Type ℓ} (n : ℕ) (xs : List A) → take n (take (suc n) xs) ≡ take n xs
take-take-suc zero xs = refl
take-take-suc (suc n) [] = refl
take-take-suc (suc n) (y ∷ ys) = ap (λ r. y ∷ r) (take-take-suc n ys)

-- A bounded list that grows at its front stays the beginning of the whole.
take-cons_take {ℓ} :
    {A : Type ℓ} (n : ℕ) (x : A) (xs : List A) → take n (x ∷ take n xs) ≡ take n (x ∷ xs)
take-cons_take zero x xs = refl
take-cons_take (suc n) x xs = ap (λ r. x ∷ r) (take-take-suc n xs)

-- Whatever runs have been recorded, of this id and of others, the history of an id is its own last
-- fifty, the newest first.
pub history-record_runs :
    (id : String) (past : List (String × RunRecord))
    → history id (record_runs past empty_registry) ≡ take history_size (runs_of id past)
unfolding history record_runs record_run runs_of HashMap.get
history-record_runs id [] = refl
history-record_runs id ((j, run) ∷ past) = elim (Bool-cases (j == id)) [
  | inl e ↦ rw e (
      rw ((eq_iff j id).0 e) (
        ap (λ o. unwrap_or o [])
          (get-upsert_same id [] (λ runs. take history_size (kept_run run ∷ runs)) before)
        ∙ ap (λ runs. take history_size (kept_run run ∷ runs)) (history-record_runs id past)
        ∙ take-cons_take history_size (kept_run run) (runs_of id past)))
  | inr e ↦
      ap (λ o. unwrap_or o [])
        (get-upsert id j [] (λ runs. take history_size (kept_run run ∷ runs)) before)
      ∙ rw e (history-record_runs id past)
]
  where
    before : HashMap (List RunRecord)
    before = (record_runs past empty_registry).runs

char_floor-IsBoundary :
    (n : ℕ) (error : String) → is_char_boundary error (char_floor n error) ≡ true
unfolding char_floor
char_floor-IsBoundary zero error = boundary-zero error
char_floor-IsBoundary (suc n) error = ground (arith, char_floor-IsBoundary n error)

char_floor-le : (n : ℕ) (error : String) → char_floor n error ≤ n
unfolding char_floor
char_floor-le zero error = omega arith
char_floor-le (suc n) error = ground (arith, char_floor-le n error)

len-boundary : (s : String) (i : ℕ) → is_char_boundary s i ≡ true → len (slice s 0 i) ≡ i
len-boundary s i h = ground (arith, h)

-- An error in the history has at most the bytes that are allowed and those of the ellipsis.
pub len-shorten-le : (error : String) → len (shorten error) ≤ history_error + 3
unfolding shorten
len-shorten-le error = ground (
  arith,
  len-append (slice error 0 (char_floor history_error error)) "…",
  len-boundary error (char_floor history_error error) (char_floor-IsBoundary history_error error),
  char_floor-le history_error error,
)
