-- ===== src/SyncHealth/Streak.antt =====
-- What the health of an id says after any sequence of attempts, of this id and of others.
use mathlib.Core.Option
use unified_api.HashMap
use unified_api.HashMap.{HashMap}
use unified_api.HashMap.Laws.{get-insert, get-upsert, get-upsert_same}
use unified_api.Prelude.{
  Bool-cases, List, Option, Option-cases, String, [], ap, arith, eq_iff, eq_refl, if◌then◌else◌,
  inl, inr, min, none, refl, some, suc, unwrap_or, ℕ, ◌-◌, ◌==◌, ◌^◌, ◌∙◌, ◌∷◌, ◌≡◌,
}
use unified_api.CacheEntry.{as_secs, elapsed}
use unified_api.SyncHealth.{
  Record, SyncHealth, SyncHealthRegistry, empty_registry, failed, health, health_of, record_failure,
  record_success, saturating_suc,
}

-- An attempt at some id, with the time at which it ended: it succeeded, or failed with an error.
pub data Attempt : Type 0 where
  succeeded : ℕ → String → Attempt
  failed_with : ℕ → String → String → Attempt

unfoldable pub note : Attempt → SyncHealthRegistry → SyncHealthRegistry
note (succeeded now id) r = record_success now id r
note (failed_with now id error) r = record_failure now id error r

-- the latest first
unfoldable pub note_all : List Attempt → SyncHealthRegistry → SyncHealthRegistry
note_all [] r = r
note_all (a ∷ past) r = note a (note_all past r)

unfoldable pub id_of : Attempt → String
id_of (succeeded _ id) = id
id_of (failed_with _ id _) = id

-- how many attempts at the id have failed since it last succeeded
unfoldable pub failures : String → List Attempt → ℕ
failures id [] = 0
failures id (succeeded _ j ∷ past) = let rest = failures id past in if j == id then 0 else rest
failures id (failed_with _ j _ ∷ past) =
    let rest = failures id past in if j == id then suc rest else rest

-- when the id last succeeded
unfoldable pub success : String → List Attempt → Option ℕ
success id [] = none
success id (succeeded now j ∷ past) =
    let rest = success id past in if j == id then some now else rest
success id (failed_with _ _ _ ∷ past) = success id past

-- what the last attempt at the id reported: nothing if there was none, or its time and its error
unfoldable pub last : String → List Attempt → Option (ℕ × Option String)
last id [] = none
last id (succeeded now j ∷ past) =
    let rest = last id past in if j == id then some (now, none) else rest
last id (failed_with now j error ∷ past) =
    let rest = last id past in if j == id then some (now, some error) else rest

-- the health that such a history of attempts has
abbrev pub expected : ℕ → String → List Attempt → Option SyncHealth
expected now id past =
    Option.map
      (λ l. record {
        last_attempt_age_seconds = some (as_secs (elapsed now l.0));
        last_success_age_seconds = Option.map (λ at. as_secs (elapsed now at)) (success id past);
        last_error = l.1;
        consecutive_failures = min (failures id past) (2 ^ 32 - 1);
      })
      (last id past)

abbrev record_after : String → List Attempt → Option Record
record_after id past =
    Option.map
      (λ l. record {
        last_attempt = l.0;
        last_success = success id past;
        last_error = l.1;
        consecutive_failures = min (failures id past) (2 ^ 32 - 1);
      })
      (last id past)

never :
    (id : String) (past : List Attempt)
    → last id past ≡ none
    → (failures id past ≡ 0) × (success id past ≡ none)
unfolding last failures success
never id [] h = (refl, refl)
never id (succeeded now j ∷ past) h = ground (arith, h, never id past)
never id (failed_with now j error ∷ past) h = ground (arith, h, never id past)

saturate : (n : ℕ) → saturating_suc (min n (2 ^ 32 - 1)) ≡ min (suc n) (2 ^ 32 - 1)
unfolding saturating_suc
saturate n = ground arith

-- the record that a first failure starts from
abbrev never_succeeded : ℕ → Record
never_succeeded now = record {
  last_attempt = now;
  last_success = none;
  last_error = none;
  consecutive_failures = 0;
}

-- one more failure of the id itself
failed_again :
    (now : ℕ) (id error : String) (past : List Attempt)
    → some (
        failed now error (
          unwrap_or (record_after id past) (record {
            last_attempt = now;
            last_success = none;
            last_error = none;
            consecutive_failures = 0;
          })))
      ≡ record_after id (failed_with now id error ∷ past)
unfolding last failures success failed
failed_again now id error past = elim (Option-cases (last id past)) [
  | inl e ↦
      let (none_yet, no_success) = never id past e in
      rw (e, no_success, none_yet) (ground (arith, eq_refl id, saturate 0))
  | inr (l, e) ↦ rw e (ground (arith, eq_refl id, saturate (failures id past)))
]

note_all_lem :
    (id : String) (past : List Attempt)
    → HashMap.get id (note_all past empty_registry).inner ≡ record_after id past
unfolding note_all note record_success record_failure last failures success HashMap.get
note_all_lem id [] = refl
note_all_lem id (succeeded now j ∷ past) = ground (
  arith,
  note_all_lem id past,
  get-insert id j
      (record {
        last_attempt = now;
        last_success = some now;
        last_error = none;
        consecutive_failures = 0;
      })
      (note_all past empty_registry).inner,
  eq_iff j id,
)
note_all_lem id (failed_with now j error ∷ past) = elim (Bool-cases (j == id)) [
  | inl e ↦ rw ((eq_iff j id).0 e) (
      get-upsert_same id (never_succeeded now) (failed now error) before
      ∙ ap (λ o. some (failed now error (unwrap_or o (never_succeeded now)))) (note_all_lem id past)
      ∙ failed_again now id error past)
  | inr e ↦
      get-upsert id j (never_succeeded now) (failed now error) before ∙ rw e (note_all_lem id past)
]
  where
    before : HashMap Record
    before = (note_all past empty_registry).inner

-- After any attempts, at this id and at others, the health of an id is that of its own attempts:
-- the age and the error of the last one, the age of the last success, which failures keep, and the
-- number of failures since, which stops at the greatest u32.
pub health-note_all :
    (now : ℕ) (id : String) (past : List Attempt)
    → health now id (note_all past empty_registry) ≡ expected now id past
unfolding health health_of
health-note_all now id past =
    ap (Option.map (health_of now)) (note_all_lem id past)
    ∙ elim (Option-cases (last id past)) [ inl e ↦ rw e refl | inr (l, e) ↦ rw e refl ]
