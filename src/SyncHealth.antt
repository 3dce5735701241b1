-- ===== src/SyncHealth.antt =====
-- domain/sync_health.rs: what became of the last attempts of each id, and the runs it has had. An
-- instant is a number of nanoseconds; the two maps stand for the two mutexes' contents.
pub mod Streak
pub mod History
use Prim.Native.String.{len, slice}
use text.Mathlib.Text.{is_char_boundary}
use mathlib.Core.Option
use unified_api.HashMap
use unified_api.HashMap.{HashMap}
use unified_api.Prelude.{
  List, Option, String, [], if◌then◌else◌, ltb, none, some, suc, take, unwrap_or, zero, ℕ, ◌+++◌,
  ◌+◌, ◌-◌, ◌^◌, ◌∷◌,
}
use unified_api.CacheEntry.{as_secs, elapsed}

pub record SyncHealth : Type 0 where
  pub last_attempt_age_seconds : Option ℕ
  pub last_success_age_seconds : Option ℕ
  pub last_error : Option String
  pub consecutive_failures : ℕ

pub data RunTrigger : Type 0 where
  scheduled manual refresh startup : RunTrigger

unfoldable pub name : RunTrigger → String
name scheduled = "scheduled"
name manual = "manual"
name refresh = "refresh"
name startup = "startup"

pub record RunRecord : Type 0 where
  pub started_at : ℕ
  pub duration_ms : ℕ
  pub trigger : RunTrigger
  pub by : Option String
  pub scope : Option String
  pub error : Option String
  pub hosts : Option ℕ
  pub groups : Option ℕ
  pub revision_before : Option String
  pub revision : Option String

-- `HISTORY`, `HISTORY_ERROR`
abbrev pub history_size : ℕ
history_size = 50

abbrev pub history_error : ℕ
history_error = 2000

pub record Record : Type 0 where
  pub last_attempt : ℕ
  pub last_success : Option ℕ
  pub last_error : Option String
  pub consecutive_failures : ℕ

pub record SyncHealthRegistry : Type 0 where
  pub inner : HashMap Record
  pub runs : HashMap (List RunRecord)

-- `SyncHealthRegistry::new`
abbrev pub empty_registry : SyncHealthRegistry
empty_registry = record { inner = []; runs = [] }

unfoldable pub record_success : ℕ → String → SyncHealthRegistry → SyncHealthRegistry
record_success now source_id r = record r {
  inner =
      HashMap.insert source_id
        (record {
          last_attempt = now;
          last_success = some now;
          last_error = none;
          consecutive_failures = 0;
        })
        r.inner;
}

-- `u32::saturating_add(1)`
unfoldable pub saturating_suc : ℕ → ℕ
saturating_suc n = if ltb (n + 1) (2 ^ 32) then n + 1 else 2 ^ 32 - 1

unfoldable pub failed : ℕ → String → Record → Record
failed now error entry = record {
  last_attempt = now;
  last_success = entry.last_success;
  last_error = some error;
  consecutive_failures = saturating_suc entry.consecutive_failures;
}

unfoldable pub record_failure : ℕ → String → String → SyncHealthRegistry → SyncHealthRegistry
record_failure now source_id error r = record r {
  inner =
      HashMap.upsert source_id
        (record {
          last_attempt = now;
          last_success = none;
          last_error = none;
          consecutive_failures = 0;
        })
        (failed now error) r.inner;
}

-- one record in the answer of `get`
unfoldable pub health_of : ℕ → Record → SyncHealth
health_of now rec = record {
  last_attempt_age_seconds = some (as_secs (elapsed now rec.last_attempt));
  last_success_age_seconds = Option.map (λ at. as_secs (elapsed now at)) rec.last_success;
  last_error = rec.last_error;
  consecutive_failures = rec.consecutive_failures;
}

unfoldable pub health : ℕ → String → SyncHealthRegistry → Option SyncHealth
health now source_id r = Option.map (health_of now) (HashMap.get source_id r.inner)

-- `while !error.is_char_boundary(cut) { cut -= 1 }`
unfoldable pub char_floor : ℕ → String → ℕ
char_floor zero error = 0
char_floor (suc cut) error =
    let rest = char_floor cut error in if is_char_boundary error (suc cut) then suc cut else rest

-- an error kept in the history: the whole of it, or its beginning and an ellipsis
unfoldable pub shorten : String → String
shorten error =
    if ltb history_error (len error)
    then slice error 0 (char_floor history_error error) +++ "…"
    else error

unfoldable pub kept_run : RunRecord → RunRecord
kept_run run = record run { error = Option.map shorten run.error }

unfoldable pub record_run : String → RunRecord → SyncHealthRegistry → SyncHealthRegistry
record_run id run r = record r {
  runs = HashMap.upsert id [] (λ runs. take history_size (kept_run run ∷ runs)) r.runs;
}

unfoldable pub history : String → SyncHealthRegistry → List RunRecord
history id r = unwrap_or (HashMap.get id r.runs) []
