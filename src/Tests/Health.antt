-- ===== src/Tests/Health.antt =====
-- The properties of the sync health registry.
use Prim.Native.String.{len}
use unified_api.CacheEntry.{as_secs}
use unified_api.Prelude.{List, [], none, some, ℕ, ◌∷◌, ◌≡◌, ◌≤◌}
use unified_api.SyncHealth.{
  RunRecord, empty_registry, health, history, kept_run, scheduled, shorten,
}
use unified_api.SyncHealth.Streak.{
  Attempt, failed_with, failures, health-note_all, last, note_all, succeeded, success,
}
use unified_api.SyncHealth.History.{history-record_runs, len-shorten-le, record_runs, runs_of}

-- Two failures of one source after a success, with another source between, the latest first.
abbrev attempts : List Attempt
attempts =
    failed_with 9000000000 "lab" "exit 1"
    ∷ succeeded 8000000000 "estate"
    ∷ failed_with 7000000000 "lab" "refused"
    ∷ succeeded 2000000000 "lab"
    ∷ []

health-note_all_example :
    health 10000000000 "lab" (note_all attempts empty_registry)
    ≡ some (record {
      last_attempt_age_seconds = some 1;
      last_success_age_seconds = some 8;
      last_error = some "exit 1";
      consecutive_failures = 2;
    })
unfolding last as_secs success failures
health-note_all_example = health-note_all 10000000000 "lab" attempts

abbrev run_at : ℕ → RunRecord
run_at at = record {
  started_at = at;
  duration_ms = 10;
  trigger = scheduled;
  by = none;
  scope = some "full";
  error = none;
  hosts = none;
  groups = none;
  revision_before = none;
  revision = none;
}

history-record_runs_example :
    history "lab" (record_runs (("lab", run_at 2) ∷ ("estate", run_at 1) ∷ []) empty_registry)
    ≡ run_at 2 ∷ []
unfolding runs_of kept_run
history-record_runs_example =
    history-record_runs "lab" (("lab", run_at 2) ∷ ("estate", run_at 1) ∷ [])

len-shorten-le_example : len (shorten "refused") ≤ 2003
len-shorten-le_example = len-shorten-le "refused"
