-- ===== src/Sync.antt =====
-- application/sync.rs: what a sync asks for, what a connector answers (ports/connector.rs), and what
-- becomes of it.
pub mod Apply
pub mod Retained
pub mod Scoped
pub mod Completeness
pub mod Created
pub mod Run
pub mod Coordinator
pub mod Coalescing
pub mod Config
pub mod Failure
pub mod Service
pub mod Recorded
use unified_api.HashMap.{HashMap}
use unified_api.Prelude.{
  Bool, List, Option, String, false, is_some, join, none, not, some, true, ℕ, ◌+++◌,
}
use unified_api.Dataset.{Dataset}
use unified_api.Source.{ScopeClaim}
use unified_api.SyncHealth.{RunTrigger, manual}

pub data SyncScope : Type 0 where
  full : SyncScope
  of_hosts : List String → SyncScope
  of_group : String → SyncScope

-- `SyncScope::label`
unfoldable pub label : SyncScope → String
label full = "full"
label (of_hosts hosts) = "host:" +++ join "," hosts
label (of_group group) = "group:" +++ group

pub record SyncRequest : Type 0 where
  pub scope : SyncScope
  pub refresh_origin : Bool
  pub refresh_depth : ℕ
  pub trigger : Option String
  pub run_trigger : RunTrigger
  pub by : Option String

-- `SyncRequest::new`
abbrev pub plain : SyncScope → SyncRequest
plain scope = record {
  scope = scope;
  refresh_origin = false;
  refresh_depth = 0;
  trigger = none;
  run_trigger = manual;
  by = none;
}

-- `SyncRequest::refreshing_origin`
abbrev pub refreshing_origin : SyncScope → ℕ → SyncRequest
refreshing_origin scope depth = record (plain scope) {
  refresh_origin = true;
  refresh_depth = depth;
}

pub record DatasetAges : Type 0 where
  pub dataset_age_seconds : ℕ
  pub host_ages : HashMap ℕ

pub record ConnectorOutput : Type 0 where
  pub dataset : Dataset
  pub ages : Option DatasetAges
  pub unreachable : List String
  pub advertised_scope : Option ScopeClaim

pub record SyncOutcome : Type 0 where
  pub scope : String
  pub total_hosts : ℕ
  pub total_groups : ℕ
  pub duration_ms : ℕ
  pub error : Option String
  pub coalesced : Bool

abbrev pub success : SyncOutcome → Bool
success outcome = not (is_some outcome.error)

-- `SyncOutcome::failed`
abbrev pub failed : String → ℕ → String → SyncOutcome
failed scope duration_ms error = record {
  scope = scope;
  total_hosts = 0;
  total_groups = 0;
  duration_ms = duration_ms;
  error = some error;
  coalesced = false;
}
