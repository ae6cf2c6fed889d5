-- ===== src/App/Runs.antt =====
-- Runs, attempts and provider resources of internal/app/types.go. A time is `none` when it is Go's
-- zero time; the code compares times and never reads their parts, so an instant is a number.
use orchestrator_cli.Common.{ℕ, String, Bool, Option, List}
use orchestrator_cli.Common.Int.{ℤ}

abbrev pub Time : Type 0
Time = Option ℕ

pub data RunState : Type 0 where
  running succeeded failed canceled : RunState

pub data AttemptState : Type 0 where
  running succeeded failed canceled : AttemptState

pub record Run : Type 0 where
  pub id : String
  pub job_name : String
  pub script : String
  pub image : String
  pub provider : String
  pub state : RunState
  pub started_at : Time
  pub ended_at : Time
  pub exit_code : ℤ
  pub error : String

pub record Attempt (F : Type 0) : Type 0 where
  pub id : String
  pub run_id : String
  pub provider : String
  pub state : AttemptState
  pub started_at : Time
  pub ended_at : Time
  pub exit_code : ℤ
  pub exit_reason : String
  pub provider_ref : String
  pub resume_from_uri : String
  pub resume_from_step : Option ℤ
  pub estimated_hourly_usd : Option F
  pub estimate_currency : String

pub data ProviderResourceKind : Type 0 where
  custom_job instance_kind : ProviderResourceKind

pub data ProviderResourceState : Type 0 where
  creating booting running succeeded failed canceled terminating terminated unknown :
      ProviderResourceState

pub data ProviderResourceCleanupPolicy : Type 0 where
  always on_success on_failure never : ProviderResourceCleanupPolicy

pub record ProviderResource : Type 0 where
  pub id : String
  pub run_id : String
  pub attempt_id : String
  pub provider : String
  pub kind : ProviderResourceKind
  pub external_id : String
  pub provider_ref : String
  pub region : String
  pub project_or_account : String
  pub state : ProviderResourceState
  pub created_by_switchboard : Bool
  pub cleanup_policy : ProviderResourceCleanupPolicy
  pub metadata : List (String × String)
  pub created_at : Time
  pub updated_at : Time
  pub last_observed_at : Time

-- ProviderJobStatus; a resource state of "" is `none`
pub record ProviderJobStatus : Type 0 where
  pub state : AttemptState
  pub resource_state : Option ProviderResourceState
