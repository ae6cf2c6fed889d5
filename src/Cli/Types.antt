-- ===== src/Cli/Types.antt =====
-- What internal/cli/root.go takes and returns, and what it asks of the components that are not
-- modelled.
use orchestrator_cli.Common.{ℕ, String, Bool, Option, List}
use orchestrator_cli.Common.Int.{ℤ, pos}
use orchestrator_cli.App.{JobSpec, DataManifest, DataInput, CheckpointRef}
use orchestrator_cli.App.Runs.{ProviderResource}
use orchestrator_cli.App.Errors.{Error, Result}
use orchestrator_cli.App.Decision.{HardwareSelection}
use orchestrator_cli.Routing.Types.{Options, SelectError}
use orchestrator_cli.State.Decisions.{DecisionJson}
use orchestrator_cli.State.World.{Platform}
use orchestrator_cli.Checkpoint.{Event}

abbrev pub exit_code_internal : ℤ
exit_code_internal = pos 1

abbrev pub exit_code_invalid_spec : ℤ
exit_code_invalid_spec = pos 10

abbrev pub exit_code_routing : ℤ
exit_code_routing = pos 30

abbrev pub exit_code_missing_resume : ℤ
exit_code_missing_resume = pos 40

abbrev pub exit_code_canceled : ℤ
exit_code_canceled = pos 130

pub record SubmitRequest (F : Type 0) : Type 0 where
  pub job_spec : JobSpec
  pub run_id : String
  pub attempt_id : String
  pub resume_from : Option CheckpointRef
  pub selected_hardware : Option (HardwareSelection F)
  pub runtime_env : List (String × String)

pub record SubmitResult : Type 0 where
  pub provider_job_ref : String
  pub exit_code : ℤ
  pub exit_reason : String

-- A call of an adapter's Submit: it ends with a result and an error, or it calls OnStarted, or
-- OnResourceCreated or OnResourceUpdated, and goes on with the callback's error. While it runs, a
-- `cancel` command in another process can write its two rows: those of the attempt and of the run.
pub data Submission : Type 0 where
  finished : SubmitResult → Option Error → Submission
  on_started : String → (Option Error → Submission) → Submission
  on_resource : ProviderResource → (Option Error → Submission) → Submission
  attempt_canceled : String → ℕ → Submission → Submission
  run_canceled : ℕ → Submission → Submission

-- the part of config.ResolvedTrainConfig that the attempts read; `options` is what routingOptions
-- copies from it, with nothing excluded and no checkpoint
pub record TrainConfig (F : Type 0) : Type 0 where
  pub provider : String
  pub max_attempts : ℤ
  pub options : Options F

-- encoding/json on the decisions, redact.FromEnvironment(...).String and redact.SanitizeURI, runtimeprep.PrepareLocal,
-- runtimeEnvForProvider, Submit of the adapter with a name, the text of the error of routing.Select,
-- and, by the number of readings before, event.ReadJSONL and artifact.WriteSummary
pub record Surroundings (F : Type 0) : Type 0 where
  pub platform : Platform
  pub redact : List (String × String) → String → String
  pub decision_json : DecisionJson F
  pub sanitize_uri : String → String
  pub prepare_local : JobSpec → DataManifest → Result JobSpec
  pub runtime_env : String → String → String → List DataInput → List (String × String)
  pub submit : String → SubmitRequest F → Submission
  pub select_error : SelectError F → Error
  pub read_events : ℕ → Result (List Event)
  pub write_summary_file : ℕ → Option Error

-- `(int, bool, error)` of runAttempt
pub record AttemptExit : Type 0 where
  pub code : ℤ
  pub retryable : Bool
  pub error : Option Error

-- `(int, error)` of runAttempts
pub record RunExit : Type 0 where
  pub code : ℤ
  pub error : Option Error
