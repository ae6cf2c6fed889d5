-- ===== src/Routing/Types.antt =====
-- The options, the candidates and the adapters of internal/routing/routing.go and
-- internal/provider/registry.go.
use orchestrator_cli.Common.{String, Bool, Option, List}
use orchestrator_cli.Common.Int.{ℤ}
use orchestrator_cli.App.{
  JobSpec, CheckpointRef, SupportReport, CostEstimate, ProviderCapabilities, HardwareShape,
}
use orchestrator_cli.App.Errors.{Result}
use orchestrator_cli.App.Decision.{RoutingCandidate, HardwareCandidate}

pub record SizingHints (F : Type 0) : Type 0 where
  pub required_vram_gb : F
  pub model_parameters_b : F
  pub model_artifact_gb : F
  pub batch_size : ℤ
  pub gradient_accumulation_steps : ℤ
  pub precision : String
  pub optimizer : String
  pub expected_steps : ℤ

pub record HardwareConstraints : Type 0 where
  pub max_gpus : ℤ
  pub allowed_gpu_families : List String
  pub min_vram_gb_per_gpu : ℤ
  pub regions : List String
  pub allow_spot : Bool
  pub require_on_demand : Bool

pub record ManualHardware : Type 0 where
  pub provider : String
  pub shape_id : String
  pub machine_type : String
  pub region : String

-- `exclude` holds the keys of the map whose value is true.
pub record Options (F : Type 0) : Type 0 where
  pub mode : String
  pub objective : String
  pub exclude : List String
  pub budget_max_run_cost_usd : F
  pub sizing : SizingHints F
  pub hardware : HardwareConstraints
  pub manual_hardware : ManualHardware
  pub resume_from : Option CheckpointRef

pub record ProviderCandidate (F : Type 0) : Type 0 where
  pub provider : String
  pub score : F
  pub capabilities : ProviderCapabilities F

pub record HardwareScoredCandidate (F : Type 0) : Type 0 where
  pub provider : String
  pub shape : HardwareShape F
  pub runtime_seconds : F
  pub total_cost_usd : F

-- the answers of a provider's adapter during one selection
pub record ProviderAdapter (F : Type 0) : Type 0 where
  pub name : String
  pub capabilities : Result (ProviderCapabilities F)
  pub validate_job : JobSpec → SupportReport
  pub estimate : JobSpec → Result (CostEstimate F)

-- the errors that the selection itself makes
pub data SelectError (F : Type 0) : Type 0 where
  no_eligible_providers : List (RoutingCandidate F) → SelectError F
  no_eligible_hardware : List (HardwareCandidate F) → SelectError F
  sizing_required : SelectError F
  no_manual_match : SelectError F
