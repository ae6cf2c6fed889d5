-- ===== src/App/Decision.antt =====
-- RoutingDecision and its parts. The formatted reasons of the code are constructors that hold what
-- is formatted; `text` is a message that an adapter or an error supplies.
use orchestrator_cli.Common.{String, Option, List}
use orchestrator_cli.Common.Int.{ℤ}

pub record HardwareSelection (F : Type 0) : Type 0 where
  pub provider : String
  pub shape_id : String
  pub region : String
  pub machine_type : String
  pub accelerator_type : String
  pub accelerator_count : ℤ
  pub gpu_family : String
  pub total_vram_gb : ℤ
  pub hourly_usd : F

pub data Reason (F : Type 0) : Type 0 where
  text : String → Reason F
  excluded : Reason F
  bundle_unsupported : String → Reason F
  uri_unsupported : String → String → Reason F
  resume_unsupported : String → String → Reason F
  missing_id : Reason F
  vram_below : ℤ → F → Reason F
  too_many_gpus : ℤ → ℤ → Reason F
  vram_per_gpu_below : ℤ → ℤ → Reason F
  family_not_allowed : String → Reason F
  region_not_allowed : String → Reason F
  no_on_demand : Reason F
  spot_not_allowed : Reason F
  missing_price : Reason F
  availability : String → Reason F
  over_budget : F → F → Reason F
  shape_mismatch : Reason F
  machine_mismatch : Reason F
  region_mismatch : Reason F

pub record RoutingCandidate (F : Type 0) : Type 0 where
  pub provider : String
  pub score : F
  pub reasons : List (Reason F)

pub record HardwareCandidate (F : Type 0) : Type 0 where
  pub provider : String
  pub shape_id : String
  pub score : F
  pub reasons : List (Reason F)

pub record RoutingDecision (F : Type 0) : Type 0 where
  pub run_id : String
  pub selected_provider : String
  pub objective : String
  pub selection_reason : String
  pub eligible_providers : List (RoutingCandidate F)
  pub rejected_providers : List (RoutingCandidate F)
  pub selected_hardware : Option (HardwareSelection F)
  pub eligible_hardware : List (HardwareCandidate F)
  pub rejected_hardware : List (HardwareCandidate F)
  pub estimated_required_vram_gb : Option F
  pub estimated_runtime_seconds : Option F
  pub estimated_total_cost_usd : Option F
  pub confidence : String
