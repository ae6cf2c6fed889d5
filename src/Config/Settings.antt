-- ===== src/Config/Settings.antt =====
-- The sections of the configuration file that are not about one cloud (internal/config/config.go). A
-- pointer that is nil is `none`; a key that the file leaves out has Go's zero value.
use orchestrator_cli.Common.{String, Bool, Option, List}
use orchestrator_cli.Common.Int.{ℤ}
use orchestrator_cli.App.{DataInput, HardwareShape}

pub record BundleConfig : Type 0 where
  pub max_size_mb : ℤ
  pub require_override_above_limit : Bool

pub record JobConfig : Type 0 where
  pub name : String
  pub script : String
  pub image : String
  pub command : List String
  pub args : List String
  pub env : List (String × String)
  pub work_dir : String

pub record DataConfig : Type 0 where
  pub inputs : List DataInput
  pub bundle : BundleConfig

pub record PackagingConfig : Type 0 where
  pub dockerfile : String
  pub context : String
  pub image : String
  pub platform : String

pub record StagingConfig : Type 0 where
  pub checkpoint_uri_prefix : String
  pub data_uri_prefix : String

pub record BudgetConfig (F : Type 0) : Type 0 where
  pub max_run_cost_usd : F

pub record RoutingConfig (F : Type 0) : Type 0 where
  pub mode : String
  pub objective : String
  pub budget : BudgetConfig F
  pub max_attempts : ℤ

pub record SizingProbeConfig : Type 0 where
  pub command : List String
  pub output : String

pub record SizingHintsConfig (F : Type 0) : Type 0 where
  pub required_vram_gb : F
  pub dataset_size_gb : F
  pub model_parameters_b : F
  pub model_artifact_gb : F
  pub batch_size : ℤ
  pub gradient_accumulation_steps : ℤ
  pub precision : String
  pub optimizer : String
  pub sequence_length : ℤ
  pub image_width : ℤ
  pub image_height : ℤ
  pub expected_steps : ℤ

pub record SizingConfig (F : Type 0) : Type 0 where
  pub probe : SizingProbeConfig
  pub hints : SizingHintsConfig F

pub record HardwareConstraintsConfig : Type 0 where
  pub max_gpus : ℤ
  pub allowed_gpu_families : List String
  pub min_vram_gb_per_gpu : ℤ
  pub regions : List String
  pub allow_spot : Bool
  pub require_on_demand : Bool

pub record ManualHardwareConfig : Type 0 where
  pub provider : String
  pub shape_id : String
  pub machine_type : String
  pub region : String

pub record HardwareConfig : Type 0 where
  pub constraints : HardwareConstraintsConfig
  pub manual : ManualHardwareConfig

pub record MockEventConfig (F : Type 0) : Type 0 where
  pub type : String
  pub step : Option ℤ
  pub split : String
  pub state : String
  pub checkpoint_uri : String
  pub message : String
  pub metrics : List (String × F)

pub record MockProviderConfig (F : Type 0) : Type 0 where
  pub name : String
  pub hourly_cost : F
  pub failure_mode : String
  pub hardware_shapes : List (HardwareShape F)
  pub events : List (MockEventConfig F)

pub record MockConfig (F : Type 0) : Type 0 where
  pub providers : List (MockProviderConfig F)
