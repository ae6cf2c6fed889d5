-- ===== src/App.antt =====
-- internal/app/types.go: the data that the components exchange.
-- `float64` is the parameter `F`, a Go map is an association list, a nil pointer is `none`.
pub mod Errors
pub mod Runs
pub mod Decision
use orchestrator_cli.Common.{String, Bool, Option, List}
use orchestrator_cli.Common.Int.{ℤ}

abbrev pub provider_local : String
provider_local = "local"

abbrev pub provider_auto : String
provider_auto = "auto"

abbrev pub mode_bundle : String
mode_bundle = "bundle"

abbrev pub mode_uri : String
mode_uri = "uri"

pub record DataInput : Type 0 where
  pub name : String
  pub source : String
  pub mount : String
  pub mode : String

pub record DataManifest : Type 0 where
  pub inputs : List DataInput
  pub bundle_size_bytes : ℤ
  pub requires_large_bundle_override : Bool
  pub bundle_size_limit_bytes : ℤ
  pub large_bundle_override_permitted : Bool

pub record JobSpec : Type 0 where
  pub name : String
  pub script : String
  pub image : String
  pub command : List String
  pub args : List String
  pub env : List (String × String)
  pub inputs : List DataInput
  pub work_dir : String

pub record CheckpointRef : Type 0 where
  pub uri : String
  pub step : ℤ

pub record SupportReport : Type 0 where
  pub supported : Bool
  pub reasons : List String

pub record HardwareShape (F : Type 0) : Type 0 where
  pub id : String
  pub provider : String
  pub region : String
  pub zones : List String
  pub machine_type : String
  pub accelerator_type : String
  pub accelerator_count : ℤ
  pub gpu_family : String
  pub vram_gb_per_gpu : ℤ
  pub total_vram_gb : ℤ
  pub on_demand_hourly_usd : F
  pub spot_hourly_usd : F
  pub supports_on_demand : Bool
  pub supports_spot : Bool
  pub max_runtime_hours : Option ℤ
  pub availability_hint : String
  pub availability_reason : String
  pub quota_metric : String
  pub quota_limit : F
  pub quota_usage : F
  pub quota_available : F

pub record ProviderCapabilities (F : Type 0) : Type 0 where
  pub gpu_families : List String
  pub regions : List String
  pub hardware_shapes : List (HardwareShape F)
  pub supports_spot : Bool
  pub supports_on_demand : Bool
  pub supports_docker_image : Bool
  pub supports_local_script : Bool
  pub supports_data_bundle : Bool
  pub supported_uri_schemes : List String
  pub supported_checkpoint_schemes : List String
  pub supports_object_store_pull : Bool
  pub max_runtime_hours : Option ℤ

pub record CostEstimate (F : Type 0) : Type 0 where
  pub hourly_usd : F
  pub currency : String
