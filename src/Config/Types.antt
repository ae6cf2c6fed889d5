-- ===== src/Config/Types.antt =====
-- The configuration file, the flags of `train`, and what both are resolved to
-- (internal/config/config.go), with what the code asks of its machine.
use orchestrator_cli.Common.{String, Bool, Option, List}
use orchestrator_cli.Common.Int.{ℤ}
use orchestrator_cli.App.{JobSpec}
use orchestrator_cli.App.Errors.{Error, Result}
use orchestrator_cli.Config.Settings.{
  JobConfig, DataConfig, StagingConfig, PackagingConfig, RoutingConfig, SizingConfig,
  HardwareConfig, MockConfig,
}
use orchestrator_cli.Config.Clouds.{GcpConfig, LambdaConfig, ChinaCloudConfig}

pub record Config (F : Type 0) : Type 0 where
  pub job : JobConfig
  pub data_config : DataConfig
  pub staging : StagingConfig
  pub packaging : PackagingConfig
  pub routing : RoutingConfig F
  pub sizing : SizingConfig F
  pub hardware : HardwareConfig
  pub mock : MockConfig F
  pub gcp : GcpConfig F
  pub lambda : LambdaConfig
  pub china_cloud : ChinaCloudConfig F

pub record TrainFlags : Type 0 where
  pub config_path : String
  pub provider : String
  pub script : String
  pub args : List String
  pub allow_large_data_bundle : Bool
  pub switchboard_home : String

pub record ResolvedTrainConfig (F : Type 0) : Type 0 where
  pub provider : String
  pub job : JobSpec
  pub staging : StagingConfig
  pub packaging : PackagingConfig
  pub routing : RoutingConfig F
  pub sizing : SizingConfig F
  pub hardware : HardwareConfig
  pub mock : MockConfig F
  pub gcp : GcpConfig F
  pub lambda : LambdaConfig
  pub china_cloud : ChinaCloudConfig F
  pub bundle_max_size_bytes : ℤ
  pub require_override_above_limit : Bool
  pub allow_large_data_bundle : Bool
  pub switchboard_home : String

-- a scheme and a host that url.Parse finds
pub record Url : Type 0 where
  pub scheme : String
  pub host : String

-- LoadFile (os.ReadFile and the YAML decoder), os.Getenv, os.UserHomeDir, url.Parse (`none` on its
-- error), os.Stat without an error, and of path/filepath: Base, Dir, IsAbs, Join and Clean. `data_prefix_first` is the order
-- in which Go visits the map of the two staging prefixes.
pub record Machine (F : Type 0) : Type 0 where
  pub load_file : String → Result (Config F)
  pub getenv : String → String
  pub user_home_dir : Result String
  pub parse_url : String → Option Url
  pub base : String → String
  pub dir : String → String
  pub is_abs : String → Bool
  pub join_path : String → String → String
  pub clean : String → String
  pub exists : String → Bool
  pub data_prefix_first : Bool

-- `(ResolvedTrainConfig, error)`: an early return has the zero value and an error
pub data Loaded (F : Type 0) : Type 0 where
  refused : Error → Loaded F
  resolved : ResolvedTrainConfig F → Option Error → Loaded F
