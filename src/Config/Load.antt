-- ===== src/Config/Load.antt =====
-- LoadTrain of internal/config/config.go and Resolve of internal/home/home.go.
use orchestrator_cli.Common.{
  String, Bool, true, not, ◌||◌, ◌&&◌, List, [], ◌∷◌, ◌==◌, if◌then◌else◌,
}
use orchestrator_cli.Common.Int.{ℤ, pos, eqb_ℤ, scale_int64}
use orchestrator_cli.Common.Float.{Float64}
use orchestrator_cli.App.{JobSpec, provider_local}
use orchestrator_cli.App.Errors.{plain, wrapped, Result, ok, err}
use orchestrator_cli.Config.Settings.{BundleConfig}
use orchestrator_cli.Config.Types.{
  Config, TrainFlags, ResolvedTrainConfig, Machine, Loaded, refused, resolved,
}
use orchestrator_cli.Config.Defaults.{
  resolve_packaging, resolve_routing, resolve_gcp, resolve_lambda, resolve_china_cloud, or_text,
  or_int,
}
use orchestrator_cli.Config.Paths.{
  resolve_job_paths, resolve_packaging_paths, resolve_sizing_paths, resolve_lambda_paths,
  resolve_china_cloud_paths,
}
use orchestrator_cli.Config.Validate.{validate_resolved_config}

abbrev pub default_bundle_max_size_mb : ℤ
default_bundle_max_size_mb = pos 512

module _ {F : Type 0} (m : Machine F) where
  abbrev under_home : Result String → Result String
  under_home (err e) = err (wrapped "resolve user home" e)
  under_home (ok home) =
      let legacy_home = m.join_path home ".orchestrator-cli" in
      if m.exists legacy_home then ok legacy_home else ok (m.join_path home ".switchboard-cli")

  unfoldable pub resolve_home : String → Result String
  resolve_home flag =
      if not (flag == "")
      then ok flag
      else if not (m.getenv "SWITCHBOARD_CLI_HOME" == "")
      then ok (m.getenv "SWITCHBOARD_CLI_HOME")
      else if not (m.getenv "ORCHESTRATOR_CLI_HOME" == "")
      then ok (m.getenv "ORCHESTRATOR_CLI_HOME")
      else under_home m.user_home_dir

  abbrev or_args : List String → List String → List String
  or_args [] args = args
  or_args (a ∷ more) args = a ∷ more

  -- the job before its name, its working directory and its paths are settled
  unfoldable pub job_of : TrainFlags → Config F → JobSpec
  job_of flags cfg = record {
    name = cfg.job.name;
    script = or_text flags.script cfg.job.script;
    image = cfg.job.image;
    command = cfg.job.command;
    args = or_args flags.args cfg.job.args;
    env = cfg.job.env;
    inputs = cfg.data_config.inputs;
    work_dir = cfg.job.work_dir;
  }

  unfoldable pub name_job : JobSpec → JobSpec
  name_job job = record job {
    name =
        if job.name == ""
        then m.base (if job.script == "" then job.image else job.script)
        else job.name;
    work_dir = or_text job.work_dir ".";
  }

  -- resolveJobPaths, where a script that a flag gives stays as it is
  unfoldable pub locate_job : TrainFlags → String → JobSpec → JobSpec
  unfolding resolve_job_paths
  locate_job flags config_dir job =
      if config_dir == ""
      then job
      else if flags.script == ""
      then resolve_job_paths m config_dir job
      else record (resolve_job_paths m config_dir job) { script = job.script }

  unfoldable pub locate_config : String → Config F → Config F
  unfolding resolve_packaging_paths resolve_sizing_paths resolve_lambda_paths
      resolve_china_cloud_paths
  locate_config config_dir cfg = if config_dir == "" then cfg else record cfg {
    packaging = resolve_packaging_paths m config_dir cfg.packaging;
    sizing = resolve_sizing_paths m config_dir cfg.sizing;
    lambda = resolve_lambda_paths m config_dir cfg.lambda;
    china_cloud = resolve_china_cloud_paths m config_dir cfg.china_cloud;
  }

  -- int64(maxSizeMB) * 1024 * 1024
  unfoldable pub bundle_max_size_bytes_of : BundleConfig → ℤ
  bundle_max_size_bytes_of b =
      scale_int64 (scale_int64 (or_int b.max_size_mb default_bundle_max_size_mb) 1024) 1024

  unfoldable pub require_override_of : TrainFlags → BundleConfig → Bool
  require_override_of flags b =
      if flags.config_path == "" || eqb_ℤ b.max_size_mb (pos 0)
      then true
      else b.require_override_above_limit

  module _ ⦃f : Float64 F⦄ where
    unfoldable pub resolve_config : TrainFlags → JobSpec → Config F → String → ResolvedTrainConfig F
    unfolding resolve_packaging resolve_routing resolve_gcp resolve_lambda resolve_china_cloud
    resolve_config flags job cfg home = record {
      provider = or_text flags.provider provider_local;
      job = job;
      staging = cfg.staging;
      packaging = resolve_packaging cfg.packaging;
      routing = resolve_routing cfg.routing;
      sizing = cfg.sizing;
      hardware = cfg.hardware;
      mock = cfg.mock;
      gcp = resolve_gcp cfg.gcp;
      lambda = resolve_lambda cfg.lambda;
      china_cloud = resolve_china_cloud cfg.china_cloud;
      bundle_max_size_bytes = bundle_max_size_bytes_of cfg.data_config.bundle;
      require_override_above_limit = require_override_of flags cfg.data_config.bundle;
      allow_large_data_bundle = flags.allow_large_data_bundle;
      switchboard_home = home;
    }

    -- the last `return`: the configuration beside the error of its validation
    unfoldable pub validated : ResolvedTrainConfig F → Loaded F
    validated c = resolved c (
        validate_resolved_config m c.provider c.job c.staging c.packaging c.gcp c.lambda
          c.china_cloud)

    abbrev pub at_home : TrainFlags → JobSpec → Config F → Result String → Loaded F
    at_home flags job cfg (err e) = refused e
    at_home flags job cfg (ok home) = validated (resolve_config flags job cfg home)

    unfoldable pub load_from : TrainFlags → String → Config F → Loaded F
    unfolding validated
    load_from flags config_dir cfg =
        if (job_of flags cfg).script == "" && (job_of flags cfg).image == ""
        then refused (plain "script or image is required")
        else at_home flags (locate_job flags config_dir (name_job (job_of flags cfg)))
            (locate_config config_dir cfg) (resolve_home flags.switchboard_home)

    abbrev pub load_with : TrainFlags → Result (Config F) → Loaded F
    load_with flags (err e) = refused e
    load_with flags (ok cfg) = load_from flags (m.dir flags.config_path) cfg

    -- `empty` is Config{}
    unfoldable pub load_train : Config F → TrainFlags → Loaded F
    unfolding load_from
    load_train empty flags =
        if flags.config_path == ""
        then load_from flags "" empty
        else load_with flags (m.load_file flags.config_path)
