-- ===== src/Config/Tests.antt =====
-- A configuration for Lambda and one for Alibaba Cloud, loaded on a machine with a home directory.
use orchestrator_cli.Common.{
  String, ◌==◌, ◌≢◌, if◌then◌else◌, false, none, Option, [], ◌≡◌, refl, ◌↔◌,
}
use orchestrator_cli.Common.Int.{pos}
use orchestrator_cli.Common.Float.{Milli, milli_float}
use orchestrator_cli.App.{JobSpec}
use orchestrator_cli.App.Errors.{ok, Error}
use orchestrator_cli.Config.Types.{Config, TrainFlags, ResolvedTrainConfig, Machine, resolved}
use orchestrator_cli.Config.Defaults.{
  merge_china_cloud_provider, resolve_china_cloud_provider, resolve_china_cloud,
}
use orchestrator_cli.Config.Paths.{resolve_job_paths}
use orchestrator_cli.Config.Validate.{
  validate_resolved_config, validate_lambda_config, validate_staging_config,
  validate_provider_config, registry_auth_reasons,
}
use orchestrator_cli.Config.Load.{
  load_train, resolve_config, resolve_home, job_of, name_job, locate_job, locate_config,
}
use orchestrator_cli.Config.Accepts.{IsComplete}
use orchestrator_cli.Config.Loaded.{load_train-IsComplete}
use orchestrator_cli.Config.Ready.{
  HasPaths, IsReady, IsLimited, loaded_config, or_text_set, load_train-IsReady,
}
use orchestrator_cli.Config.Layers.{layered, resolve_china_cloud-layered}
use orchestrator_cli.Config.Empty.{
  empty_config, empty_lambda_config, empty_china_cloud_config, empty_china_cloud_provider_config,
  empty_job_config,
}

abbrev written : Config Milli
written = record empty_config {
  job = record empty_job_config { image = "repo/train:1" };
  lambda = record empty_lambda_config {
    region_name = "us-east-1";
    instance_type_name = "gpu_1x_a10";
    ssh_key_name = "key";
    ssh_private_key = "id_ed25519";
  };
  china_cloud = record empty_china_cloud_config {
    common = record empty_china_cloud_provider_config {
      ssh_key_name = "key";
      poll_interval_seconds = pos 5;
    };
  };
}

abbrev demo_machine : Machine Milli
demo_machine = record {
  load_file = λ p. ok written;
  getenv = λ n. "";
  user_home_dir = ok "/home/ada";
  parse_url = λ s. none;
  base = λ p. if p == "" then "." else p;
  dir = λ p. "/work";
  is_abs = λ p. false;
  join_path = λ a b. b;
  clean = λ p. if p == "" then "." else p;
  exists = λ p. false;
  data_prefix_first = false;
}

abbrev demo_flags : TrainFlags
demo_flags = record {
  config_path = "/work/train.yaml";
  provider = "lambda";
  script = "";
  args = [];
  allow_large_data_bundle = false;
  switchboard_home = "/tmp/home";
}

abbrev demo_job : JobSpec
demo_job =
    locate_job demo_machine demo_flags "/work"
      (name_job demo_machine (job_of demo_machine demo_flags written))

abbrev demo_resolved : ResolvedTrainConfig Milli
demo_resolved =
    resolve_config demo_machine demo_flags demo_job (locate_config demo_machine "/work" written)
      "/tmp/home"

loads : load_train demo_machine empty_config demo_flags ≡ resolved demo_resolved none
unfolding load_train resolve_home validate_resolved_config validate_lambda_config resolve_config
    job_of name_job locate_job resolve_job_paths locate_config validate_staging_config
    validate_provider_config registry_auth_reasons
loads = refl

load_train-IsComplete_example :
    (◌≡◌ {A = Option Error} none none)
    ↔ IsComplete demo_machine demo_resolved.provider demo_resolved.job demo_resolved.staging
        demo_resolved.packaging demo_resolved.gcp demo_resolved.lambda demo_resolved.china_cloud
load_train-IsComplete_example =
    load_train-IsComplete demo_machine empty_config demo_flags demo_resolved none loads

demo_paths : HasPaths demo_machine
demo_paths = record { base_set = not_empty; clean_set = not_empty }
  where
    not_empty : (p : String) → (if p == "" then "." else p) ≢ ""
    not_empty p = or_text_set p "." cc

load_train-IsReady_example :
    IsReady demo_resolved
    × (cfg : Config Milli) × (loaded_config demo_machine empty_config demo_flags ≡ ok cfg)
    × IsLimited cfg demo_resolved.bundle_max_size_bytes
load_train-IsReady_example =
    load_train-IsReady demo_machine demo_paths empty_config demo_flags demo_resolved none loads

resolve_china_cloud-layered_example :
    ((resolve_china_cloud written.china_cloud).alibaba_cloud
      ≡ layered written.china_cloud.common written.china_cloud.alibaba_cloud)
    × ((resolve_china_cloud written.china_cloud).huawei_cloud
        ≡ layered written.china_cloud.common written.china_cloud.huawei_cloud)
    × ((resolve_china_cloud written.china_cloud).tencent_cloud
        ≡ layered written.china_cloud.common written.china_cloud.tencent_cloud)
    × ((resolve_china_cloud written.china_cloud).tianyi_cloud
        ≡ layered written.china_cloud.common written.china_cloud.tianyi_cloud)
    × ((resolve_china_cloud written.china_cloud).baidu_ai_cloud
        ≡ layered written.china_cloud.common written.china_cloud.baidu_ai_cloud)
    × ((resolve_china_cloud written.china_cloud).common ≡ written.china_cloud.common)
    × (resolve_china_cloud (resolve_china_cloud written.china_cloud)
        ≡ resolve_china_cloud written.china_cloud)
resolve_china_cloud-layered_example = resolve_china_cloud-layered written.china_cloud

-- the common setting comes before the default
common_first : (resolve_china_cloud written.china_cloud).huawei_cloud.poll_interval_seconds ≡ pos 5
unfolding resolve_china_cloud merge_china_cloud_provider resolve_china_cloud_provider
common_first = refl
