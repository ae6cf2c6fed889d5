-- ===== src/Config/Empty.antt =====
-- Config{} of Go: every section with its zero values.
use orchestrator_cli.Common.{false, none, []}
use orchestrator_cli.Common.Int.{pos}
use orchestrator_cli.Common.Float.{Milli}
use orchestrator_cli.Config.Settings.{
  BundleConfig, JobConfig, DataConfig, PackagingConfig, StagingConfig, BudgetConfig, RoutingConfig,
  SizingProbeConfig, SizingHintsConfig, SizingConfig, HardwareConstraintsConfig,
  ManualHardwareConfig, HardwareConfig, MockConfig,
}
use orchestrator_cli.Config.Clouds.{
  GcpConfig, RegistryAuthConfig, LambdaConfig, ChinaCloudProviderConfig, ChinaCloudConfig,
}
use orchestrator_cli.Config.Types.{Config}

abbrev pub empty_bundle_config : BundleConfig
empty_bundle_config = record { max_size_mb = pos 0; require_override_above_limit = false }

abbrev pub empty_job_config : JobConfig
empty_job_config = record {
  name = "";
  script = "";
  image = "";
  command = [];
  args = [];
  env = [];
  work_dir = "";
}

abbrev pub empty_data_config : DataConfig
empty_data_config = record { inputs = []; bundle = empty_bundle_config }

abbrev pub empty_packaging_config : PackagingConfig
empty_packaging_config = record { dockerfile = ""; context = ""; image = ""; platform = "" }

abbrev pub empty_staging_config : StagingConfig
empty_staging_config = record { checkpoint_uri_prefix = ""; data_uri_prefix = "" }

abbrev pub empty_budget_config : BudgetConfig Milli
empty_budget_config = record { max_run_cost_usd = 0 }

abbrev pub empty_routing_config : RoutingConfig Milli
empty_routing_config = record {
  mode = "";
  objective = "";
  budget = empty_budget_config;
  max_attempts = pos 0;
}

abbrev pub empty_sizing_probe_config : SizingProbeConfig
empty_sizing_probe_config = record { command = []; output = "" }

abbrev pub empty_sizing_hints_config : SizingHintsConfig Milli
empty_sizing_hints_config = record {
  required_vram_gb = 0;
  dataset_size_gb = 0;
  model_parameters_b = 0;
  model_artifact_gb = 0;
  batch_size = pos 0;
  gradient_accumulation_steps = pos 0;
  precision = "";
  optimizer = "";
  sequence_length = pos 0;
  image_width = pos 0;
  image_height = pos 0;
  expected_steps = pos 0;
}

abbrev pub empty_sizing_config : SizingConfig Milli
empty_sizing_config = record {
  probe = empty_sizing_probe_config;
  hints = empty_sizing_hints_config;
}

abbrev pub empty_hardware_constraints_config : HardwareConstraintsConfig
empty_hardware_constraints_config = record {
  max_gpus = pos 0;
  allowed_gpu_families = [];
  min_vram_gb_per_gpu = pos 0;
  regions = [];
  allow_spot = false;
  require_on_demand = false;
}

abbrev pub empty_manual_hardware_config : ManualHardwareConfig
empty_manual_hardware_config = record {
  provider = "";
  shape_id = "";
  machine_type = "";
  region = "";
}

abbrev pub empty_hardware_config : HardwareConfig
empty_hardware_config = record {
  constraints = empty_hardware_constraints_config;
  manual = empty_manual_hardware_config;
}

abbrev pub empty_mock_config : MockConfig Milli
empty_mock_config = record { providers = [] }

abbrev pub empty_gcp_config : GcpConfig Milli
empty_gcp_config = record {
  project_id = "";
  location = "";
  output_uri_prefix = "";
  machine_type = "";
  accelerator_type = "";
  accelerator_count = pos 0;
  boot_disk_type = "";
  boot_disk_size_gb = pos 0;
  service_account = "";
  network = "";
  poll_interval_seconds = pos 0;
  estimate_hourly_usd = 0;
  artifact_registry_repository = "";
}

abbrev pub empty_registry_auth_config : RegistryAuthConfig
empty_registry_auth_config = record { server = ""; username_env = ""; password_env = "" }

abbrev pub empty_lambda_config : LambdaConfig
empty_lambda_config = record {
  region_name = "";
  instance_type_name = "";
  ssh_key_name = "";
  ssh_private_key = "";
  image_family = "";
  registry_auth = empty_registry_auth_config;
  poll_interval_seconds = pos 0;
  terminate_on_completion = none;
  keep_instance_on_failure = false;
  api_timeout_seconds = pos 0;
  ssh_connect_timeout_secs = pos 0;
  ssh_ready_timeout_seconds = pos 0;
}

abbrev pub empty_china_cloud_provider_config : ChinaCloudProviderConfig Milli
empty_china_cloud_provider_config = record {
  region = "";
  zone = "";
  instance_type = "";
  image_id = "";
  vpc_id = "";
  subnet_id = "";
  security_group_id = "";
  ssh_key_name = "";
  ssh_private_key = "";
  ssh_user = "";
  endpoint = "";
  project_id = "";
  account_id = "";
  system_disk_category = "";
  system_disk_size_gb = pos 0;
  internet_bandwidth_mbps = pos 0;
  poll_interval_seconds = pos 0;
  terminate_on_completion = none;
  keep_instance_on_failure = false;
  api_timeout_seconds = pos 0;
  ssh_connect_timeout_secs = pos 0;
  ssh_ready_timeout_seconds = pos 0;
  estimate_hourly_usd = 0;
}

abbrev pub empty_china_cloud_config : ChinaCloudConfig Milli
empty_china_cloud_config = record {
  common = empty_china_cloud_provider_config;
  alibaba_cloud = empty_china_cloud_provider_config;
  huawei_cloud = empty_china_cloud_provider_config;
  tencent_cloud = empty_china_cloud_provider_config;
  tianyi_cloud = empty_china_cloud_provider_config;
  baidu_ai_cloud = empty_china_cloud_provider_config;
}

abbrev pub empty_config : Config Milli
empty_config = record {
  job = empty_job_config;
  data_config = empty_data_config;
  staging = empty_staging_config;
  packaging = empty_packaging_config;
  routing = empty_routing_config;
  sizing = empty_sizing_config;
  hardware = empty_hardware_config;
  mock = empty_mock_config;
  gcp = empty_gcp_config;
  lambda = empty_lambda_config;
  china_cloud = empty_china_cloud_config;
}
