-- ===== src/Config/Clouds.antt =====
-- The sections of the configuration file for the clouds (internal/config/config.go).
use orchestrator_cli.Common.{String, Bool, Option}
use orchestrator_cli.Common.Int.{ℤ}

pub record GcpConfig (F : Type 0) : Type 0 where
  pub project_id : String
  pub location : String
  pub output_uri_prefix : String
  pub machine_type : String
  pub accelerator_type : String
  pub accelerator_count : ℤ
  pub boot_disk_type : String
  pub boot_disk_size_gb : ℤ
  pub service_account : String
  pub network : String
  pub poll_interval_seconds : ℤ
  pub estimate_hourly_usd : F
  pub artifact_registry_repository : String

pub record RegistryAuthConfig : Type 0 where
  pub server : String
  pub username_env : String
  pub password_env : String

pub record LambdaConfig : Type 0 where
  pub region_name : String
  pub instance_type_name : String
  pub ssh_key_name : String
  pub ssh_private_key : String
  pub image_family : String
  pub registry_auth : RegistryAuthConfig
  pub poll_interval_seconds : ℤ
  pub terminate_on_completion : Option Bool
  pub keep_instance_on_failure : Bool
  pub api_timeout_seconds : ℤ
  pub ssh_connect_timeout_secs : ℤ
  pub ssh_ready_timeout_seconds : ℤ

pub record ChinaCloudProviderConfig (F : Type 0) : Type 0 where
  pub region : String
  pub zone : String
  pub instance_type : String
  pub image_id : String
  pub vpc_id : String
  pub subnet_id : String
  pub security_group_id : String
  pub ssh_key_name : String
  pub ssh_private_key : String
  pub ssh_user : String
  pub endpoint : String
  pub project_id : String
  pub account_id : String
  pub system_disk_category : String
  pub system_disk_size_gb : ℤ
  pub internet_bandwidth_mbps : ℤ
  pub poll_interval_seconds : ℤ
  pub terminate_on_completion : Option Bool
  pub keep_instance_on_failure : Bool
  pub api_timeout_seconds : ℤ
  pub ssh_connect_timeout_secs : ℤ
  pub ssh_ready_timeout_seconds : ℤ
  pub estimate_hourly_usd : F

pub record ChinaCloudConfig (F : Type 0) : Type 0 where
  pub common : ChinaCloudProviderConfig F
  pub alibaba_cloud : ChinaCloudProviderConfig F
  pub huawei_cloud : ChinaCloudProviderConfig F
  pub tencent_cloud : ChinaCloudProviderConfig F
  pub tianyi_cloud : ChinaCloudProviderConfig F
  pub baidu_ai_cloud : ChinaCloudProviderConfig F
