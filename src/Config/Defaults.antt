-- ===== src/Config/Defaults.antt =====
-- The defaults of internal/config/config.go, and how the settings of one of the Chinese clouds are laid
-- over the common ones.
use orchestrator_cli.Common.{String, Bool, true, ◌||◌, Option, none, some, ◌==◌, if◌then◌else◌}
use orchestrator_cli.Common.Int.{ℤ, pos, eqb_ℤ}
use orchestrator_cli.Common.Float.{Float64}
use orchestrator_cli.Config.Settings.{PackagingConfig, RoutingConfig}
use orchestrator_cli.Config.Clouds.{
  GcpConfig, LambdaConfig, ChinaCloudProviderConfig, ChinaCloudConfig,
}

-- `if s == "" { s = d }`
abbrev pub or_text : String → String → String
or_text s d = if s == "" then d else s

-- `if n == 0 { n = d }`
abbrev pub or_int : ℤ → ℤ → ℤ
or_int n d = if eqb_ℤ n (pos 0) then d else n

-- `if p == nil { p = d }`
abbrev pub or_pointer : Option Bool → Option Bool → Option Bool
or_pointer none d = d
or_pointer (some b) d = some b

-- `if x == 0 { x = d }` on float64
abbrev pub or_float : {F : Type 0} ⦃f : Float64 F⦄ → F → F → F
or_float ⦃f⦄ x d = if f.eq x (f.of_int (pos 0)) then d else x

unfoldable pub resolve_packaging : PackagingConfig → PackagingConfig
resolve_packaging p = record p { context = or_text p.context "." }

unfoldable pub resolve_lambda : LambdaConfig → LambdaConfig
resolve_lambda c = record c {
  poll_interval_seconds = or_int c.poll_interval_seconds (pos 30);
  terminate_on_completion = or_pointer c.terminate_on_completion (some true);
  api_timeout_seconds = or_int c.api_timeout_seconds (pos 30);
  ssh_connect_timeout_secs = or_int c.ssh_connect_timeout_secs (pos 10);
  ssh_ready_timeout_seconds = or_int c.ssh_ready_timeout_seconds (pos 600);
}

module _ {F : Type 0} where
  unfoldable pub resolve_routing : RoutingConfig F → RoutingConfig F
  resolve_routing r = record r {
    objective = or_text r.objective "min_cost";
    max_attempts = or_int r.max_attempts (pos 2);
  }

  unfoldable pub resolve_gcp : GcpConfig F → GcpConfig F
  resolve_gcp c = record c {
    location = or_text c.location "us-central1";
    machine_type = or_text c.machine_type "n1-standard-4";
    boot_disk_type = or_text c.boot_disk_type "pd-ssd";
    boot_disk_size_gb = or_int c.boot_disk_size_gb (pos 100);
    poll_interval_seconds = or_int c.poll_interval_seconds (pos 30);
  }

  unfoldable pub resolve_china_cloud_provider :
      ChinaCloudProviderConfig F → ChinaCloudProviderConfig F
  resolve_china_cloud_provider p = record p {
    ssh_user = or_text p.ssh_user "root";
    poll_interval_seconds = or_int p.poll_interval_seconds (pos 30);
    terminate_on_completion = or_pointer p.terminate_on_completion (some true);
    api_timeout_seconds = or_int p.api_timeout_seconds (pos 30);
    ssh_connect_timeout_secs = or_int p.ssh_connect_timeout_secs (pos 10);
    ssh_ready_timeout_seconds = or_int p.ssh_ready_timeout_seconds (pos 600);
  }

module _ {F : Type 0} ⦃f : Float64 F⦄ where
  unfoldable pub merge_china_cloud_provider :
      ChinaCloudProviderConfig F → ChinaCloudProviderConfig F → ChinaCloudProviderConfig F
  merge_china_cloud_provider common p = record {
    region = or_text p.region common.region;
    zone = or_text p.zone common.zone;
    instance_type = or_text p.instance_type common.instance_type;
    image_id = or_text p.image_id common.image_id;
    vpc_id = or_text p.vpc_id common.vpc_id;
    subnet_id = or_text p.subnet_id common.subnet_id;
    security_group_id = or_text p.security_group_id common.security_group_id;
    ssh_key_name = or_text p.ssh_key_name common.ssh_key_name;
    ssh_private_key = or_text p.ssh_private_key common.ssh_private_key;
    ssh_user = or_text p.ssh_user common.ssh_user;
    endpoint = or_text p.endpoint common.endpoint;
    project_id = or_text p.project_id common.project_id;
    account_id = or_text p.account_id common.account_id;
    system_disk_category = or_text p.system_disk_category common.system_disk_category;
    system_disk_size_gb = or_int p.system_disk_size_gb common.system_disk_size_gb;
    internet_bandwidth_mbps = or_int p.internet_bandwidth_mbps common.internet_bandwidth_mbps;
    poll_interval_seconds = or_int p.poll_interval_seconds common.poll_interval_seconds;
    terminate_on_completion = or_pointer p.terminate_on_completion common.terminate_on_completion;
    keep_instance_on_failure = p.keep_instance_on_failure || common.keep_instance_on_failure;
    api_timeout_seconds = or_int p.api_timeout_seconds common.api_timeout_seconds;
    ssh_connect_timeout_secs = or_int p.ssh_connect_timeout_secs common.ssh_connect_timeout_secs;
    ssh_ready_timeout_seconds = or_int p.ssh_ready_timeout_seconds common.ssh_ready_timeout_seconds;
    estimate_hourly_usd = or_float p.estimate_hourly_usd common.estimate_hourly_usd;
  }

  unfoldable pub resolve_china_cloud : ChinaCloudConfig F → ChinaCloudConfig F
  resolve_china_cloud c = record c {
    alibaba_cloud =
        resolve_china_cloud_provider (merge_china_cloud_provider c.common c.alibaba_cloud);
    huawei_cloud =
        resolve_china_cloud_provider (merge_china_cloud_provider c.common c.huawei_cloud);
    tencent_cloud =
        resolve_china_cloud_provider (merge_china_cloud_provider c.common c.tencent_cloud);
    tianyi_cloud =
        resolve_china_cloud_provider (merge_china_cloud_provider c.common c.tianyi_cloud);
    baidu_ai_cloud =
        resolve_china_cloud_provider (merge_china_cloud_provider c.common c.baidu_ai_cloud);
  }
