-- ===== src/Config/Paths.antt =====
-- The paths of internal/config/config.go, made relative to the directory of the configuration file.
use orchestrator_cli.Common.{
  String, Bool, true, not, ◌||◌, ◌&&◌, Option, none, some, List, [], ◌∷◌, ◌==◌, if◌then◌else◌, eqb,
}
use orchestrator_cli.Common.Strings.{has_prefix, trim_prefix, contains_text}
use Prim.Native.String.{len}
use orchestrator_cli.App.{JobSpec, DataInput}
use orchestrator_cli.App.Errors.{Result, ok, err}
use orchestrator_cli.Config.Settings.{PackagingConfig, SizingConfig}
use orchestrator_cli.Config.Clouds.{LambdaConfig, ChinaCloudProviderConfig, ChinaCloudConfig}
use orchestrator_cli.Config.Types.{Machine, Url}
use orchestrator_cli.Config.Defaults.{resolve_packaging}

module _ {F : Type 0} (m : Machine F) where
  unfoldable pub resolve_local_path : String → String → String
  resolve_local_path path base_dir =
      if path == "" || m.is_abs path || base_dir == ""
      then path
      else m.clean (m.join_path base_dir path)

  abbrev has_no_scheme : String → Option Url → Bool
  has_no_scheme source none = true
  has_no_scheme source (some u) =
      u.scheme == "" || (eqb (len u.scheme) 1 && not (contains_text source "://"))

  unfoldable pub is_path_like_source : String → Bool
  unfolding contains_text
  is_path_like_source source = has_no_scheme source (m.parse_url source)

  unfoldable pub resolve_inputs : String → List DataInput → List DataInput
  unfolding is_path_like_source resolve_local_path
  resolve_inputs base_dir [] = []
  resolve_inputs base_dir (i ∷ more) =
      (if is_path_like_source i.source
        then record i { source = resolve_local_path i.source base_dir }
        else i)
      ∷ resolve_inputs base_dir more

  unfoldable pub resolve_job_paths : String → JobSpec → JobSpec
  unfolding resolve_inputs resolve_local_path
  resolve_job_paths base_dir job = record job {
    script = resolve_local_path job.script base_dir;
    work_dir = resolve_local_path job.work_dir base_dir;
    inputs = resolve_inputs base_dir job.inputs;
  }

  unfoldable pub resolve_packaging_paths : String → PackagingConfig → PackagingConfig
  unfolding resolve_packaging resolve_local_path
  resolve_packaging_paths base_dir p = record p {
    context = resolve_local_path (resolve_packaging p).context base_dir;
    dockerfile = resolve_local_path p.dockerfile base_dir;
  }

  unfoldable pub resolve_sizing_paths : String → SizingConfig F → SizingConfig F
  unfolding resolve_local_path
  resolve_sizing_paths base_dir s = record s {
    probe = record {
      command = s.probe.command;
      output = resolve_local_path s.probe.output base_dir;
    };
  }

  abbrev in_home : Result String → String → String
  in_home (ok home) key = m.join_path home (trim_prefix key "~/")
  in_home (err e) key = key

  -- the two bodies of resolveLambdaPaths and resolveChinaCloudProviderPaths
  unfoldable pub resolve_key_path : String → String → String
  unfolding has_prefix trim_prefix resolve_local_path
  resolve_key_path base_dir key =
      if has_prefix key "~/" then in_home m.user_home_dir key else resolve_local_path key base_dir

  unfoldable pub resolve_lambda_paths : String → LambdaConfig → LambdaConfig
  unfolding resolve_key_path
  resolve_lambda_paths base_dir c = record c {
    ssh_private_key = resolve_key_path base_dir c.ssh_private_key;
  }

  unfoldable pub resolve_china_cloud_provider_paths :
      String → ChinaCloudProviderConfig F → ChinaCloudProviderConfig F
  unfolding resolve_key_path
  resolve_china_cloud_provider_paths base_dir p = record p {
    ssh_private_key = resolve_key_path base_dir p.ssh_private_key;
  }

  unfoldable pub resolve_china_cloud_paths : String → ChinaCloudConfig F → ChinaCloudConfig F
  unfolding resolve_china_cloud_provider_paths
  resolve_china_cloud_paths base_dir c = record {
    common = resolve_china_cloud_provider_paths base_dir c.common;
    alibaba_cloud = resolve_china_cloud_provider_paths base_dir c.alibaba_cloud;
    huawei_cloud = resolve_china_cloud_provider_paths base_dir c.huawei_cloud;
    tencent_cloud = resolve_china_cloud_provider_paths base_dir c.tencent_cloud;
    tianyi_cloud = resolve_china_cloud_provider_paths base_dir c.tianyi_cloud;
    baidu_ai_cloud = resolve_china_cloud_provider_paths base_dir c.baidu_ai_cloud;
  }
