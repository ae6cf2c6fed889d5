-- ===== src/Config/Validate.antt =====
-- The validation of internal/config/config.go. The reasons of one provider are collected and joined.
use Prim.Native.String.{◌++◌ as str_append}
use orchestrator_cli.Common.{
  String, Bool, true, false, not, ◌||◌, ◌&&◌, Option, none, some, List, [], ◌∷◌, ◌++◌, ◌==◌,
  if◌then◌else◌,
}
use orchestrator_cli.Common.Strings.{join, replace_char}
use orchestrator_cli.App.{JobSpec}
use orchestrator_cli.App.Errors.{Error, plain}
use orchestrator_cli.Config.Settings.{StagingConfig, PackagingConfig}
use orchestrator_cli.Config.Clouds.{
  GcpConfig, LambdaConfig, RegistryAuthConfig, ChinaCloudProviderConfig, ChinaCloudConfig,
}
use orchestrator_cli.Config.Types.{Machine, Url}

-- `if bad { reasons = append(reasons, text) }`
abbrev pub reason_if : Bool → String → List String
reason_if bad text = if bad then text ∷ [] else []

-- `if len(reasons) > 0 { return errors.New(...) }`
abbrev pub report : List String → Option Error
report [] = none
report (r ∷ more) = some (plain (join "; " (r ∷ more)))

-- the first of two errors
abbrev pub or_else : Option Error → Option Error → Option Error
or_else (some e) later = some e
or_else none later = later

-- the first of two errors in the order in which Go visits a map of two entries
abbrev pub visit : Bool → Option Error → Option Error → Option Error
visit true a b = or_else b a
visit false a b = or_else a b

unfoldable pub provider_config_key : String → String
unfolding replace_char
provider_config_key provider = replace_char "-" "_" provider

unfoldable pub can_package_with_explicit_image : JobSpec → PackagingConfig → Bool
can_package_with_explicit_image job p = not (job.script == "") && not (p.image == "")

abbrev key_text : String → String → String
key_text provider rest = str_append "china_cloud." (str_append (provider_config_key provider) rest)

module _ {F : Type 0} where
  unfoldable pub can_package_for_gcp : JobSpec → PackagingConfig → GcpConfig F → Bool
  can_package_for_gcp job p c =
      if job.script == ""
      then false
      else if not (p.image == "")
      then true
      else not (c.project_id == "")
        && not (c.location == "")
        && not (c.artifact_registry_repository == "")

  unfoldable pub gcp_reasons : JobSpec → PackagingConfig → GcpConfig F → List String
  unfolding can_package_for_gcp
  gcp_reasons job p c =
      reason_if (job.image == "" && not (can_package_for_gcp job p c))
        "gcp provider requires job.image or packaging config for job.script"
      ++ (reason_if (c.project_id == "") "gcp.project_id is required"
          ++ (reason_if (c.location == "") "gcp.location is required"
              ++ reason_if (c.output_uri_prefix == "") "gcp.output_uri_prefix is required"))

  unfoldable pub validate_gcp_config : JobSpec → PackagingConfig → GcpConfig F → Option Error
  unfolding gcp_reasons
  validate_gcp_config job p c = report (gcp_reasons job p c)

  unfoldable pub china_cloud_reasons : String → JobSpec → ChinaCloudProviderConfig F → List String
  unfolding provider_config_key
  china_cloud_reasons provider job c =
      reason_if (job.image == "") (str_append provider " provider requires job.image")
      ++ (reason_if (not (job.script == ""))
            (str_append provider " provider v1 does not package local scripts; provide job.image")
          ++ (reason_if (c.region == "") (key_text provider ".region is required")
              ++ (reason_if (c.instance_type == "") (key_text provider ".instance_type is required")
                  ++ (reason_if (c.image_id == "") (key_text provider ".image_id is required")
                      ++ (reason_if (c.vpc_id == "") (key_text provider ".vpc_id is required")
                          ++ (reason_if (c.subnet_id == "")
                                (key_text provider ".subnet_id is required")
                              ++ (reason_if
                                    (provider == "huawei-cloud"
                                      && c.project_id == ""
                                      && c.account_id == "")
                                    "china_cloud.huawei_cloud.project_id is required"
                                  ++ (reason_if (c.security_group_id == "")
                                        (key_text provider ".security_group_id is required")
                                      ++ (reason_if (c.ssh_key_name == "")
                                            (key_text provider ".ssh_key_name is required")
                                          ++ reason_if (c.ssh_private_key == "") (
                                              key_text provider
                                                ".ssh_private_key is required"))))))))))

  unfoldable pub validate_china_cloud_config :
      String → JobSpec → ChinaCloudProviderConfig F → Option Error
  unfolding china_cloud_reasons
  validate_china_cloud_config provider job c = report (china_cloud_reasons provider job c)

module _ {F : Type 0} (m : Machine F) where
  abbrev is_unset : String → Bool
  is_unset name = not (name == "") && m.getenv name == ""

  abbrev unset_text : String → String → String
  unset_text what name = str_append what (str_append name " is empty or unset")

  unfoldable pub registry_auth_reasons : RegistryAuthConfig → List String
  registry_auth_reasons a =
      if a.server == "" && a.username_env == "" && a.password_env == ""
      then []
      else reason_if (a.server == "")
          "lambda.registry_auth.server is required when registry auth is configured"
        ++ (reason_if (a.username_env == "")
              "lambda.registry_auth.username_env is required when registry auth is configured"
            ++ (reason_if (a.password_env == "")
                  "lambda.registry_auth.password_env is required when registry auth is configured"
                ++ (reason_if (is_unset a.username_env)
                      (unset_text "lambda.registry_auth.username_env " a.username_env)
                    ++ reason_if (is_unset a.password_env)
                        (unset_text "lambda.registry_auth.password_env " a.password_env))))

  unfoldable pub lambda_reasons : JobSpec → PackagingConfig → LambdaConfig → List String
  unfolding can_package_with_explicit_image
  lambda_reasons job p c =
      reason_if (job.image == "" && not (can_package_with_explicit_image job p))
        "lambda provider requires job.image or packaging.image for job.script"
      ++ (reason_if (not (job.script == "") && not (can_package_with_explicit_image job p))
            "lambda provider v1 does not package local scripts; provide job.image"
          ++ (reason_if (c.region_name == "") "lambda.region_name is required"
              ++ (reason_if (c.instance_type_name == "") "lambda.instance_type_name is required"
                  ++ (reason_if (c.ssh_key_name == "") "lambda.ssh_key_name is required"
                      ++ (reason_if (c.ssh_private_key == "") "lambda.ssh_private_key is required"
                          ++ registry_auth_reasons c.registry_auth)))))

  unfoldable pub validate_lambda_config : JobSpec → PackagingConfig → LambdaConfig → Option Error
  unfolding lambda_reasons
  validate_lambda_config job p c = report (lambda_reasons job p c)

  unfoldable pub validate_provider_config :
      String
      → JobSpec
      → PackagingConfig
      → GcpConfig F
      → LambdaConfig
      → ChinaCloudConfig F
      → Option Error
  validate_provider_config provider job p gcp lambda china =
      if provider == "gcp"
      then validate_gcp_config job p gcp
      else if provider == "lambda"
      then validate_lambda_config job p lambda
      else if provider == "alibaba-cloud"
      then validate_china_cloud_config provider job china.alibaba_cloud
      else if provider == "huawei-cloud"
      then validate_china_cloud_config provider job china.huawei_cloud
      else if provider == "tencent-cloud"
      then validate_china_cloud_config provider job china.tencent_cloud
      else if provider == "tianyi-cloud"
      then validate_china_cloud_config provider job china.tianyi_cloud
      else if provider == "baidu-ai-cloud"
      then validate_china_cloud_config provider job china.baidu_ai_cloud
      else none

  abbrev not_a_prefix : String → Option Error
  not_a_prefix name = some (plain (str_append name " must be an object-store URI prefix"))

  abbrev pub check_url : String → Option Url → Option Error
  check_url name none = not_a_prefix name
  check_url name (some u) =
      if u.scheme == "" || u.host == ""
      then not_a_prefix name
      else if u.scheme == "s3" || u.scheme == "gs"
      then none
      else some (plain (str_append name " only supports s3:// or gs:// prefixes today"))

  -- one round of the loop of validateStagingConfig
  unfoldable pub check_prefix : String → String → Option Error
  check_prefix name value = if value == "" then none else check_url name (m.parse_url value)

  unfoldable pub validate_staging_config : StagingConfig → Option Error
  unfolding check_prefix
  validate_staging_config s =
      visit m.data_prefix_first
        (check_prefix "staging.checkpoint_uri_prefix" s.checkpoint_uri_prefix)
        (check_prefix "staging.data_uri_prefix" s.data_uri_prefix)

  unfoldable pub validate_resolved_config :
      String
      → JobSpec
      → StagingConfig
      → PackagingConfig
      → GcpConfig F
      → LambdaConfig
      → ChinaCloudConfig F
      → Option Error
  validate_resolved_config provider job staging p gcp lambda china =
      or_else (validate_staging_config staging)
        (validate_provider_config provider job p gcp lambda china)
