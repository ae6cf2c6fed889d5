-- ===== src/Config/Complete.antt =====
-- What the validation of a configuration asks for, and that it is exactly what lets it pass.
use orchestrator_cli.Common.{
  String, ◌&&◌, none, List, [], ◌∷◌, ◌==◌, ◌≡◌, ◌≢◌, ◌⊎◌, inl, inr, ◌↔◌, refl, eq_iff, arith,
  Bool-cases,
}
use orchestrator_cli.App.{JobSpec}
use orchestrator_cli.Config.Settings.{PackagingConfig}
use orchestrator_cli.Config.Clouds.{
  GcpConfig, LambdaConfig, RegistryAuthConfig, ChinaCloudProviderConfig,
}
use orchestrator_cli.Config.Types.{Machine}
use orchestrator_cli.Config.Validate.{
  report, gcp_reasons, validate_gcp_config, china_cloud_reasons, validate_china_cloud_config,
  validate_lambda_config, lambda_reasons, registry_auth_reasons,
}

pub record GcpComplete {F : Type 0} (job : JobSpec) (p : PackagingConfig) (c : GcpConfig F)
    : Type 0 where
  pub project : c.project_id ≢ ""
  pub location : c.location ≢ ""
  pub output : c.output_uri_prefix ≢ ""
  pub image :
      (job.image ≢ "")
      ⊎ ((job.script ≢ "") × ((p.image ≢ "") ⊎ (c.artifact_registry_repository ≢ "")))

-- nothing is set, or all is set and both variables have a value
pub data AuthComplete {F : Type 0} (m : Machine F) (a : RegistryAuthConfig) : Type 0 where
  unused : a.server ≡ "" → a.username_env ≡ "" → a.password_env ≡ "" → AuthComplete m a
  used :
      a.server ≢ ""
      → a.username_env ≢ ""
      → a.password_env ≢ ""
      → m.getenv a.username_env ≢ ""
      → m.getenv a.password_env ≢ ""
      → AuthComplete m a

pub record LambdaComplete {F : Type 0} (m : Machine F) (job : JobSpec) (p : PackagingConfig)
    (c : LambdaConfig) : Type 0 where
  pub image : (job.image ≢ "") ⊎ ((job.script ≢ "") × (p.image ≢ ""))
  pub script : (job.script ≡ "") ⊎ (p.image ≢ "")
  pub region : c.region_name ≢ ""
  pub instance_type : c.instance_type_name ≢ ""
  pub key_name : c.ssh_key_name ≢ ""
  pub private_key : c.ssh_private_key ≢ ""
  pub auth : AuthComplete m c.registry_auth

pub record ChinaComplete {F : Type 0} (provider : String) (job : JobSpec)
    (c : ChinaCloudProviderConfig F) : Type 0 where
  pub image : job.image ≢ ""
  pub script : job.script ≡ ""
  pub region : c.region ≢ ""
  pub instance_type : c.instance_type ≢ ""
  pub image_id : c.image_id ≢ ""
  pub vpc : c.vpc_id ≢ ""
  pub subnet : c.subnet_id ≢ ""
  pub account : (provider ≢ "huawei-cloud") ⊎ ((c.project_id ≢ "") ⊎ (c.account_id ≢ ""))
  pub security_group : c.security_group_id ≢ ""
  pub key_name : c.ssh_key_name ≢ ""
  pub private_key : c.ssh_private_key ≢ ""

pub report-none : (rs : List String) → (report rs ≡ none) ↔ (rs ≡ [])
report-none [] = (λ h. refl, λ h. refl)
report-none (r ∷ rs) = (λ h. cc, λ h. cc)

module _ {F : Type 0} (job : JobSpec) (p : PackagingConfig) where
  gcp_reasons-GcpComplete : (c : GcpConfig F) → gcp_reasons job p c ≡ [] → GcpComplete job p c
  unfolding gcp_reasons
  gcp_reasons-GcpComplete c h = record {
    project = ground (arith, eq_iff c.project_id "");
    location = ground (arith, eq_iff c.location "");
    output = ground (arith, eq_iff c.output_uri_prefix "");
    image = ground (
      arith,
      eq_iff c.project_id "",
      eq_iff c.location "",
      eq_iff job.image "",
      eq_iff job.script "",
      eq_iff p.image "",
      eq_iff c.artifact_registry_repository "",
    );
  }

  gcp_reasons_of_GcpComplete : (c : GcpConfig F) → GcpComplete job p c → gcp_reasons job p c ≡ []
  unfolding gcp_reasons
  gcp_reasons_of_GcpComplete c h = ground (
    arith,
    eq_iff c.output_uri_prefix "",
    eq_iff c.project_id "",
    eq_iff c.location "",
    eq_iff job.image "",
    eq_iff job.script "",
    eq_iff p.image "",
    eq_iff c.artifact_registry_repository "",
  )

  pub validate_gcp_config_iff :
      (c : GcpConfig F) → (validate_gcp_config job p c ≡ none) ↔ GcpComplete job p c
  unfolding validate_gcp_config
  validate_gcp_config_iff c = (
    λ h. gcp_reasons-GcpComplete c ((report-none _).0 h),
    λ h. (report-none _).1 (gcp_reasons_of_GcpComplete c h),
  )

module _ {F : Type 0} (m : Machine F) (a : RegistryAuthConfig) where
  registry_auth-AuthComplete : registry_auth_reasons m a ≡ [] → AuthComplete m a
  unfolding registry_auth_reasons
  registry_auth-AuthComplete h =
      elim (Bool-cases (a.server == "" && a.username_env == "" && a.password_env == "")) [
        | inl e ↦
            unused (ground (arith, eq_iff a.server "")) (ground (arith, eq_iff a.username_env ""))
              (ground (arith, eq_iff a.password_env ""))
        | inr e ↦
            used (ground (arith, eq_iff a.server "")) (ground (arith, eq_iff a.username_env ""))
              (ground (arith, eq_iff a.password_env ""))
              (ground (arith, eq_iff a.username_env "", eq_iff (m.getenv a.username_env) ""))
              (ground (arith, eq_iff a.password_env "", eq_iff (m.getenv a.password_env) ""))
      ]

  registry_auth_of_AuthComplete : AuthComplete m a → registry_auth_reasons m a ≡ []
  unfolding registry_auth_reasons
  registry_auth_of_AuthComplete (unused s u p) = rw (s, u, p)
  registry_auth_of_AuthComplete (used s u p v q) = ground (
    arith,
    eq_iff a.server "",
    eq_iff a.username_env "",
    eq_iff a.password_env "",
    eq_iff (m.getenv a.username_env) "",
    eq_iff (m.getenv a.password_env) "",
  )

module _ {F : Type 0} (m : Machine F) (job : JobSpec) (p : PackagingConfig) (c : LambdaConfig) where
  lambda_reasons-LambdaComplete : lambda_reasons m job p c ≡ [] → LambdaComplete m job p c
  unfolding lambda_reasons
  lambda_reasons-LambdaComplete h = record {
    image = ground (arith, eq_iff job.image "", eq_iff job.script "", eq_iff p.image "");
    script = ground (arith, eq_iff job.image "", eq_iff job.script "", eq_iff p.image "");
    region = ground (arith, eq_iff c.region_name "");
    instance_type = ground (arith, eq_iff c.instance_type_name "");
    key_name = ground (arith, eq_iff c.ssh_key_name "");
    private_key = ground (arith, eq_iff c.ssh_private_key "");
    auth = registry_auth-AuthComplete m c.registry_auth (ground arith);
  }

  lambda_reasons_of_LambdaComplete : LambdaComplete m job p c → lambda_reasons m job p c ≡ []
  unfolding lambda_reasons
  lambda_reasons_of_LambdaComplete h = ground (
    arith,
    eq_iff job.image "",
    eq_iff job.script "",
    eq_iff p.image "",
    eq_iff c.region_name "",
    eq_iff c.instance_type_name "",
    eq_iff c.ssh_key_name "",
    eq_iff c.ssh_private_key "",
    registry_auth_of_AuthComplete m c.registry_auth h.auth,
  )

  pub validate_lambda_config_iff :
      (validate_lambda_config m job p c ≡ none) ↔ LambdaComplete m job p c
  unfolding validate_lambda_config
  validate_lambda_config_iff = (
    λ h. lambda_reasons-LambdaComplete ((report-none _).0 h),
    λ h. (report-none _).1 (lambda_reasons_of_LambdaComplete h),
  )

module _ {F : Type 0} (provider : String) (job : JobSpec) (c : ChinaCloudProviderConfig F) where
  china_cloud_reasons-ChinaComplete :
      china_cloud_reasons provider job c ≡ [] → ChinaComplete provider job c
  unfolding china_cloud_reasons
  china_cloud_reasons-ChinaComplete h = record {
    image = ground (arith, eq_iff job.image "");
    script = ground (arith, eq_iff job.script "");
    region = ground (arith, eq_iff c.region "");
    instance_type = ground (arith, eq_iff c.instance_type "");
    image_id = ground (arith, eq_iff c.image_id "");
    vpc = ground (arith, eq_iff c.vpc_id "");
    subnet = ground (arith, eq_iff c.subnet_id "");
    account =
        ground
          (arith, eq_iff provider "huawei-cloud", eq_iff c.project_id "", eq_iff c.account_id "");
    security_group = ground (arith, eq_iff c.security_group_id "");
    key_name = ground (arith, eq_iff c.ssh_key_name "");
    private_key = ground (arith, eq_iff c.ssh_private_key "");
  }

  china_cloud_reasons_of_ChinaComplete :
      ChinaComplete provider job c → china_cloud_reasons provider job c ≡ []
  unfolding china_cloud_reasons
  china_cloud_reasons_of_ChinaComplete h = ground (
    arith,
    eq_iff job.image "",
    eq_iff job.script "",
    eq_iff c.region "",
    eq_iff c.instance_type "",
    eq_iff c.image_id "",
    eq_iff c.vpc_id "",
    eq_iff c.subnet_id "",
    eq_iff provider "huawei-cloud",
    eq_iff c.project_id "",
    eq_iff c.account_id "",
    eq_iff c.security_group_id "",
    eq_iff c.ssh_key_name "",
    eq_iff c.ssh_private_key "",
  )

  pub validate_china_cloud_config_iff :
      (validate_china_cloud_config provider job c ≡ none) ↔ ChinaComplete provider job c
  unfolding validate_china_cloud_config
  validate_china_cloud_config_iff = (
    λ h. china_cloud_reasons-ChinaComplete ((report-none _).0 h),
    λ h. (report-none _).1 (china_cloud_reasons_of_ChinaComplete h),
  )
