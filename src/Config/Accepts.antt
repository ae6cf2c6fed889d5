-- ===== src/Config/Accepts.antt =====
-- That the validation of a configuration passes exactly when it is complete for its provider.
use orchestrator_cli.Common.{
  String, Bool, true, false, ◌||◌, Option, none, some, ◌==◌, ◌≡◌, ◌≢◌, ◌⊎◌, inl, inr, ◌↔◌, refl,
  eq_iff, arith, Bool-cases,
}
use orchestrator_cli.App.{JobSpec}
use orchestrator_cli.App.Errors.{Error}
use orchestrator_cli.Config.Settings.{StagingConfig, PackagingConfig}
use orchestrator_cli.Config.Clouds.{GcpConfig, LambdaConfig, ChinaCloudConfig}
use orchestrator_cli.Config.Types.{Machine, Url}
use orchestrator_cli.Config.Validate.{
  visit, or_else, validate_provider_config, check_url, check_prefix, validate_staging_config,
  validate_resolved_config,
}
use orchestrator_cli.Config.Complete.{
  GcpComplete, LambdaComplete, ChinaComplete, validate_gcp_config_iff, validate_lambda_config_iff,
  validate_china_cloud_config_iff,
}

scheme_accepted :
    (s : String) → (s ≡ "s3") ⊎ (s ≡ "gs") → ((s == "") ≡ false) × ((s == "s3" || s == "gs") ≡ true)
scheme_accepted s (inl e) = rw e (refl, refl)
scheme_accepted s (inr e) = rw e (refl, refl)

or_else_iff : (a b : Option Error) → (or_else a b ≡ none) ↔ ((a ≡ none) × (b ≡ none))
or_else_iff none b = (λ h. (refl, h), λ h. h.1)
or_else_iff (some e) b = (λ h. cc, λ h. cc)

visit_iff :
    (first : Bool) (a b : Option Error) → (visit first a b ≡ none) ↔ ((a ≡ none) × (b ≡ none))
visit_iff true a b =
    (λ h. let k = (or_else_iff b a).0 h in (k.1, k.0), λ h. (or_else_iff b a).1 (h.1, h.0))
visit_iff false a b = or_else_iff a b

module _ {F : Type 0} (m : Machine F) where
  abbrev IsStore : Option Url → Type 0
  IsStore none = ⊥
  IsStore (some u) = (u.host ≢ "") × ((u.scheme ≡ "s3") ⊎ (u.scheme ≡ "gs"))

  -- a URI prefix that is not set, or that names a host of one of the two object stores
  abbrev pub IsStorePrefix : String → Type 0
  IsStorePrefix value = (value ≡ "") ⊎ IsStore (m.parse_url value)

  -- what the provider of a configuration needs
  pub record IsComplete (provider : String) (job : JobSpec) (staging : StagingConfig)
      (p : PackagingConfig) (gcp : GcpConfig F) (lambda : LambdaConfig) (china : ChinaCloudConfig F)
      : Type 0 where
    pub for_checkpoints : IsStorePrefix staging.checkpoint_uri_prefix
    pub for_data : IsStorePrefix staging.data_uri_prefix
    pub for_gcp : provider ≡ "gcp" → GcpComplete job p gcp
    pub for_lambda : provider ≡ "lambda" → LambdaComplete m job p lambda
    pub for_alibaba : provider ≡ "alibaba-cloud" → ChinaComplete provider job china.alibaba_cloud
    pub for_huawei : provider ≡ "huawei-cloud" → ChinaComplete provider job china.huawei_cloud
    pub for_tencent : provider ≡ "tencent-cloud" → ChinaComplete provider job china.tencent_cloud
    pub for_tianyi : provider ≡ "tianyi-cloud" → ChinaComplete provider job china.tianyi_cloud
    pub for_baidu : provider ≡ "baidu-ai-cloud" → ChinaComplete provider job china.baidu_ai_cloud

  check_url_iff : (name : String) (u : Option Url) → (check_url m name u ≡ none) ↔ IsStore u
  check_url_iff name none = (λ h. cc, λ h. absurd h)
  check_url_iff name (some u) = (
    λ h. (
      ground (arith, eq_iff u.scheme "", eq_iff u.host ""),
      ground
          (arith, eq_iff u.scheme "", eq_iff u.host "", eq_iff u.scheme "s3", eq_iff u.scheme "gs"),
    ),
    λ h. ground (arith, scheme_accepted u.scheme h.1, eq_iff u.host ""),
  )

  check_prefix_iff :
      (name value : String) → (check_prefix m name value ≡ none) ↔ IsStorePrefix value
  unfolding check_prefix
  check_prefix_iff name value = elim (Bool-cases (value == "")) [
    | inl e ↦ rw e (λ h. inl ((eq_iff value "").0 e), λ h. refl)
    | inr e ↦ rw e (
      λ h. inr ((check_url_iff name (m.parse_url value)).0 h),
      λ h. elim h [
        | inl same ↦ absurd (ground (arith, eq_iff value ""))
        | inr store ↦ (check_url_iff name (m.parse_url value)).1 store
      ],
    )
  ]

  validate_staging_config_iff :
      (s : StagingConfig)
      → (validate_staging_config m s ≡ none)
        ↔ (IsStorePrefix s.checkpoint_uri_prefix × IsStorePrefix s.data_uri_prefix)
  unfolding validate_staging_config
  validate_staging_config_iff s = (
    λ h.
        let k = (visit_iff m.data_prefix_first _ _).0 h in
        (
          (check_prefix_iff "staging.checkpoint_uri_prefix" _).0 k.0,
          (check_prefix_iff "staging.data_uri_prefix" _).0 k.1,
        ),
    λ h. (visit_iff m.data_prefix_first _ _).1 (
      (check_prefix_iff "staging.checkpoint_uri_prefix" _).1 h.0,
      (check_prefix_iff "staging.data_uri_prefix" _).1 h.1,
    ),
  )

  module _ (provider : String) (job : JobSpec) (staging : StagingConfig) (p : PackagingConfig)
      (gcp : GcpConfig F) (lambda : LambdaConfig) (china : ChinaCloudConfig F) where
    abbrev verdict : Option Error
    verdict = validate_provider_config m provider job p gcp lambda china

    validate_provider_config_of_IsComplete :
        IsComplete provider job staging p gcp lambda china → verdict ≡ none
    unfolding validate_provider_config
    validate_provider_config_of_IsComplete h = ground (
      arith,
      eq_iff provider "gcp",
      eq_iff provider "lambda",
      eq_iff provider "alibaba-cloud",
      eq_iff provider "huawei-cloud",
      eq_iff provider "tencent-cloud",
      eq_iff provider "tianyi-cloud",
      eq_iff provider "baidu-ai-cloud",
      λ (e : provider ≡ "gcp"). (validate_gcp_config_iff job p gcp).1 (h.for_gcp e),
      λ (e : provider ≡ "lambda"). (validate_lambda_config_iff m job p lambda).1 (h.for_lambda e),
      λ (e : provider ≡ "alibaba-cloud").
          (validate_china_cloud_config_iff provider job _).1 (h.for_alibaba e),
      λ (e : provider ≡ "huawei-cloud").
          (validate_china_cloud_config_iff provider job _).1 (h.for_huawei e),
      λ (e : provider ≡ "tencent-cloud").
          (validate_china_cloud_config_iff provider job _).1 (h.for_tencent e),
      λ (e : provider ≡ "tianyi-cloud").
          (validate_china_cloud_config_iff provider job _).1 (h.for_tianyi e),
      λ (e : provider ≡ "baidu-ai-cloud").
          (validate_china_cloud_config_iff provider job _).1 (h.for_baidu e),
    )

    IsComplete-of_none :
        validate_staging_config m staging ≡ none
        → verdict ≡ none
        → IsComplete provider job staging p gcp lambda china
    unfolding validate_provider_config
    IsComplete-of_none s h = record {
      for_checkpoints = ((validate_staging_config_iff staging).0 s).0;
      for_data = ((validate_staging_config_iff staging).0 s).1;
      for_gcp = λ e. (validate_gcp_config_iff job p gcp).0 (rw e at h);
      for_lambda = λ e. (validate_lambda_config_iff m job p lambda).0 (rw e at h);
      for_alibaba = λ e. rw e ((validate_china_cloud_config_iff _ job _).0 (rw e at h));
      for_huawei = λ e. rw e ((validate_china_cloud_config_iff _ job _).0 (rw e at h));
      for_tencent = λ e. rw e ((validate_china_cloud_config_iff _ job _).0 (rw e at h));
      for_tianyi = λ e. rw e ((validate_china_cloud_config_iff _ job _).0 (rw e at h));
      for_baidu = λ e. rw e ((validate_china_cloud_config_iff _ job _).0 (rw e at h));
    }

    pub validate_resolved_config_iff :
        (validate_resolved_config m provider job staging p gcp lambda china ≡ none)
        ↔ IsComplete provider job staging p gcp lambda china
    unfolding validate_resolved_config
    validate_resolved_config_iff = (
      λ h. let k = (or_else_iff _ _).0 h in IsComplete-of_none k.0 k.1,
      λ h. (or_else_iff _ _).1 (
        (validate_staging_config_iff staging).1 (h.for_checkpoints, h.for_data),
        validate_provider_config_of_IsComplete h,
      ),
    )
