-- ===== src/Cli/Cleanup.antt =====
-- The commands `resources cleanup`, `resources refresh` and `cancel` of internal/cli/root.go. What the
-- adapters and the credential store answer is a parameter.
use Prim.Native.String.{◌++◌ as str_append}
use orchestrator_cli.Common.{
  ℕ, String, Bool, true, false, not, ◌&&◌, ◌||◌, Option, none, some, List, [], ◌∷◌, ◌==◌,
  if◌then◌else◌,
}
use orchestrator_cli.App.Runs.{
  AttemptState, ProviderResource, ProviderResourceState, ProviderResourceCleanupPolicy,
  ProviderJobStatus,
}
use orchestrator_cli.App.Errors.{Error, Result, ok, err, plain}
use orchestrator_cli.State.World.{Platform}
use orchestrator_cli.State.Action.{Action, ◌>>=◌, ◌>>◌, give, asks, now}
use orchestrator_cli.State.Resources.{
  ProviderResourceFilter, provider_resources, save_provider_resource,
}

unfoldable pub provider_resource_state_active : ProviderResourceState → Bool
provider_resource_state_active ProviderResourceState.creating = true
provider_resource_state_active ProviderResourceState.booting = true
provider_resource_state_active ProviderResourceState.running = true
provider_resource_state_active ProviderResourceState.unknown = true
provider_resource_state_active _ = false

abbrev is_never : ProviderResourceCleanupPolicy → Bool
is_never ProviderResourceCleanupPolicy.never = true
is_never _ = false

unfoldable pub resource_cleanup_eligible : ProviderResource → Bool
resource_cleanup_eligible r =
    if not r.created_by_switchboard
      || r.provider_ref == ""
      || not (provider_resource_state_active r.state)
    then false
    else not (is_never r.cleanup_policy)

unfoldable pub resource_refresh_supported : ProviderResource → Bool
resource_refresh_supported r =
    not (r.provider_ref == "") && (r.provider == "gcp" || r.provider == "lambda")

unfoldable pub provider_resource_state_from_attempt : AttemptState → ProviderResourceState
provider_resource_state_from_attempt AttemptState.running = ProviderResourceState.running
provider_resource_state_from_attempt AttemptState.succeeded = ProviderResourceState.succeeded
provider_resource_state_from_attempt AttemptState.failed = ProviderResourceState.failed
provider_resource_state_from_attempt AttemptState.canceled = ProviderResourceState.canceled

abbrev status_or : ProviderResourceState → Option ProviderResourceState → ProviderResourceState
status_or d none = d
status_or d (some s) = s

unfoldable pub provider_resource_state_from_status : ProviderJobStatus → ProviderResourceState
unfolding provider_resource_state_from_attempt
provider_resource_state_from_status s =
    status_or (provider_resource_state_from_attempt s.state) s.resource_state

-- the names of chinacloud.Definitions()
unfoldable pub is_china_cloud_provider : String → Bool
is_china_cloud_provider p =
    p == "alibaba-cloud"
    || p == "huawei-cloud"
    || p == "tencent-cloud"
    || p == "tianyi-cloud"
    || p == "baidu-ai-cloud"

unfoldable pub cleanup_requested_state : ProviderResource → ProviderResourceState
unfolding is_china_cloud_provider
cleanup_requested_state r =
    if r.provider == "lambda"
    then ProviderResourceState.terminating
    else if r.provider == "gcp"
    then ProviderResourceState.canceled
    else if is_china_cloud_provider r.provider
    then ProviderResourceState.terminating
    else ProviderResourceState.unknown

-- `merged[key] = value`
unfoldable pub set_value : String → String → List (String × String) → List (String × String)
set_value key value [] = (key, value) ∷ []
set_value key value ((k, v) ∷ more) =
    if k == key then (key, value) ∷ more else (k, v) ∷ set_value key value more

unfoldable pub merge_resource_metadata :
    List (String × String) → List (String × String) → List (String × String)
unfolding set_value
merge_resource_metadata current [] = current
merge_resource_metadata current ((k, v) ∷ more) =
    merge_resource_metadata (set_value k v current) more

-- the error of optionalCredentialResolverAtHome, whether a factory for the Lambda adapter is set, and
-- Cancel and GetStatus of the adapter for a provider, by the number of readings before
pub record AdapterCalls : Type 0 where
  pub optional_resolver : Option Error
  pub lambda_factory : Bool
  pub cancel : String → String → ℕ → Option Error
  pub get_status : String → String → ℕ → Result ProviderJobStatus

abbrev pub error_or : Option Error → Result (Unit {0})
error_or none = ok tt
error_or (some e) = err e

abbrev pub cleaned : Platform → ProviderResource → ℕ → ProviderResource
cleaned p r t = record r {
  state = cleanup_requested_state r;
  updated_at = some t;
  last_observed_at = some t;
  metadata = merge_resource_metadata r.metadata (("cleanup_requested_at", p.time_text t) ∷ []);
}

abbrev pub refreshed : Platform → ProviderResource → ProviderJobStatus → ℕ → ProviderResource
refreshed p r status t = record r {
  state = provider_resource_state_from_status status;
  updated_at = some t;
  last_observed_at = some t;
  metadata = merge_resource_metadata r.metadata (("refreshed_at", p.time_text t) ∷ []);
}

abbrev pub raise : {F : Type 0} → Option Error → Action F (Unit {0})
raise e w = (error_or e, w)

module _ (c : AdapterCalls) where
  -- the error of cleanupAdapterForResource
  unfoldable pub cleanup_adapter_for_resource : ProviderResource → Option Error
  cleanup_adapter_for_resource r =
      if r.provider == "gcp"
      then none
      else if r.provider == "lambda"
      then (if c.lambda_factory then none else c.optional_resolver)
      else if is_china_cloud_provider r.provider
      then c.optional_resolver
      else some (plain (str_append "resource cleanup is not supported for provider " r.provider))

  -- the error of refreshAdapterForResource
  unfoldable pub refresh_adapter_for_resource : ProviderResource → Option Error
  unfolding cleanup_adapter_for_resource
  refresh_adapter_for_resource r =
      if r.provider == "gcp" || r.provider == "lambda"
      then cleanup_adapter_for_resource r
      else some (plain (str_append "resource refresh is not supported for provider " r.provider))

  module _ {F : Type 0} (p : Platform) where
    -- one round of the loop of `cleanup` for an eligible resource
    unfoldable pub cleanup_one : ProviderResource → Action F ProviderResource
    cleanup_one r = do
      raise (cleanup_adapter_for_resource r)
      asks (λ n. error_or (c.cancel r.provider r.provider_ref n))
      t ← now p
      save_provider_resource p (cleaned p r t)

    -- the loop; it returns the resources that were cleaned, or would be
    unfoldable pub cleanup_loop : Bool → List ProviderResource → Action F (List ProviderResource)
    cleanup_loop dry_run [] = give []
    cleanup_loop dry_run (r ∷ more) = elim (resource_cleanup_eligible r) [
      | false ↦ cleanup_loop dry_run more
      | true ↦ elim dry_run [
        | true ↦ cleanup_loop dry_run more >>= λ rest. give (r ∷ rest)
        | false ↦
            cleanup_one r >>= λ saved. cleanup_loop dry_run more >>= λ rest. give (saved ∷ rest)
      ]
    ]

    unfoldable pub cleanup : ProviderResourceFilter → Bool → Action F (List ProviderResource)
    unfolding cleanup_loop
    cleanup f dry_run = provider_resources p f >>= λ resources. cleanup_loop dry_run resources

    unfoldable pub refresh_one : ProviderResource → Action F ProviderResource
    refresh_one r = do
      raise (refresh_adapter_for_resource r)
      status ← asks (λ n. c.get_status r.provider r.provider_ref n)
      t ← now p
      save_provider_resource p (refreshed p r status t)

    unfoldable pub refresh_loop : List ProviderResource → Action F (List ProviderResource)
    refresh_loop [] = give []
    refresh_loop (r ∷ more) = elim (resource_refresh_supported r) [
      | false ↦ refresh_loop more
      | true ↦ refresh_one r >>= λ saved. refresh_loop more >>= λ rest. give (saved ∷ rest)
    ]

    unfoldable pub refresh : ProviderResourceFilter → Action F (List ProviderResource)
    unfolding refresh_loop
    refresh f = provider_resources p f >>= λ resources. refresh_loop resources
