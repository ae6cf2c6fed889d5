-- ===== src/Routing/Tests.antt =====
-- A registry of two providers, jobs and options, and what Select makes of them.
use mathlib.Core.List.{Memᴰ, Perm}
use orchestrator_cli.Common.{
  ℕ, String, true, false, ◌≡◌, refl, ◌==◌, none, some, List, [], ◌∷◌, All,
}
use orchestrator_cli.Common.Int.{pos}
use orchestrator_cli.Common.Text.{GoText, str_lt}
use orchestrator_cli.Common.Float.{Milli, milli_float, Milli-IsOrdered}
use orchestrator_cli.Common.Sort.{sort_stable, insert}
use orchestrator_cli.App.{JobSpec, ProviderCapabilities, HardwareShape}
use orchestrator_cli.App.Errors.{ok, err, provider, ProviderErrorKind}
use orchestrator_cli.Routing.Types.{
  Options, ProviderAdapter, ProviderCandidate, HardwareScoredCandidate,
}
use orchestrator_cli.Routing.Registry.{Registry, lookup, get, list}
use orchestrator_cli.Routing.Providers.{
  contains, checkpoint_scheme, contains_fold, supported_checkpoint_scheme, input_rejections,
  inputs_rejections, resume_rejections, capability_rejections, judge_estimate, judge_capabilities,
  judge_adapter, judge, scan,
}
use orchestrator_cli.Routing.Hardware.{
  max_int, estimate_required_vram, availability_rejections, market_rejections, hardware_rejections,
  estimate_runtime_seconds, estimate_total_cost_usd, selected_hourly_usd, hardware_selection,
  shape_rejections,
}
use orchestrator_cli.Routing.Select.{
  routing_candidates, hardware_candidates, provider_less, name_less, cost_less, runtime_less,
  hardware_less, hardware_routing_enabled, manual_mismatch, manual_shapes, manual_providers,
  select_manual_hardware, scan_shapes, scan_hardware, choose_hardware, select_hardware_route,
  select_provider, select_from, select,
}
use orchestrator_cli.Routing.Eligible.{IsEligible}
use orchestrator_cli.Routing.Selection.{IsManualFit}
use orchestrator_cli.Routing.Guarantees.{Equips, select-IsEligible, select-Equips, select-manual}
use orchestrator_cli.Routing.Optimal.{
  HasNumbers, NoBetter, choose_hardware-best, select_provider-cheapest,
}
use orchestrator_cli.Routing.Accounts.{accounts, select-succeeds, select-accounts}

-- one letter case and one scheme
instance abbrev pub demo_text : GoText
demo_text = record {
  to_lower = λ s. s;
  equal_fold = λ a b. a == b;
  url_scheme = λ s. some "gs";
  cut_before = λ s sep. some "gs";
}

abbrev a100 : HardwareShape Milli
a100 = record {
  id = "a100x1";
  provider = "";
  region = "us-east";
  zones = [];
  machine_type = "a2-highgpu-1g";
  accelerator_type = "A100";
  accelerator_count = pos 1;
  gpu_family = "a100";
  vram_gb_per_gpu = pos 40;
  total_vram_gb = pos 40;
  on_demand_hourly_usd = 3600;
  spot_hourly_usd = 0;
  supports_on_demand = true;
  supports_spot = false;
  max_runtime_hours = none;
  availability_hint = "";
  availability_reason = "";
  quota_metric = "";
  quota_limit = 0;
  quota_usage = 0;
  quota_available = 0;
}

abbrev no_capabilities : ProviderCapabilities Milli
no_capabilities = record {
  gpu_families = [];
  regions = [];
  hardware_shapes = [];
  supports_spot = false;
  supports_on_demand = true;
  supports_docker_image = true;
  supports_local_script = true;
  supports_data_bundle = true;
  supported_uri_schemes = "gs" ∷ [];
  supported_checkpoint_schemes = "gs" ∷ [];
  supports_object_store_pull = false;
  max_runtime_hours = none;
}

abbrev cloud_capabilities : ProviderCapabilities Milli
cloud_capabilities = record no_capabilities {
  hardware_shapes =
      a100
      ∷ (record a100 {
        id = "a100x2";
        accelerator_count = pos 2;
        total_vram_gb = pos 80;
        on_demand_hourly_usd = 7000;
      })
      ∷ [];
}

abbrev adapter_of : String → ProviderCapabilities Milli → ℕ → ProviderAdapter Milli
adapter_of n c price = record {
  name = n;
  capabilities = ok c;
  validate_job = λ j. record { supported = true; reasons = [] };
  estimate = λ j. ok (record { hourly_usd = price; currency = "USD" });
}

abbrev broken : ProviderAdapter Milli
broken = record (adapter_of "azure" no_capabilities 0) {
  capabilities = err (provider ProviderErrorKind.auth "no key");
}

abbrev pub demo_registry : Registry Milli
demo_registry =
    ("local", adapter_of "local" no_capabilities 5000)
    ∷ ("gcp", adapter_of "gcp" cloud_capabilities 3600)
    ∷ ("azure", broken)
    ∷ []

abbrev pub demo_job : JobSpec
demo_job = record {
  name = "train";
  script = "train.py";
  image = "";
  command = [];
  args = [];
  env = [];
  inputs = record { name = "set"; source = "gs://b/set"; mount = "/data"; mode = "uri" } ∷ [];
  work_dir = "";
}

abbrev pub demo_options : Options Milli
demo_options = record {
  mode = "";
  objective = "min_cost";
  exclude = [];
  budget_max_run_cost_usd = 20000;
  sizing = record {
    required_vram_gb = 30000;
    model_parameters_b = 0;
    model_artifact_gb = 0;
    batch_size = pos 0;
    gradient_accumulation_steps = pos 0;
    precision = "";
    optimizer = "";
    expected_steps = pos 0;
  };
  hardware = record {
    max_gpus = pos 2;
    allowed_gpu_families = "a100" ∷ [];
    min_vram_gb_per_gpu = pos 24;
    regions = [];
    allow_spot = false;
    require_on_demand = true;
  };
  manual_hardware = record { provider = ""; shape_id = "a100x2"; machine_type = ""; region = "" };
  resume_from = some (record { uri = "gs://b/step"; step = pos 10 });
}

abbrev full_auto : Options Milli
full_auto = record demo_options { mode = "full_auto" }

abbrev manual : Options Milli
manual = record demo_options { mode = "manual" }

abbrev gcp_candidate : ProviderCandidate Milli
gcp_candidate = record { provider = "gcp"; score = 3600; capabilities = cloud_capabilities }

abbrev local_candidate : ProviderCandidate Milli
local_candidate = record { provider = "local"; score = 5000; capabilities = no_capabilities }

plain_succeeds : (select demo_registry demo_job demo_options).1 ≡ none
unfolding select select_from select_provider select_hardware_route select_manual_hardware
    choose_hardware scan_hardware scan_shapes manual_providers manual_shapes manual_mismatch scan
    judge judge_adapter judge_capabilities judge_estimate capability_rejections inputs_rejections
    input_rejections resume_rejections supported_checkpoint_scheme contains_fold checkpoint_scheme
    contains get lookup list sort_stable insert str_lt provider_less hardware_less runtime_less
    cost_less name_less hardware_routing_enabled estimate_required_vram hardware_rejections
    market_rejections availability_rejections shape_rejections estimate_runtime_seconds
    estimate_total_cost_usd max_int hardware_selection selected_hourly_usd hardware_candidates
    routing_candidates
plain_succeeds = refl

plain_choice : (select demo_registry demo_job demo_options).0.selected_provider ≡ "gcp"
unfolding select select_from select_provider select_hardware_route select_manual_hardware
    choose_hardware scan_hardware scan_shapes manual_providers manual_shapes manual_mismatch scan
    judge judge_adapter judge_capabilities judge_estimate capability_rejections inputs_rejections
    input_rejections resume_rejections supported_checkpoint_scheme contains_fold checkpoint_scheme
    contains get lookup list sort_stable insert str_lt provider_less hardware_less runtime_less
    cost_less name_less hardware_routing_enabled estimate_required_vram hardware_rejections
    market_rejections availability_rejections shape_rejections estimate_runtime_seconds
    estimate_total_cost_usd max_int hardware_selection selected_hourly_usd hardware_candidates
    routing_candidates
plain_choice = refl

full_auto_succeeds : (select demo_registry demo_job full_auto).1 ≡ none
unfolding select select_from select_provider select_hardware_route select_manual_hardware
    choose_hardware scan_hardware scan_shapes manual_providers manual_shapes manual_mismatch scan
    judge judge_adapter judge_capabilities judge_estimate capability_rejections inputs_rejections
    input_rejections resume_rejections supported_checkpoint_scheme contains_fold checkpoint_scheme
    contains get lookup list sort_stable insert str_lt provider_less hardware_less runtime_less
    cost_less name_less hardware_routing_enabled estimate_required_vram hardware_rejections
    market_rejections availability_rejections shape_rejections estimate_runtime_seconds
    estimate_total_cost_usd max_int hardware_selection selected_hourly_usd hardware_candidates
    routing_candidates
full_auto_succeeds = refl

manual_succeeds : (select demo_registry demo_job manual).1 ≡ none
unfolding select select_from select_provider select_hardware_route select_manual_hardware
    choose_hardware scan_hardware scan_shapes manual_providers manual_shapes manual_mismatch scan
    judge judge_adapter judge_capabilities judge_estimate capability_rejections inputs_rejections
    input_rejections resume_rejections supported_checkpoint_scheme contains_fold checkpoint_scheme
    contains get lookup list sort_stable insert str_lt provider_less hardware_less runtime_less
    cost_less name_less hardware_routing_enabled estimate_required_vram hardware_rejections
    market_rejections availability_rejections shape_rejections estimate_runtime_seconds
    estimate_total_cost_usd max_int hardware_selection selected_hourly_usd hardware_candidates
    routing_candidates
manual_succeeds = refl

select-IsEligible_example :
    (c : ProviderCandidate Milli) × IsEligible demo_registry demo_job full_auto c
    × ((select demo_registry demo_job full_auto).0.selected_provider ≡ c.provider)
select-IsEligible_example = select-IsEligible demo_registry demo_job full_auto full_auto_succeeds

select-Equips_example :
    Equips
      (IsEligible demo_registry demo_job full_auto)
      full_auto
      (select demo_registry demo_job full_auto).0
unfolding hardware_routing_enabled
select-Equips_example = select-Equips demo_registry demo_job full_auto refl refl full_auto_succeeds

select-manual_example :
    (c : ProviderCandidate Milli) × (s : HardwareShape Milli) × IsManualFit
      (IsEligible demo_registry demo_job manual)
      manual.manual_hardware
      c
      s
    × ((select demo_registry demo_job manual).0.selected_provider ≡ c.provider)
    × ((select demo_registry demo_job manual).0.selected_hardware
        ≡ some (hardware_selection c.provider s))
select-manual_example = select-manual demo_registry demo_job manual refl manual_succeeds

gcp-IsEligible : IsEligible demo_registry demo_job demo_options gcp_candidate
unfolding select select_from select_provider select_hardware_route select_manual_hardware
    choose_hardware scan_hardware scan_shapes manual_providers manual_shapes manual_mismatch scan
    judge judge_adapter judge_capabilities judge_estimate capability_rejections inputs_rejections
    input_rejections resume_rejections supported_checkpoint_scheme contains_fold checkpoint_scheme
    contains get lookup list sort_stable insert str_lt provider_less hardware_less runtime_less
    cost_less name_less hardware_routing_enabled estimate_required_vram hardware_rejections
    market_rejections availability_rejections shape_rejections estimate_runtime_seconds
    estimate_total_cost_usd max_int hardware_selection selected_hourly_usd hardware_candidates
    routing_candidates
gcp-IsEligible = record {
  adapter = adapter_of "gcp" cloud_capabilities 3600;
  estimate = record { hourly_usd = 3600; currency = "USD" };
  not_excluded = refl;
  registered = refl;
  capable = refl;
  compatible = refl;
  supported = refl;
  estimated = refl;
  priced = refl;
}

select-succeeds_example : (select demo_registry demo_job demo_options).1 ≡ none
unfolding hardware_routing_enabled
select-succeeds_example =
    select-succeeds demo_registry demo_job demo_options gcp_candidate refl gcp-IsEligible

select-accounts_example :
    Perm (accounts (select demo_registry demo_job full_auto).0) ("local" ∷ "gcp" ∷ "azure" ∷ [])
select-accounts_example = select-accounts demo_registry demo_job full_auto

abbrev both : List (ProviderCandidate Milli)
both = local_candidate ∷ gcp_candidate ∷ []

plain_of_both : (select_provider "min_cost" both []).1 ≡ none
unfolding select select_from select_provider select_hardware_route select_manual_hardware
    choose_hardware scan_hardware scan_shapes manual_providers manual_shapes manual_mismatch scan
    judge judge_adapter judge_capabilities judge_estimate capability_rejections inputs_rejections
    input_rejections resume_rejections supported_checkpoint_scheme contains_fold checkpoint_scheme
    contains get lookup list sort_stable insert str_lt provider_less hardware_less runtime_less
    cost_less name_less hardware_routing_enabled estimate_required_vram hardware_rejections
    market_rejections availability_rejections shape_rejections estimate_runtime_seconds
    estimate_total_cost_usd max_int hardware_selection selected_hourly_usd hardware_candidates
    routing_candidates
plain_of_both = refl

select_provider-cheapest_example :
    (c : ProviderCandidate Milli) × Memᴰ c both
    × All (λ (x : ProviderCandidate Milli). milli_float.lt x.score c.score ≡ false) both
    × ((select_provider "min_cost" both []).0.selected_provider ≡ c.provider)
select_provider-cheapest_example =
    select_provider-cheapest Milli-IsOrdered both [] (refl, (refl, tt)) plain_of_both

best_of_both : (choose_hardware "fastest_within_budget" both [] full_auto (30000, "probe")).1 ≡ none
unfolding select select_from select_provider select_hardware_route select_manual_hardware
    choose_hardware scan_hardware scan_shapes manual_providers manual_shapes manual_mismatch scan
    judge judge_adapter judge_capabilities judge_estimate capability_rejections inputs_rejections
    input_rejections resume_rejections supported_checkpoint_scheme contains_fold checkpoint_scheme
    contains get lookup list sort_stable insert str_lt provider_less hardware_less runtime_less
    cost_less name_less hardware_routing_enabled estimate_required_vram hardware_rejections
    market_rejections availability_rejections shape_rejections estimate_runtime_seconds
    estimate_total_cost_usd max_int hardware_selection selected_hourly_usd hardware_candidates
    routing_candidates
best_of_both = refl

both_numbers : All (HasNumbers Milli-IsOrdered) (scan_hardware full_auto 30000 both).0
unfolding select select_from select_provider select_hardware_route select_manual_hardware
    choose_hardware scan_hardware scan_shapes manual_providers manual_shapes manual_mismatch scan
    judge judge_adapter judge_capabilities judge_estimate capability_rejections inputs_rejections
    input_rejections resume_rejections supported_checkpoint_scheme contains_fold checkpoint_scheme
    contains get lookup list sort_stable insert str_lt provider_less hardware_less runtime_less
    cost_less name_less hardware_routing_enabled estimate_required_vram hardware_rejections
    market_rejections availability_rejections shape_rejections estimate_runtime_seconds
    estimate_total_cost_usd max_int hardware_selection selected_hourly_usd hardware_candidates
    routing_candidates
both_numbers = ((refl, refl), ((refl, refl), tt))

choose_hardware-best_example :
    let hs = (scan_hardware full_auto 30000 both).0 in
    (h : HardwareScoredCandidate Milli) × Memᴰ h hs
    × All (NoBetter Milli-IsOrdered "fastest_within_budget" h) hs
    × ((choose_hardware "fastest_within_budget" both [] full_auto
          (30000, "probe")).0.selected_hardware
        ≡ some (hardware_selection h.provider h.shape))
choose_hardware-best_example =
    choose_hardware-best Milli-IsOrdered "fastest_within_budget" both [] full_auto 30000 "probe"
      both_numbers best_of_both
