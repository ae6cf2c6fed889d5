-- ===== src/Routing/Select.antt =====
-- Select, selectHardwareRoute and selectManualHardware of internal/routing/routing.go. A decision
-- comes with the error that is returned beside it, `none` for nil.
use Prim.Native.String.{◌++◌ as str_append}
use orchestrator_cli.Common.{
  String, Bool, false, not, ◌&&◌, ◌||◌, Option, none, some, List, [], ◌∷◌, ◌++◌, ◌==◌,
  if◌then◌else◌,
}
use orchestrator_cli.Common.Int.{pos}
use orchestrator_cli.Common.Text.{GoText, str_lt}
use orchestrator_cli.Common.Float.{Float64}
use orchestrator_cli.Common.Sort.{sort_stable}
use orchestrator_cli.App.{JobSpec, HardwareShape}
use orchestrator_cli.App.Decision.{
  Reason, shape_mismatch, machine_mismatch, region_mismatch, RoutingCandidate, HardwareCandidate,
  RoutingDecision,
}
use orchestrator_cli.Routing.Types.{
  Options, ManualHardware, ProviderCandidate, HardwareScoredCandidate, SelectError,
  no_eligible_providers, no_eligible_hardware, no_manual_match,
}
use orchestrator_cli.Routing.Registry.{Registry, list}
use orchestrator_cli.Routing.Providers.{scan}
use orchestrator_cli.Routing.Hardware.{
  estimate_required_vram, estimate_runtime_seconds, estimate_total_cost_usd, hardware_selection,
  shape_rejections,
}

abbrev pub Outcome : Type 0 → Type 0
Outcome F = RoutingDecision F × Option (SelectError F)

abbrev pub or_min_cost : String → String
or_min_cost objective = if objective == "" then "min_cost" else objective

module _ {F : Type 0} ⦃f : Float64 F⦄ where
  unfoldable pub routing_candidates : List (ProviderCandidate F) → List (RoutingCandidate F)
  routing_candidates [] = []
  routing_candidates (c ∷ cs) =
      record { provider = c.provider; score = c.score; reasons = [] } ∷ routing_candidates cs

  unfoldable pub hardware_candidates : List (HardwareScoredCandidate F) → List (HardwareCandidate F)
  hardware_candidates [] = []
  hardware_candidates (c ∷ cs) =
      record {
        provider = c.provider;
        shape_id = c.shape.id;
        score = c.runtime_seconds;
        reasons = [];
      }
      ∷ hardware_candidates cs

  -- a decision of which only the objective and the providers are set
  abbrev pub undecided :
      String
      → List (RoutingCandidate F)
      → List (RoutingCandidate F)
      → List (HardwareCandidate F)
      → String
      → RoutingDecision F
  undecided objective eligible rejected rejected_hw confidence = record {
    run_id = "";
    selected_provider = "";
    objective = objective;
    selection_reason = "";
    eligible_providers = eligible;
    rejected_providers = rejected;
    selected_hardware = none;
    eligible_hardware = [];
    rejected_hardware = rejected_hw;
    estimated_required_vram_gb = none;
    estimated_runtime_seconds = none;
    estimated_total_cost_usd = none;
    confidence = confidence;
  }

  -- the comparison of the stable sort in Select
  unfoldable pub provider_less : String → ProviderCandidate F → ProviderCandidate F → Bool
  provider_less objective a b =
      if objective == "min_cost" then f.lt a.score b.score else str_lt a.provider b.provider

  -- the last two tests of the comparison in sortHardware
  unfoldable pub name_less : HardwareScoredCandidate F → HardwareScoredCandidate F → Bool
  name_less a b =
      if a.provider == b.provider
      then str_lt a.shape.id b.shape.id
      else str_lt a.provider b.provider

  -- the tests from the cost on
  unfoldable pub cost_less : HardwareScoredCandidate F → HardwareScoredCandidate F → Bool
  cost_less a b =
      if f.eq a.total_cost_usd b.total_cost_usd
      then name_less a b
      else f.lt a.total_cost_usd b.total_cost_usd

  -- the tests from the runtime on
  unfoldable pub runtime_less : HardwareScoredCandidate F → HardwareScoredCandidate F → Bool
  runtime_less a b =
      if f.eq a.runtime_seconds b.runtime_seconds
      then cost_less a b
      else f.lt a.runtime_seconds b.runtime_seconds

  -- the comparison of sortHardware
  unfoldable pub hardware_less :
      String → HardwareScoredCandidate F → HardwareScoredCandidate F → Bool
  hardware_less objective a b =
      if objective == "fastest_within_budget" then runtime_less a b else cost_less a b

  unfoldable pub hardware_routing_enabled : Options F → Bool
  hardware_routing_enabled opts =
      opts.mode == "full_auto"
      || (opts.mode == "auto_provider"
          || (opts.mode == "manual" || opts.objective == "fastest_within_budget"))

  -- `if shape.Provider == "" { shape.Provider = provider }`
  abbrev pub owned : String → HardwareShape F → HardwareShape F
  owned provider s = if s.provider == "" then record s { provider = provider } else s

  unfoldable pub manual_mismatch : ManualHardware → HardwareShape F → Option (Reason F)
  manual_mismatch m s =
      if not (m.shape_id == "") && not (s.id == m.shape_id)
      then some shape_mismatch
      else if not (m.machine_type == "") && not (s.machine_type == m.machine_type)
      then some machine_mismatch
      else if not (m.region == "") && not (s.region == m.region)
      then some region_mismatch
      else none

  -- the shapes of one provider up to the first match
  unfoldable pub manual_shapes :
      ManualHardware
      → String
      → List (HardwareShape F)
      → List (HardwareCandidate F) × Option (HardwareShape F)
  manual_shapes m provider [] = ([], none)
  manual_shapes m provider (s ∷ ss) =
      let (rs, found) = manual_shapes m provider ss in
      elim (manual_mismatch m (owned provider s)) [
        | none ↦ ([], some (owned provider s))
        | some r ↦ (
          record {
            provider = provider;
            shape_id = s.id;
            score = f.of_int (pos 0);
            reasons = r ∷ [];
          }
              ∷ rs,
          found,
        )
      ]

  unfoldable pub manual_providers :
      ManualHardware
      → List (ProviderCandidate F)
      → List (HardwareCandidate F) × Option (ProviderCandidate F × HardwareShape F)
  manual_providers m [] = ([], none)
  manual_providers m (c ∷ cs) =
      let (later, found) = manual_providers m cs in
      if not (m.provider == "") && not (c.provider == m.provider)
      then (later, found)
      else (let (here, match) = manual_shapes m c.provider c.capabilities.hardware_shapes in
          elim match [ none ↦ (here ++ later, found) | some s ↦ (here, some (c, s)) ])

module _ {F : Type 0} ⦃f : Float64 F⦄ ⦃t : GoText⦄ where
  unfoldable pub select_manual_hardware :
      String → List (ProviderCandidate F) → List (RoutingCandidate F) → Options F → Outcome F
  select_manual_hardware objective providers rejected opts =
      let (rejected_hw, found) = manual_providers opts.manual_hardware providers in
      let base = undecided objective (routing_candidates providers) rejected rejected_hw "manual" in
      elim found [
        | none ↦ (base, some no_manual_match)
        | some (c, s) ↦
            let runtime = estimate_runtime_seconds s opts.sizing in
            (
              record base {
                selected_provider = c.provider;
                selection_reason = str_append "selected " (
                    str_append c.provider
                      (str_append " on " (str_append s.id " by manual hardware")));
                selected_hardware = some (hardware_selection c.provider s);
                estimated_runtime_seconds = some runtime;
                estimated_total_cost_usd = some (estimate_total_cost_usd s c.score runtime);
              },
              none,
            )
      ]

  abbrev pub scored : Options F → ProviderCandidate F → HardwareShape F → HardwareScoredCandidate F
  scored opts c s =
      let runtime = estimate_runtime_seconds s opts.sizing in
      record {
        provider = c.provider;
        shape = s;
        runtime_seconds = runtime;
        total_cost_usd = estimate_total_cost_usd s c.score runtime;
      }

  -- the inner loop of selectHardwareRoute
  unfoldable pub scan_shapes :
      Options F
      → F
      → ProviderCandidate F
      → List (HardwareShape F)
      → List (HardwareScoredCandidate F) × List (HardwareCandidate F)
  scan_shapes opts required c [] = ([], [])
  scan_shapes opts required c (s ∷ ss) =
      let (es, rs) = scan_shapes opts required c ss in
      let h = scored opts c (owned c.provider s) in
      elim (shape_rejections h.shape required opts.hardware opts.budget_max_run_cost_usd
        h.total_cost_usd) [
          | [] ↦ (h ∷ es, rs)
          | r ∷ more ↦ (
            es,
            record {
              provider = c.provider;
              shape_id = s.id;
              score = f.of_int (pos 0);
              reasons = r ∷ more;
            }
                ∷ rs,
          )
        ]

  -- both loops of selectHardwareRoute
  unfoldable pub scan_hardware :
      Options F
      → F
      → List (ProviderCandidate F)
      → List (HardwareScoredCandidate F) × List (HardwareCandidate F)
  scan_hardware opts required [] = ([], [])
  scan_hardware opts required (c ∷ cs) =
      let (es, rs) = scan_shapes opts required c c.capabilities.hardware_shapes in
      let (more_es, more_rs) = scan_hardware opts required cs in (es ++ more_es, rs ++ more_rs)

  -- the required memory and the confidence after the fallback of selectHardwareRoute
  abbrev pub requirement : Options F → F × String × Option (SelectError F) → F × String
  requirement opts (v, confidence, none) = (v, confidence)
  requirement opts (v, confidence, some e) =
      (f.of_int opts.hardware.min_vram_gb_per_gpu, "constraint")

  unfoldable pub choose_hardware :
      String
      → List (ProviderCandidate F)
      → List (RoutingCandidate F)
      → Options F
      → F × String
      → Outcome F
  choose_hardware objective providers rejected opts (required, confidence) =
      let (es, rs) = scan_hardware opts required providers in
      let base = undecided objective (routing_candidates providers) rejected rs confidence in
      elim (sort_stable (hardware_less objective) es) [
        | [] ↦ (base, some (no_eligible_hardware rs))
        | h ∷ hs ↦ (
          record base {
            selected_provider = h.provider;
            selection_reason = str_append "selected " (
                str_append h.provider
                  (str_append " on " (str_append h.shape.id (str_append " by " objective))));
            selected_hardware = some (hardware_selection h.provider h.shape);
            eligible_hardware = hardware_candidates (h ∷ hs);
            estimated_required_vram_gb = some required;
            estimated_runtime_seconds = some h.runtime_seconds;
            estimated_total_cost_usd = some h.total_cost_usd;
          },
          none,
        )
      ]

  abbrev pub sizing_failed : Options F → Option (SelectError F) → Bool
  sizing_failed opts none = false
  sizing_failed opts (some e) = opts.mode == "full_auto"

  unfoldable pub select_hardware_route :
      String → List (ProviderCandidate F) → List (RoutingCandidate F) → Options F → Outcome F
  select_hardware_route objective providers rejected opts =
      let sizing = estimate_required_vram opts in
      if opts.mode == "manual"
      then select_manual_hardware objective providers rejected opts
      else if sizing_failed opts sizing.2
      then (undecided objective (routing_candidates providers) rejected [] "low", sizing.2)
      else choose_hardware objective providers rejected opts (requirement opts sizing)

  -- the end of Select; the list is not empty there
  unfoldable pub select_provider :
      String → List (ProviderCandidate F) → List (RoutingCandidate F) → Outcome F
  select_provider objective providers rejected =
      elim (sort_stable (provider_less objective) providers) [
        | [] ↦ (undecided objective [] rejected [] "", some (no_eligible_providers rejected))
        | c ∷ cs ↦ (
          record (undecided objective (routing_candidates (c ∷ cs)) rejected [] "") {
            selected_provider = c.provider;
            selection_reason =
                str_append "selected " (str_append c.provider (str_append " by " objective));
          },
          none,
        )
      ]

  unfoldable pub select_from :
      String → List (ProviderCandidate F) → List (RoutingCandidate F) → Options F → Outcome F
  select_from objective [] rejected opts =
      (undecided objective [] rejected [] "", some (no_eligible_providers rejected))
  select_from objective (c ∷ cs) rejected opts =
      if hardware_routing_enabled opts
      then select_hardware_route objective (c ∷ cs) rejected opts
      else select_provider objective (c ∷ cs) rejected

  unfoldable pub select : Registry F → JobSpec → Options F → Outcome F
  select reg job opts =
      let (es, rs) = scan reg job opts (list reg) in
      select_from (or_min_cost opts.objective) es rs opts
