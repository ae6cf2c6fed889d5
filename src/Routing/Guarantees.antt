-- ===== src/Routing/Guarantees.antt =====
-- What Select of internal/routing/routing.go guarantees of a decision without an error.
use mathlib.Core.List.{Memᴰ}
use mathlib.Core.Path.{subst}
use orchestrator_cli.Common.{
  String, true, false, ◌≡◌, ◌∙◌, ap, inl, inr, none, some, List, [], ◌∷◌, ◌==◌, arith, Bool-cases,
  All,
}
use orchestrator_cli.Common.Text.{GoText}
use orchestrator_cli.Common.Float.{Float64}
use orchestrator_cli.App.{JobSpec, HardwareShape}
use orchestrator_cli.App.Decision.{RoutingCandidate, RoutingDecision}
use orchestrator_cli.Routing.Types.{Options, ProviderCandidate, HardwareScoredCandidate}
use orchestrator_cli.Routing.Registry.{Registry, list}
use orchestrator_cli.Routing.Providers.{scan}
use orchestrator_cli.Routing.Hardware.{estimate_required_vram, hardware_selection}
use orchestrator_cli.Routing.Select.{
  owned, requirement, sizing_failed, choose_hardware, select_hardware_route, select_from, select,
  hardware_routing_enabled, or_min_cost,
}
use orchestrator_cli.Routing.Eligible.{IsEligible, scan-IsEligible}
use orchestrator_cli.Routing.Selection.{
  Names, IsManualFit, select_provider-Names, select_manual-fit, choose_hardware-IsFit,
}
use orchestrator_cli.Routing.Constraints.{Meets, Meets-of_unopposed}

module _ {F : Type 0} ⦃f : Float64 F⦄ ⦃t : GoText⦄ (P : ProviderCandidate F → Type 0) where
  -- a decision that names a fitting shape and its cost
  pub record Equips (opts : Options F) (d : RoutingDecision F) : Type 0 where
    pub candidate : ProviderCandidate F
    pub shape : HardwareShape F
    pub cost : F
    pub holds : P candidate
    pub listed : Memᴰ shape candidate.capabilities.hardware_shapes
    pub meets :
        Meets
          (owned candidate.provider shape)
          (requirement opts (estimate_required_vram opts)).0
          opts.hardware
          opts.budget_max_run_cost_usd
          cost
    pub names_provider : d.selected_provider ≡ candidate.provider
    pub names_hardware :
        d.selected_hardware
        ≡ some (hardware_selection candidate.provider (owned candidate.provider shape))
    pub names_cost : d.estimated_total_cost_usd ≡ some cost

  choose_hardware-Equips :
      (objective : String) (cs : List (ProviderCandidate F)) (rs : List (RoutingCandidate F))
      (opts : Options F)
      → All P cs
      → let o =
          choose_hardware objective cs rs opts (requirement opts (estimate_required_vram opts)) in
        o.1 ≡ none → Equips opts o.0
  choose_hardware-Equips objective cs rs opts p e =
      let (h, fit, provider, hardware, cost) =
        choose_hardware-IsFit P objective cs rs opts
          (requirement opts (estimate_required_vram opts)).0
          (requirement opts (estimate_required_vram opts)).1 p e in
      record {
        candidate = fit.candidate;
        shape = fit.shape;
        cost = h.total_cost_usd;
        holds = fit.holds;
        listed = fit.listed;
        meets =
            subst
              (λ (x : HardwareScoredCandidate F).
                Meets x.shape (requirement opts (estimate_required_vram opts)).0 opts.hardware
                  opts.budget_max_run_cost_usd h.total_cost_usd)
              fit.is_scored (Meets-of_unopposed h.shape _ _ _ _ fit.unopposed);
        names_provider = provider ∙ ap (λ x. x.provider) fit.is_scored;
        names_hardware =
            hardware ∙ ap (λ x. some (hardware_selection x.provider x.shape)) fit.is_scored;
        names_cost = cost;
      }

  select_hardware_route-Equips :
      (objective : String) (cs : List (ProviderCandidate F)) (rs : List (RoutingCandidate F))
      (opts : Options F)
      → (opts.mode == "manual") ≡ false
      → All P cs
      → (select_hardware_route objective cs rs opts).1 ≡ none
      → Equips opts (select_hardware_route objective cs rs opts).0
  unfolding select_hardware_route
  select_hardware_route-Equips objective cs rs opts auto p =
      elim (Bool-cases (sizing_failed opts (estimate_required_vram opts).2)) [
        | inl failed ↦ rw (auto, failed) (λ e. absurd (cc (e, failed)))
        | inr sized ↦ rw (auto, sized) (choose_hardware-Equips objective cs rs opts p)
      ]

  select_from-Equips :
      (objective : String) (cs : List (ProviderCandidate F)) (rs : List (RoutingCandidate F))
      (opts : Options F)
      → hardware_routing_enabled opts ≡ true
      → (opts.mode == "manual") ≡ false
      → All P cs
      → (select_from objective cs rs opts).1 ≡ none
      → Equips opts (select_from objective cs rs opts).0
  unfolding select_from
  select_from-Equips objective [] rs opts on auto p = λ e. absurd (cc e)
  select_from-Equips objective (c ∷ cs) rs opts on auto p =
      rw on (select_hardware_route-Equips objective (c ∷ cs) rs opts auto p)

  select_hardware_route-Names :
      (objective : String) (cs : List (ProviderCandidate F)) (rs : List (RoutingCandidate F))
      (opts : Options F)
      → All P cs
      → (select_hardware_route objective cs rs opts).1 ≡ none
      → Names P (select_hardware_route objective cs rs opts).0
  unfolding select_hardware_route
  select_hardware_route-Names objective cs rs opts p = elim (Bool-cases (opts.mode == "manual")) [
    | inl manual ↦
        rw (manual, select_hardware_route)
          (λ e.
            let (c, s, fit, provider, hardware) = select_manual-fit P objective cs rs opts p e in
            (c, fit.holds, provider))
    | inr auto ↦ λ e.
        let equips = select_hardware_route-Equips objective cs rs opts auto p e in
        (equips.candidate, equips.holds, equips.names_provider)
  ]

  select_from-Names :
      (objective : String) (cs : List (ProviderCandidate F)) (rs : List (RoutingCandidate F))
      (opts : Options F)
      → All P cs
      → (select_from objective cs rs opts).1 ≡ none
      → Names P (select_from objective cs rs opts).0
  unfolding select_from
  select_from-Names objective [] rs opts p = λ e. absurd (cc e)
  select_from-Names objective (c ∷ cs) rs opts p =
      elim (Bool-cases (hardware_routing_enabled opts)) [
        | inl on ↦ rw on (select_hardware_route-Names objective (c ∷ cs) rs opts p)
        | inr off ↦ rw off (select_provider-Names P objective (c ∷ cs) rs p)
      ]

  select_from-manual :
      (objective : String) (cs : List (ProviderCandidate F)) (rs : List (RoutingCandidate F))
      (opts : Options F)
      → (opts.mode == "manual") ≡ true
      → hardware_routing_enabled opts ≡ true
      → All P cs
      → (select_from objective cs rs opts).1 ≡ none
      → (c : ProviderCandidate F) × (s : HardwareShape F) × IsManualFit P opts.manual_hardware c s
        × ((select_from objective cs rs opts).0.selected_provider ≡ c.provider)
        × ((select_from objective cs rs opts).0.selected_hardware
            ≡ some (hardware_selection c.provider s))
  unfolding select_from select_hardware_route
  select_from-manual objective [] rs opts manual on p = λ e. absurd (cc e)
  select_from-manual objective (c ∷ cs) rs opts manual on p =
      rw on (rw manual (select_manual-fit P objective (c ∷ cs) rs opts p))

manual-enabled :
    {F : Type 0} ⦃f : Float64 F⦄ (opts : Options F)
    → (opts.mode == "manual") ≡ true
    → hardware_routing_enabled opts ≡ true
unfolding hardware_routing_enabled
manual-enabled opts h = ground arith

module _ {F : Type 0} ⦃f : Float64 F⦄ ⦃t : GoText⦄ (reg : Registry F) (job : JobSpec)
    (opts : Options F) where
  abbrev eligible : List (ProviderCandidate F)
  eligible = (scan reg job opts (list reg)).0

  -- In every mode, a provider that Select returns without an error is registered and not excluded,
  -- its capabilities cover the job and the checkpoint, and its adapter supports and prices the job.
  pub select-IsEligible :
      (select reg job opts).1 ≡ none
      → (c : ProviderCandidate F) × IsEligible reg job opts c
        × ((select reg job opts).0.selected_provider ≡ c.provider)
  unfolding select
  select-IsEligible =
      select_from-Names (IsEligible reg job opts) (or_min_cost opts.objective) eligible
        (scan reg job opts (list reg)).1 opts (scan-IsEligible reg job opts (list reg))

  -- With hardware routing on and the mode not manual, the hardware that Select returns without an
  -- error is a listed shape of an eligible provider that meets every constraint of the job and, with
  -- the reported total cost, the budget.
  pub select-Equips :
      hardware_routing_enabled opts ≡ true
      → (opts.mode == "manual") ≡ false
      → (select reg job opts).1 ≡ none
      → Equips (IsEligible reg job opts) opts (select reg job opts).0
  unfolding select
  select-Equips on auto =
      select_from-Equips (IsEligible reg job opts) (or_min_cost opts.objective) eligible
        (scan reg job opts (list reg)).1 opts on auto (scan-IsEligible reg job opts (list reg))

  -- In manual mode, the hardware that Select returns without an error is a listed shape of an
  -- eligible provider, and the provider, the shape id, the machine type and the region are those
  -- asked for wherever the request is not empty.
  pub select-manual :
      (opts.mode == "manual") ≡ true
      → (select reg job opts).1 ≡ none
      → (c : ProviderCandidate F) × (s : HardwareShape F) × IsManualFit
          (IsEligible reg job opts)
          opts.manual_hardware
          c
          s
        × ((select reg job opts).0.selected_provider ≡ c.provider)
        × ((select reg job opts).0.selected_hardware ≡ some (hardware_selection c.provider s))
  unfolding select
  select-manual manual =
      select_from-manual (IsEligible reg job opts) (or_min_cost opts.objective) eligible
        (scan reg job opts (list reg)).1 opts manual (manual-enabled opts manual)
        (scan-IsEligible reg job opts (list reg))
