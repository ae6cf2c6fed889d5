-- ===== src/Routing/Eligible.antt =====
-- Which providers the loop of Select accepts, and that a successful Select names one of them.
use orchestrator_cli.Common.{
  String, true, false, ◌≡◌, refl, ap, ◌⊎◌, inl, inr, List, [], ◌∷◌, arith, All,
}
use orchestrator_cli.Common.Text.{GoText}
use orchestrator_cli.Common.Float.{Float64}
use orchestrator_cli.App.{JobSpec, ProviderCapabilities, CostEstimate}
use orchestrator_cli.App.Errors.{Result, ok, err, Result-cases}
use orchestrator_cli.App.Decision.{RoutingCandidate}
use orchestrator_cli.Routing.Types.{Options, ProviderAdapter, ProviderCandidate}
use orchestrator_cli.Routing.Registry.{Registry, get}
use orchestrator_cli.Routing.Providers.{
  Verdict, accept, reject, contains, capability_rejections, judge_estimate, judge_capabilities,
  judge_adapter, judge, scan,
}

pub Verdict-cases :
    {F : Type 0} (v : Verdict F)
    → ((c : ProviderCandidate F) × (v ≡ accept c)) ⊎ ((c : RoutingCandidate F) × (v ≡ reject c))
Verdict-cases (accept c) = inl (c, refl)
Verdict-cases (reject c) = inr (c, refl)

module _ {F : Type 0} ⦃f : Float64 F⦄ ⦃t : GoText⦄ where
  -- The conditions on a provider, read off the adapter's answers and the options.
  pub record IsEligible (reg : Registry F) (job : JobSpec) (opts : Options F)
      (c : ProviderCandidate F) : Type 0 where
    pub adapter : ProviderAdapter F
    pub estimate : CostEstimate F
    pub not_excluded : contains opts.exclude c.provider ≡ false
    pub registered : get reg c.provider ≡ ok adapter
    pub capable : adapter.capabilities ≡ ok c.capabilities
    pub compatible : capability_rejections job c.capabilities opts.resume_from ≡ []
    pub supported : (adapter.validate_job job).supported ≡ true
    pub estimated : adapter.estimate job ≡ ok estimate
    pub priced : c.score ≡ estimate.hourly_usd

  judge_capabilities_inv :
      (job : JobSpec) (opts : Options F) (n : String) (a : ProviderAdapter F)
      (c' : ProviderCapabilities F) {c : ProviderCandidate F}
      → judge_capabilities job opts n a (ok c') ≡ accept c
      → (capability_rejections job c' opts.resume_from ≡ [])
        × ((a.validate_job job).supported ≡ true)
        × (judge_estimate n c' (a.estimate job) ≡ accept c)
  unfolding judge_capabilities
  judge_capabilities_inv job opts n a c' h = ground arith

  judge_estimate_inv :
      (n : String) (c' : ProviderCapabilities F) (e : Result (CostEstimate F))
      {c : ProviderCandidate F}
      → judge_estimate n c' e ≡ accept c
      → (est : CostEstimate F) × (e ≡ ok est)
        × (c ≡ record { provider = n; score = est.hourly_usd; capabilities = c' })
  unfolding judge_estimate
  judge_estimate_inv n c' (ok est) h = (est, refl, cc)
  judge_estimate_inv n c' (err e) h = cc

  judge_adapter_inv :
      (job : JobSpec) (opts : Options F) (n : String) (r : Result (ProviderAdapter F))
      {c : ProviderCandidate F}
      → judge_adapter job opts n r ≡ accept c
      → (a : ProviderAdapter F) × (c' : ProviderCapabilities F) × (r ≡ ok a)
        × (a.capabilities ≡ ok c')
        × (judge_capabilities job opts n a (ok c') ≡ accept c)
  unfolding judge_adapter judge_capabilities
  judge_adapter_inv job opts n (err e) h = cc
  judge_adapter_inv job opts n (ok a) h = elim (Result-cases a.capabilities) [
    | inl (c', e) ↦ (a, c', refl, e, rw e at h)
    | inr (x, e) ↦ absurd (cc (h, ap (judge_capabilities job opts n a) e))
  ]

  judge-accept :
      (reg : Registry F) (job : JobSpec) (opts : Options F) (n : String) {c : ProviderCandidate F}
      → judge reg job opts n ≡ accept c
      → (contains opts.exclude n ≡ false) × (judge_adapter job opts n (get reg n) ≡ accept c)
  unfolding judge
  judge-accept reg job opts n h = ground arith

  pub judge-IsEligible :
      (reg : Registry F) (job : JobSpec) (opts : Options F) (n : String) {c : ProviderCandidate F}
      → judge reg job opts n ≡ accept c
      → IsEligible reg job opts c × (c.provider ≡ n)
  judge-IsEligible reg job opts n h =
      let (allowed, inspected) = judge-accept reg job opts n h in
      let (a, c', registered, capable, judged) =
        judge_adapter_inv job opts n (get reg n) inspected in
      let (compatible, supported, estimated) = judge_capabilities_inv job opts n a c' judged in
      let (est, priced, e) = judge_estimate_inv n c' (a.estimate job) estimated in
      rw e (
        record {
          adapter = a;
          estimate = est;
          not_excluded = allowed;
          registered = registered;
          capable = capable;
          compatible = compatible;
          supported = supported;
          estimated = priced;
          priced = refl;
        },
        refl,
      )

  pub scan-IsEligible :
      (reg : Registry F) (job : JobSpec) (opts : Options F) (ns : List String)
      → All (IsEligible reg job opts) (scan reg job opts ns).0
  unfolding scan
  scan-IsEligible reg job opts [] = tt
  scan-IsEligible reg job opts (n ∷ ns) = elim (Verdict-cases (judge reg job opts n)) [
    | inl (c, e) ↦
        rw (e, scan) ((judge-IsEligible reg job opts n e).0, scan-IsEligible reg job opts ns)
    | inr (c, e) ↦ rw (e, scan) (scan-IsEligible reg job opts ns)
  ]
