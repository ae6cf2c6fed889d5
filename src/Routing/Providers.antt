-- ===== src/Routing/Providers.antt =====
-- The first stage of Select in internal/routing/routing.go: every registered provider is either
-- eligible, with its hourly price as the score, or rejected with reasons.
use orchestrator_cli.Common.{
  String, Bool, false, not, ◌||◌, Option, none, some, List, [], ◌∷◌, ◌++◌, map, ◌==◌, if◌then◌else◌,
}
use orchestrator_cli.Common.Int.{pos}
use orchestrator_cli.Common.Text.{GoText}
use orchestrator_cli.Common.Float.{Float64}
use orchestrator_cli.App.{
  DataInput, JobSpec, CheckpointRef, CostEstimate, ProviderCapabilities, mode_bundle, mode_uri,
}
use orchestrator_cli.App.Errors.{Result, ok, err, error_text}
use orchestrator_cli.App.Decision.{
  Reason, text, excluded, bundle_unsupported, uri_unsupported, resume_unsupported, RoutingCandidate,
}
use orchestrator_cli.Routing.Types.{Options, ProviderCandidate, ProviderAdapter}
use orchestrator_cli.Routing.Registry.{Registry, get}

-- `m[key]` on a map[string]bool whose entries are all true
unfoldable pub contains : List String → String → Bool
contains [] key = false
contains (k ∷ ks) key = k == key || contains ks key

-- url.Parse, then the lower-case scheme or ""
abbrev pub scheme_or_empty : ⦃t : GoText⦄ → Option String → String
scheme_or_empty none = ""
scheme_or_empty ⦃t⦄ (some s) = t.to_lower s

unfoldable pub checkpoint_scheme : ⦃t : GoText⦄ → String → String
checkpoint_scheme ⦃t⦄ uri = elim (t.url_scheme uri) [
  | none ↦ "file"
  | some s ↦ if s == "" then "file" else t.to_lower s
]

unfoldable pub contains_fold : ⦃t : GoText⦄ → List String → String → Bool
contains_fold [] target = false
contains_fold ⦃t⦄ (v ∷ vs) target = t.equal_fold v target || contains_fold vs target

-- what one round of the loop of Select appends, to `eligible` or to `rejected`
pub data Verdict (F : Type 0) : Type 0 where
  accept : ProviderCandidate F → Verdict F
  reject : RoutingCandidate F → Verdict F

module _ {F : Type 0} ⦃f : Float64 F⦄ ⦃t : GoText⦄ where
  unfoldable pub supported_checkpoint_scheme : ProviderCapabilities F → String → Bool
  supported_checkpoint_scheme c scheme = contains_fold c.supported_checkpoint_schemes scheme

  -- the `switch input.Mode` of capabilityRejections
  unfoldable pub input_rejections : ProviderCapabilities F → DataInput → List (Reason F)
  input_rejections c i =
      if i.mode == mode_bundle
      then (if c.supports_data_bundle then [] else bundle_unsupported i.name ∷ [])
      else if i.mode == mode_uri
      then (let scheme = scheme_or_empty (t.url_scheme i.source) in
          if scheme == "" || not (contains (map t.to_lower c.supported_uri_schemes) scheme)
          then uri_unsupported scheme i.name ∷ []
          else [])
      else []

  unfoldable pub inputs_rejections : ProviderCapabilities F → List DataInput → List (Reason F)
  inputs_rejections c [] = []
  inputs_rejections c (i ∷ is) = input_rejections c i ++ inputs_rejections c is

  unfoldable pub resume_rejections : ProviderCapabilities F → Option CheckpointRef → List (Reason F)
  resume_rejections c none = []
  resume_rejections c (some r) =
      let scheme = checkpoint_scheme r.uri in
      if supported_checkpoint_scheme c scheme then [] else resume_unsupported scheme r.uri ∷ []

  unfoldable pub capability_rejections :
      JobSpec → ProviderCapabilities F → Option CheckpointRef → List (Reason F)
  capability_rejections job c resume = inputs_rejections c job.inputs ++ resume_rejections c resume

  abbrev pub refuse : String → List (Reason F) → Verdict F
  refuse name reasons =
      reject (record { provider = name; score = f.of_int (pos 0); reasons = reasons })

  unfoldable pub judge_estimate :
      String → ProviderCapabilities F → Result (CostEstimate F) → Verdict F
  judge_estimate name c (err e) = refuse name (text (error_text e) ∷ [])
  judge_estimate name c (ok est) =
      accept (record { provider = name; score = est.hourly_usd; capabilities = c })

  unfoldable pub judge_capabilities :
      JobSpec → Options F → String → ProviderAdapter F → Result (ProviderCapabilities F) → Verdict F
  judge_capabilities job opts name a (err e) = refuse name (text (error_text e) ∷ [])
  judge_capabilities job opts name a (ok c) = elim (capability_rejections job c opts.resume_from) [
    | r ∷ rs ↦ refuse name (r ∷ rs)
    | [] ↦
        let report = a.validate_job job in
        if report.supported
        then judge_estimate name c (a.estimate job)
        else refuse name (map text report.reasons)
  ]

  unfoldable pub judge_adapter :
      JobSpec → Options F → String → Result (ProviderAdapter F) → Verdict F
  judge_adapter job opts name (err e) = refuse name (text (error_text e) ∷ [])
  judge_adapter job opts name (ok a) = judge_capabilities job opts name a a.capabilities

  -- the body of the loop over r.List()
  unfoldable pub judge : Registry F → JobSpec → Options F → String → Verdict F
  judge reg job opts name =
      if contains opts.exclude name
      then refuse name (excluded ∷ [])
      else judge_adapter job opts name (get reg name)

  unfoldable pub scan :
      Registry F
      → JobSpec
      → Options F
      → List String
      → List (ProviderCandidate F) × List (RoutingCandidate F)
  scan reg job opts [] = ([], [])
  scan reg job opts (n ∷ ns) =
      let (es, rs) = scan reg job opts ns in
      elim (judge reg job opts n) [ accept c ↦ (c ∷ es, rs) | reject c ↦ (es, c ∷ rs) ]
