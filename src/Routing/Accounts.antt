-- ===== src/Routing/Accounts.antt =====
-- What Select of internal/routing/routing.go reports about the registered providers, and when its
-- plain choice must succeed.
use mathlib.Core.List.{Memᴰ, Perm, perm_middle}
use mathlib.Core.List.Perm
use mathlib.Core.Path.{subst}
use orchestrator_cli.Common.{
  String, false, ◌≡◌, refl, sym, ap, inl, inr, none, some, List, [], ◌∷◌, ◌++◌, map, ◌==◌, eq_iff,
  arith, Bool-cases, Option-cases, List-cases, All-mem, All-of_mem,
}
use orchestrator_cli.Common.Text.{GoText, str_lt}
use orchestrator_cli.Common.Float.{Float64}
use orchestrator_cli.Common.Sort.{sort_stable, sort_stable-perm, All-of_sort_stable}
use orchestrator_cli.App.{JobSpec}
use orchestrator_cli.App.Errors.{ok, Result}
use orchestrator_cli.App.Decision.{RoutingCandidate, RoutingDecision}
use orchestrator_cli.Routing.Types.{Options, ProviderCandidate, ProviderAdapter}
use orchestrator_cli.Routing.Registry.{Registry, lookup, get, names, list}
use orchestrator_cli.Routing.Providers.{
  accept, reject, judge, judge_adapter, judge_capabilities, judge_estimate, scan,
}
use orchestrator_cli.Routing.Hardware.{estimate_required_vram}
use orchestrator_cli.Routing.Select.{
  provider_less, hardware_less, routing_candidates, manual_providers, scan_hardware, sizing_failed,
  choose_hardware, select_manual_hardware, select_hardware_route, select_provider, select_from,
  select, hardware_routing_enabled, or_min_cost,
}
use orchestrator_cli.Routing.Eligible.{IsEligible, Verdict-cases, judge-IsEligible}

abbrev pub reported : {F : Type 0} → List (RoutingCandidate F) → List String
reported = map (λ c. c.provider)

abbrev pub found : {F : Type 0} → List (ProviderCandidate F) → List String
found = map (λ c. c.provider)

module _ {F : Type 0} ⦃f : Float64 F⦄ where
  reported-routing_candidates :
      (cs : List (ProviderCandidate F)) → reported (routing_candidates cs) ≡ found cs
  unfolding routing_candidates
  reported-routing_candidates [] = refl
  reported-routing_candidates (c ∷ cs) = ap (◌∷◌ c.provider) (reported-routing_candidates cs)

module _ {F : Type 0} ⦃f : Float64 F⦄ ⦃t : GoText⦄ (reg : Registry F) (job : JobSpec)
    (opts : Options F) where
  judge_adapter-reject :
      (n : String) (r : Result (ProviderAdapter F)) {c : RoutingCandidate F}
      → judge_adapter job opts n r ≡ reject c
      → c.provider ≡ n
  unfolding judge_adapter judge_capabilities judge_estimate
  judge_adapter-reject n r h = ground arith

  judge-reject :
      (n : String) {c : RoutingCandidate F} → judge reg job opts n ≡ reject c → c.provider ≡ n
  unfolding judge
  judge-reject n {c} h = ground (arith, judge_adapter-reject n (get reg n) {c = c})

  scan-perm :
      (ns : List String)
      → Perm (found (scan reg job opts ns).0 ++ reported (scan reg job opts ns).1) ns
  unfolding scan
  scan-perm [] = Perm.refl []
  scan-perm (n ∷ ns) = elim (Verdict-cases (judge reg job opts n)) [
    | inl (c, e) ↦
        rw (e, scan) (rw ((judge-IsEligible reg job opts n e).1) (Perm.cons n (scan-perm ns)))
    | inr (c, e) ↦
        rw (e, scan)
          (rw (judge-reject n e) (
            Perm.trans (perm_middle (found (scan reg job opts ns).0) _)
              (Perm.cons n (scan-perm ns))))
  ]

  judge_of_IsEligible :
      (c : ProviderCandidate F)
      → IsEligible reg job opts c
      → judge reg job opts c.provider ≡ accept c
  unfolding judge judge_adapter judge_capabilities judge_estimate
  judge_of_IsEligible c h = ground arith

  some_eligible :
      (ns : List String) (c : ProviderCandidate F)
      → IsEligible reg job opts c
      → Memᴰ c.provider ns
      → (x : ProviderCandidate F) × (more : List (ProviderCandidate F)) × ((scan reg job opts ns).0
          ≡ x ∷ more)
  unfolding scan
  some_eligible [] c h m = elim m [ ]
  some_eligible (n ∷ ns) c h (Memᴰ.head e) =
      rw (subst (λ k. judge reg job opts k ≡ accept c) e (judge_of_IsEligible c h), scan)
        (c, (scan reg job opts ns).0, refl)
  some_eligible (n ∷ ns) c h (Memᴰ.tail m) = elim (Verdict-cases (judge reg job opts n)) [
    | inl (x, e) ↦ rw (e, scan) (x, (scan reg job opts ns).0, refl)
    | inr (x, e) ↦ rw (e, scan) (some_eligible ns c h m)
  ]

  mem_names_of_lookup :
      (r : Registry F) (n : String) {a : ProviderAdapter F} → lookup n r ≡ some a → Memᴰ n (names r)
  unfolding lookup
  mem_names_of_lookup [] n e = absurd (cc e)
  mem_names_of_lookup ((k, b) ∷ r) n e = elim (Bool-cases (k == n)) [
    | inl same ↦ Memᴰ.head (sym ((eq_iff k n).0 same))
    | inr other ↦ Memᴰ.tail (mem_names_of_lookup r n (rw other at e))
  ]

  registered-mem : (n : String) {a : ProviderAdapter F} → get reg n ≡ ok a → Memᴰ n (list reg)
  unfolding get list
  registered-mem n {a} e = elim (Option-cases (lookup n reg)) [
    | inl k ↦ absurd (cc (rw (k, get) at e))
    | inr (b, k) ↦
        All-mem (λ x. Memᴰ x (list reg)) (names reg)
          (All-of_sort_stable str_lt (λ x. Memᴰ x (list reg)) (names reg)
            (All-of_mem _ (list reg) (λ x m. m)))
          (mem_names_of_lookup reg n k)
  ]

  -- the plain choice fails on no candidate at all only
  select_provider-succeeds :
      (objective : String) (c : ProviderCandidate F) (cs : List (ProviderCandidate F))
      (rs : List (RoutingCandidate F))
      → (select_provider objective (c ∷ cs) rs).1 ≡ none
  unfolding select_provider
  select_provider-succeeds objective c cs rs =
      elim (List-cases (sort_stable (provider_less objective) (c ∷ cs))) [
        | inl k ↦
            absurd (All-of_sort_stable (provider_less objective) (λ _. ⊥) (c ∷ cs) (rw k tt)).0
        | inr (x, more, k) ↦ rw (k, select_provider) refl
      ]

  -- With hardware routing off, one eligible provider in the registry is enough for Select to succeed.
  pub select-succeeds :
      (c : ProviderCandidate F)
      → hardware_routing_enabled opts ≡ false
      → IsEligible reg job opts c
      → (select reg job opts).1 ≡ none
  unfolding select select_from
  select-succeeds c off h =
      let (x, more, e) = some_eligible (list reg) c h (registered-mem c.provider h.registered) in
      rw (e, select_from)
        (rw off (
          select_provider-succeeds (or_min_cost opts.objective) x more
            (scan reg job opts (list reg)).1))

module _ {F : Type 0} ⦃f : Float64 F⦄ ⦃t : GoText⦄ where
  -- the providers that a decision reports
  abbrev pub accounts : RoutingDecision F → List String
  accounts d = reported d.eligible_providers ++ reported d.rejected_providers

  select_manual-accounts :
      (objective : String) (cs : List (ProviderCandidate F)) (rs : List (RoutingCandidate F))
      (opts : Options F)
      → accounts (select_manual_hardware objective cs rs opts).0 ≡ found cs ++ reported rs
  unfolding select_manual_hardware
  select_manual-accounts objective cs rs opts =
      elim (Option-cases (manual_providers opts.manual_hardware cs).1) [
        | inl k ↦ rw (k, select_manual_hardware) (rw (reported-routing_candidates cs))
        | inr (m, k) ↦ rw (k, select_manual_hardware) (rw (reported-routing_candidates cs))
      ]

  choose_hardware-accounts :
      (objective : String) (cs : List (ProviderCandidate F)) (rs : List (RoutingCandidate F))
      (opts : Options F) (required : F × String)
      → accounts (choose_hardware objective cs rs opts required).0 ≡ found cs ++ reported rs
  unfolding choose_hardware
  choose_hardware-accounts objective cs rs opts (required, confidence) =
      elim (List-cases (sort_stable (hardware_less objective) (scan_hardware opts required cs).0)) [
        | inl k ↦ rw (k, choose_hardware) (rw (reported-routing_candidates cs))
        | inr (h, hs, k) ↦ rw (k, choose_hardware) (rw (reported-routing_candidates cs))
      ]

  select_hardware_route-accounts :
      (objective : String) (cs : List (ProviderCandidate F)) (rs : List (RoutingCandidate F))
      (opts : Options F)
      → accounts (select_hardware_route objective cs rs opts).0 ≡ found cs ++ reported rs
  unfolding select_hardware_route
  select_hardware_route-accounts objective cs rs opts = elim (Bool-cases (opts.mode == "manual")) [
    | inl manual ↦ rw manual (select_manual-accounts objective cs rs opts)
    | inr auto ↦ elim (Bool-cases (sizing_failed opts (estimate_required_vram opts).2)) [
      | inl failed ↦ rw (auto, failed) (rw (reported-routing_candidates cs))
      | inr sized ↦ rw (auto, sized) (choose_hardware-accounts objective cs rs opts _)
    ]
  ]

  select_provider-accounts :
      (objective : String) (cs : List (ProviderCandidate F)) (rs : List (RoutingCandidate F))
      → Perm (accounts (select_provider objective cs rs).0) (found cs ++ reported rs)
  unfolding select_provider
  select_provider-accounts objective cs rs =
      let p = sort_stable-perm (provider_less objective) cs in
      let q : Perm (found (sort_stable (provider_less objective) cs) ++ reported rs)
          (found cs ++ reported rs) =
        Perm.append_right (reported rs) (Perm.map (λ c. c.provider) p) in
      elim (List-cases (sort_stable (provider_less objective) cs)) [
        | inl k ↦ rw (k, select_provider) (rw k at q)
        | inr (c, more, k) ↦
            rw (k, select_provider) (rw (reported-routing_candidates (c ∷ more)) (rw k at q))
      ]

  select_from-accounts :
      (objective : String) (cs : List (ProviderCandidate F)) (rs : List (RoutingCandidate F))
      (opts : Options F)
      → Perm (accounts (select_from objective cs rs opts).0) (found cs ++ reported rs)
  unfolding select_from
  select_from-accounts objective [] rs opts = Perm.refl (reported rs)
  select_from-accounts objective (c ∷ cs) rs opts =
      elim (Bool-cases (hardware_routing_enabled opts)) [
        | inl on ↦
            rw on (rw (select_hardware_route-accounts objective (c ∷ cs) rs opts) (Perm.refl _))
        | inr off ↦ rw off (select_provider-accounts objective (c ∷ cs) rs)
      ]

  -- In every mode and with every outcome, the eligible and the rejected providers that Select
  -- reports are together the registered names, each exactly as often as it is registered.
  pub select-accounts :
      (reg : Registry F) (job : JobSpec) (opts : Options F)
      → Perm (accounts (select reg job opts).0) (names reg)
  unfolding select list
  select-accounts reg job opts =
      Perm.trans
        (select_from-accounts (or_min_cost opts.objective) (scan reg job opts (list reg)).0
          (scan reg job opts (list reg)).1 opts)
        (Perm.trans (scan-perm reg job opts (list reg)) (sort_stable-perm str_lt (names reg)))
