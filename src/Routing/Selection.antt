-- ===== src/Routing/Selection.antt =====
-- What a successful Select returns: which provider, and which of its shapes.
use mathlib.Core.List.{Memᴰ}
use mathlib.Core.Path.{subst}
use mathlib.Core.Option.{some-injective}
use orchestrator_cli.Common.{
  String, false, not, ◌&&◌, ◌==◌, eq_iff, ◌≡◌, refl, ◌⊎◌, inl, inr, Option, none, some, List, [],
  ◌∷◌, arith, Bool-cases, Option-cases, List-cases, All, All-append,
}
use orchestrator_cli.Common.Text.{GoText}
use orchestrator_cli.Common.Float.{Float64}
use orchestrator_cli.Common.Sort.{sort_stable, All-sort_stable}
use orchestrator_cli.App.{HardwareShape}
use orchestrator_cli.App.Decision.{RoutingCandidate, RoutingDecision}
use orchestrator_cli.Routing.Types.{
  Options, ProviderCandidate, HardwareScoredCandidate, ManualHardware,
}
use orchestrator_cli.Routing.Hardware.{shape_rejections, hardware_selection}
use orchestrator_cli.Routing.Select.{
  scored, owned, provider_less, hardware_less, manual_mismatch, manual_shapes, manual_providers,
  scan_shapes, scan_hardware, choose_hardware, select_manual_hardware, select_provider,
}

module _ {F : Type 0} ⦃f : Float64 F⦄ ⦃t : GoText⦄ (P : ProviderCandidate F → Type 0) where
  -- the decision names a candidate with `P`
  abbrev pub Names : RoutingDecision F → Type 0
  Names d = (c : ProviderCandidate F) × P c × (d.selected_provider ≡ c.provider)

  pub select_provider-Names :
      (objective : String) (cs : List (ProviderCandidate F)) (rs : List (RoutingCandidate F))
      → All P cs
      → (select_provider objective cs rs).1 ≡ none
      → Names (select_provider objective cs rs).0
  unfolding select_provider
  select_provider-Names objective cs rs h =
      let sorted = All-sort_stable (provider_less objective) P cs h in
      elim (List-cases (sort_stable (provider_less objective) cs)) [
        | inl e ↦ rw (e, select_provider) (λ k. absurd (cc k))
        | inr (c, more, e) ↦ rw (e, select_provider) (λ k. (c, (rw e at sorted).0, refl))
      ]

  -- a shape of a candidate with `P` that is what the user asked for by hand
  pub record IsManualFit (m : ManualHardware) (c : ProviderCandidate F) (s : HardwareShape F)
      : Type 0 where
    pub shape : HardwareShape F
    pub holds : P c
    pub listed : Memᴰ shape c.capabilities.hardware_shapes
    pub is_owned : s ≡ owned c.provider shape
    pub asked_shape : (m.shape_id ≡ "") ⊎ (s.id ≡ m.shape_id)
    pub asked_machine : (m.machine_type ≡ "") ⊎ (s.machine_type ≡ m.machine_type)
    pub asked_region : (m.region ≡ "") ⊎ (s.region ≡ m.region)
    pub asked_provider : (m.provider ≡ "") ⊎ (c.provider ≡ m.provider)

  manual_shapes-fit :
      (m : ManualHardware) (p : String) (ss : List (HardwareShape F)) {s : HardwareShape F}
      → (manual_shapes m p ss).1 ≡ some s
      → (shape : HardwareShape F) × Memᴰ shape ss
        × (s ≡ owned p shape)
        × (manual_mismatch m s ≡ none)
  unfolding manual_shapes
  manual_shapes-fit m p [] e = absurd (cc e)
  manual_shapes-fit m p (x ∷ ss) {s} e = elim (Option-cases (manual_mismatch m (owned p x))) [
    | inl k ↦
        let same : some (owned p x) ≡ some s = rw (k, manual_shapes) at e in
        let back : s ≡ owned p x = cc same in (x, Memᴰ.head refl, back, rw back k)
    | inr (r, k) ↦
        let (y, there, is_owned, matched) = manual_shapes-fit m p ss (rw (k, manual_shapes) at e) in
        (y, Memᴰ.tail there, is_owned, matched)
  ]

  asked_provider_of_test :
      (m : ManualHardware) (p : String)
      → (not (m.provider == "") && not (p == m.provider)) ≡ false
      → (m.provider ≡ "") ⊎ (p ≡ m.provider)
  asked_provider_of_test m p h = ground (arith, eq_iff m.provider "", eq_iff p m.provider)

  asked_of_match :
      (m : ManualHardware) (s : HardwareShape F)
      → manual_mismatch m s ≡ none
      → ((m.shape_id ≡ "") ⊎ (s.id ≡ m.shape_id))
        × ((m.machine_type ≡ "") ⊎ (s.machine_type ≡ m.machine_type))
        × ((m.region ≡ "") ⊎ (s.region ≡ m.region))
  unfolding manual_mismatch
  asked_of_match m s h = ground (
    arith,
    eq_iff m.shape_id "",
    eq_iff s.id m.shape_id,
    eq_iff m.machine_type "",
    eq_iff s.machine_type m.machine_type,
    eq_iff m.region "",
    eq_iff s.region m.region,
  )

  manual_providers-fit :
      (m : ManualHardware) (cs : List (ProviderCandidate F)) {c : ProviderCandidate F}
      {s : HardwareShape F}
      → All P cs
      → (manual_providers m cs).1 ≡ some (c, s)
      → IsManualFit m c s
  unfolding manual_providers
  manual_providers-fit m [] h e = absurd (cc e)
  manual_providers-fit m (c ∷ cs) {c = c'} {s = s} h e =
      elim (Bool-cases (not (m.provider == "") && not (c.provider == m.provider))) [
        | inl skip ↦ manual_providers-fit m cs h.1 (rw skip at e)
        | inr asked ↦
            elim (Option-cases (manual_shapes m c.provider c.capabilities.hardware_shapes).1) [
              | inl k ↦ manual_providers-fit m cs h.1 (rw (asked, k, manual_providers) at e)
              | inr (x, k) ↦
                  let here : ◌≡◌ {A = Option (ProviderCandidate F × HardwareShape F)} (some (c, x))
                      (some (c', s)) =
                    rw (asked, k, manual_providers) at e in
                  let (shape, there, is_owned, matched) =
                    manual_shapes-fit m c.provider c.capabilities.hardware_shapes k in
                  let asks = asked_of_match m x matched in
                  subst (λ q. IsManualFit m q.0 q.1) (some-injective (c, x) (c', s) here)
                    (record {
                      shape = shape;
                      holds = h.0;
                      listed = there;
                      is_owned = is_owned;
                      asked_shape = asks.0;
                      asked_machine = asks.1;
                      asked_region = asks.2;
                      asked_provider = asked_provider_of_test m c.provider asked;
                    })
            ]
      ]

  -- a scored shape of a candidate with `P` that nothing speaks against
  pub record IsFit (opts : Options F) (required : F) (h : HardwareScoredCandidate F) : Type 0 where
    pub candidate : ProviderCandidate F
    pub shape : HardwareShape F
    pub holds : P candidate
    pub listed : Memᴰ shape candidate.capabilities.hardware_shapes
    pub is_scored : h ≡ scored opts candidate (owned candidate.provider shape)
    pub unopposed :
        shape_rejections h.shape required opts.hardware opts.budget_max_run_cost_usd
          h.total_cost_usd
        ≡ []

  scan_shapes-IsFit :
      (opts : Options F) (required : F) (c : ProviderCandidate F) (ss : List (HardwareShape F))
      → P c
      → ((s : HardwareShape F) → Memᴰ s ss → Memᴰ s c.capabilities.hardware_shapes)
      → All (IsFit opts required) (scan_shapes opts required c ss).0
  unfolding scan_shapes
  scan_shapes-IsFit opts required c [] p sub = tt
  scan_shapes-IsFit opts required c (s ∷ ss) p sub =
      let h = scored opts c (owned c.provider s) in
      let rest = scan_shapes-IsFit opts required c ss p (λ x m. sub x (Memᴰ.tail m)) in
      elim (List-cases (
        shape_rejections h.shape required opts.hardware opts.budget_max_run_cost_usd
          h.total_cost_usd)) [
            | inl e ↦
                rw (e, scan_shapes)
                  (
                    record {
                      candidate = c;
                      shape = s;
                      holds = p;
                      listed = sub s (Memᴰ.head refl);
                      is_scored = refl;
                      unopposed = e;
                    },
                    rest,
                  )
            | inr (r, rs, e) ↦ rw (e, scan_shapes) rest
          ]

  pub scan_hardware-IsFit :
      (opts : Options F) (required : F) (cs : List (ProviderCandidate F))
      → All P cs
      → All (IsFit opts required) (scan_hardware opts required cs).0
  unfolding scan_hardware
  scan_hardware-IsFit opts required [] h = tt
  scan_hardware-IsFit opts required (c ∷ cs) h =
      All-append (IsFit opts required)
        (scan_shapes opts required c c.capabilities.hardware_shapes).0
        (scan_hardware opts required cs).0
        (scan_shapes-IsFit opts required c c.capabilities.hardware_shapes h.0 (λ s m. m))
        (scan_hardware-IsFit opts required cs h.1)

  pub select_manual-fit :
      (objective : String) (cs : List (ProviderCandidate F)) (rs : List (RoutingCandidate F))
      (opts : Options F)
      → All P cs
      → (select_manual_hardware objective cs rs opts).1 ≡ none
      → (c : ProviderCandidate F) × (s : HardwareShape F) × IsManualFit opts.manual_hardware c s
        × ((select_manual_hardware objective cs rs opts).0.selected_provider ≡ c.provider)
        × ((select_manual_hardware objective cs rs opts).0.selected_hardware
            ≡ some (hardware_selection c.provider s))
  unfolding select_manual_hardware
  select_manual-fit objective cs rs opts h =
      elim (Option-cases (manual_providers opts.manual_hardware cs).1) [
        | inl k ↦ rw (k, select_manual_hardware) (λ e. absurd (cc e))
        | inr ((c, s), k) ↦
            rw (k, select_manual_hardware)
              (λ e. (c, s, manual_providers-fit opts.manual_hardware cs h k, refl, refl))
      ]

  pub choose_hardware-IsFit :
      (objective : String) (cs : List (ProviderCandidate F)) (rs : List (RoutingCandidate F))
      (opts : Options F) (required : F) (confidence : String)
      → All P cs
      → (choose_hardware objective cs rs opts (required, confidence)).1 ≡ none
      → (h : HardwareScoredCandidate F) × IsFit opts required h
        × ((choose_hardware objective cs rs opts (required, confidence)).0.selected_provider
            ≡ h.provider)
        × ((choose_hardware objective cs rs opts (required, confidence)).0.selected_hardware
            ≡ some (hardware_selection h.provider h.shape))
        × ((choose_hardware objective cs rs opts (required, confidence)).0.estimated_total_cost_usd
            ≡ some h.total_cost_usd)
  unfolding choose_hardware
  choose_hardware-IsFit objective cs rs opts required confidence p =
      let es = (scan_hardware opts required cs).0 in
      let sorted =
        All-sort_stable (hardware_less objective) (IsFit opts required) es
          (scan_hardware-IsFit opts required cs p) in
      elim (List-cases (sort_stable (hardware_less objective) es)) [
        | inl k ↦ rw (k, choose_hardware) (λ e. absurd (cc e))
        | inr (h, hs, k) ↦ rw (k, choose_hardware) (λ e. (h, (rw k at sorted).0, refl, refl, refl))
      ]
