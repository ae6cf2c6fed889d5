-- ===== src/Routing/Optimal.antt =====
-- That the sorts in internal/routing/routing.go put the best candidate first.
use mathlib.Core.List.{Memᴰ}
use orchestrator_cli.Common.{
  String, true, false, ◌≡◌, refl, inl, inr, none, some, List, ◌∷◌, ◌==◌, eq_iff, arith, Bool-cases,
  List-cases, All, All-of_mem, All-zip, ◌≢◌,
}
use orchestrator_cli.Common.Text.{GoText, str_lt, str_lt_asym, str_le_trans, str_eq_of_order}
use orchestrator_cli.Common.Float.{Float64, IsNumber, IsOrdered}
use orchestrator_cli.Common.Lex.{IsStrict, lex-IsStrict}
use orchestrator_cli.Common.Sort.{sort_stable, first-NoneBefore, All-sort_stable}
use orchestrator_cli.App.Decision.{RoutingCandidate}
use orchestrator_cli.Routing.Types.{Options, ProviderCandidate, HardwareScoredCandidate}
use orchestrator_cli.Routing.Hardware.{hardware_selection}
use orchestrator_cli.Routing.Select.{
  provider_less, name_less, cost_less, runtime_less, hardware_less, scan_hardware, choose_hardware,
  select_provider,
}

module _ {F : Type 0} ⦃f : Float64 F⦄ (o : IsOrdered F) where
  provider_less-IsStrict :
      IsStrict (λ (c : ProviderCandidate F). IsNumber c.score) (provider_less "min_cost")
  unfolding provider_less
  provider_less-IsStrict = record {
    asym = λ a b. o.lt_asym a.score b.score;
    trans = λ a b c. o.le_trans a.score b.score c.score;
  }

  -- neither the runtime nor the cost is NaN
  abbrev pub HasNumbers : HardwareScoredCandidate F → Type 0
  HasNumbers h = IsNumber h.runtime_seconds × IsNumber h.total_cost_usd

  name_less-IsStrict : IsStrict HasNumbers name_less
  unfolding name_less
  name_less-IsStrict =
      lex-IsStrict HasNumbers (λ a b. str_lt a.provider b.provider)
        (λ a b. a.provider == b.provider) (λ a b. str_lt a.shape.id b.shape.id)
        (record {
          asym = λ a b p q. str_lt_asym a.provider b.provider;
          trans = λ a b c p q r. str_le_trans a.provider b.provider c.provider;
        })
        (λ a b p q. str_eq_of_order a.provider b.provider)
        (record {
          asym = λ a b p q. str_lt_asym a.shape.id b.shape.id;
          trans = λ a b c p q r. str_le_trans a.shape.id b.shape.id c.shape.id;
        })

  cost_less-IsStrict : IsStrict HasNumbers cost_less
  unfolding cost_less
  cost_less-IsStrict =
      lex-IsStrict HasNumbers (λ a b. f.lt a.total_cost_usd b.total_cost_usd)
        (λ a b. f.eq a.total_cost_usd b.total_cost_usd) name_less
        (record {
          asym = λ a b p q. o.lt_asym a.total_cost_usd b.total_cost_usd p.1 q.1;
          trans = λ a b c p q r.
              o.le_trans a.total_cost_usd b.total_cost_usd c.total_cost_usd p.1 q.1 r.1;
        })
        (λ a b p q. o.eq_of_order a.total_cost_usd b.total_cost_usd p.1 q.1) name_less-IsStrict

  runtime_less-IsStrict : IsStrict HasNumbers runtime_less
  unfolding runtime_less
  runtime_less-IsStrict =
      lex-IsStrict HasNumbers (λ a b. f.lt a.runtime_seconds b.runtime_seconds)
        (λ a b. f.eq a.runtime_seconds b.runtime_seconds) cost_less
        (record {
          asym = λ a b p q. o.lt_asym a.runtime_seconds b.runtime_seconds p.0 q.0;
          trans = λ a b c p q r.
              o.le_trans a.runtime_seconds b.runtime_seconds c.runtime_seconds p.0 q.0 r.0;
        })
        (λ a b p q. o.eq_of_order a.runtime_seconds b.runtime_seconds p.0 q.0) cost_less-IsStrict

  hardware_less-IsStrict : (objective : String) → IsStrict HasNumbers (hardware_less objective)
  unfolding hardware_less
  hardware_less-IsStrict objective = record {
    asym = λ a b p q. elim (Bool-cases (objective == "fastest_within_budget")) [
      | inl fastest ↦ rw fastest (runtime_less-IsStrict.asym a b p q)
      | inr other ↦ rw other (cost_less-IsStrict.asym a b p q)
    ];
    trans = λ a b c p q r. elim (Bool-cases (objective == "fastest_within_budget")) [
      | inl fastest ↦ rw fastest (runtime_less-IsStrict.trans a b c p q r)
      | inr other ↦ rw other (cost_less-IsStrict.trans a b c p q r)
    ];
  }

  -- `a` is no better than `b`: not faster and, at the same runtime, not cheaper, where the objective
  -- is to be fast; not cheaper, where it is not
  pub record NoBetter (objective : String) (b a : HardwareScoredCandidate F) : Type 0 where
    pub not_faster :
        objective ≡ "fastest_within_budget" → f.lt a.runtime_seconds b.runtime_seconds ≡ false
    pub not_cheaper_tie :
        objective ≡ "fastest_within_budget"
        → f.eq a.runtime_seconds b.runtime_seconds ≡ true
        → f.lt a.total_cost_usd b.total_cost_usd ≡ false
    pub not_cheaper :
        objective ≢ "fastest_within_budget" → f.lt a.total_cost_usd b.total_cost_usd ≡ false

  not_cheaper_of_cost_less :
      (a b : HardwareScoredCandidate F)
      → HasNumbers a
      → HasNumbers b
      → cost_less a b ≡ false
      → f.lt a.total_cost_usd b.total_cost_usd ≡ false
  unfolding cost_less
  not_cheaper_of_cost_less a b p q h =
      ground (arith, o.eq_of_order a.total_cost_usd b.total_cost_usd p.1 q.1)

  not_faster_of_runtime_less :
      (a b : HardwareScoredCandidate F)
      → HasNumbers a
      → HasNumbers b
      → runtime_less a b ≡ false
      → (f.lt a.runtime_seconds b.runtime_seconds ≡ false)
        × (f.eq a.runtime_seconds b.runtime_seconds ≡ true → cost_less a b ≡ false)
  unfolding runtime_less
  not_faster_of_runtime_less a b p q h =
      ground (arith, o.eq_of_order a.runtime_seconds b.runtime_seconds p.0 q.0)

  NoBetter-of_hardware_less :
      (objective : String) (a b : HardwareScoredCandidate F)
      → HasNumbers a
      → HasNumbers b
      → hardware_less objective a b ≡ false
      → NoBetter objective b a
  unfolding hardware_less
  NoBetter-of_hardware_less objective a b p q h = record {
    not_faster = λ e.
        ground
          (arith, eq_iff objective "fastest_within_budget", not_faster_of_runtime_less a b p q);
    not_cheaper_tie = λ e tie. ground (
      arith,
      eq_iff objective "fastest_within_budget",
      not_faster_of_runtime_less a b p q,
      not_cheaper_of_cost_less a b p q,
    );
    not_cheaper = λ e.
        ground (arith, eq_iff objective "fastest_within_budget", not_cheaper_of_cost_less a b p q);
  }

  -- The first shape after sortHardware is one than which none is better.
  pub first_hardware_best :
      (objective : String) (hs : List (HardwareScoredCandidate F)) {h : HardwareScoredCandidate F}
      {rest : List (HardwareScoredCandidate F)}
      → All HasNumbers hs
      → sort_stable (hardware_less objective) hs ≡ h ∷ rest
      → All (NoBetter objective h) hs
  first_hardware_best objective hs {h} {rest} n e =
      let strict = hardware_less-IsStrict objective in
      let sorted = All-sort_stable (hardware_less objective) HasNumbers hs n in
      All-zip (λ a p q. NoBetter-of_hardware_less objective a h p (rw e at sorted).0 q) hs n
        (first-NoneBefore (hardware_less objective) HasNumbers strict.asym strict.trans hs n e)

  -- With no NaN among the runtimes and the costs, the hardware that the search over shapes returns
  -- is one of the shapes that it found eligible, and none of those is better for the objective:
  -- faster, or as fast and cheaper, where the objective is to be fast; cheaper, where it is not.
  pub choose_hardware-best :
      ⦃t : GoText⦄ (objective : String) (cs : List (ProviderCandidate F))
      (rs : List (RoutingCandidate F)) (opts : Options F) (required : F) (confidence : String)
      → let hs = (scan_hardware opts required cs).0 in
        All HasNumbers hs
        → (choose_hardware objective cs rs opts (required, confidence)).1 ≡ none
        → (h : HardwareScoredCandidate F) × Memᴰ h hs
          × All (NoBetter objective h) hs
          × ((choose_hardware objective cs rs opts (required, confidence)).0.selected_hardware
              ≡ some (hardware_selection h.provider h.shape))
  unfolding choose_hardware
  choose_hardware-best objective cs rs opts required confidence n =
      let hs = (scan_hardware opts required cs).0 in
      let listed =
        All-sort_stable (hardware_less objective) (λ h. Memᴰ h hs) hs
          (All-of_mem _ hs (λ a m. m)) in
      elim (List-cases (sort_stable (hardware_less objective) hs)) [
        | inl k ↦ rw (k, choose_hardware) (λ e. absurd (cc e))
        | inr (h, more, k) ↦
            rw (k, choose_hardware)
              (λ e. (h, (rw k at listed).0, first_hardware_best objective hs n k, refl))
      ]

  -- With the objective min_cost and no NaN among the prices, the provider that the plain choice
  -- returns is one of the eligible ones, and none of those has a lower hourly price.
  pub select_provider-cheapest :
      ⦃t : GoText⦄ (cs : List (ProviderCandidate F)) (rs : List (RoutingCandidate F))
      → All (λ (c : ProviderCandidate F). IsNumber c.score) cs
      → (select_provider "min_cost" cs rs).1 ≡ none
      → (c : ProviderCandidate F) × Memᴰ c cs
        × All (λ (x : ProviderCandidate F). f.lt x.score c.score ≡ false) cs
        × ((select_provider "min_cost" cs rs).0.selected_provider ≡ c.provider)
  unfolding select_provider provider_less
  select_provider-cheapest cs rs n =
      let less = provider_less "min_cost" in
      let strict = provider_less-IsStrict in
      let listed = All-sort_stable less (λ h. Memᴰ h cs) cs (All-of_mem _ cs (λ a m. m)) in
      elim (List-cases (sort_stable less cs)) [
        | inl k ↦ rw (k, select_provider) (λ e. absurd (cc e))
        | inr (c, more, k) ↦
            rw (k, select_provider)
              (λ e. (
                c,
                (rw k at listed).0,
                first-NoneBefore less (λ x. IsNumber x.score) strict.asym strict.trans cs n k,
                refl,
              ))
      ]
