-- ===== src/Routing/Constraints.antt =====
-- What it means for a shape to meet the constraints of a job, written out apart from the list of
-- rejections in internal/routing/routing.go, and that a shape without rejections meets them.
use orchestrator_cli.Common.{
  String, Bool, true, false, not, ◌&&◌, ◌≡◌, ◌≢◌, ◌⊎◌, List, [], ◌∷◌, ◌++◌, ◌==◌, eq_iff, arith,
  if◌then◌else◌,
}
use orchestrator_cli.Common.Int.{pos, ltb_ℤ, ◌≤ℤ◌, ◌<ℤ◌}
use orchestrator_cli.Common.Text.{GoText}
use orchestrator_cli.Common.Float.{Float64}
use orchestrator_cli.App.{HardwareShape}
use orchestrator_cli.App.Decision.{Reason, over_budget}
use orchestrator_cli.Routing.Types.{HardwareConstraints}
use orchestrator_cli.Routing.Providers.{contains_fold}
use orchestrator_cli.Routing.Hardware.{
  is_empty, availability_rejections, market_rejections, hardware_rejections, within_budget,
  shape_rejections,
}

allowed_of_flag :
    (l : List String) (b : Bool) → (not (is_empty l) && not b) ≡ false → (l ≡ []) ⊎ (b ≡ true)
allowed_of_flag [] b h = ground arith
allowed_of_flag (x ∷ l) b h = ground arith

module _ {F : Type 0} ⦃f : Float64 F⦄ ⦃t : GoText⦄ where
  pub record Meets (s : HardwareShape F) (required : F) (k : HardwareConstraints) (budget cost : F)
      : Type 0 where
    pub has_id : s.id ≢ ""
    pub enough_vram :
        f.lt (f.of_int (pos 0)) required ≡ true → f.lt (f.of_int s.total_vram_gb) required ≡ false
    pub few_gpus : pos 0 <ℤ k.max_gpus → s.accelerator_count ≤ℤ k.max_gpus
    pub enough_per_gpu : pos 0 <ℤ k.min_vram_gb_per_gpu → k.min_vram_gb_per_gpu ≤ℤ s.vram_gb_per_gpu
    pub family_allowed :
        (k.allowed_gpu_families ≡ []) ⊎ (contains_fold k.allowed_gpu_families s.gpu_family ≡ true)
    pub region_allowed : (k.regions ≡ []) ⊎ (contains_fold k.regions s.region ≡ true)
    pub on_demand : k.require_on_demand ≡ true → s.supports_on_demand ≡ true
    pub spot_allowed : s.supports_on_demand ≡ false → s.supports_spot ≡ true → k.allow_spot ≡ true
    pub priced :
        (f.le s.on_demand_hourly_usd (f.of_int (pos 0)) ≡ false)
        ⊎ (f.le s.spot_hourly_usd (f.of_int (pos 0)) ≡ false)
    pub available : (s.availability_hint ≢ "no_quota") × (s.availability_hint ≢ "unavailable")
    pub affordable : f.lt (f.of_int (pos 0)) budget ≡ true → f.lt budget cost ≡ false

  append-nil_inv : (xs ys : List (Reason F)) → xs ++ ys ≡ [] → (xs ≡ []) × (ys ≡ [])
  append-nil_inv [] ys h = ground arith
  append-nil_inv (x ∷ xs) ys h = absurd (cc h)

  available_lem :
      (s : HardwareShape F)
      → availability_rejections s ≡ []
      → (s.availability_hint ≢ "no_quota") × (s.availability_hint ≢ "unavailable")
  unfolding availability_rejections
  available_lem s h =
      ground
        (arith, eq_iff s.availability_hint "no_quota", eq_iff s.availability_hint "unavailable")

  market_tests :
      (s : HardwareShape F) (k : HardwareConstraints)
      → market_rejections s k ≡ []
      → ((k.require_on_demand && not s.supports_on_demand) ≡ false)
        × ((not k.allow_spot && (not s.supports_on_demand && s.supports_spot)) ≡ false)
        × ((f.le s.on_demand_hourly_usd (f.of_int (pos 0))
              && f.le s.spot_hourly_usd (f.of_int (pos 0)))
            ≡ false)
        × (availability_rejections s ≡ [])
  unfolding market_rejections
  market_tests s k h = ground arith

  hardware_tests :
      (s : HardwareShape F) (required : F) (k : HardwareConstraints)
      → hardware_rejections s required k ≡ []
      → ((s.id == "") ≡ false)
        × ((f.lt (f.of_int (pos 0)) required && f.lt (f.of_int s.total_vram_gb) required) ≡ false)
        × ((ltb_ℤ (pos 0) k.max_gpus && ltb_ℤ k.max_gpus s.accelerator_count) ≡ false)
        × ((ltb_ℤ (pos 0) k.min_vram_gb_per_gpu && ltb_ℤ s.vram_gb_per_gpu k.min_vram_gb_per_gpu)
            ≡ false)
        × ((not (is_empty k.allowed_gpu_families)
              && not (contains_fold k.allowed_gpu_families s.gpu_family))
            ≡ false)
        × ((not (is_empty k.regions) && not (contains_fold k.regions s.region)) ≡ false)
        × (market_rejections s k ≡ [])
  unfolding hardware_rejections
  hardware_tests s required k h = ground arith

  -- A shape that nothing speaks against meets every constraint and the budget.
  pub Meets-of_unopposed :
      (s : HardwareShape F) (required : F) (k : HardwareConstraints) (budget cost : F)
      → shape_rejections s required k budget cost ≡ []
      → Meets s required k budget cost
  unfolding shape_rejections
  Meets-of_unopposed s required k budget cost h =
      let (hw, money) =
        append-nil_inv (hardware_rejections s required k)
          (if within_budget budget cost then [] else over_budget cost budget ∷ []) h in
      let (named, vram, gpus, per_gpu, family, region, market) = hardware_tests s required k hw in
      let (demand, spot, price, listed) = market_tests s k market in
      record {
        has_id = ground (arith, eq_iff s.id "");
        enough_vram = ground arith;
        few_gpus = ground arith;
        enough_per_gpu = ground arith;
        family_allowed = allowed_of_flag k.allowed_gpu_families _ family;
        region_allowed = allowed_of_flag k.regions _ region;
        on_demand = ground arith;
        spot_allowed = ground arith;
        priced = ground arith;
        available = available_lem s listed;
        affordable = ground arith;
      }
