-- ===== src/Routing/Hardware.antt =====
-- The second stage of Select in internal/routing/routing.go: sizing, the constraints and the costs
-- of hardware shapes.
use orchestrator_cli.Common.{
  String, Bool, true, false, not, ◌&&◌, ◌||◌, Option, none, some, List, [], ◌∷◌, ◌++◌, ◌==◌,
  if◌then◌else◌,
}
use orchestrator_cli.Common.Int.{ℤ, pos, ltb_ℤ, scale_int64}
use orchestrator_cli.Common.Text.{GoText}
use orchestrator_cli.Common.Float.{Float64}
use orchestrator_cli.App.{HardwareShape}
use orchestrator_cli.App.Decision.{
  Reason, text, missing_id, vram_below, too_many_gpus, vram_per_gpu_below, family_not_allowed,
  region_not_allowed, no_on_demand, spot_not_allowed, missing_price, availability, over_budget,
  HardwareSelection,
}
use orchestrator_cli.Routing.Types.{
  SizingHints, HardwareConstraints, Options, SelectError, sizing_required,
}
use orchestrator_cli.Routing.Providers.{contains_fold}

unfoldable pub max_int : ℤ → ℤ → ℤ
max_int a b = if ltb_ℤ b a then a else b

abbrev pub is_empty : List String → Bool
is_empty [] = true
is_empty (x ∷ xs) = false

module _ {F : Type 0} ⦃f : Float64 F⦄ ⦃t : GoText⦄ where
  unfoldable pub precision_bytes : String → F
  precision_bytes precision =
      let p = t.to_lower precision in
      if p == "fp32" || p == "float32"
      then f.of_int (pos 4)
      else if p == "int8" || (p == "8bit" || p == "quantized")
      then f.of_int (pos 1)
      else f.of_int (pos 2)

  unfoldable pub optimizer_multiplier : String → F
  optimizer_multiplier optimizer =
      let o = t.to_lower optimizer in
      if o == "adam" || o == "adamw"
      then f.of_int (pos 4)
      else if o == "sgd"
      then f.of_int (pos 2)
      else f.of_int (pos 3)

  -- the required memory, the confidence in it, and the error
  unfoldable pub estimate_required_vram : Options F → F × String × Option (SelectError F)
  estimate_required_vram opts =
      let s = opts.sizing in
      let zero_usd = f.of_int (pos 0) in
      if f.lt zero_usd s.required_vram_gb
      then (s.required_vram_gb, "probe", none)
      else if f.lt zero_usd s.model_parameters_b
      then (let activation = f.mul (f.of_int (max_int s.batch_size (pos 1))) f.half in
          (
            f.add
                (f.mul (f.mul s.model_parameters_b (precision_bytes s.precision))
                  (optimizer_multiplier s.optimizer))
                activation,
            "hinted",
            none,
          ))
      else if f.lt zero_usd s.model_artifact_gb
      then (f.mul s.model_artifact_gb (f.of_int (pos 2)), "hinted", none)
      else if ltb_ℤ (pos 0) opts.hardware.min_vram_gb_per_gpu
      then (f.of_int opts.hardware.min_vram_gb_per_gpu, "constraint", none)
      else (zero_usd, "low", some sizing_required)

  -- `if cond { reasons = append(reasons, r) }`
  abbrev pub flag : Bool → Reason F → List (Reason F) → List (Reason F)
  flag c r rest = if c then r ∷ rest else rest

  unfoldable pub availability_rejections : HardwareShape F → List (Reason F)
  availability_rejections s =
      if s.availability_hint == "no_quota" || s.availability_hint == "unavailable"
      then (if s.availability_reason == ""
          then availability s.availability_hint
          else text s.availability_reason)
        ∷ []
      else []

  -- the prices and the kind of contract
  unfoldable pub market_rejections : HardwareShape F → HardwareConstraints → List (Reason F)
  market_rejections s k =
      let zero_usd = f.of_int (pos 0) in
      flag (k.require_on_demand && not s.supports_on_demand) no_on_demand (
        flag (not k.allow_spot && (not s.supports_on_demand && s.supports_spot)) spot_not_allowed (
          flag (f.le s.on_demand_hourly_usd zero_usd && f.le s.spot_hourly_usd zero_usd)
            missing_price (availability_rejections s)))

  unfoldable pub hardware_rejections : HardwareShape F → F → HardwareConstraints → List (Reason F)
  hardware_rejections s required k = flag (s.id == "") missing_id (
      flag (f.lt (f.of_int (pos 0)) required && f.lt (f.of_int s.total_vram_gb) required)
        (vram_below s.total_vram_gb required)
        (flag (ltb_ℤ (pos 0) k.max_gpus && ltb_ℤ k.max_gpus s.accelerator_count)
          (too_many_gpus s.accelerator_count k.max_gpus)
          (flag
            (ltb_ℤ (pos 0) k.min_vram_gb_per_gpu && ltb_ℤ s.vram_gb_per_gpu k.min_vram_gb_per_gpu)
            (vram_per_gpu_below s.vram_gb_per_gpu k.min_vram_gb_per_gpu)
            (flag
              (not (is_empty k.allowed_gpu_families)
                && not (contains_fold k.allowed_gpu_families s.gpu_family))
              (family_not_allowed s.gpu_family)
              (flag (not (is_empty k.regions) && not (contains_fold k.regions s.region))
                (region_not_allowed s.region) (market_rejections s k))))))

  unfoldable pub estimate_runtime_seconds : HardwareShape F → SizingHints F → F
  estimate_runtime_seconds s z =
      let accelerators = f.of_int (max_int s.accelerator_count (pos 1)) in
      if ltb_ℤ (pos 0) z.expected_steps
      then f.max (f.of_int (pos 60))
          (f.div (f.of_int (scale_int64 z.expected_steps 10)) accelerators)
      else if ltb_ℤ (pos 0) s.accelerator_count
      then f.div (f.of_int (pos 3600)) accelerators
      else f.of_int (pos 7200)

  unfoldable pub estimate_total_cost_usd : HardwareShape F → F → F → F
  estimate_total_cost_usd s provider_hourly runtime =
      let zero_usd = f.of_int (pos 0) in
      let listed =
        if f.eq s.on_demand_hourly_usd zero_usd
        then s.spot_hourly_usd
        else s.on_demand_hourly_usd in
      let hourly = if f.eq listed zero_usd then provider_hourly else listed in
      f.div (f.mul hourly runtime) (f.of_int (pos 3600))

  unfoldable pub selected_hourly_usd : HardwareShape F → F
  selected_hourly_usd s =
      if f.lt (f.of_int (pos 0)) s.on_demand_hourly_usd
      then s.on_demand_hourly_usd
      else s.spot_hourly_usd

  unfoldable pub hardware_selection : String → HardwareShape F → HardwareSelection F
  hardware_selection provider s = record {
    provider = provider;
    shape_id = s.id;
    region = s.region;
    machine_type = s.machine_type;
    accelerator_type = s.accelerator_type;
    accelerator_count = s.accelerator_count;
    gpu_family = s.gpu_family;
    total_vram_gb = s.total_vram_gb;
    hourly_usd = selected_hourly_usd s;
  }

  abbrev pub within_budget : F → F → Bool
  within_budget budget cost = not (f.lt (f.of_int (pos 0)) budget && f.lt budget cost)

  -- the reasons that one round of the loop over shapes collects
  unfoldable pub shape_rejections :
      HardwareShape F → F → HardwareConstraints → F → F → List (Reason F)
  shape_rejections s required k budget cost =
      hardware_rejections s required k
      ++ (if within_budget budget cost then [] else over_budget cost budget ∷ [])
