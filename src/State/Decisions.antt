-- ===== src/State/Decisions.antt =====
-- The routing decisions of internal/state/store.go, with their five columns of JSON.
use Prim.Native.String.{◌++◌ as str_append}
use orchestrator_cli.Common.{String, Option, none, some, List, [], ◌∷◌, ◌==◌, if◌then◌else◌}
use orchestrator_cli.Common.Float.{Float64}
use orchestrator_cli.App.Errors.{plain, Result, ok, err}
use orchestrator_cli.App.Decision.{
  RoutingDecision, RoutingCandidate, HardwareSelection, HardwareCandidate,
}
use orchestrator_cli.State.World.{DecisionRow}
use orchestrator_cli.State.Action.{Action, ◌>>=◌, ◌>>◌, give, fail, statement, change, returned}

-- encoding/json on the types of the columns
pub record DecisionJson (F : Type 0) : Type 0 where
  pub marshal_candidates : List (RoutingCandidate F) → Result String
  pub unmarshal_candidates : String → Result (List (RoutingCandidate F))
  pub marshal_selection : HardwareSelection F → Result String
  pub unmarshal_selection : String → Result (HardwareSelection F)
  pub marshal_hardware : List (HardwareCandidate F) → Result String
  pub unmarshal_hardware : String → Result (List (HardwareCandidate F))

-- a value of a nullable column of type REAL: SQLite stores a NaN as NULL
abbrev pub real_column : {F : Type 0} ⦃f : Float64 F⦄ → Option F → Option F
real_column none = none
real_column ⦃f⦄ (some x) = if f.eq x x then some x else none

abbrev map_some : {A : Type 0} → Result A → Result (Option A)
map_some (ok a) = ok (some a)
map_some (err e) = err e

module _ {F : Type 0} where
  -- with stringOrEmptyHardware
  abbrev pub marshal_selected : DecisionJson F → Option (HardwareSelection F) → Result String
  marshal_selected j none = ok ""
  marshal_selected j (some h) = j.marshal_selection h

  abbrev pub unmarshal_selected : DecisionJson F → String → Result (Option (HardwareSelection F))
  unmarshal_selected j s = if s == "" then ok none else map_some (j.unmarshal_selection s)

  abbrev pub unmarshal_listed : DecisionJson F → String → Result (List (HardwareCandidate F))
  unmarshal_listed j s = if s == "" then ok [] else j.unmarshal_hardware s

  -- INSERT ... ON CONFLICT(run_id) DO UPDATE
  unfoldable pub upsert_decision : DecisionRow F → List (DecisionRow F) → List (DecisionRow F)
  upsert_decision d [] = d ∷ []
  upsert_decision d (x ∷ xs) = if x.run_id == d.run_id then d ∷ xs else x ∷ upsert_decision d xs

  abbrev pub write_decision : DecisionRow F → Action F (Unit {0})
  write_decision row =
      statement >> change (λ w. record w { decisions = upsert_decision row w.decisions })

  -- the values of the statement, with the texts of its five columns
  abbrev pub row_of :
      ⦃f : Float64 F⦄
      → RoutingDecision F
      → String
      → String
      → String
      → String
      → String
      → DecisionRow F
  row_of d eligible rejected selected_hardware eligible_hardware rejected_hardware = record {
    run_id = d.run_id;
    selected_provider = d.selected_provider;
    objective = d.objective;
    selection_reason = d.selection_reason;
    eligible_json = eligible;
    rejected_json = rejected;
    selected_hardware_json = selected_hardware;
    eligible_hardware_json = eligible_hardware;
    rejected_hardware_json = rejected_hardware;
    estimated_required_vram_gb = real_column d.estimated_required_vram_gb;
    estimated_runtime_sec = real_column d.estimated_runtime_seconds;
    estimated_total_cost_usd = real_column d.estimated_total_cost_usd;
    confidence = d.confidence;
  }

  unfoldable pub save_routing_decision :
      ⦃f : Float64 F⦄ → DecisionJson F → RoutingDecision F → Action F (Unit {0})
  save_routing_decision j d = do
    eligible ← returned (j.marshal_candidates d.eligible_providers)
    rejected ← returned (j.marshal_candidates d.rejected_providers)
    selected_hardware ← returned (marshal_selected j d.selected_hardware)
    eligible_hardware ← returned (j.marshal_hardware d.eligible_hardware)
    rejected_hardware ← returned (j.marshal_hardware d.rejected_hardware)
    write_decision
        (row_of d eligible rejected selected_hardware eligible_hardware rejected_hardware)

  unfoldable pub find_decision : String → List (DecisionRow F) → Option (DecisionRow F)
  find_decision id [] = none
  find_decision id (d ∷ ds) = if d.run_id == id then some d else find_decision id ds

  abbrev pub read_decision :
      DecisionJson F → String → Option (DecisionRow F) → Action F (RoutingDecision F)
  read_decision j id none =
      fail (plain (str_append "routing decision for run " (str_append id " not found")))
  read_decision j id (some row) = do
    eligible ← returned (j.unmarshal_candidates row.eligible_json)
    rejected ← returned (j.unmarshal_candidates row.rejected_json)
    selected_hardware ← returned (unmarshal_selected j row.selected_hardware_json)
    eligible_hardware ← returned (unmarshal_listed j row.eligible_hardware_json)
    rejected_hardware ← returned (unmarshal_listed j row.rejected_hardware_json)
    give (record {
      run_id = row.run_id;
      selected_provider = row.selected_provider;
      objective = row.objective;
      selection_reason = row.selection_reason;
      eligible_providers = eligible;
      rejected_providers = rejected;
      selected_hardware = selected_hardware;
      eligible_hardware = eligible_hardware;
      rejected_hardware = rejected_hardware;
      estimated_required_vram_gb = row.estimated_required_vram_gb;
      estimated_runtime_seconds = row.estimated_runtime_sec;
      estimated_total_cost_usd = row.estimated_total_cost_usd;
      confidence = row.confidence;
    })

  unfoldable pub get_routing_decision : DecisionJson F → String → Action F (RoutingDecision F)
  get_routing_decision j id =
      statement >> (λ w. read_decision j id (find_decision id w.decisions) w)
