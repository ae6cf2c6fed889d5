-- ===== src/State/World.antt =====
-- The tables of internal/state/store.go, and what surrounds them.
use orchestrator_cli.Common.{ℕ, String, Bool, Option, List}
use orchestrator_cli.App.Runs.{Run, Attempt, ProviderResource}
use orchestrator_cli.App.Errors.{Error}

-- What the program takes from its platform: the instant and the random id that a call gets when
-- `n` of them were asked for before, the RFC3339Nano text of an instant, and SQLite's error for a
-- second row with one primary key.
pub record Platform : Type 0 where
  pub instant : ℕ → ℕ
  pub fresh_id : String → ℕ → String
  pub time_text : ℕ → String
  pub unique_failed : Error

-- a row of routing_decisions; a column of type REAL that is NULL is `none`
pub record DecisionRow (F : Type 0) : Type 0 where
  pub run_id : String
  pub selected_provider : String
  pub objective : String
  pub selection_reason : String
  pub eligible_json : String
  pub rejected_json : String
  pub selected_hardware_json : String
  pub eligible_hardware_json : String
  pub rejected_hardware_json : String
  pub estimated_required_vram_gb : Option F
  pub estimated_runtime_sec : Option F
  pub estimated_total_cost_usd : Option F
  pub confidence : String

-- `runs`, `attempts`, `decisions` and `resources` are the tables, in the order of insertion. SQLite
-- answers the next statements with `faults`, where `none` (and the end of the list) is success; a
-- statement that it refuses changes no table. `trouble` tells whether it refused one. `asked` counts
-- the instants and ids that were given out.
pub record World (F : Type 0) : Type 0 where
  pub runs : List Run
  pub attempts : List (Attempt F)
  pub decisions : List (DecisionRow F)
  pub resources : List ProviderResource
  pub faults : List (Option Error)
  pub trouble : Bool
  pub asked : ℕ
