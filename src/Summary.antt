-- ===== src/Summary.antt =====
-- internal/summary/summary.go: the summary of a run.
pub mod Scored
pub mod Best
mod Tests
use Prim.Native.Char.{Char}
use orchestrator_cli.Common.{
  ℕ, ◌+◌, ◌-◌, String, Bool, true, false, not, ◌||◌, ◌&&◌, Option, none, some, List, [], ◌∷◌, ◌==◌,
  map, ltb, if◌then◌else◌, length,
}
use orchestrator_cli.Common.Int.{ℤ, pos}
use orchestrator_cli.Common.Float.{Float64}
use orchestrator_cli.Common.Strings.{to_lower}
use orchestrator_cli.App.Decision.{RoutingDecision}
use orchestrator_cli.App.Runs.{Run, RunState, Attempt, Time}
use orchestrator_cli.Redact.Keys.{has_marker}
use orchestrator_cli.Redact.Uris.{UriTools}
use orchestrator_cli.Redact.Redactor.{redact_string}
use orchestrator_cli.Redact.Records.{LoggedEvent, sanitize_attempt_uris, redact_attempt}

pub record Summary (F : Type 0) : Type 0 where
  pub run_id : String
  pub state : RunState
  pub final_metrics : List (String × F)
  pub best_metrics : List (String × F)
  pub best_step : Option ℤ
  pub runtime_seconds : Option F
  pub provider_attempts : List (Attempt F)
  pub checkpoint_count : ℕ
  pub resume_count : ℕ
  pub exit_reason : String
  pub routing : Option (RoutingDecision F)

unfoldable pub lower_is_better : (Char → Char) → String → Bool
unfolding has_marker
lower_is_better fold name =
    has_marker (to_lower fold name)
      ("loss" ∷ "error" ∷ "err" ∷ "perplexity" ∷ "ppl" ∷ "latency" ∷ "duration" ∷ [])

-- the maps of metrics
unfoldable pub find_metric : {F : Type 0} → String → List (String × F) → Option F
find_metric name [] = none
find_metric name ((k, v) ∷ more) = if k == name then some v else find_metric name more

unfoldable pub set_metric : {F : Type 0} → String → F → List (String × F) → List (String × F)
set_metric name x [] = (name, x) ∷ []
set_metric name x ((k, v) ∷ more) =
    if k == name then (k, x) ∷ more else (k, v) ∷ set_metric name x more

-- the variables of the loop
pub record Scores (F : Type 0) : Type 0 where
  pub final : List (String × F)
  pub best : List (String × F)
  pub best_step : Option ℤ
  pub checkpoint_count : ℕ

abbrev over_step : Option ℤ → Option ℤ → Option ℤ
over_step none old = old
over_step (some n) old = some n

abbrev last_reason : {F : Type 0} → String → List (Attempt F) → String
last_reason reason [] = reason
last_reason reason (a ∷ more) = last_reason a.exit_reason more

abbrev pub no_scores : {F : Type 0} → Scores F
no_scores = record { final = []; best = []; best_step = none; checkpoint_count = 0 }

-- `seconds` is Sub and Seconds of package time; no runtime is `none`
abbrev runtime_of : {F : Type 0} → (ℕ → ℕ → F) → Time → Time → Option F
runtime_of seconds (some start) (some stop) = some (seconds start stop)
runtime_of seconds _ _ = none

abbrev exit_reason_of : {F : Type 0} → String → List (Attempt F) → String
exit_reason_of error attempts = if error == "" then last_reason error attempts else error

-- bestStep is kept only where there is a best metric
abbrev step_with : {F : Type 0} → List (String × F) → Option ℤ → Option ℤ
step_with [] step = none
step_with (m ∷ more) step = step

abbrev summary_of :
    {F : Type 0}
    → (ℕ → ℕ → F)
    → Run
    → List (Attempt F)
    → Scores F
    → Option (RoutingDecision F)
    → Summary F
summary_of seconds run attempts s decision = record {
  run_id = run.id;
  state = run.state;
  final_metrics = s.final;
  best_metrics = s.best;
  best_step = step_with s.best s.best_step;
  runtime_seconds = runtime_of seconds run.started_at run.ended_at;
  provider_attempts = attempts;
  checkpoint_count = s.checkpoint_count;
  resume_count = length attempts - 1;
  exit_reason = exit_reason_of run.error attempts;
  routing = decision;
}

module _ {F : Type 0} ⦃f : Float64 F⦄ (t : UriTools) where
  -- isBetterMetricValue, with the value of the map `best`, where it has one
  unfoldable pub is_better_metric_value : String → F → Option F → Bool
  is_better_metric_value name candidate none = true
  is_better_metric_value name candidate (some current) =
      if lower_is_better t.fold name then f.lt candidate current else f.lt current candidate

  -- one round of the loop over the metrics of an event
  unfoldable pub score_metric : Option ℤ → String → F → Scores F → Scores F
  score_metric step k v s =
      if is_better_metric_value k v (find_metric k s.best)
      then record s {
        final = set_metric k v s.final;
        best = set_metric k v s.best;
        best_step = over_step step s.best_step;
      }
      else record s { final = set_metric k v s.final }

  unfoldable pub score_metrics : Option ℤ → List (String × F) → Scores F → Scores F
  unfolding score_metric
  score_metrics step [] s = s
  score_metrics step ((k, v) ∷ more) s = score_metrics step more (score_metric step k v s)

  unfoldable pub score_event : LoggedEvent F → Scores F → Scores F
  score_event ev s =
      if ev.event_type == "metric"
      then score_metrics ev.step ev.metrics s
      else if ev.event_type == "checkpoint"
      then record s { checkpoint_count = s.checkpoint_count + 1 }
      else s

  unfoldable pub score_events : List (LoggedEvent F) → Scores F → Scores F
  score_events [] s = s
  score_events (ev ∷ more) s = score_events more (score_event ev s)

  unfoldable pub build :
      (ℕ → ℕ → F)
      → Run
      → List (Attempt F)
      → List (LoggedEvent F)
      → Option (RoutingDecision F)
      → Summary F
  unfolding score_events
  build seconds run attempts events decision =
      summary_of seconds run (map (sanitize_attempt_uris t) attempts)
        (score_events events no_scores) decision

-- Redactor.Summary of internal/redact/redact.go
unfoldable pub redact_summary : {F : Type 0} → UriTools → List String → Summary F → Summary F
redact_summary t values s = record s {
  run_id = redact_string t values s.run_id;
  exit_reason = redact_string t values s.exit_reason;
  provider_attempts = map (redact_attempt t values) s.provider_attempts;
}
