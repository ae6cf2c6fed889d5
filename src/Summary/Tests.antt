-- ===== src/Summary/Tests.antt =====
-- The summary of a run with two readings of one metric.
use orchestrator_cli.Common.{none, some, List, [], ◌∷◌, ◌≡◌, refl}
use orchestrator_cli.Common.Int.{pos}
use orchestrator_cli.Common.Float.{Milli, milli_float, Milli-IsOrdered}
use orchestrator_cli.Cli.Tests.{demo_run}
use orchestrator_cli.Redact.Tests.{demo_tools}
use orchestrator_cli.Redact.Records.{LoggedEvent}
use orchestrator_cli.Summary.{
  Summary, build, find_metric, set_metric, score_events, score_event, score_metrics, score_metric,
  is_better_metric_value, lower_is_better,
}
use orchestrator_cli.Redact.Keys.{has_marker}
use orchestrator_cli.Common.Strings.{to_lower, contains_text}
use orchestrator_cli.Summary.Scored.{readings}
use orchestrator_cli.Summary.Best.{Tells, build-Tells}

abbrev demo_reading : Milli → LoggedEvent Milli
demo_reading x = record {
  event_type = "metric";
  run_id = "r_1";
  attempt_id = "a_1";
  ts = 0;
  step = some (pos 1);
  epoch = none;
  split = "";
  state = "";
  checkpoint_uri = "";
  message = "";
  metrics = ("loss", x) ∷ [];
  fields = none;
}

abbrev demo_events : List (LoggedEvent Milli)
demo_events = demo_reading 900 ∷ demo_reading 700 ∷ demo_reading 800 ∷ []

abbrev demo_summary : Summary Milli
demo_summary = build demo_tools (λ a b. 0) demo_run [] demo_events none

build-Tells_example :
    Tells demo_tools "loss"
      (find_metric "loss" demo_summary.best_metrics)
      (find_metric "loss" demo_summary.final_metrics)
      (readings "loss" demo_events)
build-Tells_example =
    build-Tells demo_tools Milli-IsOrdered (λ a b. 0) demo_run [] demo_events none "loss"
      (refl, (refl, (refl, tt)))

best_loss : find_metric "loss" demo_summary.best_metrics ≡ some 700
unfolding build find_metric set_metric score_events score_event score_metrics score_metric
    is_better_metric_value lower_is_better has_marker to_lower contains_text
best_loss = refl
