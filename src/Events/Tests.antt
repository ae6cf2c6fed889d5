-- ===== src/Events/Tests.antt =====
-- A line with one metric.
use orchestrator_cli.Common.{ℕ, String, none, some, ◌≢◌}
use orchestrator_cli.Common.Int.{pos}
use orchestrator_cli.Redact.Values.{Value, Fields}
use orchestrator_cli.Events.{EventTools, parse_line}
use orchestrator_cli.Events.Kept.{Keeps, IsNamed, parse_line-Keeps}

abbrev demo_raw : Fields ℕ
demo_raw = Fields.field "type" (Value.text "metric") (
    Fields.field "metrics" (Value.object (Fields.field "loss" (Value.number 3) Fields.end))
      Fields.end)

abbrev demo_tools : EventTools ℕ
demo_tools = record {
  decode = λ s. some demo_raw;
  decode_event = λ s. none;
  parse_rfc3339 = λ s. none;
  to_int64 = λ n. pos n;
}

run_named : ◌≢◌ {A = String} "r_1" ""
run_named h = absurd (cc h)

attempt_named : ◌≢◌ {A = String} "a_1" ""
attempt_named h = absurd (cc h)

parse_line-Keeps_example :
    Keeps demo_tools "{...}" "r_1" "a_1" 0 (parse_line demo_tools "{...}" "r_1" "a_1" 0)
    × IsNamed demo_tools "{...}" "r_1" "a_1" 0 (parse_line demo_tools "{...}" "r_1" "a_1" 0)
parse_line-Keeps_example = parse_line-Keeps demo_tools "{...}" "r_1" "a_1" 0 run_named attempt_named
