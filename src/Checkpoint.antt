-- ===== src/Checkpoint.antt =====
-- internal/checkpoint/resolver.go: the checkpoint that a run can resume from.
pub mod Newest
mod Tests
use orchestrator_cli.Common.{
  String, Bool, true, false, not, ◌||◌, Option, none, some, List, [], ◌∷◌, ◌==◌, if◌then◌else◌,
}
use orchestrator_cli.Common.Int.{ℤ, pos, ltb_ℤ}
use orchestrator_cli.App.{CheckpointRef}

pub data EventType : Type 0 where
  metric checkpoint status log : EventType
  other : String → EventType

-- what the resolver reads of an app.Event
pub record Event : Type 0 where
  pub event_type : EventType
  pub step : Option ℤ
  pub checkpoint_uri : String

abbrev pub is_checkpoint : EventType → Bool
is_checkpoint EventType.checkpoint = true
is_checkpoint _ = false

abbrev pub step_or_zero : Option ℤ → ℤ
step_or_zero none = pos 0
step_or_zero (some n) = n

-- `latest == nil || step >= latest.Step`
abbrev pub replaces : ℤ → Option CheckpointRef → Bool
replaces step none = true
replaces step (some r) = not (ltb_ℤ step r.step)

-- one round of the loop; `sanitize` is redact.SanitizeURI
unfoldable pub next_latest : (String → String) → Option CheckpointRef → Event → Option CheckpointRef
next_latest sanitize latest e =
    if not (is_checkpoint e.event_type) || e.checkpoint_uri == ""
    then latest
    else if replaces (step_or_zero e.step) latest
    then some (record { uri = sanitize e.checkpoint_uri; step = step_or_zero e.step })
    else latest

unfoldable pub latest_from :
    (String → String) → Option CheckpointRef → List Event → Option CheckpointRef
latest_from sanitize latest [] = latest
latest_from sanitize latest (e ∷ es) = latest_from sanitize (next_latest sanitize latest e) es

unfoldable pub latest : (String → String) → List Event → Option CheckpointRef
latest sanitize events = latest_from sanitize none events
