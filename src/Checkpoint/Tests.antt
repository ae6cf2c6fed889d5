-- ===== src/Checkpoint/Tests.antt =====
-- Three checkpoints, two of them at the highest step, and one without a URI.
use mathlib.Core.List.{Memᴰ}
use orchestrator_cli.Common.{String, true, ◌≡◌, refl, Option, none, some, List, [], ◌∷◌, All}
use orchestrator_cli.Common.Int.{ℤ, pos}
use orchestrator_cli.App.{CheckpointRef}
use orchestrator_cli.Checkpoint.{Event, EventType, next_latest, latest_from, latest}
use orchestrator_cli.Checkpoint.Newest.{offers, offered, NotAfter, latest-newest, latest-found}

abbrev saved : String → Option ℤ → Event
saved uri step = record { event_type = EventType.checkpoint; step = step; checkpoint_uri = uri }

abbrev demo_events : List Event
demo_events =
    saved "gs://b/7" (some (pos 7))
    ∷ saved "gs://b/0" none
    ∷ saved "gs://b/7b" (some (pos 7))
    ∷ saved "" (some (pos 9))
    ∷ []

abbrev newest_of_demo : CheckpointRef
newest_of_demo = record { uri = "gs://b/7b"; step = pos 7 }

demo_latest : latest (λ s. s) demo_events ≡ some newest_of_demo
unfolding latest latest_from next_latest
demo_latest = refl

latest-newest_example :
    ((e : Event) × Memᴰ e demo_events × (offers e ≡ true) × (newest_of_demo ≡ offered (λ s. s) e))
    × All (NotAfter (pos 7)) demo_events
latest-newest_example = latest-newest (λ s. s) demo_events newest_of_demo demo_latest

latest-found_example : (r : CheckpointRef) × (latest (λ s. s) demo_events ≡ some r)
latest-found_example =
    latest-found (λ s. s) demo_events (saved "gs://b/7" (some (pos 7))) refl (Memᴰ.head refl)
