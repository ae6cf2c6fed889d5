-- ===== src/Cli/CleanupTests.antt =====
-- A cleanup of one GCP job, and a run that is canceled.
use orchestrator_cli.Common.{true, false, none, some, [], ◌∷◌, ◌≡◌, ◌≢◌, refl}
use orchestrator_cli.Common.Float.{Milli, milli_float}
use orchestrator_cli.Common.Int.{pos}
use orchestrator_cli.Common.Sort.{sort_stable, insert}
use orchestrator_cli.App.Runs.{
  Attempt, AttemptState, ProviderResource, ProviderResourceState, ProviderResourceKind,
  ProviderResourceCleanupPolicy,
}
use orchestrator_cli.App.Errors.{ok, err, plain}
use orchestrator_cli.State.World.{World}
use orchestrator_cli.State.Action.{asks, statement, now, ◌>>=◌, attempt_of}
use orchestrator_cli.State.Decisions.{get_routing_decision, find_decision}
use orchestrator_cli.State.Tables.{
  get_run, find_run, attempts_by_run, finish_attempt, update_attempt, finish_run,
}
use orchestrator_cli.Cli.Attempt.{write_summary}
use orchestrator_cli.Common.Text.{str_lt}
use orchestrator_cli.State.Resources.{
  ProviderResourceFilter, upsert_resource, provider_resources, save_provider_resource, resource_id,
  write_resource,
}
use orchestrator_cli.State.RoundTrip.{find_resource}
use orchestrator_cli.State.Settled.{still_running}
use orchestrator_cli.Cli.Cleanup.{
  AdapterCalls, cleanup, cleanup_loop, cleanup_one, resource_cleanup_eligible,
  provider_resource_state_active, cleanup_adapter_for_resource, cleanup_requested_state,
  is_china_cloud_provider, merge_resource_metadata, set_value,
}
use orchestrator_cli.Cli.Cleaned.{cleanup_complete}
use orchestrator_cli.Cli.Cancel.{
  cancel_run, cancel_attempt, finish_canceled, running_attempt, cancel_adapter_for_attempt,
  adapter_resource,
}
use orchestrator_cli.Cli.Canceled.{cancel_run-ends}
use orchestrator_cli.Cli.Tests.{demo_platform, demo_surroundings, demo_world}

abbrev demo_calls : AdapterCalls
demo_calls = record {
  optional_resolver = none;
  lambda_factory = false;
  cancel = λ provider ref n. none;
  get_status = λ provider ref n. err (plain "not asked");
}

abbrev demo_resource : ProviderResource
demo_resource = record {
  id = "res_1";
  run_id = "r_1";
  attempt_id = "a_1";
  provider = "gcp";
  kind = ProviderResourceKind.custom_job;
  external_id = "";
  provider_ref = "gcp:job";
  region = "us-central1";
  project_or_account = "";
  state = ProviderResourceState.running;
  created_by_switchboard = true;
  cleanup_policy = ProviderResourceCleanupPolicy.on_success;
  metadata = [];
  created_at = some 0;
  updated_at = some 0;
  last_observed_at = none;
}

abbrev demo_resources : World Milli
demo_resources = record demo_world { resources = demo_resource ∷ [] }

abbrev demo_filter : ProviderResourceFilter
demo_filter = record { run_id = ""; provider = "" }

abbrev demo_cleaned : ProviderResource
demo_cleaned = record demo_resource {
  state = ProviderResourceState.canceled;
  updated_at = some 0;
  last_observed_at = some 0;
  metadata = ("cleanup_requested_at", "1") ∷ [];
}

abbrev demo_after : World Milli
demo_after = (cleanup demo_calls demo_platform demo_filter false demo_resources).1

named : demo_resource.id ≢ ""
named h = absurd (cc h)

cleanup_demo :
    cleanup demo_calls demo_platform demo_filter false demo_resources
    ≡ (ok (demo_cleaned ∷ []), demo_after)
unfolding cleanup cleanup_loop cleanup_one ◌>>=◌ provider_resources statement sort_stable insert
    resource_cleanup_eligible provider_resource_state_active cleanup_adapter_for_resource
    cleanup_requested_state is_china_cloud_provider asks now save_provider_resource resource_id
    write_resource upsert_resource merge_resource_metadata set_value str_lt
cleanup_demo = refl

demo_left : find_resource "res_1" demo_after.resources ≡ some demo_cleaned
unfolding cleanup cleanup_loop cleanup_one ◌>>=◌ provider_resources statement sort_stable insert
    resource_cleanup_eligible provider_resource_state_active cleanup_adapter_for_resource
    cleanup_requested_state is_china_cloud_provider asks now save_provider_resource resource_id
    write_resource upsert_resource merge_resource_metadata set_value str_lt
demo_left = refl

cleanup_complete_example : resource_cleanup_eligible demo_cleaned ≡ false
cleanup_complete_example =
    cleanup_complete demo_calls demo_platform demo_filter demo_resources demo_after
      (demo_cleaned ∷ []) "res_1" demo_cleaned (named, tt) cleanup_demo demo_left refl

abbrev demo_attempt : Attempt Milli
demo_attempt = record {
  id = "a_1";
  run_id = "r_1";
  provider = "gcp";
  state = AttemptState.running;
  started_at = some 0;
  ended_at = none;
  exit_code = pos 0;
  exit_reason = "";
  provider_ref = "gcp:job";
  resume_from_uri = "";
  resume_from_step = none;
  estimated_hourly_usd = none;
  estimate_currency = "";
}

abbrev demo_running : World Milli
demo_running = record demo_world { attempts = demo_attempt ∷ [] }

abbrev demo_canceled : World Milli
demo_canceled = (cancel_run demo_calls (λ provider. none) demo_surroundings "r_1" demo_running).1

cancel_demo :
    cancel_run demo_calls (λ provider. none) demo_surroundings "r_1" demo_running
    ≡ (ok tt, demo_canceled)
unfolding cancel_run cancel_attempt finish_canceled running_attempt cancel_adapter_for_attempt
    adapter_resource is_china_cloud_provider cleanup_adapter_for_resource attempt_of
    provider_resources statement now asks ◌>>=◌ get_run find_run attempts_by_run finish_attempt
    update_attempt finish_run write_summary get_routing_decision find_decision sort_stable insert
    str_lt
cancel_demo = refl

cancel_run-ends_example : still_running "r_1" demo_canceled ≡ false
cancel_run-ends_example =
    cancel_run-ends demo_calls (λ provider. none) demo_surroundings "r_1" demo_running demo_canceled
      tt cancel_demo
