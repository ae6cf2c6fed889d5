-- ===== src/Cli/Tests.antt =====
-- A run that fails on its first provider and goes on with the second one.
use orchestrator_cli.Common.{false, ◌≡◌, refl, ◌==◌, none, some, [], ◌∷◌, ltb, if◌then◌else◌}
use orchestrator_cli.Common.Int.{pos}
use orchestrator_cli.Common.Float.{Milli, milli_float}
use orchestrator_cli.Common.Text.{str_lt}
use orchestrator_cli.Common.Sort.{sort_stable, insert}
use orchestrator_cli.App.{DataManifest}
use orchestrator_cli.App.Runs.{Run, RunState}
use orchestrator_cli.App.Errors.{
  ok, err, plain, provider, ProviderErrorKind, as_provider_error, retryable, error_text,
  is_retryable_provider_error,
}
use orchestrator_cli.Routing.Registry.{lookup, get, list}
use orchestrator_cli.Routing.Providers.{
  contains, checkpoint_scheme, contains_fold, supported_checkpoint_scheme, input_rejections,
  inputs_rejections, resume_rejections, capability_rejections, judge_estimate, judge_capabilities,
  judge_adapter, judge, scan,
}
use orchestrator_cli.Routing.Select.{
  routing_candidates, provider_less, hardware_routing_enabled, select_provider, select_from, select,
}
use orchestrator_cli.Routing.Tests.{demo_text, demo_registry, demo_job, demo_options}
use orchestrator_cli.State.World.{World, Platform}
use orchestrator_cli.State.Action.{asks, statement, now, new_id, ◌>>=◌, ignore, attempt_of}
use orchestrator_cli.State.Decisions.{
  DecisionJson, get_routing_decision, find_decision, save_routing_decision, upsert_decision,
}
use orchestrator_cli.State.Tables.{
  create_attempt, finish_attempt, update_attempt, update_attempt_provider_ref,
  update_attempt_estimate, finish_run, get_run, find_run, has_attempt, attempts_by_run,
}
use orchestrator_cli.State.Tried.{tried}
use orchestrator_cli.Checkpoint.{EventType, latest, latest_from, next_latest}
use orchestrator_cli.Cli.Types.{Surroundings, TrainConfig, finished, on_started}
use orchestrator_cli.Cli.Persist.{run_submission, persist_provider_resource}
use orchestrator_cli.Cli.Attempt.{
  run_attempt, run_attempt_body, attempt_on, attempt_job, attempt_estimate, submit_job,
  after_submit, after_failure, after_success, leave_canceled, write_summary, finish_run_only,
  finish_failed, give_up,
}
use orchestrator_cli.Cli.Attempts.{
  run_attempts, run_attempts_from, attempt_round, after_attempt, resume_at, choose_provider,
  choose_auto, save_decision, end_run, routing_options, attempt_limit,
}
use orchestrator_cli.State.Settled.{still_running}
use orchestrator_cli.Cli.Termination.{run_attempts-settles}
use orchestrator_cli.Cli.Trail.{Trail}
use orchestrator_cli.Cli.Distinct.{run_attempts-distinct}

abbrev pub demo_platform : Platform
demo_platform = record {
  instant = λ n. n;
  fresh_id = λ prefix n. if ltb n 2 then "a_1" else "a_2";
  time_text = λ n. if ltb n 2 then "1" else "2";
  unique_failed = plain "UNIQUE constraint failed";
}

abbrev pub demo_json : DecisionJson Milli
demo_json = record {
  marshal_candidates = λ cs. ok "c";
  unmarshal_candidates = λ s. ok [];
  marshal_selection = λ h. ok "h";
  unmarshal_selection = λ s. err (plain "not an object");
  marshal_hardware = λ hs. ok "hs";
  unmarshal_hardware = λ s. ok [];
}

-- gcp has no capacity, and a checkpoint is there
abbrev pub demo_surroundings : Surroundings Milli
demo_surroundings = record {
  platform = demo_platform;
  redact = λ env s. s;
  decision_json = demo_json;
  sanitize_uri = λ s. s;
  prepare_local = λ job manifest. ok job;
  runtime_env = λ p id resume inputs. [];
  submit = λ p request.
      if p == "gcp"
      then on_started "gcp:job" (λ e.
        finished (record { provider_job_ref = "gcp:job"; exit_code = pos 40; exit_reason = "" })
          (some (provider ProviderErrorKind.capacity "no capacity")))
      else finished (record { provider_job_ref = "local:1"; exit_code = pos 0; exit_reason = "" })
          none;
  select_error = λ e. plain "no eligible providers";
  read_events = λ n. ok (
      record { event_type = EventType.checkpoint; step = some (pos 7); checkpoint_uri = "gs://b/7" }
      ∷ []);
  write_summary_file = λ n. none;
}

abbrev demo_config : TrainConfig Milli
demo_config = record { provider = "auto"; max_attempts = pos 3; options = demo_options }

abbrev pub demo_manifest : DataManifest
demo_manifest = record {
  inputs = [];
  bundle_size_bytes = pos 0;
  requires_large_bundle_override = false;
  bundle_size_limit_bytes = pos 0;
  large_bundle_override_permitted = false;
}

abbrev pub demo_run : Run
demo_run = record {
  id = "r_1";
  job_name = "train";
  script = "train.py";
  image = "";
  provider = "auto";
  state = RunState.running;
  started_at = some 0;
  ended_at = none;
  exit_code = pos 0;
  error = "";
}

abbrev pub demo_world : World Milli
demo_world = record {
  runs = demo_run ∷ [];
  attempts = [];
  decisions = [];
  resources = [];
  faults = [];
  trouble = false;
  asked = 0;
}

goes_on :
    tried
      (run_attempts demo_surroundings demo_config "r_1" demo_registry demo_job demo_manifest none
        demo_world).1
    ≡ "gcp" ∷ "local" ∷ []
unfolding asks get_routing_decision find_decision run_attempts run_attempts_from attempt_round
    after_attempt resume_at choose_provider choose_auto save_decision end_run routing_options
    attempt_limit run_attempt run_attempt_body attempt_on attempt_job attempt_estimate submit_job
    after_submit after_failure after_success leave_canceled write_summary finish_run_only
    finish_failed give_up run_submission persist_provider_resource statement now new_id ◌>>=◌ ignore
    attempt_of create_attempt finish_attempt update_attempt update_attempt_provider_ref
    update_attempt_estimate finish_run get_run find_run has_attempt attempts_by_run
    save_routing_decision upsert_decision latest latest_from next_latest is_retryable_provider_error
    as_provider_error retryable error_text select select_from select_provider scan judge
    judge_adapter judge_capabilities judge_estimate capability_rejections inputs_rejections
    input_rejections resume_rejections supported_checkpoint_scheme contains_fold checkpoint_scheme
    contains get lookup list sort_stable insert str_lt provider_less hardware_routing_enabled
    routing_candidates
goes_on = refl

run_attempts-distinct_example : Trail [] (attempt_limit demo_config) (tried demo_world) (
    tried
      (run_attempts demo_surroundings demo_config "r_1" demo_registry demo_job demo_manifest none
        demo_world).1)
run_attempts-distinct_example =
    run_attempts-distinct demo_surroundings demo_config "r_1" demo_registry demo_job demo_manifest
      refl none demo_world

untroubled :
    (run_attempts demo_surroundings demo_config "r_1" demo_registry demo_job demo_manifest none
      demo_world).1.trouble
    ≡ false
unfolding asks get_routing_decision find_decision run_attempts run_attempts_from attempt_round
    after_attempt resume_at choose_provider choose_auto save_decision end_run routing_options
    attempt_limit run_attempt run_attempt_body attempt_on attempt_job attempt_estimate submit_job
    after_submit after_failure after_success leave_canceled write_summary finish_run_only
    finish_failed give_up run_submission persist_provider_resource statement now new_id ◌>>=◌ ignore
    attempt_of create_attempt finish_attempt update_attempt update_attempt_provider_ref
    update_attempt_estimate finish_run get_run find_run has_attempt attempts_by_run
    save_routing_decision upsert_decision latest latest_from next_latest is_retryable_provider_error
    as_provider_error retryable error_text select select_from select_provider scan judge
    judge_adapter judge_capabilities judge_estimate capability_rejections inputs_rejections
    input_rejections resume_rejections supported_checkpoint_scheme contains_fold checkpoint_scheme
    contains get lookup list sort_stable insert str_lt provider_less hardware_routing_enabled
    routing_candidates
untroubled = refl

run_attempts-settles_example :
    still_running "r_1"
      (run_attempts demo_surroundings demo_config "r_1" demo_registry demo_job demo_manifest none
        demo_world).1
    ≡ false
run_attempts-settles_example =
    run_attempts-settles demo_surroundings demo_config "r_1" demo_registry demo_job demo_manifest
      none demo_world untroubled
