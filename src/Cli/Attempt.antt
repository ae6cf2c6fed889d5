-- ===== src/Cli/Attempt.antt =====
-- runAttempt, finishFailed, finishRunOnly and writeSummary of internal/cli/root.go. In a function
-- that returns (int, bool, error), a failed action stands for `return exitCodeInternal, false, err`.
use orchestrator_cli.Common.{
  String, Bool, true, false, Option, none, some, List, [], ◌∷◌, ◌++◌, ◌==◌, if◌then◌else◌,
}
use orchestrator_cli.Common.Int.{ℤ, pos, eqb_ℤ}
use orchestrator_cli.Common.Float.{Float64}
use orchestrator_cli.App.{JobSpec, DataManifest, CheckpointRef, CostEstimate, provider_local}
use orchestrator_cli.App.Runs.{Run, RunState, AttemptState}
use orchestrator_cli.App.Errors.{
  Error, Result, ok, err, plain, error_text, is_retryable_provider_error,
}
use orchestrator_cli.App.Decision.{HardwareSelection}
use orchestrator_cli.Routing.Types.{ProviderAdapter}
use orchestrator_cli.Routing.Registry.{Registry, get}
use orchestrator_cli.State.World.{World}
use orchestrator_cli.State.Action.{Action, ◌>>=◌, ◌>>◌, give, ignore, attempt_of, asks, now, new_id}
use orchestrator_cli.State.Decisions.{get_routing_decision}
use orchestrator_cli.State.Tables.{
  finish_run, finish_attempt, create_attempt, get_run, attempts_by_run, update_attempt_estimate,
}
use orchestrator_cli.Cli.Types.{
  Surroundings, SubmitResult, AttemptExit, exit_code_internal, exit_code_invalid_spec,
  exit_code_routing, exit_code_canceled,
}
use orchestrator_cli.Cli.Persist.{run_submission}

abbrev pub is_run_canceled : RunState → Bool
is_run_canceled RunState.canceled = true
is_run_canceled _ = false

abbrev first_reason : List String → String
first_reason [] = "job is not supported"
first_reason (r ∷ rs) = r

abbrev exit_with : {F : Type 0} → ℤ → Bool → Option Error → Action F AttemptExit
exit_with code retryable e = give (record { code = code; retryable = retryable; error = e })

abbrev answer : Option Error → Result (Unit {0})
answer none = ok tt
answer (some e) = err e

abbrev pub unless : {F : Type 0} → Bool → Action F (Unit {0}) → Action F (Unit {0})
unless test m = if test then give tt else m

abbrev pub attempt_exit : Result AttemptExit → AttemptExit
attempt_exit (ok x) = x
attempt_exit (err e) = record { code = exit_code_internal; retryable = false; error = some e }

module _ {F : Type 0} ⦃f : Float64 F⦄ (s : Surroundings F) (run_id : String) where
  -- The summary that is built from these is written to a file and not in the world.
  unfoldable pub write_summary : Action F (Unit {0})
  write_summary = do
    run ← get_run run_id
    attempts ← attempts_by_run s.platform run_id
    events ← asks s.read_events
    decision ← attempt_of (get_routing_decision s.decision_json run_id)
    asks (λ n. answer (s.write_summary_file n))

  unfoldable pub finish_run_only : ℤ → String → Action F (Unit {0})
  finish_run_only code reason = do
    t ← now s.platform
    ignore (finish_run run_id RunState.failed code reason t)

  unfoldable pub finish_failed : String → ℤ → String → String → Action F (Unit {0})
  finish_failed id code reason ref = do
    t ← now s.platform
    ignore (finish_attempt id AttemptState.failed code reason ref t)
    ignore (finish_run run_id RunState.failed code reason t)

  -- the return when the run was canceled in the meantime
  unfoldable pub leave_canceled : Action F AttemptExit
  leave_canceled = write_summary >> exit_with exit_code_canceled false none

  -- after a Submit with an error
  unfoldable pub after_failure :
      (String → String) → String → SubmitResult → Error → Run → Action F AttemptExit
  after_failure redact id result e run = if is_run_canceled run.state then leave_canceled else (do
    t ← now s.platform
    let reason = redact (if result.exit_reason == "" then error_text e else result.exit_reason)
    finish_attempt id AttemptState.failed result.exit_code reason (redact result.provider_job_ref) t
    unless (is_retryable_provider_error e)
        (finish_run run_id RunState.failed result.exit_code reason t)
    exit_with result.exit_code (is_retryable_provider_error e) (some e))

  -- after a Submit without an error
  unfoldable pub after_success :
      (String → String) → String → SubmitResult → Run → Action F AttemptExit
  after_success redact id result run = if is_run_canceled run.state then leave_canceled else (do
    t ← now s.platform
    let good = eqb_ℤ result.exit_code (pos 0)
    let reason = redact result.exit_reason
    finish_attempt id (if good then AttemptState.succeeded else AttemptState.failed)
        result.exit_code reason (redact result.provider_job_ref) t
    finish_run run_id (if good then RunState.succeeded else RunState.failed) result.exit_code reason
        t
    write_summary
    exit_with result.exit_code false none)

  unfoldable pub after_submit :
      (String → String) → String → SubmitResult × Option Error → Action F AttemptExit
  after_submit redact id (result, some e) = get_run run_id >>= after_failure redact id result e
  after_submit redact id (result, none) = get_run run_id >>= after_success redact id result

  -- what the branches that end the run before the Submit have in common
  unfoldable pub give_up : String → ℤ → String → Error → Action F AttemptExit
  give_up id code reason e = do
    finish_failed id code reason ""
    ignore write_summary
    exit_with code false (some e)

module _ {F : Type 0} ⦃f : Float64 F⦄ (s : Surroundings F) (run_id provider : String)
    (resume : Option CheckpointRef) (hardware : Option (HardwareSelection F)) where
  abbrev resume_value : Option CheckpointRef → String
  resume_value none = ""
  resume_value (some r) = r.uri

  unfoldable pub submit_job : JobSpec → String → Result (CostEstimate F) → Action F AttemptExit
  submit_job job id (err e) =
      let env = s.runtime_env provider id (resume_value resume) job.inputs in
      give_up s run_id id exit_code_routing (s.redact (job.env ++ env) (error_text e)) e
  submit_job job id (ok estimate) =
      let env = s.runtime_env provider id (resume_value resume) job.inputs in
      let redact = s.redact (job.env ++ env) in
      (do
        update_attempt_estimate id estimate
        done ← run_submission s.platform redact run_id id [] (
            s.submit provider (record {
              job_spec = job;
              run_id = run_id;
              attempt_id = id;
              resume_from = resume;
              selected_hardware = hardware;
              runtime_env = env;
            }))
        after_submit s run_id redact id done)

  -- the price of the selected hardware, or else the adapter's
  unfoldable pub attempt_estimate :
      Option (HardwareSelection F) → ProviderAdapter F → JobSpec → Result (CostEstimate F)
  attempt_estimate none a job = a.estimate job
  attempt_estimate (some h) a job =
      if f.lt (f.of_int (pos 0)) h.hourly_usd
      then ok (record { hourly_usd = h.hourly_usd; currency = "USD" })
      else a.estimate job

  -- from ValidateJob on; `redact` is the redactor of the job as it was given
  unfoldable pub attempt_job :
      (String → String) → ProviderAdapter F → String → Result JobSpec → Action F AttemptExit
  attempt_job redact a id (err e) =
      give_up s run_id id exit_code_invalid_spec (redact (error_text e)) e
  attempt_job redact a id (ok job) =
      let report = a.validate_job job in
      let reason = first_reason report.reasons in
      if report.supported
      then submit_job job id (attempt_estimate hardware a job)
      else give_up s run_id id exit_code_invalid_spec (redact reason) (plain reason)

  unfoldable pub attempt_on :
      JobSpec → DataManifest → String → Result (ProviderAdapter F) → Action F AttemptExit
  attempt_on job manifest id (err e) = do
    finish_failed s run_id id exit_code_internal (s.redact job.env (error_text e)) ""
    exit_with exit_code_internal false (some e)
  attempt_on job manifest id (ok a) =
      attempt_job (s.redact job.env) a id
        (if provider == provider_local then s.prepare_local job manifest else ok job)

  abbrev step_of : Option CheckpointRef → Option ℤ
  step_of none = none
  step_of (some r) = some r.step

  unfoldable pub run_attempt_body : Registry F → JobSpec → DataManifest → Action F AttemptExit
  run_attempt_body registry job manifest = do
    id ← new_id s.platform "a"
    t ← now s.platform
    create_attempt s.platform (record {
      id = id;
      run_id = run_id;
      provider = provider;
      state = AttemptState.running;
      started_at = some t;
      ended_at = none;
      exit_code = pos 0;
      exit_reason = "";
      provider_ref = "";
      resume_from_uri = resume_value resume;
      resume_from_step = step_of resume;
      estimated_hourly_usd = none;
      estimate_currency = "";
    })
    attempt_on job manifest id (get registry provider)

  unfoldable pub run_attempt : Registry F → JobSpec → DataManifest → World F → AttemptExit × World F
  run_attempt registry job manifest w =
      let (r, after) = run_attempt_body registry job manifest w in (attempt_exit r, after)
