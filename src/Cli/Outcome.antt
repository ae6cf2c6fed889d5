-- ===== src/Cli/Outcome.antt =====
-- That runAttempt of internal/cli/root.go leaves no run running that it does not want to retry.
use orchestrator_cli.Common.{
  String, Bool, true, false, ◌≡◌, refl, ◌∙◌, ap, ◌⊎◌, inl, inr, Option, none, some, [], Bool-cases,
  if◌then◌else◌,
}
use orchestrator_cli.Common.Int.{ℤ, pos, eqb_ℤ}
use orchestrator_cli.Common.Float.{Float64}
use orchestrator_cli.App.{JobSpec, DataManifest, CheckpointRef, CostEstimate}
use orchestrator_cli.App.Runs.{Run, RunState}
use orchestrator_cli.App.Errors.{Error, Result, ok, err, is_retryable_provider_error}
use orchestrator_cli.App.Decision.{HardwareSelection}
use orchestrator_cli.Routing.Types.{ProviderAdapter}
use orchestrator_cli.Routing.Registry.{Registry, get}
use orchestrator_cli.State.World.{World}
use orchestrator_cli.State.Passes.{
  asks-Passes, attempt_of-Passes, Passes, bind-Passes, give-Passes, ignore-Passes,
}
use orchestrator_cli.State.Tables.{find_run}
use orchestrator_cli.State.Settled.{
  is_running, row_running, Settled, Stays, Stays-IsStep, Settles, bind-Settles, bind-late,
  give-Firm, ignore-Firm, now-Firm, new_id-Firm, finish_run-Settles,
}
use orchestrator_cli.Cli.Types.{SubmitResult, Surroundings, AttemptExit}
use orchestrator_cli.Cli.Attempt.{
  write_summary, finish_run_only, finish_failed, leave_canceled, after_failure, after_success,
  after_submit, give_up, submit_job, attempt_job, attempt_on, run_attempt_body, run_attempt,
  is_run_canceled, attempt_exit,
}
use orchestrator_cli.Cli.Settled.{
  finish_attempt-Firm, update_attempt_estimate-Firm, create_attempt-Firm, run_submission-Firm,
  get_routing_decision-Stays, get_run-Stays, attempts_by_run-Stays, ignore-Settles, Good, Ends,
  Ends-of_Settles, bind-Ends, read-Ends,
}

canceled_not_running : (s : RunState) → is_run_canceled s ≡ true → is_running s ≡ false
canceled_not_running RunState.running h = absurd (cc h)
canceled_not_running RunState.succeeded h = refl
canceled_not_running RunState.failed h = refl
canceled_not_running RunState.canceled h = refl

module _ {F : Type 0} ⦃f : Float64 F⦄ (s : Surroundings F) (run_id : String) where
  pub finish_run_only-Settles :
      (code : ℤ) (reason : String) → Settles run_id (finish_run_only s run_id code reason)
  unfolding finish_run_only
  finish_run_only-Settles code reason =
      bind-late run_id (now-Firm run_id s.platform)
        (λ t. ignore-Settles run_id (finish_run-Settles run_id _ code reason t refl))

  finish_failed-Settles :
      (id : String) (code : ℤ) (reason ref : String)
      → Settles run_id (finish_failed s run_id id code reason ref)
  unfolding finish_failed
  finish_failed-Settles id code reason ref = bind-late run_id (now-Firm run_id s.platform) (λ t.
      bind-late run_id (ignore-Firm run_id _)
        (λ a. ignore-Settles run_id (finish_run-Settles run_id _ code reason t refl)))

  pub write_summary-Stays : Passes (Stays run_id) (write_summary s run_id)
  unfolding write_summary
  write_summary-Stays =
      let step = Stays-IsStep run_id in
      bind-Passes step (get_run-Stays run_id run_id) (λ r.
        bind-Passes step (attempts_by_run-Stays run_id s.platform run_id) (λ a.
          bind-Passes step (asks-Passes step s.read_events) (λ es.
            bind-Passes step
              (attempt_of-Passes (get_routing_decision-Stays run_id s.decision_json run_id))
              (λ d. asks-Passes step _))))

  leave_canceled-Good : (w : World F) → Settled run_id w → Good run_id (leave_canceled s run_id w)
  unfolding leave_canceled
  leave_canceled-Good w h = go (leave_canceled s run_id w) (
      (bind-Passes (Stays-IsStep run_id) write_summary-Stays
          (λ a. give-Passes (Stays-IsStep run_id) _)).leads
        w h)
    where
      go : (r : Result AttemptExit × World F) → Settled run_id r.1 → Good run_id r
      go (ok x, v) k = inr k
      go (err e, v) k = k

  Settled-by_row :
      (w : World F) (r : Run)
      → find_run run_id w.runs ≡ some r
      → is_run_canceled r.state ≡ true
      → Settled run_id w
  Settled-by_row w r e k = inr (ap row_running e ∙ canceled_not_running r.state k)

  after_failure-Good :
      (redact : String → String) (id : String) (result : SubmitResult) (e : Error) (r : Run)
      (w : World F)
      → find_run run_id w.runs ≡ some r
      → Good run_id (after_failure s run_id redact id result e r w)
  unfolding after_failure
  after_failure-Good redact id result e r w q = elim (Bool-cases (is_run_canceled r.state)) [
    | inl k ↦ rw k (leave_canceled-Good w (Settled-by_row w r q k))
    | inr k ↦ rw k (
        (bind-Ends run_id (now-Firm run_id s.platform) (λ t.
            bind-Ends run_id (finish_attempt-Firm run_id id _ _ _ _ t) (λ a.
              elim (Bool-cases (is_retryable_provider_error e)) [
                | inl y ↦ rw y (
                    bind-Ends run_id (give-Firm run_id tt)
                      (λ b. record { good = λ v. inl (e, refl, refl) }))
                | inr n ↦ rw n (
                    Ends-of_Settles run_id (
                      bind-Settles run_id (finish_run-Settles run_id _ _ _ t refl)
                        (λ b. give-Passes (Stays-IsStep run_id) _)))
              ]))).good
          w)
  ]

  state_of_success :
      (b : Bool) → is_running (if b then RunState.succeeded else RunState.failed) ≡ false
  state_of_success true = refl
  state_of_success false = refl

  after_success-Good :
      (redact : String → String) (id : String) (result : SubmitResult) (r : Run) (w : World F)
      → find_run run_id w.runs ≡ some r
      → Good run_id (after_success s run_id redact id result r w)
  unfolding after_success
  after_success-Good redact id result r w q = elim (Bool-cases (is_run_canceled r.state)) [
    | inl k ↦ rw k (leave_canceled-Good w (Settled-by_row w r q k))
    | inr k ↦ rw k (
        (bind-Ends run_id (now-Firm run_id s.platform) (λ t.
            bind-Ends run_id (finish_attempt-Firm run_id id _ _ _ _ t) (λ a.
              Ends-of_Settles run_id (
                bind-Settles run_id
                  (finish_run-Settles run_id _ _ _ t
                    (state_of_success (eqb_ℤ result.exit_code (pos 0))))
                  (λ b.
                    bind-Passes (Stays-IsStep run_id) write_summary-Stays
                      (λ c. give-Passes (Stays-IsStep run_id) _)))))).good
          w)
  ]

  after_submit-Ends :
      (redact : String → String) (id : String) (x : SubmitResult × Option Error)
      → Ends run_id (after_submit s run_id redact id x)
  unfolding after_submit
  after_submit-Ends redact id (result, some e) =
      read-Ends run_id (after_failure s run_id redact id result e)
        (after_failure-Good redact id result e)
  after_submit-Ends redact id (result, none) =
      read-Ends run_id (after_success s run_id redact id result)
        (after_success-Good redact id result)

  give_up-Ends :
      (id : String) (code : ℤ) (reason : String) (e : Error)
      → Ends run_id (give_up s run_id id code reason e)
  unfolding give_up
  give_up-Ends id code reason e = Ends-of_Settles run_id (
      bind-Settles run_id (finish_failed-Settles id code reason "") (λ a.
        bind-Passes (Stays-IsStep run_id) (ignore-Passes write_summary-Stays)
          (λ b. give-Passes (Stays-IsStep run_id) _)))

module _ {F : Type 0} ⦃f : Float64 F⦄ (s : Surroundings F) (run_id provider : String)
    (resume : Option CheckpointRef) (hardware : Option (HardwareSelection F)) where
  submit_job-Ends :
      (job : JobSpec) (id : String) (r : Result (CostEstimate F))
      → Ends run_id (submit_job s run_id provider resume hardware job id r)
  unfolding submit_job
  submit_job-Ends job id (err e) = give_up-Ends s run_id id _ _ e
  submit_job-Ends job id (ok estimate) =
      bind-Ends run_id (update_attempt_estimate-Firm run_id id estimate) (λ a.
        bind-Ends run_id (run_submission-Firm run_id s.platform _ run_id id [] _)
          (λ x. after_submit-Ends s run_id _ id x))

  attempt_job-Ends :
      (redact : String → String) (a : ProviderAdapter F) (id : String) (r : Result JobSpec)
      → Ends run_id (attempt_job s run_id provider resume hardware redact a id r)
  unfolding attempt_job
  attempt_job-Ends redact a id (err e) = give_up-Ends s run_id id _ _ e
  attempt_job-Ends redact a id (ok job) = elim (Bool-cases (a.validate_job job).supported) [
    | inl k ↦ rw k (submit_job-Ends job id _)
    | inr k ↦ rw k (give_up-Ends s run_id id _ _ _)
  ]

  attempt_on-Ends :
      (job : JobSpec) (manifest : DataManifest) (id : String) (r : Result (ProviderAdapter F))
      → Ends run_id (attempt_on s run_id provider resume hardware job manifest id r)
  unfolding attempt_on
  attempt_on-Ends job manifest id (err e) = Ends-of_Settles run_id (
      bind-Settles run_id (finish_failed-Settles s run_id id _ _ "")
        (λ a. give-Passes (Stays-IsStep run_id) _))
  attempt_on-Ends job manifest id (ok a) = attempt_job-Ends _ a id _

  run_attempt_body-Ends :
      (registry : Registry F) (job : JobSpec) (manifest : DataManifest)
      → Ends run_id (run_attempt_body s run_id provider resume hardware registry job manifest)
  unfolding run_attempt_body
  run_attempt_body-Ends registry job manifest =
      bind-Ends run_id (new_id-Firm run_id s.platform "a") (λ id.
        bind-Ends run_id (now-Firm run_id s.platform) (λ t.
          bind-Ends run_id (create_attempt-Firm run_id s.platform _)
            (λ a. attempt_on-Ends job manifest id (get registry provider))))

  -- the attempt is to be retried after an error, or the run is settled
  pub run_attempt-Settled :
      (registry : Registry F) (job : JobSpec) (manifest : DataManifest) (w : World F)
      → let r = run_attempt s run_id provider resume hardware registry job manifest w in
        ((e : Error) × (r.0.error ≡ some e) × (r.0.retryable ≡ true)) ⊎ Settled run_id r.1
  unfolding run_attempt
  run_attempt-Settled registry job manifest w =
      go (run_attempt_body s run_id provider resume hardware registry job manifest w)
        ((run_attempt_body-Ends registry job manifest).good w)
    where
      go :
          (r : Result AttemptExit × World F)
          → Good run_id r
          → ((e : Error) × ((attempt_exit r.0).error ≡ some e)
              × ((attempt_exit r.0).retryable ≡ true))
            ⊎ Settled run_id r.1
      go (ok x, v) h = h
      go (err e, v) h = inr h
