-- ===== src/Cli/Tried.antt =====
-- runAttempt of internal/cli/root.go makes at most one attempt, on the provider that it is given.
use orchestrator_cli.Common.{
  String, Bool, true, false, ◌≡◌, ◌∙◌, ◌⊎◌, inl, inr, Option, none, some, [], ◌∷◌, ◌++◌, Bool-cases,
}
use orchestrator_cli.Common.Int.{ℤ}
use orchestrator_cli.Common.Float.{Float64}
use orchestrator_cli.App.{JobSpec, DataManifest, CheckpointRef, CostEstimate}
use orchestrator_cli.App.Runs.{Run, Attempt, ProviderResource}
use orchestrator_cli.App.Errors.{Error, Result, ok, err, is_retryable_provider_error}
use orchestrator_cli.App.Decision.{HardwareSelection}
use orchestrator_cli.Routing.Types.{ProviderAdapter}
use orchestrator_cli.Routing.Registry.{Registry, get}
use orchestrator_cli.State.World.{World, Platform}
use orchestrator_cli.State.Action.{Action, ◌>>=◌, now, new_id}
use orchestrator_cli.State.Passes.{
  Passes, continue-Passes, bind-Passes, asks-Passes, give-Passes, ignore-Passes, attempt_of-Passes,
}
use orchestrator_cli.State.Tables.{create_attempt}
use orchestrator_cli.State.Tried.{
  tried, Keeps, Keeps-IsStep, finish_run-Keeps, finish_attempt-Keeps,
  update_attempt_provider_ref-Keeps, update_attempt_estimate-Keeps, get_run-Keeps,
  get_routing_decision-Keeps, attempts_by_run-Keeps, now-Keeps, save_provider_resource-Keeps,
  create_attempt-tried,
}
use orchestrator_cli.Cli.Types.{
  Submission, finished, on_started, on_resource, attempt_canceled, run_canceled, SubmitResult,
  Surroundings,
}
use orchestrator_cli.Cli.Persist.{
  ResourceIds, error_of, ids_of, persist_provider_resource, run_submission,
}
use orchestrator_cli.Cli.Attempt.{
  write_summary, finish_run_only, finish_failed, leave_canceled, after_failure, after_success,
  after_submit, give_up, submit_job, attempt_job, attempt_on, run_attempt_body, run_attempt,
  is_run_canceled, unless,
}

module _ {F : Type 0} where
  persist-Keeps :
      (p : Platform) (redact : String → String) (ids : ResourceIds) (r : ProviderResource)
      → Passes Keeps (persist_provider_resource {F = F} p redact ids r)
  unfolding persist_provider_resource
  persist-Keeps p redact ids r =
      bind-Passes Keeps-IsStep (save_provider_resource-Keeps p _) (λ a. give-Passes Keeps-IsStep _)

  run_submission-Keeps :
      (p : Platform) (redact : String → String) (run_id id : String) (ids : ResourceIds)
      (m : Submission)
      → Passes Keeps (run_submission {F = F} p redact run_id id ids m)
  unfolding run_submission
  run_submission-Keeps p redact run_id id ids (finished result e) = give-Passes Keeps-IsStep _
  run_submission-Keeps p redact run_id id ids (on_started ref k) =
      bind-Passes Keeps-IsStep
        (attempt_of-Passes (update_attempt_provider_ref-Keeps id (redact ref)))
        (λ r. run_submission-Keeps p redact run_id id ids (k (error_of r)))
  run_submission-Keeps p redact run_id id ids (on_resource resource k) =
      bind-Passes Keeps-IsStep (attempt_of-Passes (persist-Keeps p redact ids resource))
        (λ r. run_submission-Keeps p redact run_id id (ids_of ids r) (k (error_of r)))
  run_submission-Keeps p redact run_id id ids (attempt_canceled ref t rest) =
      bind-Passes Keeps-IsStep (ignore-Passes (finish_attempt-Keeps id _ _ _ ref t))
        (λ r. run_submission-Keeps p redact run_id id ids rest)
  run_submission-Keeps p redact run_id id ids (run_canceled t rest) =
      bind-Passes Keeps-IsStep (ignore-Passes (finish_run-Keeps run_id _ _ _ t))
        (λ r. run_submission-Keeps p redact run_id id ids rest)

  create_then-tried :
      {A : Type 0} (p : Platform) (a : Attempt F) {k : Unit {0} → Action F A}
      → ((x : Unit {0}) → Passes Keeps (k x))
      → (w : World F)
      → (tried ((create_attempt p a >>= k) w).1 ≡ tried w)
        ⊎ (tried ((create_attempt p a >>= k) w).1 ≡ tried w ++ (a.provider ∷ []))
  unfolding ◌>>=◌
  create_then-tried p a {k} h w =
      let same = continue-Passes Keeps-IsStep k (create_attempt p a w) h in
      elim (create_attempt-tried p a w) [ inl e ↦ inl (same ∙ e) | inr e ↦ inr (same ∙ e) ]

module _ {F : Type 0} ⦃f : Float64 F⦄ (s : Surroundings F) (run_id : String) where
  pub finish_run_only-Keeps :
      (code : ℤ) (reason : String) → Passes Keeps (finish_run_only s run_id code reason)
  unfolding finish_run_only
  finish_run_only-Keeps code reason =
      bind-Passes Keeps-IsStep (now-Keeps s.platform)
        (λ t. ignore-Passes (finish_run-Keeps run_id _ code reason t))

  finish_failed-Keeps :
      (id : String) (code : ℤ) (reason ref : String)
      → Passes Keeps (finish_failed s run_id id code reason ref)
  unfolding finish_failed
  finish_failed-Keeps id code reason ref = bind-Passes Keeps-IsStep (now-Keeps s.platform) (λ t.
      bind-Passes Keeps-IsStep (ignore-Passes (finish_attempt-Keeps id _ code reason ref t))
        (λ a. ignore-Passes (finish_run-Keeps run_id _ code reason t)))

  pub write_summary-Keeps : Passes Keeps (write_summary s run_id)
  unfolding write_summary
  write_summary-Keeps = bind-Passes Keeps-IsStep (get_run-Keeps run_id) (λ r.
      bind-Passes Keeps-IsStep (attempts_by_run-Keeps s.platform run_id) (λ a.
        bind-Passes Keeps-IsStep (asks-Passes Keeps-IsStep s.read_events) (λ es.
          bind-Passes Keeps-IsStep
            (attempt_of-Passes (get_routing_decision-Keeps s.decision_json run_id))
            (λ d. asks-Passes Keeps-IsStep _))))

  leave_canceled-Keeps : Passes Keeps (leave_canceled s run_id)
  unfolding leave_canceled
  leave_canceled-Keeps =
      bind-Passes Keeps-IsStep write_summary-Keeps (λ a. give-Passes Keeps-IsStep _)

  unless-Keeps : (b : Bool) {m : Action F (Unit {0})} → Passes Keeps m → Passes Keeps (unless b m)
  unless-Keeps true h = give-Passes Keeps-IsStep tt
  unless-Keeps false h = h

  after_failure-Keeps :
      (redact : String → String) (id : String) (result : SubmitResult) (e : Error) (run : Run)
      → Passes Keeps (after_failure s run_id redact id result e run)
  unfolding after_failure
  after_failure-Keeps redact id result e run = elim (Bool-cases (is_run_canceled run.state)) [
    | inl k ↦ rw k leave_canceled-Keeps
    | inr k ↦ rw k (
        bind-Passes Keeps-IsStep (now-Keeps s.platform) (λ t.
          bind-Passes Keeps-IsStep (finish_attempt-Keeps id _ _ _ _ t) (λ a.
            bind-Passes Keeps-IsStep
              (unless-Keeps (is_retryable_provider_error e) (finish_run-Keeps run_id _ _ _ t))
              (λ b. give-Passes Keeps-IsStep _))))
  ]

  after_success-Keeps :
      (redact : String → String) (id : String) (result : SubmitResult) (run : Run)
      → Passes Keeps (after_success s run_id redact id result run)
  unfolding after_success
  after_success-Keeps redact id result run = elim (Bool-cases (is_run_canceled run.state)) [
    | inl k ↦ rw k leave_canceled-Keeps
    | inr k ↦ rw k (
        bind-Passes Keeps-IsStep (now-Keeps s.platform) (λ t.
          bind-Passes Keeps-IsStep (finish_attempt-Keeps id _ _ _ _ t) (λ a.
            bind-Passes Keeps-IsStep (finish_run-Keeps run_id _ _ _ t) (λ b.
              bind-Passes Keeps-IsStep write_summary-Keeps (λ c. give-Passes Keeps-IsStep _)))))
  ]

  after_submit-Keeps :
      (redact : String → String) (id : String) (x : SubmitResult × Option Error)
      → Passes Keeps (after_submit s run_id redact id x)
  unfolding after_submit
  after_submit-Keeps redact id (result, some e) =
      bind-Passes Keeps-IsStep (get_run-Keeps run_id) (after_failure-Keeps redact id result e)
  after_submit-Keeps redact id (result, none) =
      bind-Passes Keeps-IsStep (get_run-Keeps run_id) (after_success-Keeps redact id result)

  give_up-Keeps :
      (id : String) (code : ℤ) (reason : String) (e : Error)
      → Passes Keeps (give_up s run_id id code reason e)
  unfolding give_up
  give_up-Keeps id code reason e =
      bind-Passes Keeps-IsStep (finish_failed-Keeps id code reason "") (λ a.
        bind-Passes Keeps-IsStep (ignore-Passes write_summary-Keeps)
          (λ b. give-Passes Keeps-IsStep _))

module _ {F : Type 0} ⦃f : Float64 F⦄ (s : Surroundings F) (run_id provider : String)
    (resume : Option CheckpointRef) (hardware : Option (HardwareSelection F)) where
  submit_job-Keeps :
      (job : JobSpec) (id : String) (r : Result (CostEstimate F))
      → Passes Keeps (submit_job s run_id provider resume hardware job id r)
  unfolding submit_job
  submit_job-Keeps job id (err e) = give_up-Keeps s run_id id _ _ e
  submit_job-Keeps job id (ok estimate) =
      bind-Passes Keeps-IsStep (update_attempt_estimate-Keeps id estimate) (λ a.
        bind-Passes Keeps-IsStep (run_submission-Keeps s.platform _ run_id id [] _)
          (λ x. after_submit-Keeps s run_id _ id x))

  attempt_job-Keeps :
      (redact : String → String) (a : ProviderAdapter F) (id : String) (r : Result JobSpec)
      → Passes Keeps (attempt_job s run_id provider resume hardware redact a id r)
  unfolding attempt_job
  attempt_job-Keeps redact a id (err e) = give_up-Keeps s run_id id _ _ e
  attempt_job-Keeps redact a id (ok job) = elim (Bool-cases (a.validate_job job).supported) [
    | inl k ↦ rw k (submit_job-Keeps job id _)
    | inr k ↦ rw k (give_up-Keeps s run_id id _ _ _)
  ]

  attempt_on-Keeps :
      (job : JobSpec) (manifest : DataManifest) (id : String) (r : Result (ProviderAdapter F))
      → Passes Keeps (attempt_on s run_id provider resume hardware job manifest id r)
  unfolding attempt_on
  attempt_on-Keeps job manifest id (err e) =
      bind-Passes Keeps-IsStep (finish_failed-Keeps s run_id id _ _ "")
        (λ a. give-Passes Keeps-IsStep _)
  attempt_on-Keeps job manifest id (ok a) = attempt_job-Keeps _ a id _

  -- One runAttempt adds at most one attempt to the store, with the given provider, and changes the
  -- provider of no attempt.
  pub run_attempt-tried :
      (registry : Registry F) (job : JobSpec) (manifest : DataManifest) (w : World F)
      → let after = (run_attempt s run_id provider resume hardware registry job manifest w).1 in
        (tried after ≡ tried w) ⊎ (tried after ≡ tried w ++ (provider ∷ []))
  unfolding run_attempt run_attempt_body ◌>>=◌ now new_id
  run_attempt-tried registry job manifest w =
      create_then-tried s.platform _ (λ a. attempt_on-Keeps job manifest _ (get registry provider))
        _
