-- ===== src/Cli/Cancel.antt =====
-- The command `cancel` of internal/cli/root.go.
use Prim.Native.String.{◌++◌ as str_append}
use orchestrator_cli.Common.{
  String, Bool, true, false, ◌||◌, not, Option, none, some, List, [], ◌∷◌, ◌==◌, if◌then◌else◌,
}
use orchestrator_cli.Common.Float.{Float64}
use orchestrator_cli.App.Runs.{Run, RunState, Attempt, AttemptState, ProviderResource}
use orchestrator_cli.App.Errors.{Error, Result, ok, err, plain}
use orchestrator_cli.State.Action.{Action, ◌>>=◌, ◌>>◌, give, fail, asks, now, attempt_of}
use orchestrator_cli.State.Settled.{is_running}
use orchestrator_cli.State.Tables.{get_run, attempts_by_run, finish_attempt, finish_run}
use orchestrator_cli.State.Resources.{provider_resources}
use orchestrator_cli.Cli.Types.{Surroundings, exit_code_canceled}
use orchestrator_cli.Cli.Attempt.{write_summary}
use orchestrator_cli.Cli.Cleanup.{
  AdapterCalls, error_or, raise, cleanup_adapter_for_resource, is_china_cloud_provider,
}

abbrev attempt_running : AttemptState → Bool
attempt_running AttemptState.running = true
attempt_running _ = false

-- the loop over the attempts: the last one that is running
unfoldable pub running_attempt :
    {F : Type 0} → Option (Attempt F) → List (Attempt F) → Option (Attempt F)
running_attempt found [] = found
running_attempt found (a ∷ more) =
    running_attempt (if attempt_running a.state then some a else found) more

-- the loop of cancelAdapterForAttempt: the first resource of the attempt, or with an external id
unfoldable pub adapter_resource : String → List ProviderResource → Option ProviderResource
adapter_resource ref [] = none
adapter_resource ref (r ∷ more) =
    let rest = adapter_resource ref more in
    if r.provider_ref == ref || not (r.external_id == "") then some r else rest

-- `registered` is Get of the registry that is built without a configuration
module _ (c : AdapterCalls) (registered : String → Option Error) where
  abbrev registry_error : String → Option Error
  registry_error provider =
      if provider == "lambda" || is_china_cloud_provider provider
      then (elim c.optional_resolver [ none ↦ registered provider | some e ↦ some e ])
      else registered provider

  abbrev adapter_error_in : String → Option ProviderResource → Option Error
  adapter_error_in provider (some r) = cleanup_adapter_for_resource c r
  adapter_error_in provider none = registry_error provider

  -- the error of cancelAdapterForAttempt, by the resources that the store returns
  unfoldable pub cancel_adapter_for_attempt :
      String → String → Result (List ProviderResource) → Option Error
  unfolding adapter_resource
  cancel_adapter_for_attempt provider ref (ok rs) =
      adapter_error_in provider (adapter_resource ref rs)
  cancel_adapter_for_attempt provider ref (err e) = registry_error provider

  module _ {F : Type 0} ⦃f : Float64 F⦄ (s : Surroundings F) (run_id : String) where
    -- after the adapter has canceled the job
    unfoldable pub finish_canceled : Attempt F → Action F (Unit {0})
    finish_canceled a = do
      t ← now s.platform
      finish_attempt a.id AttemptState.canceled exit_code_canceled "canceled" a.provider_ref t
      finish_run run_id RunState.canceled exit_code_canceled "canceled" t
      write_summary s run_id

    unfoldable pub cancel_attempt : Attempt F → Action F (Unit {0})
    unfolding finish_canceled
    cancel_attempt a =
        if a.provider_ref == ""
        then fail
            (plain (str_append "run " (str_append run_id " has no provider process reference yet")))
        else attempt_of
            (provider_resources s.platform (record { run_id = run_id; provider = a.provider }))
          >>= λ resources.
              raise (cancel_adapter_for_attempt a.provider a.provider_ref resources) >>= λ u.
              asks (λ n. error_or (c.cancel a.provider a.provider_ref n)) >>= λ v. finish_canceled a

    abbrev pub cancel_running : Option (Attempt F) → Action F (Unit {0})
    cancel_running none =
        fail (plain (str_append "run " (str_append run_id " has no running attempt")))
    cancel_running (some a) = cancel_attempt a

    abbrev pub cancel_from : Run → Action F (Unit {0})
    cancel_from run =
        if is_running run.state
        then (attempts_by_run s.platform run_id >>= λ attempts.
            cancel_running (running_attempt none attempts))
        else give tt

    -- cancelRun, after ValidateRunID
    unfoldable pub cancel_run : Action F (Unit {0})
    unfolding cancel_attempt
    cancel_run = get_run run_id >>= cancel_from
