-- ===== src/Vm/Submit.antt =====
-- Submit and failureResult of internal/provider/chinacloud/vm_runtime.go, without the copying of logs
-- and events. A call ends with the result and the error of Go's Submit and with the calls that it
-- made; `none` is a loop that has not ended within the fuel.
use Prim.Native.String.{◌++◌ as str_append}
use orchestrator_cli.Common.{
  ℕ, String, Bool, true, false, Option, none, some, List, [], ◌∷◌, ◌++◌, ◌==◌, if◌then◌else◌,
}
use orchestrator_cli.Common.Int.{ℤ, pos, eqb_ℤ}
use orchestrator_cli.App.Runs.{ProviderResourceState}
use orchestrator_cli.App.Errors.{
  Error, provider, provider_of, ProviderErrorKind, Result, ok, err, error_text,
}
use orchestrator_cli.Cli.Types.{SubmitResult}
use orchestrator_cli.Vm.Types.{
  VmState, VmInstance, VmRuntimeConfig, VmCloud, VmRequest, Call, created, terminated, started,
}
use orchestrator_cli.Vm.Runtime.{
  vm_provider_ref, normalize_runtime_error, exit_code_for_provider_error, should_terminate,
  vm_resource, tell, wait_for_running, monitor_remote,
}

abbrev pub Outcome : Type 0
Outcome = (SubmitResult × Option Error) × List Call

abbrev pub returned : String → ℤ → String → Option Error → SubmitResult × Option Error
returned ref code reason e =
    (record { provider_job_ref = ref; exit_code = code; exit_reason = reason }, e)

abbrev outcome : String → ℤ → String → Option Error → List Call → Outcome
outcome ref code reason e calls = (returned ref code reason e, calls)

-- the end of a Submit whose update callback answered: with an error, that is returned
unfoldable pub conclude :
    String → SubmitResult × Option Error → (Error → String) → Option Error × List Call → Outcome
conclude ref x text (none, calls) = (x, calls)
conclude ref x text (some e, calls) = outcome ref (pos 1) (text e) (some e) calls

module _ (cloud : VmCloud) (c : VmRuntimeConfig) (q : VmRequest) (name : String)
    (redact : String → String) (describe : ℤ → String) where
  abbrev pub told :
      String
      → VmInstance
      → ProviderResourceState
      → List (String × String)
      → List Call
      → Option Error × List Call
  told ref i state extra calls =
      tell q.on_resource_updated (vm_resource c q name i ref state extra) calls

  -- VMInstance{ID: instanceID, State: VMStateFailed}
  abbrev failed_instance : String → VmInstance
  failed_instance id = record {
    id = id;
    state = VmState.failed;
    native_state = "";
    public_ip = "";
    private_ip = "";
    region = "";
    zone = "";
  }

  -- failureResult after the question whether to terminate
  abbrev pub report_failure :
      String → Error → ProviderResourceState → List (String × String) → List Call → Outcome
  report_failure id e state extra calls =
      let ref = vm_provider_ref name id in
      conclude ref (returned ref (exit_code_for_provider_error e) (redact (error_text e)) (some e))
        (λ x. redact (error_text x))
        (told ref (failed_instance id) state (extra ++ (("error", error_text e) ∷ [])) calls)

  abbrev pub after_terminate : String → Error → Option Error → List Call → Outcome
  after_terminate id e none calls = report_failure id e ProviderResourceState.terminating [] calls
  after_terminate id e (some x) calls =
      report_failure id e ProviderResourceState.failed
        (("cleanup_error", error_text (normalize_runtime_error x)) ∷ []) calls

  -- by KeepInstanceOnFailure
  abbrev pub on_failure : Bool → String → Error → List Call → Outcome
  on_failure true id e calls = report_failure id e ProviderResourceState.failed [] calls
  on_failure false id e calls = after_terminate id e (cloud.terminate_vm id) (terminated id ∷ calls)

  unfoldable pub failure_result : String → Error → List Call → Outcome
  failure_result id e calls =
      on_failure c.keep_instance_on_failure id (normalize_runtime_error e) calls

  -- the end of a job whose exit marker was read
  abbrev pub finish :
      String
      → VmInstance
      → ℤ
      → String
      → ProviderResourceState
      → List (String × String)
      → List Call
      → Outcome
  finish ref i code reason state extra calls =
      conclude ref (returned ref code (redact reason) none) error_text
        (told ref i state (extra ++ (("exit_reason", reason) ∷ [])) calls)

  abbrev state_of_code : ℤ → ProviderResourceState
  state_of_code code =
      if eqb_ℤ code (pos 0) then ProviderResourceState.succeeded else ProviderResourceState.failed

  abbrev pub finish_terminated :
      String → VmInstance → ℤ → String → Option Error → List Call → Outcome
  finish_terminated ref i code reason none calls =
      finish ref i code reason ProviderResourceState.terminating [] calls
  finish_terminated ref i code reason (some x) calls =
      finish ref i code reason (state_of_code code)
        (("cleanup_error", error_text (normalize_runtime_error x)) ∷ []) calls

  -- what follows monitorRemote
  unfoldable pub after_monitor :
      String → String → VmInstance → Result (ℤ × String) → List Call → Outcome
  after_monitor id ref i (err e) calls = failure_result id e calls
  after_monitor id ref i (ok (code, reason)) calls =
      if should_terminate c code
      then finish_terminated ref i code reason (cloud.terminate_vm id) (terminated id ∷ calls)
      else finish ref i code reason (state_of_code code) [] calls

  abbrev monitored :
      String → String → VmInstance → List Call → Option (Result (ℤ × String)) → Option Outcome
  monitored id ref i calls none = none
  monitored id ref i calls (some r) = some (after_monitor id ref i r calls)

  -- what follows WaitForReady
  unfoldable pub after_ready :
      ℕ → String → String → VmInstance → Option Error → List Call → Option Outcome
  after_ready fuel id ref i (some e) calls = some (
      failure_result id
        (provider_of ProviderErrorKind.network
          (str_append name (str_append " ssh not ready: " (error_text e))) e)
        calls)
  after_ready fuel id ref i none calls =
      monitored id ref i calls (monitor_remote cloud name describe fuel)

  abbrev pub told_running :
      ℕ → String → String → VmInstance → Option Error × List Call → Option Outcome
  told_running fuel id ref i (some e, calls) =
      some (outcome ref (pos 1) (error_text e) (some e) calls)
  told_running fuel id ref i (none, calls) = after_ready fuel id ref i cloud.wait_for_ready calls

  -- what follows waitForRunning
  unfoldable pub after_start :
      ℕ → String → String → Option (Result VmInstance) → List Call → Option Outcome
  after_start fuel id ref none calls = none
  after_start fuel id ref (some (err e)) calls = some (failure_result id e calls)
  after_start fuel id ref (some (ok i)) calls =
      told_running fuel id ref i (told ref i ProviderResourceState.running [] calls)

  abbrev pub dismiss : String → String → Error → List Call → Option Outcome
  dismiss id ref e calls =
      some (outcome ref (pos 1) (error_text e) (some e) (terminated id ∷ calls))

  abbrev pub notify_started : String → List Call → Option Error × List Call
  notify_started ref calls = elim q.on_started [
    | none ↦ (none, calls)
    | some callback ↦ (callback ref, started ref ∷ calls)
  ]

  abbrev pub after_started : ℕ → String → String → Option Error × List Call → Option Outcome
  after_started fuel id ref (some e, calls) = dismiss id ref e calls
  after_started fuel id ref (none, calls) =
      after_start fuel id ref (wait_for_running cloud name fuel) calls

  abbrev pub after_booting : ℕ → String → String → Option Error × List Call → Option Outcome
  after_booting fuel id ref (some e, calls) = dismiss id ref e calls
  after_booting fuel id ref (none, calls) = after_started fuel id ref (notify_started ref calls)

  unfoldable pub after_create : ℕ → Result VmInstance → Option Outcome
  after_create fuel (err e) =
      let wrapped = normalize_runtime_error e in
      some (
        outcome "" (exit_code_for_provider_error wrapped) (redact (error_text wrapped))
          (some wrapped) [])
  after_create fuel (ok i) =
      let e =
        provider ProviderErrorKind.internal
          (str_append name " VM create returned no instance ID") in
      let ref = vm_provider_ref name i.id in
      if i.id == ""
      then some (outcome "" (exit_code_for_provider_error e) (error_text e) (some e) [])
      else after_booting fuel i.id ref (
          tell q.on_resource_created (vm_resource c q name i ref ProviderResourceState.booting [])
            (created i.id ∷ []))

  unfoldable pub submit : ℕ → Option Outcome
  submit fuel = after_create fuel cloud.create_vm
