-- ===== src/Vm/Runtime.antt =====
-- The parts of a Submit of internal/provider/chinacloud/vm_runtime.go.
use Prim.Native.String.{◌++◌ as str_append}
use orchestrator_cli.Common.{
  ℕ, zero, suc, ◌+◌, String, Bool, true, not, ◌&&◌, Option, none, some, List, [], ◌∷◌, ◌++◌, ◌==◌,
  if◌then◌else◌,
}
use orchestrator_cli.Common.Int.{ℤ, pos, eqb_ℤ}
use orchestrator_cli.App.Runs.{
  AttemptState, ProviderResource, ProviderResourceKind, ProviderResourceState,
  ProviderResourceCleanupPolicy,
}
use orchestrator_cli.App.Errors.{
  Error, provider, provider_of, ProviderErrorKind, Result, ok, err, error_text, as_provider_error,
  provider_error_kind_of,
}
use orchestrator_cli.Vm.Types.{
  VmState, VmInstance, VmRuntimeConfig, VmCloud, VmRequest, Call, notified,
}

unfoldable pub vm_provider_ref : String → String → String
vm_provider_ref name id = str_append name (str_append ":" id)

-- strings.TrimPrefix
unfoldable pub strip_prefix : String → String → Option String
strip_prefix String.[] s = some s
strip_prefix (String.◌∷◌ c p) String.[] = none
strip_prefix (String.◌∷◌ c p) (String.◌∷◌ d s) =
    let rest = strip_prefix p s in
    if String.◌∷◌ c String.[] == String.◌∷◌ d String.[] then rest else none

abbrev trimmed_or : String → Option String → String
trimmed_or s none = s
trimmed_or s (some t) = t

unfoldable pub vm_id_from_provider_ref : String → String → String
vm_id_from_provider_ref name ref = trimmed_or ref (strip_prefix (str_append name ":") ref)

unfoldable pub attempt_state_from_vm_state : VmState → AttemptState
attempt_state_from_vm_state VmState.running = AttemptState.running
attempt_state_from_vm_state VmState.pending = AttemptState.running
attempt_state_from_vm_state VmState.unknown = AttemptState.running
attempt_state_from_vm_state VmState.terminated = AttemptState.canceled
attempt_state_from_vm_state VmState.terminating = AttemptState.canceled
attempt_state_from_vm_state VmState.failed = AttemptState.failed

abbrev wrap_network : Error → Option ProviderErrorKind → Error
wrap_network e (some k) = e
wrap_network e none = provider_of ProviderErrorKind.network (error_text e) e

unfoldable pub normalize_runtime_error : Error → Error
normalize_runtime_error e = wrap_network e (as_provider_error e)

abbrev pub exit_code_of_kind : ProviderErrorKind → ℤ
exit_code_of_kind ProviderErrorKind.invalid_spec = pos 10
exit_code_of_kind ProviderErrorKind.auth = pos 10
exit_code_of_kind ProviderErrorKind.capacity = pos 40
exit_code_of_kind ProviderErrorKind.quota = pos 40
exit_code_of_kind ProviderErrorKind.network = pos 40
exit_code_of_kind ProviderErrorKind.internal = pos 40
exit_code_of_kind _ = pos 1

unfoldable pub exit_code_for_provider_error : Error → ℤ
exit_code_for_provider_error e = exit_code_of_kind (provider_error_kind_of e)

unfoldable pub cleanup_policy : VmRuntimeConfig → ProviderResourceCleanupPolicy
cleanup_policy c =
    if c.terminate_on_completion && not c.keep_instance_on_failure
    then ProviderResourceCleanupPolicy.always
    else if c.terminate_on_completion && c.keep_instance_on_failure
    then ProviderResourceCleanupPolicy.on_success
    else if not c.terminate_on_completion && not c.keep_instance_on_failure
    then ProviderResourceCleanupPolicy.on_failure
    else ProviderResourceCleanupPolicy.never

unfoldable pub should_terminate : VmRuntimeConfig → ℤ → Bool
should_terminate c code =
    if eqb_ℤ code (pos 0) then c.terminate_on_completion else not c.keep_instance_on_failure

abbrev value_or_default : String → String → String
value_or_default value fallback = if value == "" then fallback else value

abbrev entry : String → String → List (String × String)
entry key value = if value == "" then [] else (key, value) ∷ []

-- resourceMetadata: later entries of a key overwrite earlier ones, so they come first
unfoldable pub resource_metadata :
    VmRuntimeConfig → VmInstance → List (String × String) → List (String × String)
resource_metadata c i extra =
    extra
    ++ (entry "zone" i.zone
        ++ (entry "private_ip" i.private_ip
            ++ (entry "native_status" i.native_state
                ++ (("image_id", c.image_id) ∷ ("instance_type", c.instance_type) ∷ []))))

unfoldable pub vm_resource :
    VmRuntimeConfig
    → VmRequest
    → String
    → VmInstance
    → String
    → ProviderResourceState
    → List (String × String)
    → ProviderResource
vm_resource c q name i ref state extra = record {
  id = "";
  run_id = q.run_id;
  attempt_id = q.attempt_id;
  provider = name;
  kind = ProviderResourceKind.instance_kind;
  external_id = i.id;
  provider_ref = ref;
  region = value_or_default i.region c.region;
  project_or_account = c.project_or_account;
  state = state;
  created_by_switchboard = true;
  cleanup_policy = cleanup_policy c;
  metadata = resource_metadata c i extra;
  created_at = none;
  updated_at = none;
  last_observed_at = none;
}

-- a callback, which is told of only where it is not nil
unfoldable pub tell :
    Option (ProviderResource → Option Error)
    → ProviderResource
    → List Call
    → Option Error × List Call
tell none r calls = (none, calls)
tell (some callback) r calls = (callback r, notified r ∷ calls)

abbrev pub failure : ProviderErrorKind → String → String → Result VmInstance
failure kind name message = err (provider kind (str_append name message))

-- One round of waitForRunning: the machine, an error, or `none` to sleep and go on.
unfoldable pub starting_round : String → Result VmInstance → Option (Result VmInstance)
starting_round name (err e) = some (err (normalize_runtime_error e))
starting_round name (ok i) = elim i.state [
  | VmState.running ↦ some (
      if i.public_ip == ""
      then failure ProviderErrorKind.internal name " VM is running but has no public IP"
      else ok i)
  | VmState.pending ↦ none
  | VmState.unknown ↦ none
  | VmState.terminating ↦
      some (failure ProviderErrorKind.runtime name " VM terminated before job startup")
  | VmState.terminated ↦
      some (failure ProviderErrorKind.runtime name " VM terminated before job startup")
  | VmState.failed ↦
      some (failure ProviderErrorKind.runtime name " VM entered failed state before job startup")
]

-- The loop of waitForRunning and of monitorRemote, from round `n` on: a round that does not end it is
-- followed by a sleep, which can fail. `none` means that the fuel ran out.
unfoldable pub poll :
    {A : Type 0} → (ℕ → Option (Result A)) → (ℕ → Option Error) → ℕ → ℕ → Option (Result A)
poll round sleep zero n = none
poll round sleep (suc fuel) n =
    let rest = poll round sleep fuel (n + 1) in
    elim (round n) [
      | some r ↦ some r
      | none ↦ elim (sleep n) [ some e ↦ some (err e) | none ↦ rest ]
    ]

abbrev pub starting : VmCloud → String → ℕ → Option (Result VmInstance)
starting cloud name n = starting_round name (cloud.get_vm_starting n)

unfoldable pub wait_for_running : VmCloud → String → ℕ → Option (Result VmInstance)
wait_for_running cloud name fuel = poll (starting cloud name) cloud.sleep_starting fuel 0

-- parseVMExit, after json.Unmarshal; the default reason of a code other than 0 is `describe`
abbrev with_reason : (ℤ → String) → ℤ × String → ℤ × String
with_reason describe (code, reason) =
    if reason == ""
    then (code, if eqb_ℤ code (pos 0) then "completed" else describe code)
    else (code, reason)

abbrev exit_of : String → (ℤ → String) → Result (ℤ × String) → Result (ℤ × String)
exit_of name describe (ok x) = ok (with_reason describe x)
exit_of name describe (err e) = err (
    provider_of ProviderErrorKind.runtime
      (str_append name (str_append " exit marker was invalid: " (error_text e))) e)

abbrev lost : String → String → Option (Result (ℤ × String))
lost name message = some (err (provider ProviderErrorKind.runtime (str_append name message)))

unfoldable pub machine_round : String → Result VmInstance → Option (Result (ℤ × String))
machine_round name (err e) = some (err (normalize_runtime_error e))
machine_round name (ok i) = elim i.state [
  | VmState.running ↦ none
  | VmState.pending ↦ none
  | VmState.unknown ↦ none
  | VmState.terminating ↦ lost name " VM terminated before writing exit marker"
  | VmState.terminated ↦ lost name " VM terminated before writing exit marker"
  | VmState.failed ↦ lost name " VM entered failed state"
]

-- One round of monitorRemote after the logs and events were copied.
unfoldable pub monitor_round :
    VmCloud → String → (ℤ → String) → ℕ → Result String → Option (Result (ℤ × String))
monitor_round cloud name describe n (err e) = machine_round name (cloud.get_vm_running n)
monitor_round cloud name describe n (ok content) =
    if cloud.is_blank content
    then machine_round name (cloud.get_vm_running n)
    else some (exit_of name describe (cloud.unmarshal_exit content))

abbrev pub monitoring : VmCloud → String → (ℤ → String) → ℕ → Option (Result (ℤ × String))
monitoring cloud name describe n = monitor_round cloud name describe n (cloud.read_exit n)

unfoldable pub monitor_remote : VmCloud → String → (ℤ → String) → ℕ → Option (Result (ℤ × String))
monitor_remote cloud name describe fuel =
    poll (monitoring cloud name describe) cloud.sleep_running fuel 0
