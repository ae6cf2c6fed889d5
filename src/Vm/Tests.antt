-- ===== src/Vm/Tests.antt =====
-- A machine that starts in the second round and a job that ends in the second.
use orchestrator_cli.Common.{
  String, true, false, ◌≡◌, refl, inl, inr, none, some, arith, if◌then◌else◌, ltb,
}
use orchestrator_cli.Common.Int.{ℤ, pos}
use orchestrator_cli.App.Errors.{ok, err, plain}
use orchestrator_cli.Vm.Types.{VmState, VmInstance, VmRuntimeConfig, VmCloud, VmRequest}
use orchestrator_cli.Vm.Runtime.{
  starting_round, monitor_round, machine_round, poll, wait_for_running, monitor_remote, tell,
  should_terminate,
}
use orchestrator_cli.Vm.Submit.{
  Outcome, submit, after_create, after_start, after_ready, after_monitor, conclude,
}
use orchestrator_cli.Vm.Disposal.{Disposed, submit-Disposed}
use orchestrator_cli.Vm.Return.{WaitEnds, WatchEnds, submit-returns}
use orchestrator_cli.Vm.Codes.{vm_id-of_ref, exit_code-retryable}
use orchestrator_cli.Vm.Runtime.{
  vm_provider_ref, vm_id_from_provider_ref, exit_code_for_provider_error, normalize_runtime_error,
}
use orchestrator_cli.Common.{◌↔◌}
use orchestrator_cli.App.Errors.{is_retryable_provider_error}

abbrev machine : VmInstance
machine = record {
  id = "i-1";
  state = VmState.running;
  native_state = "Running";
  public_ip = "192.0.2.1";
  private_ip = "";
  region = "cn-hangzhou";
  zone = "";
}

abbrev demo_cloud : VmCloud
demo_cloud = record {
  create_vm = ok machine;
  get_vm_starting =
      λ n. ok (if ltb n 1 then (record machine { state = VmState.pending }) else machine);
  sleep_starting = λ n. none;
  wait_for_ready = none;
  read_exit = λ n. if ltb n 1 then err (plain "no such file") else ok "marker";
  unmarshal_exit = λ s. ok (pos 0, "");
  is_blank = λ s. false;
  get_vm_running = λ n. ok machine;
  sleep_running = λ n. none;
  terminate_vm = λ id. none;
}

abbrev demo_vm_config : VmRuntimeConfig
demo_vm_config = record {
  region = "cn-hangzhou";
  instance_type = "gn7";
  image_id = "img";
  project_or_account = "";
  terminate_on_completion = true;
  keep_instance_on_failure = false;
}

abbrev demo_request : VmRequest
demo_request = record {
  run_id = "r_1";
  attempt_id = "a_1";
  on_started = some (λ ref. none);
  on_resource_created = some (λ r. none);
  on_resource_updated = some (λ r. none);
}

abbrev same : String → String
same s = s

abbrev code_text : ℤ → String
code_text n = "container exited"

demo_ends :
    (x : Outcome) × (submit demo_cloud demo_vm_config demo_request "alibaba" same code_text 2
      ≡ some x)
unfolding submit after_create after_start after_ready after_monitor wait_for_running monitor_remote
    poll starting_round monitor_round machine_round tell conclude should_terminate
demo_ends = (_, refl)

submit-Disposed_example : Disposed demo_vm_config demo_request "i-1" demo_ends.0
submit-Disposed_example =
    submit-Disposed demo_cloud demo_vm_config demo_request "alibaba" same code_text 2 machine
      demo_ends.0 refl (λ e. cc) demo_ends.1

demo_starts : WaitEnds demo_cloud 1
demo_starts = inr (inr (machine, refl, inl refl))

demo_ending : WatchEnds demo_cloud 1
demo_ending = inr (inl ("marker", refl, refl))

submit-returns_example :
    (x : Outcome) × (submit demo_cloud demo_vm_config demo_request "alibaba" same code_text 2
      ≡ some x)
submit-returns_example =
    submit-returns demo_cloud demo_vm_config demo_request "alibaba" same code_text 2 1 1
      (omega arith) (omega arith) demo_starts demo_ending

vm_id-of_ref_example : vm_id_from_provider_ref "alibaba" (vm_provider_ref "alibaba" "i-1") ≡ "i-1"
vm_id-of_ref_example = vm_id-of_ref "alibaba" "i-1"

exit_code-retryable_example :
    (exit_code_for_provider_error (normalize_runtime_error (plain "timeout")) ≡ pos 40)
    ↔ (is_retryable_provider_error (normalize_runtime_error (plain "timeout")) ≡ true)
exit_code-retryable_example = exit_code-retryable (plain "timeout")
