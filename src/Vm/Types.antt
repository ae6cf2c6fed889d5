-- ===== src/Vm/Types.antt =====
-- The states, the configuration and the clients of internal/provider/chinacloud/vm_runtime.go.
use orchestrator_cli.Common.{ℕ, String, Bool, Option}
use orchestrator_cli.Common.Int.{ℤ}
use orchestrator_cli.App.Runs.{ProviderResource}
use orchestrator_cli.App.Errors.{Error, Result}

pub data VmState : Type 0 where
  pending running terminating terminated failed unknown : VmState

pub record VmInstance : Type 0 where
  pub id : String
  pub state : VmState
  pub native_state : String
  pub public_ip : String
  pub private_ip : String
  pub region : String
  pub zone : String

-- the fields of VMRuntimeConfig that the life of a machine depends on
pub record VmRuntimeConfig : Type 0 where
  pub region : String
  pub instance_type : String
  pub image_id : String
  pub project_or_account : String
  pub terminate_on_completion : Bool
  pub keep_instance_on_failure : Bool

-- The cloud, the ssh session and the clock during one Submit, by what they answer. GetVM, the read of
-- the exit marker, what json.Unmarshal makes of it, and the sleep are asked again and again and are
-- numbered by the round of the loop.
pub record VmCloud : Type 0 where
  pub create_vm : Result VmInstance
  pub get_vm_starting : ℕ → Result VmInstance
  pub sleep_starting : ℕ → Option Error
  pub wait_for_ready : Option Error
  pub read_exit : ℕ → Result String
  pub unmarshal_exit : String → Result (ℤ × String)
  pub is_blank : String → Bool
  pub get_vm_running : ℕ → Result VmInstance
  pub sleep_running : ℕ → Option Error
  pub terminate_vm : String → Option Error

-- The callbacks of the request; `none` is a nil callback.
pub record VmRequest : Type 0 where
  pub run_id : String
  pub attempt_id : String
  pub on_started : Option (String → Option Error)
  pub on_resource_created : Option (ProviderResource → Option Error)
  pub on_resource_updated : Option (ProviderResource → Option Error)

-- What a Submit has asked of the cloud and told its caller, the latest first.
pub data Call : Type 0 where
  created : String → Call
  terminated : String → Call
  notified : ProviderResource → Call
  started : String → Call
