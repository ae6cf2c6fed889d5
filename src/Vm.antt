-- ===== src/Vm.antt =====
-- internal/provider/chinacloud/vm_runtime.go: a job on a virtual machine of a cloud.
pub mod Types
pub mod Runtime
pub mod Submit
pub mod Disposal
pub mod Return
pub mod Codes
mod Tests
