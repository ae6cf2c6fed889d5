-- ===== src/Vm/Disposal.antt =====
-- That a Submit of internal/provider/chinacloud/vm_runtime.go leaves no machine behind unasked.
use mathlib.Core.List.{Memᴰ}
use mathlib.Core.Path.{subst}
use orchestrator_cli.Common.{
  ℕ, String, Bool, true, false, ◌≡◌, ◌≢◌, refl, sym, ap, ◌∙◌, ◌==◌, eq_iff, ◌⊎◌, inl, inr, Option,
  none, some, List, [], Bool-cases, Option-cases,
}
use orchestrator_cli.Common.Int.{ℤ}
use orchestrator_cli.App.Runs.{ProviderResource}
use orchestrator_cli.App.Errors.{Error, Result, ok, err}
use orchestrator_cli.Cli.Types.{SubmitResult}
use orchestrator_cli.Vm.Types.{VmInstance, VmRuntimeConfig, VmCloud, VmRequest, Call, terminated}
use orchestrator_cli.Vm.Runtime.{should_terminate, tell, monitor_remote}
use orchestrator_cli.Vm.Submit.{
  Outcome, conclude, failure_result, on_failure, finish_terminated, told_running, after_started,
  after_booting, after_monitor, after_ready, after_start, after_create, submit,
}

-- the update callback answered with this error
pub record Refused (q : VmRequest) (e : Error) : Type 0 where
  pub callback : ProviderResource → Option Error
  pub resource : ProviderResource
  pub given : q.on_resource_updated ≡ some callback
  pub answered : callback resource ≡ some e

-- Why a machine may be left: after a success, the configuration says so for the exit code; after an
-- error, the configuration keeps machines, or the update callback answered with that error.
abbrev pub MayStay : VmRuntimeConfig → VmRequest → Outcome → Type 0
MayStay c q ((r, none), calls) = should_terminate c r.exit_code ≡ false
MayStay c q ((r, some e), calls) = (c.keep_instance_on_failure ≡ true) ⊎ Refused q e

abbrev pub Disposed : VmRuntimeConfig → VmRequest → String → Outcome → Type 0
Disposed c q id x = Memᴰ (terminated id) x.1 ⊎ MayStay c q x

abbrev Ends : VmRuntimeConfig → VmRequest → String → Option Outcome → Type 0
Ends c q id none = Unit {0}
Ends c q id (some x) = Disposed c q id x

mem-tell :
    (callback : Option (ProviderResource → Option Error)) (r : ProviderResource) (calls : List Call)
    {a : Call}
    → Memᴰ a calls
    → Memᴰ a (tell callback r calls).1
unfolding tell
mem-tell none r calls m = m
mem-tell (some callback) r calls m = Memᴰ.tail m

tell-Refused :
    (q : VmRequest) (callback : Option (ProviderResource → Option Error)) (r : ProviderResource)
    (calls : List Call) (e : Error)
    → q.on_resource_updated ≡ callback
    → (tell callback r calls).0 ≡ some e
    → Refused q e
unfolding tell
tell-Refused q none r calls e h k = absurd (cc k)
tell-Refused q (some callback) r calls e h k = record {
  callback = callback;
  resource = r;
  given = h;
  answered = k;
}

mem-conclude :
    (ref : String) (x : SubmitResult × Option Error) (text : Error → String)
    (p : Option Error × List Call) {a : Call}
    → Memᴰ a p.1
    → Memᴰ a (conclude ref x text p).1
unfolding conclude
mem-conclude ref x text (none, calls) m = m
mem-conclude ref x text (some e, calls) m = m

module _ (cloud : VmCloud) (c : VmRuntimeConfig) (q : VmRequest) (name : String)
    (redact : String → String) (describe : ℤ → String) where
  conclude-kept :
      (id ref : String) (x : SubmitResult × Option Error) (text : Error → String)
      (p : Option Error × List Call)
      → MayStay c q (x, [])
      → ((e : Error) → p.0 ≡ some e → Refused q e)
      → Disposed c q id (conclude ref x text p)
  unfolding conclude
  conclude-kept id ref (r, none) text (none, calls) h k = inr h
  conclude-kept id ref (r, some e) text (none, calls) h k = inr h
  conclude-kept id ref x text (some e, calls) h k = inr (inr (k e refl))

  on_failure-Disposed :
      (keep : Bool) (id : String) (e : Error) (calls : List Call)
      → c.keep_instance_on_failure ≡ keep
      → Disposed c q id (on_failure cloud c q name redact describe keep id e calls)
  on_failure-Disposed true id e calls k =
      conclude-kept id _ _ _ _ (inl k) (λ x. tell-Refused q q.on_resource_updated _ calls x refl)
  on_failure-Disposed false id e calls k = elim (Option-cases (cloud.terminate_vm id)) [
    | inl t ↦
        rw t (inl (mem-conclude _ _ _ _ (mem-tell q.on_resource_updated _ _ (Memᴰ.head refl))))
    | inr (x, t) ↦
        rw t (inl (mem-conclude _ _ _ _ (mem-tell q.on_resource_updated _ _ (Memᴰ.head refl))))
  ]

  failure_result-Disposed :
      (id : String) (e : Error) (calls : List Call)
      → Disposed c q id (failure_result cloud c q name redact describe id e calls)
  unfolding failure_result
  failure_result-Disposed id e calls =
      on_failure-Disposed c.keep_instance_on_failure id _ calls refl

  finish_terminated-Disposed :
      (id ref : String) (i : VmInstance) (code : ℤ) (reason : String) (e : Option Error)
      (calls : List Call)
      → Memᴰ (terminated id) calls
      → Disposed c q id (finish_terminated cloud c q name redact describe ref i code reason e calls)
  finish_terminated-Disposed id ref i code reason none calls m =
      inl (mem-conclude _ _ _ _ (mem-tell q.on_resource_updated _ _ m))
  finish_terminated-Disposed id ref i code reason (some e) calls m =
      inl (mem-conclude _ _ _ _ (mem-tell q.on_resource_updated _ _ m))

  after_monitor-Disposed :
      (id ref : String) (i : VmInstance) (r : Result (ℤ × String)) (calls : List Call)
      → Disposed c q id (after_monitor cloud c q name redact describe id ref i r calls)
  unfolding after_monitor
  after_monitor-Disposed id ref i (err e) calls = failure_result-Disposed id e calls
  after_monitor-Disposed id ref i (ok (code, reason)) calls =
      elim (Bool-cases (should_terminate c code)) [
        | inl t ↦ rw t (finish_terminated-Disposed id ref i code reason _ _ (Memᴰ.head refl))
        | inr t ↦
            rw t (
              conclude-kept id _ _ _ _ t (λ x. tell-Refused q q.on_resource_updated _ calls x refl))
      ]

  after_ready-Ends :
      (fuel : ℕ) (id ref : String) (i : VmInstance) (e : Option Error) (calls : List Call)
      → Ends c q id (after_ready cloud c q name redact describe fuel id ref i e calls)
  unfolding after_ready
  after_ready-Ends fuel id ref i (some e) calls = failure_result-Disposed id _ calls
  after_ready-Ends fuel id ref i none calls =
      elim (Option-cases (monitor_remote cloud name describe fuel)) [
        | inl k ↦ rw k tt
        | inr (r, k) ↦ rw k (after_monitor-Disposed id ref i r calls)
      ]

  told_running-Ends :
      (fuel : ℕ) (id ref : String) (i : VmInstance) (p : Option Error × List Call)
      → ((e : Error) → p.0 ≡ some e → Refused q e)
      → Ends c q id (told_running cloud c q name redact describe fuel id ref i p)
  told_running-Ends fuel id ref i (some e, calls) h = inr (inr (h e refl))
  told_running-Ends fuel id ref i (none, calls) h = after_ready-Ends fuel id ref i _ calls

  after_start-Ends :
      (fuel : ℕ) (id ref : String) (r : Option (Result VmInstance)) (calls : List Call)
      → Ends c q id (after_start cloud c q name redact describe fuel id ref r calls)
  unfolding after_start
  after_start-Ends fuel id ref none calls = tt
  after_start-Ends fuel id ref (some (err e)) calls = failure_result-Disposed id e calls
  after_start-Ends fuel id ref (some (ok i)) calls =
      told_running-Ends fuel id ref i _ (λ x. tell-Refused q q.on_resource_updated _ calls x refl)

  after_started-Ends :
      (fuel : ℕ) (id ref : String) (p : Option Error × List Call)
      → Ends c q id (after_started cloud c q name redact describe fuel id ref p)
  after_started-Ends fuel id ref (some e, calls) = inl (Memᴰ.head refl)
  after_started-Ends fuel id ref (none, calls) = after_start-Ends fuel id ref _ calls

  after_booting-Ends :
      (fuel : ℕ) (id ref : String) (p : Option Error × List Call)
      → Ends c q id (after_booting cloud c q name redact describe fuel id ref p)
  after_booting-Ends fuel id ref (some e, calls) = inl (Memᴰ.head refl)
  after_booting-Ends fuel id ref (none, calls) = after_started-Ends fuel id ref _

  after_create-Ends :
      (fuel : ℕ) (i : VmInstance)
      → i.id ≢ ""
      → Ends c q i.id (after_create cloud c q name redact describe fuel (ok i))
  unfolding after_create
  after_create-Ends fuel i h = elim (Bool-cases (i.id == "")) [
    | inl k ↦ absurd (h ((eq_iff i.id "").0 k))
    | inr k ↦ rw k (after_booting-Ends fuel i.id _ _)
  ]

  -- When the cloud has created a machine with an id and Submit ends, Submit asked the cloud to
  -- terminate that machine, unless the configuration keeps it: after a success, for its exit code;
  -- after an error, because it keeps failed machines. The one exception is an error of the update
  -- callback, which Submit returns.
  pub submit-Disposed :
      (fuel : ℕ) (i : VmInstance) (x : Outcome)
      → cloud.create_vm ≡ ok i
      → i.id ≢ ""
      → submit cloud c q name redact describe fuel ≡ some x
      → Disposed c q i.id x
  unfolding submit
  submit-Disposed fuel i x e h k =
      subst (Ends c q i.id) (ap (after_create cloud c q name redact describe fuel) (sym e) ∙ k)
        (after_create-Ends fuel i h)
