-- ===== src/Vm/Return.antt =====
-- That a Submit of internal/provider/chinacloud/vm_runtime.go ends.
use mathlib.Core.Path.{subst}
use orchestrator_cli.Common.{
  false, ℕ, zero, suc, ◌+◌, ◌<◌, String, ◌≡◌, ◌≢◌, refl, ◌==◌, arith, ◌⊎◌, inl, inr, Option, none,
  some, List, Bool-cases, Option-cases,
}
use orchestrator_cli.Common.Int.{ℤ}
use orchestrator_cli.App.Errors.{Error, Result, ok, err}
use orchestrator_cli.Vm.Types.{VmState, VmInstance, VmRuntimeConfig, VmCloud, VmRequest, Call}
use orchestrator_cli.Vm.Runtime.{
  poll, starting, monitoring, starting_round, monitor_round, machine_round, wait_for_running,
  monitor_remote,
}
use orchestrator_cli.Vm.Submit.{
  Outcome, after_ready, after_start, after_create, submit, told_running, after_started,
  after_booting, notify_started,
}

-- round `k` or the sleep after it ends the loop
abbrev pub Stops : {A : Type 0} → (ℕ → Option (Result A)) → (ℕ → Option Error) → ℕ → Type 0
Stops round sleep k = (round k ≢ none) ⊎ (sleep k ≢ none)

module _ {A : Type 0} (round : ℕ → Option (Result A)) (sleep : ℕ → Option Error) where
  poll-returns :
      (j fuel n : ℕ)
      → j < fuel
      → Stops round sleep (n + j)
      → (r : Result A) × (poll round sleep fuel n ≡ some r)
  unfolding poll
  poll-returns j zero n h stops = absurd (omega arith)
  poll-returns j (suc fuel) n h stops = elim (Option-cases (round n)) [
    | inr (r, e) ↦ rw (e, poll) (r, refl)
    | inl e ↦ elim (Option-cases (sleep n)) [
      | inr (x, k) ↦ rw (e, k, poll) (err x, refl)
      | inl k ↦
          rw (e, k, poll) (later j h stops e k (λ i g more. poll-returns i fuel (n + 1) g more))
    ]
  ]
    where
      later :
          (j : ℕ)
          → j < suc fuel
          → Stops round sleep (n + j)
          → round n ≡ none
          → sleep n ≡ none
          → ((i : ℕ)
              → i < fuel
              → Stops round sleep (n + 1 + i)
              → (r : Result A) × (poll round sleep fuel (n + 1) ≡ some r))
          → (r : Result A) × (poll round sleep fuel (n + 1) ≡ some r)
      later zero h stops e k again =
          let here : Stops round sleep n = subst (Stops round sleep) (omega arith) stops in
          elim here [ inl x ↦ absurd (x e) | inr x ↦ absurd (x k) ]
      later (suc j) h stops e k again =
          again j (omega arith) (subst (Stops round sleep) (omega arith) stops)

-- a machine that will not run any more
abbrev pub IsGone : VmInstance → Type 0
IsGone i =
    (i.state ≡ VmState.terminating) ⊎ (i.state ≡ VmState.terminated) ⊎ (i.state ≡ VmState.failed)

-- what the cloud answers ends the wait for the machine: an error, or a machine that runs or is gone
abbrev pub EndsWait : Result VmInstance → Type 0
EndsWait r =
    ((e : Error) × (r ≡ err e))
    ⊎ ((i : VmInstance) × (r ≡ ok i) × ((i.state ≡ VmState.running) ⊎ IsGone i))

-- what the cloud answers ends the watch of the job: an error, or a machine that is gone
abbrev pub IsLost : Result VmInstance → Type 0
IsLost r = ((e : Error) × (r ≡ err e)) ⊎ ((i : VmInstance) × (r ≡ ok i) × IsGone i)

-- the `k`-th sleep of the wait fails, or the `k`-th answer of the cloud ends the wait
abbrev pub WaitEnds : VmCloud → ℕ → Type 0
WaitEnds cloud k = (cloud.sleep_starting k ≢ none) ⊎ EndsWait (cloud.get_vm_starting k)

-- the `k`-th sleep of the watch fails, the `k`-th read of the exit marker finds a text that is not
-- blank, or the `k`-th answer of the cloud ends the watch
abbrev pub WatchEnds : VmCloud → ℕ → Type 0
WatchEnds cloud k =
    (cloud.sleep_running k ≢ none)
    ⊎ ((content : String) × (cloud.read_exit k ≡ ok content) × (cloud.is_blank content ≡ false))
    ⊎ IsLost (cloud.get_vm_running k)

starting_round-ends :
    (name : String) (r : Result VmInstance)
    → EndsWait r
    → (x : Result VmInstance) × (starting_round name r ≡ some x)
unfolding starting_round
starting_round-ends name r (inl (e, h)) = rw h (_, refl)
starting_round-ends name r (inr (i, h, inl s)) = rw (h, s) (_, refl)
starting_round-ends name r (inr (i, h, inr (inl s))) = rw (h, s) (_, refl)
starting_round-ends name r (inr (i, h, inr (inr (inl s)))) = rw (h, s) (_, refl)
starting_round-ends name r (inr (i, h, inr (inr (inr s)))) = rw (h, s) (_, refl)

machine_round-ends :
    (name : String) (r : Result VmInstance)
    → IsLost r
    → (x : Result (ℤ × String)) × (machine_round name r ≡ some x)
unfolding machine_round
machine_round-ends name r (inl (e, h)) = rw h (_, refl)
machine_round-ends name r (inr (i, h, inl s)) = rw (h, s) (_, refl)
machine_round-ends name r (inr (i, h, inr (inl s))) = rw (h, s) (_, refl)
machine_round-ends name r (inr (i, h, inr (inr s))) = rw (h, s) (_, refl)

is_not_none : {A : Type 0} (o : Option A) → (x : A) × (o ≡ some x) → o ≢ none
is_not_none o (x, e) h = absurd (cc (e, h))

wait-Stops :
    (cloud : VmCloud) (name : String) (k : ℕ)
    → WaitEnds cloud k
    → Stops (starting cloud name) cloud.sleep_starting k
wait-Stops cloud name k (inl h) = inr h
wait-Stops cloud name k (inr h) = inl (is_not_none _ (starting_round-ends name _ h))

monitor_round-ends :
    (cloud : VmCloud) (name : String) (describe : ℤ → String) (k : ℕ)
    → IsLost (cloud.get_vm_running k)
    → (r : Result String)
    → (x : Result (ℤ × String)) × (monitor_round cloud name describe k r ≡ some x)
unfolding monitor_round
monitor_round-ends cloud name describe k h (err e) = machine_round-ends name _ h
monitor_round-ends cloud name describe k h (ok content) =
    elim (Bool-cases (cloud.is_blank content)) [
      | inl e ↦ rw e (machine_round-ends name _ h)
      | inr e ↦ rw e (_, refl)
    ]

monitor_round-exits :
    (cloud : VmCloud) (name : String) (describe : ℤ → String) (k : ℕ) (content : String)
    → cloud.is_blank content ≡ false
    → (x : Result (ℤ × String)) × (monitor_round cloud name describe k (ok content) ≡ some x)
unfolding monitor_round
monitor_round-exits cloud name describe k content h = rw h (_, refl)

watch-Stops :
    (cloud : VmCloud) (name : String) (describe : ℤ → String) (k : ℕ)
    → WatchEnds cloud k
    → Stops (monitoring cloud name describe) cloud.sleep_running k
watch-Stops cloud name describe k (inl h) = inr h
watch-Stops cloud name describe k (inr (inl (content, e, h))) =
    inl (is_not_none _ (rw e (monitor_round-exits cloud name describe k content h)))
watch-Stops cloud name describe k (inr (inr h)) =
    inl (is_not_none _ (monitor_round-ends cloud name describe k h (cloud.read_exit k)))

module _ (cloud : VmCloud) (c : VmRuntimeConfig) (q : VmRequest) (name : String)
    (redact : String → String) (describe : ℤ → String) where
  abbrev HasEnd : Option Outcome → Type 0
  HasEnd o = (x : Outcome) × (o ≡ some x)

  after_ready-returns :
      (fuel : ℕ) (id ref : String) (i : VmInstance) (e : Option Error) (calls : List Call)
      → (r : Result (ℤ × String)) × (monitor_remote cloud name describe fuel ≡ some r)
      → HasEnd (after_ready cloud c q name redact describe fuel id ref i e calls)
  unfolding after_ready
  after_ready-returns fuel id ref i (some e) calls m = (_, refl)
  after_ready-returns fuel id ref i none calls (r, k) = rw k (_, refl)

  after_start-returns :
      (fuel : ℕ) (id ref : String) (w : Option (Result VmInstance)) (calls : List Call)
      → (r : Result VmInstance) × (w ≡ some r)
      → (r : Result (ℤ × String)) × (monitor_remote cloud name describe fuel ≡ some r)
      → HasEnd (after_start cloud c q name redact describe fuel id ref w calls)
  unfolding after_start
  after_start-returns fuel id ref none calls (r, k) m = absurd (cc k)
  after_start-returns fuel id ref (some (err e)) calls k m = (_, refl)
  after_start-returns fuel id ref (some (ok i)) calls k m = running _
    where
      running :
          (p : Option Error × List Call)
          → HasEnd (told_running cloud c q name redact describe fuel id ref i p)
      running (some e, l) = (_, refl)
      running (none, l) = after_ready-returns fuel id ref i cloud.wait_for_ready l m

  after_booting-returns :
      (fuel : ℕ) (id ref : String) (p : Option Error × List Call)
      → (r : Result VmInstance) × (wait_for_running cloud name fuel ≡ some r)
      → (r : Result (ℤ × String)) × (monitor_remote cloud name describe fuel ≡ some r)
      → HasEnd (after_booting cloud c q name redact describe fuel id ref p)
  after_booting-returns fuel id ref (some e, calls) w m = (_, refl)
  after_booting-returns fuel id ref (none, calls) w m =
      began (notify_started cloud c q name redact describe ref calls)
    where
      began :
          (p : Option Error × List Call)
          → HasEnd (after_started cloud c q name redact describe fuel id ref p)
      began (some e, l) = (_, refl)
      began (none, l) = after_start-returns fuel id ref (wait_for_running cloud name fuel) l w m

  after_create-returns :
      (fuel : ℕ) (r : Result VmInstance)
      → (r : Result VmInstance) × (wait_for_running cloud name fuel ≡ some r)
      → (r : Result (ℤ × String)) × (monitor_remote cloud name describe fuel ≡ some r)
      → HasEnd (after_create cloud c q name redact describe fuel r)
  unfolding after_create
  after_create-returns fuel (err e) w m = (_, refl)
  after_create-returns fuel (ok i) w m = elim (Bool-cases (i.id == "")) [
    | inl k ↦ rw k (_, refl)
    | inr k ↦ rw k (after_booting-returns fuel i.id _ _ w m)
  ]

  -- Submit ends within the fuel when, before it runs out, the wait for the machine meets a failing
  -- sleep, an error of GetVM, or a machine that runs, is terminating, terminated or failed; and the
  -- watch of the job meets a failing sleep, an exit marker that is not blank, an error of GetVM, or a
  -- machine that is terminating, terminated or failed.
  pub submit-returns :
      (fuel j k : ℕ)
      → j < fuel
      → k < fuel
      → WaitEnds cloud j
      → WatchEnds cloud k
      → (x : Outcome) × (submit cloud c q name redact describe fuel ≡ some x)
  unfolding submit wait_for_running monitor_remote
  submit-returns fuel j k h l starts ends =
      after_create-returns fuel cloud.create_vm
        (poll-returns (starting cloud name) cloud.sleep_starting j fuel 0 h (
          subst (Stops (starting cloud name) cloud.sleep_starting) (omega arith)
            (wait-Stops cloud name j starts)))
        (poll-returns (monitoring cloud name describe) cloud.sleep_running k fuel 0 l (
          subst (Stops (monitoring cloud name describe) cloud.sleep_running) (omega arith)
            (watch-Stops cloud name describe k ends)))
