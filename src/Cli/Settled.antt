-- ===== src/Cli/Settled.antt =====
-- Which actions of an attempt in internal/cli/root.go fail only where the run is settled, and how the
-- exit of an attempt is followed through a sequence of actions.
use orchestrator_cli.Common.{
  ℕ, String, true, ◌≡◌, refl, ap, ◌⊎◌, inl, inr, some, Bool-cases, Option-cases,
}
use orchestrator_cli.Common.Int.{ℤ}
use orchestrator_cli.App.{CostEstimate}
use orchestrator_cli.App.Runs.{Run, Attempt, AttemptState}
use orchestrator_cli.App.Errors.{Error, Result, ok, err}
use orchestrator_cli.State.World.{World, Platform}
use orchestrator_cli.State.Action.{Action, ◌>>=◌, continue, statement, ignore}
use orchestrator_cli.State.Passes.{Passes, bind-Passes, get_routing_decision-Passes}
use orchestrator_cli.State.Decisions.{DecisionJson, get_routing_decision}
use orchestrator_cli.State.Tables.{
  find_run, get_run, read_run, finish_attempt, update_attempt, update_attempt_estimate,
  attempts_by_run, create_attempt, has_attempt,
}
use orchestrator_cli.State.Settled.{
  row_running, Settled, Stays, Stays-IsStep, Settles, Firm, bind-Firm, give-Firm, ignore-Firm,
  attempt_of-Firm, statement-Firm, statement-Stays,
}
use orchestrator_cli.Cli.Types.{
  Submission, finished, on_started, on_resource, attempt_canceled, run_canceled, AttemptExit,
}
use orchestrator_cli.Cli.Persist.{ResourceIds, error_of, ids_of, run_submission}

module _ {F : Type 0} (id : String) where
  update_attempt-Firm : (x : String) (g : Attempt F → Attempt F) → Firm id (update_attempt x g)
  unfolding update_attempt
  update_attempt-Firm x g =
      bind-Firm id (statement-Firm id) (λ a. record { firm = λ w e k. absurd (cc k) })

  pub finish_attempt-Firm :
      (x : String) (state : AttemptState) (code : ℤ) (m ref : String) (t : ℕ)
      → Firm id (finish_attempt {F = F} x state code m ref t)
  unfolding finish_attempt
  finish_attempt-Firm x state code m ref t = update_attempt-Firm x _

  pub update_attempt_estimate-Firm :
      (x : String) (e : CostEstimate F) → Firm id (update_attempt_estimate x e)
  unfolding update_attempt_estimate
  update_attempt_estimate-Firm x e = update_attempt-Firm x _

  pub create_attempt-Firm : (p : Platform) (a : Attempt F) → Firm id (create_attempt p a)
  unfolding create_attempt
  create_attempt-Firm p a = bind-Firm id (statement-Firm id) (λ x. record {
    firm = λ w e. elim (Bool-cases (has_attempt a.id w.attempts)) [
      | inl k ↦ rw k (λ q. inl refl)
      | inr k ↦ rw k (λ q. absurd (cc q))
    ];
  })

  pub run_submission-Firm :
      (p : Platform) (redact : String → String) (run_id x : String) (ids : ResourceIds)
      (m : Submission)
      → Firm id (run_submission {F = F} p redact run_id x ids m)
  unfolding run_submission
  run_submission-Firm p redact run_id x ids (finished result e) = give-Firm id _
  run_submission-Firm p redact run_id x ids (on_started ref k) =
      bind-Firm id (attempt_of-Firm id _)
        (λ r. run_submission-Firm p redact run_id x ids (k (error_of r)))
  run_submission-Firm p redact run_id x ids (on_resource resource k) =
      bind-Firm id (attempt_of-Firm id _)
        (λ r. run_submission-Firm p redact run_id x (ids_of ids r) (k (error_of r)))
  run_submission-Firm p redact run_id x ids (attempt_canceled ref t rest) =
      bind-Firm id (ignore-Firm id _) (λ r. run_submission-Firm p redact run_id x ids rest)
  run_submission-Firm p redact run_id x ids (run_canceled t rest) =
      bind-Firm id (ignore-Firm id _) (λ r. run_submission-Firm p redact run_id x ids rest)

  pub get_run-Stays : (x : String) → Passes (Stays id) (get_run {F = F} x)
  unfolding get_run
  get_run-Stays x = bind-Passes (Stays-IsStep id) (statement-Stays id) (λ a. record {
    leads = λ w. elim (Option-cases (find_run x w.runs)) [
      | inl e ↦ rw e (λ h. h)
      | inr (r, e) ↦ rw e (λ h. h)
    ];
  })

  pub get_routing_decision-Stays :
      (j : DecisionJson F) (x : String) → Passes (Stays id) (get_routing_decision j x)
  get_routing_decision-Stays = get_routing_decision-Passes (Stays-IsStep id) (statement-Stays id)

  pub attempts_by_run-Stays :
      (p : Platform) (x : String) → Passes (Stays id) (attempts_by_run {F = F} p x)
  unfolding attempts_by_run
  attempts_by_run-Stays p x =
      bind-Passes (Stays-IsStep id) (statement-Stays id) (λ a. record { leads = λ w h. h })

  pub ignore-Settles : {A : Type 0} {m : Action F A} → Settles id m → Settles id (ignore m)
  unfolding ignore
  ignore-Settles h = record { settled = h.settled }

  -- the exit of an attempt: it is to be retried, or the run is settled
  abbrev pub Good : Result AttemptExit × World F → Type 0
  Good (ok x, w) = ((e : Error) × (x.error ≡ some e) × (x.retryable ≡ true)) ⊎ Settled id w
  Good (err e, w) = Settled id w

  pub record Ends (m : Action F AttemptExit) : Type 0 where
    pub good : (w : World F) → Good (m w)

  pub Ends-of_Settles : {m : Action F AttemptExit} → Settles id m → Ends m
  Ends-of_Settles {m = m} h = record { good = λ w. go (m w) (h.settled w) }
    where
      go : (r : Result AttemptExit × World F) → Settled id r.1 → Good r
      go (ok x, w) s = inr s
      go (err e, w) s = s

  pub bind-Ends :
      {A : Type 0} {m : Action F A} {k : A → Action F AttemptExit}
      → Firm id m
      → ((a : A) → Ends (k a))
      → Ends (m >>= k)
  unfolding ◌>>=◌
  bind-Ends {A = A} {m = m} {k = k} h g = record { good = λ w. go (m w) (h.firm w) }
    where
      go :
          (r : Result A × World F)
          → ((e : Error) → r.0 ≡ err e → Settled id r.1)
          → Good (continue k r)
      go (ok a, w) f = (g a).good w
      go (err e, w) f = f e refl

  -- what follows a read of the run may use the row
  pub read-Ends :
      (k : Run → Action F AttemptExit)
      → ((r : Run) (w : World F) → find_run id w.runs ≡ some r → Good (k r w))
      → Ends (get_run id >>= k)
  unfolding get_run ◌>>=◌
  read-Ends k h = record { good = λ w. go (statement w) ((statement-Firm id).firm w) }
    where
      found : (w : World F) → Good (continue k (read_run id (find_run id w.runs) w))
      found w = elim (Option-cases (find_run id w.runs)) [
        | inl e ↦ rw e (inr (ap row_running e))
        | inr (r, e) ↦ rw e (h r w e)
      ]

      go :
          (r : Result (Unit {0}) × World F)
          → ((e : Error) → r.0 ≡ err e → Settled id r.1)
          → Good (continue k (continue (λ a w. read_run id (find_run id w.runs) w) r))
      go (ok a, w) f = found w
      go (err e, w) f = f e refl
