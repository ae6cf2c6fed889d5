-- ===== src/Cli/Canceled.antt =====
-- What the command `cancel` leaves.
use orchestrator_cli.Common.{
  ℕ, List-cases, false, String, Option, none, some, ◌≡◌, refl, sym, ◌∙◌, ap, inl, inr, Bool-cases,
  ◌==◌,
}
use orchestrator_cli.Common.Int.{ℤ}
use orchestrator_cli.Common.Float.{Float64}
use orchestrator_cli.App.Runs.{Run, RunState, Attempt}
use orchestrator_cli.App.Errors.{Error, ok}
use orchestrator_cli.State.World.{World}
use orchestrator_cli.State.Action.{now, statement, asks, attempt_of}
use orchestrator_cli.State.Settled.{is_running, row_running, still_running, row_running_of_update}
use orchestrator_cli.State.Tables.{
  finish_run, finish_attempt, get_run, read_run, find_run, attempts_by_run,
}
use orchestrator_cli.State.Resources.{provider_resources}
use orchestrator_cli.Cli.Types.{Surroundings}
use orchestrator_cli.Cli.Attempt.{write_summary}
use orchestrator_cli.Cli.Cleanup.{AdapterCalls, raise}
use orchestrator_cli.State.Passes.{
  IsStep, Passes, fail-Passes, give-Passes, bind-Passes, asks-Passes, attempt_of-Passes,
  get_routing_decision-Passes, bind_ok,
}
use orchestrator_cli.Cli.Cancel.{
  running_attempt, finish_canceled, cancel_attempt, cancel_running, cancel_from, cancel_run,
}

module _ {F : Type 0} ⦃f : Float64 F⦄ (c : AdapterCalls) (registered : String → Option Error)
    (s : Surroundings F) (run_id : String) where
  -- a run that does not run stays so
  abbrev Rests : World F → World F → Type 0
  Rests u w = still_running run_id u ≡ false → still_running run_id w ≡ false

  Rests-IsStep : IsStep Rests
  Rests-IsStep = record { stay = λ w h. h; then_step = λ u v w f g h. g (f h) }

  statement-Rests : Passes Rests statement
  unfolding statement
  statement-Rests = record {
    leads = λ w. elim (List-cases w.faults) [
      | inl k ↦ rw (k, statement) (λ h. h)
      | inr (none, fs, k) ↦ rw (k, statement) (λ h. h)
      | inr (some x, fs, k) ↦ rw (k, statement) (λ h. h)
    ];
  }

  get_run-Rests : Passes Rests (get_run run_id)
  unfolding get_run
  get_run-Rests =
      bind-Passes Rests-IsStep statement-Rests
        (λ a. record { leads = λ w. (read (find_run run_id w.runs)).leads w })
    where
      read : (o : Option Run) → Passes Rests (read_run run_id o)
      read none = fail-Passes Rests-IsStep _
      read (some r) = give-Passes Rests-IsStep r

  attempts_by_run-Rests : Passes Rests (attempts_by_run s.platform run_id)
  unfolding attempts_by_run
  attempts_by_run-Rests =
      bind-Passes Rests-IsStep statement-Rests (λ a. record { leads = λ w h. h })

  write_summary-Rests : Passes Rests (write_summary s run_id)
  unfolding write_summary
  write_summary-Rests = bind-Passes Rests-IsStep get_run-Rests (λ r.
      bind-Passes Rests-IsStep attempts_by_run-Rests (λ a.
        bind-Passes Rests-IsStep (asks-Passes Rests-IsStep s.read_events) (λ es.
          bind-Passes Rests-IsStep
            (attempt_of-Passes
              (get_routing_decision-Passes Rests-IsStep statement-Rests s.decision_json run_id))
            (λ d. asks-Passes Rests-IsStep _))))

  -- FinishRun with a state that does not run, where it returns no error
  finish_run-ends :
      (state : RunState) (code : ℤ) (m : String) (t : ℕ) (w v : World F) (u : Unit {0})
      → is_running state ≡ false
      → finish_run run_id state code m t w ≡ (ok u, v)
      → still_running run_id v ≡ false
  unfolding finish_run
  finish_run-ends state code m t w v u ended h =
      let (_, x, _, k) = bind_ok statement _ h in
      ap (λ q. still_running run_id q.1) (sym k)
      ∙ row_running_of_update run_id _ x.runs (λ r. refl) (λ r. ended)

  finish_canceled-ends :
      (a : Attempt F) (w v : World F) (u : Unit {0})
      → finish_canceled c registered s run_id a w ≡ (ok u, v)
      → still_running run_id v ≡ false
  unfolding finish_canceled
  finish_canceled-ends a w v u h =
      let (t, w1, _, k) = bind_ok (now s.platform) _ h in
      let (_, w2, _, l) = bind_ok (finish_attempt a.id _ _ _ a.provider_ref t) _ k in
      let (x, w3, e, m) = bind_ok (finish_run run_id _ _ _ t) _ l in
      let ended = finish_run-ends _ _ _ t w2 w3 x refl e in
      ap (λ q. still_running run_id q.1) (sym m) ∙ write_summary-Rests.leads w3 ended

  cancel_attempt-ends :
      (a : Attempt F) (w v : World F) (u : Unit {0})
      → cancel_attempt c registered s run_id a w ≡ (ok u, v)
      → still_running run_id v ≡ false
  unfolding cancel_attempt
  cancel_attempt-ends a w v u h = elim (Bool-cases (a.provider_ref == "")) [
    | inl e ↦ let q = rw e at h in absurd (cc q)
    | inr e ↦
        let q = rw e at h in
        let (_, w1, _, k) = bind_ok (attempt_of (provider_resources s.platform _)) _ q in
        let (_, w2, _, l) = bind_ok (raise _) _ k in
        let (_, w3, _, m) = bind_ok (asks _) _ l in finish_canceled-ends a w3 v u m
  ]

  read_run_ok :
      (o : Option Run) (w v : World F) (r : Run)
      → find_run run_id w.runs ≡ o
      → read_run run_id o w ≡ (ok r, v)
      → find_run run_id v.runs ≡ some r
  read_run_ok none w v r e h = absurd (cc h)
  read_run_ok (some x) w v r e h =
      let same : w ≡ v = ap (λ t. t.1) h in let row : x ≡ r = cc in rw (sym same) e ∙ ap some row

  get_run_ok :
      (w v : World F) (r : Run) → get_run run_id w ≡ (ok r, v) → find_run run_id v.runs ≡ some r
  unfolding get_run
  get_run_ok w v r h =
      let (_, x, _, k) = bind_ok statement _ h in read_run_ok (find_run run_id x.runs) x v r refl k

  cancel_from-ends :
      (r : Run) (w v : World F) (u : Unit {0})
      → find_run run_id w.runs ≡ some r
      → cancel_from c registered s run_id r w ≡ (ok u, v)
      → still_running run_id v ≡ false
  cancel_from-ends r w v u found h = elim (Bool-cases (is_running r.state)) [
    | inl e ↦
        let q = rw e at h in
        let (attempts, x, _, k) = bind_ok (attempts_by_run s.platform run_id) _ q in
        cancel_running-ends (running_attempt none attempts) x v u k
    | inr e ↦
        let q = rw e at h in
        let same : w ≡ v = ap (λ t. t.1) q in
        ap (λ x. row_running (find_run run_id x.runs)) (sym same) ∙ ap row_running found ∙ e
  ]
    where
      cancel_running-ends :
          (o : Option (Attempt F)) (w v : World F) (u : Unit {0})
          → cancel_running c registered s run_id o w ≡ (ok u, v)
          → still_running run_id v ≡ false
      cancel_running-ends none w v u h = absurd (cc h)
      cancel_running-ends (some a) w v u h = cancel_attempt-ends a w v u h

  -- When the command `cancel` returns without an error, the row of the run in the store is not in the
  -- state running, whether it was before or not and whatever SQLite answered on the way.
  pub cancel_run-ends :
      (w v : World F) (u : Unit {0})
      → cancel_run c registered s run_id w ≡ (ok u, v)
      → still_running run_id v ≡ false
  unfolding cancel_run
  cancel_run-ends w v u h =
      let (r, x, e, k) = bind_ok (get_run run_id) _ h in
      cancel_from-ends r x v u (get_run_ok w x r e) k
