-- ===== src/Cli/Termination.antt =====
-- That runAttempts of internal/cli/root.go leaves no run running.
use orchestrator_cli.Common.{
  ℕ, zero, suc, ◌≤◌, String, Bool, true, false, not, ◌||◌, ◌==◌, ◌≡◌, refl, ◌⊎◌, inl, inr, Option,
  none, some, [], arith, Bool-cases, Option-cases,
}
use orchestrator_cli.Common.Int.{ℤ}
use orchestrator_cli.Common.Text.{GoText}
use orchestrator_cli.Common.Float.{Float64}
use orchestrator_cli.App.{JobSpec, DataManifest, CheckpointRef, provider_auto}
use orchestrator_cli.App.Errors.{Error}
use orchestrator_cli.Routing.Registry.{Registry}
use orchestrator_cli.Routing.Select.{Outcome}
use orchestrator_cli.State.World.{World}
use orchestrator_cli.State.Passes.{ignore-Passes}
use orchestrator_cli.State.Settled.{still_running, Settled, bind-Settles}
use orchestrator_cli.Cli.Types.{Surroundings, TrainConfig, AttemptExit}
use orchestrator_cli.Cli.Outcome.{finish_run_only-Settles, write_summary-Stays, run_attempt-Settled}
use orchestrator_cli.Cli.Attempts.{
  Progress, Choice, chosen, ended, Round, done, again, attempt_limit, end_run, choose_auto,
  choose_explicit, choose_provider, resume_at, after_attempt, attempt_round, run_attempts_from,
  run_attempts, is_last, proceed, finish_retryable, latest_of, ensured,
}

positive : (n : ℕ) → 1 ≤ n → (m : ℕ) × (n ≡ suc m)
positive zero h = absurd (omega arith)
positive (suc m) h = (m, refl)

attempt_limit-positive : {F : Type 0} (c : TrainConfig F) → 1 ≤ attempt_limit c
unfolding attempt_limit
attempt_limit-positive c = ground arith

module _ {F : Type 0} ⦃f : Float64 F⦄ ⦃t : GoText⦄ (s : Surroundings F) (c : TrainConfig F)
    (run_id : String) (registry : Registry F) (job : JobSpec) (manifest : DataManifest) where
  -- an ended choice leaves the run settled
  abbrev SettledIfEnded : Choice F × World F → Type 0
  SettledIfEnded (chosen p h, w) = Unit {0}
  SettledIfEnded (ended x, w) = Settled run_id w

  -- a round that ends leaves the run settled, and only a round before the last goes on
  abbrev SettledIfDone : Bool → Round × World F → Type 0
  SettledIfDone last (done x, w) = Settled run_id w
  SettledIfDone last (again g, w) = last ≡ false

  end_run-Settled :
      (code : ℤ) (reason : String) (w : World F)
      → Settled run_id (end_run s c run_id registry job manifest code reason w)
  unfolding end_run
  end_run-Settled code reason w =
      (bind-Settles run_id (finish_run_only-Settles s run_id code reason)
          (λ a. ignore-Passes (write_summary-Stays s run_id))).settled
        w

  choose_auto-Settled :
      (g : Progress) (o : Outcome F) (w : World F)
      → SettledIfEnded (choose_auto s c run_id registry job manifest g o w)
  unfolding choose_auto
  choose_auto-Settled g (d, none) w = tt
  choose_auto-Settled g (d, some e) w = elim (Option-cases g.resume_from) [
    | inl k ↦ rw k (end_run-Settled _ _ _)
    | inr (r, k) ↦ rw k (end_run-Settled _ _ _)
  ]

  ensured-Settled :
      (e : Option Error) (w : World F)
      → SettledIfEnded (ensured s c run_id registry job manifest e w)
  ensured-Settled none w = tt
  ensured-Settled (some e) w = end_run-Settled _ _ w

  choose_explicit-Settled :
      (r : Option CheckpointRef) (w : World F)
      → SettledIfEnded (choose_explicit s c run_id registry job manifest r w)
  unfolding choose_explicit
  choose_explicit-Settled none w = tt
  choose_explicit-Settled (some r) w = ensured-Settled _ w

  choose_provider-Settled :
      (g : Progress) (w : World F)
      → SettledIfEnded (choose_provider s c run_id registry job manifest g w)
  unfolding choose_provider
  choose_provider-Settled g w = elim (Bool-cases (c.provider == provider_auto)) [
    | inl k ↦ rw k (choose_auto-Settled g _ w)
    | inr k ↦ rw k (choose_explicit-Settled g.resume_from w)
  ]

  resume_at-Settled :
      (g : Progress) (p : String) (r : Option CheckpointRef) (w : World F)
      → SettledIfDone false (resume_at s c run_id registry job manifest g p r w)
  unfolding resume_at
  resume_at-Settled g p none w = end_run-Settled _ _ w
  resume_at-Settled g p (some r) w = refl

  finish_retryable-Settled :
      (b : Bool) (code : ℤ) (e : Error) (w : World F)
      → (b ≡ true) ⊎ Settled run_id w
      → Settled run_id (finish_retryable s c run_id registry job manifest b code e w)
  finish_retryable-Settled true code e w h = (finish_run_only-Settles s run_id code _).settled w
  finish_retryable-Settled false code e w (inl h) = absurd (cc h)
  finish_retryable-Settled false code e w (inr h) = h

  after_attempt-Settled :
      (last : Bool) (g : Progress) (p : String) (x : AttemptExit) (e : Option Error) (w : World F)
      → ((y : Error) × (e ≡ some y) × (x.retryable ≡ true)) ⊎ Settled run_id w
      → SettledIfDone last (after_attempt s c run_id registry job manifest last g p x e w)
  unfolding after_attempt
  after_attempt-Settled last g p x none w (inl (y, k, q)) = absurd (cc k)
  after_attempt-Settled last g p x none w (inr h) = h
  after_attempt-Settled last g p x (some e) w h =
      elim (Bool-cases (not x.retryable || (not (c.provider == provider_auto) || last))) [
        | inl k ↦ rw k (
            (ignore-Passes (write_summary-Stays s run_id)).leads _
              (finish_retryable-Settled x.retryable x.code e w (known h)))
        | inr k ↦
            let not_last : last ≡ false = ground arith in
            rw k (
              rw not_last (
                resume_at-Settled g p
                  (latest_of s c run_id registry job manifest (s.read_events w.asked)) w))
      ]
    where
      known :
          ((y : Error) × (some e ≡ some y) × (x.retryable ≡ true)) ⊎ Settled run_id w
          → (x.retryable ≡ true) ⊎ Settled run_id w
      known (inl (y, k, q)) = inl q
      known (inr h) = inr h

  attempt_round-Settled :
      (last : Bool) (g : Progress) (x : Choice F × World F)
      → SettledIfEnded x
      → SettledIfDone last (attempt_round s c run_id registry job manifest last g x)
  unfolding attempt_round
  attempt_round-Settled last g (ended x, w) h = h
  attempt_round-Settled last g (chosen p h, w) u =
      after_attempt-Settled last g p _ _ _
        (run_attempt-Settled s run_id p g.resume_from h registry job manifest w)

  proceed-Settled :
      (left : ℕ)
      → (is_last left ≡ false
          → (g : Progress) (w : World F)
          → Settled run_id (run_attempts_from s c run_id registry job manifest left g w).1)
      → (r : Round × World F) → SettledIfDone (is_last left) r
      → Settled run_id
          (proceed s c run_id registry job manifest
            (run_attempts_from s c run_id registry job manifest left)
            r).1
  proceed-Settled left loops (done x, w) h = h
  proceed-Settled left loops (again g, w) h = loops h g w

  run_attempts_from-Settled :
      (left : ℕ) (g : Progress) (w : World F)
      → Settled run_id (run_attempts_from s c run_id registry job manifest (suc left) g w).1
  unfolding run_attempts_from
  run_attempts_from-Settled zero g w =
      proceed-Settled zero (λ h. absurd (cc h)) _
        (attempt_round-Settled true g _ (choose_provider-Settled g w))
  run_attempts_from-Settled (suc left) g w =
      proceed-Settled (suc left) (λ h. run_attempts_from-Settled left) _
        (attempt_round-Settled false g _ (choose_provider-Settled g w))

  -- When runAttempts returns, with whatever result, and SQLite refused no statement, the store has no
  -- running run with the id, also where a provider failed and no other one can go on, or where the
  -- run was canceled in the meantime.
  pub run_attempts-settles :
      (initial : Option CheckpointRef) (w : World F)
      → let after = (run_attempts s c run_id registry job manifest initial w).1 in
        after.trouble ≡ false → still_running run_id after ≡ false
  unfolding run_attempts
  run_attempts-settles initial w calm =
      let (n, e) = positive (attempt_limit c) (attempt_limit-positive c) in
      let g : Progress = record { excluded = []; resume_from = initial } in
      let end : Settled run_id
          (run_attempts_from s c run_id registry job manifest (attempt_limit c) g w).1 =
        rw e (run_attempts_from-Settled n g w) in
      elim end [ inl h ↦ absurd (cc (h, calm)) | inr h ↦ h ]
