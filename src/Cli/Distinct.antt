-- ===== src/Cli/Distinct.antt =====
-- runAttempts of internal/cli/root.go, by the providers that it makes attempts on.
use orchestrator_cli.Common.{
  ℕ, zero, suc, String, Bool, true, false, not, ◌||◌, ◌==◌, ◌≡◌, refl, ◌∙◌, ap, ◌⊎◌, inl, inr,
  Option, none, some, List, [], ◌∷◌, ◌++◌, Bool-cases, Option-cases,
}
use orchestrator_cli.Common.Int.{ℤ}
use orchestrator_cli.Common.Text.{GoText}
use orchestrator_cli.Common.Float.{Float64}
use orchestrator_cli.App.{JobSpec, DataManifest, CheckpointRef, provider_auto}
use orchestrator_cli.App.Errors.{Error}
use orchestrator_cli.App.Decision.{RoutingDecision}
use orchestrator_cli.Routing.Registry.{Registry}
use orchestrator_cli.Routing.Providers.{contains}
use orchestrator_cli.Routing.Select.{Outcome, select}
use orchestrator_cli.Routing.Guarantees.{select-IsEligible}
use orchestrator_cli.State.World.{World}
use orchestrator_cli.State.Passes.{bind-Passes, ignore-Passes}
use orchestrator_cli.State.Tried.{tried, Keeps-IsStep, save_routing_decision-Keeps}
use orchestrator_cli.Cli.Types.{Surroundings, TrainConfig, AttemptExit}
use orchestrator_cli.Cli.Attempts.{
  Progress, Choice, chosen, ended, Round, done, again, routing_options, attempt_limit, end_run,
  save_decision, choose_auto, choose_provider, resume_at, after_attempt, attempt_round,
  run_attempts_from, run_attempts, is_last, proceed, finish_retryable, latest_of,
}
use orchestrator_cli.Cli.Attempt.{run_attempt}
use orchestrator_cli.Cli.Tried.{finish_run_only-Keeps, write_summary-Keeps, run_attempt-tried}
use orchestrator_cli.Cli.Trail.{Trail, stay-Trail, more-Trail}

module _ {F : Type 0} where
  -- a choice that added no attempt and is not excluded
  abbrev IsAllowed : List String → Choice F → Type 0
  IsAllowed excluded (chosen p h) = contains excluded p ≡ false
  IsAllowed excluded (ended x) = Unit {0}

-- a round that goes on only with the provider excluded
abbrev Excludes : List String → String → Round → Type 0
Excludes excluded p (done x) = Unit {0}
Excludes excluded p (again g) = g.excluded ≡ p ∷ excluded

module _ {F : Type 0} ⦃f : Float64 F⦄ ⦃t : GoText⦄ (s : Surroundings F) (c : TrainConfig F)
    (run_id : String) (registry : Registry F) (job : JobSpec) (manifest : DataManifest) where
  end_run-tried :
      (code : ℤ) (reason : String) (w : World F)
      → tried (end_run s c run_id registry job manifest code reason w) ≡ tried w
  unfolding end_run
  end_run-tried code reason w =
      (bind-Passes Keeps-IsStep (finish_run_only-Keeps s run_id code reason)
          (λ a. ignore-Passes (write_summary-Keeps s run_id))).leads
        w

  save_decision-tried :
      (d : RoutingDecision F) (w : World F)
      → tried (save_decision s c run_id registry job manifest d w) ≡ tried w
  unfolding save_decision
  save_decision-tried d w = elim (Bool-cases (run_id == "")) [
    | inl e ↦ rw e refl
    | inr e ↦ rw e ((save_routing_decision-Keeps s.decision_json _).leads w)
  ]

  choose_auto-tried :
      (g : Progress) (o : Outcome F) (w : World F)
      → tried (choose_auto s c run_id registry job manifest g o w).1 ≡ tried w
  unfolding choose_auto
  choose_auto-tried g (d, none) w = save_decision-tried d w
  choose_auto-tried g (d, some e) w = elim (Option-cases g.resume_from) [
    | inl k ↦ rw k (end_run-tried _ _ _ ∙ save_decision-tried d w)
    | inr (r, k) ↦ rw k (end_run-tried _ _ _ ∙ save_decision-tried d w)
  ]

  choose_auto-IsAllowed :
      (g : Progress) (o : Outcome F) (w : World F)
      → (o.1 ≡ none → contains g.excluded o.0.selected_provider ≡ false)
      → IsAllowed g.excluded (choose_auto s c run_id registry job manifest g o w).0
  unfolding choose_auto
  choose_auto-IsAllowed g (d, none) w h = h refl
  choose_auto-IsAllowed g (d, some e) w h = elim (Option-cases g.resume_from) [
    | inl k ↦ rw k tt
    | inr (r, k) ↦ rw k tt
  ]

  select-allowed :
      (g : Progress)
      → (select registry job (routing_options c g)).1 ≡ none
      → contains g.excluded (select registry job (routing_options c g)).0.selected_provider ≡ false
  unfolding routing_options
  select-allowed g e =
      let (x, eligible, same) = select-IsEligible registry job (routing_options c g) e in
      rw same eligible.not_excluded

  resume_at-tried :
      (g : Progress) (p : String) (r : Option CheckpointRef) (w : World F)
      → (tried (resume_at s c run_id registry job manifest g p r w).1 ≡ tried w)
        × Excludes g.excluded p (resume_at s c run_id registry job manifest g p r w).0
  unfolding resume_at
  resume_at-tried g p none w = (end_run-tried _ _ w, tt)
  resume_at-tried g p (some r) w = (refl, refl)

  finish_retryable-tried :
      (b : Bool) (code : ℤ) (e : Error) (w : World F)
      → tried (finish_retryable s c run_id registry job manifest b code e w) ≡ tried w
  finish_retryable-tried true code e w = (finish_run_only-Keeps s run_id code _).leads w
  finish_retryable-tried false code e w = refl

  after_attempt-tried :
      (last : Bool) (g : Progress) (p : String) (x : AttemptExit) (e : Option Error) (w : World F)
      → (tried (after_attempt s c run_id registry job manifest last g p x e w).1 ≡ tried w)
        × Excludes g.excluded p (after_attempt s c run_id registry job manifest last g p x e w).0
  unfolding after_attempt
  after_attempt-tried last g p x none w = (refl, tt)
  after_attempt-tried last g p x (some e) w =
      elim (Bool-cases (not x.retryable || (not (c.provider == provider_auto) || last))) [
        | inl k ↦ rw k (
          (ignore-Passes (write_summary-Keeps s run_id)).leads _
              ∙ finish_retryable-tried x.retryable x.code e w,
          tt,
        )
        | inr k ↦ rw k (
            resume_at-tried g p (latest_of s c run_id registry job manifest (s.read_events w.asked))
              w)
      ]

  choose_provider-tried :
      (c.provider == provider_auto) ≡ true
      → (g : Progress) (w : World F)
      → (tried (choose_provider s c run_id registry job manifest g w).1 ≡ tried w)
        × IsAllowed g.excluded (choose_provider s c run_id registry job manifest g w).0
  unfolding choose_provider
  choose_provider-tried auto g w = rw auto (
    choose_auto-tried g _ w,
    choose_auto-IsAllowed g (select registry job (routing_options c g)) w (select-allowed g),
  )

  -- what the loop does from any progress on, with `left` rounds left
  abbrev Loops : ℕ → Type 0
  Loops left =
      (g : Progress) (w : World F)
      → Trail g.excluded left (tried w)
          (tried (run_attempts_from s c run_id registry job manifest left g w).1)

  proceed-Trail :
      (left : ℕ)
      → Loops left
      → (excluded : List String) (p : String) (before : List String) (r : Round × World F)
      → contains excluded p ≡ false
      → (tried r.1 ≡ before) ⊎ (tried r.1 ≡ before ++ (p ∷ []))
      → Excludes excluded p r.0
      → Trail excluded (suc left) before (
          tried
            (proceed s c run_id registry job manifest
              (run_attempts_from s c run_id registry job manifest left)
              r).1)
  proceed-Trail left loops excluded p before (done x, w) h a e =
      more-Trail excluded left before (tried w) (tried w) p h a
        (stay-Trail (p ∷ excluded) left (tried w))
  proceed-Trail left loops excluded p before (again g, w) h a e =
      more-Trail excluded left before (tried w) _ p h a (rw (← e) (loops g w))

  attempt_round-Trail :
      (left : ℕ)
      → Loops left
      → (g : Progress) (before : List String) (x : Choice F × World F) → tried x.1 ≡ before
      → IsAllowed g.excluded x.0
      → Trail g.excluded (suc left) before (
          tried
            (proceed s c run_id registry job manifest
              (run_attempts_from s c run_id registry job manifest left)
              (attempt_round s c run_id registry job manifest (is_last left) g x)).1)
  unfolding attempt_round
  attempt_round-Trail left loops g before (ended x, w) e a =
      rw e (stay-Trail g.excluded (suc left) before)
  attempt_round-Trail left loops g before (chosen p h, w) e a =
      let tries = run_attempt s run_id p g.resume_from h registry job manifest w in
      let (same, excludes) = after_attempt-tried (is_last left) g p tries.0 tries.0.error tries.1 in
      proceed-Trail left loops g.excluded p before _ a
        (elim (run_attempt-tried s run_id p g.resume_from h registry job manifest w) [
          | inl k ↦ inl (same ∙ (k ∙ e))
          | inr k ↦ inr (same ∙ (k ∙ ap (λ l. l ++ (p ∷ [])) e))
        ])
        excludes

  run_attempts_from-Trail : (c.provider == provider_auto) ≡ true → (left : ℕ) → Loops left
  unfolding run_attempts_from
  run_attempts_from-Trail auto zero g w = stay-Trail g.excluded zero (tried w)
  run_attempts_from-Trail auto (suc left) g w =
      let (same, allowed) = choose_provider-tried auto g w in
      attempt_round-Trail left (run_attempts_from-Trail auto left) g (tried w)
        (choose_provider s c run_id registry job manifest g w) same allowed

  -- A run with automatic routing makes attempts on pairwise different providers, at most as many as
  -- its limit of attempts, and changes the provider of no attempt that was made before, whatever the
  -- adapters, the database and a cancellation in the meantime do.
  pub run_attempts-distinct :
      (c.provider == provider_auto) ≡ true
      → (initial : Option CheckpointRef) (w : World F)
      → Trail []
          (attempt_limit c)
          (tried w)
          (tried (run_attempts s c run_id registry job manifest initial w).1)
  unfolding run_attempts
  run_attempts-distinct auto initial w =
      run_attempts_from-Trail auto (attempt_limit c)
        (record { excluded = []; resume_from = initial }) w
