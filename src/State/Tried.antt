-- ===== src/State/Tried.antt =====
-- The providers of the attempts in the store, which only a new attempt changes.
use orchestrator_cli.Common.{
  ℕ, String, Bool, ◌==◌, ◌≡◌, refl, ◌∙◌, ap, ◌⊎◌, inl, inr, none, some, List, [], ◌∷◌, ◌++◌, map,
  Bool-cases, Option-cases, List-cases,
}
use orchestrator_cli.Common.Int.{ℤ}
use orchestrator_cli.App.{CostEstimate}
use orchestrator_cli.App.Runs.{RunState, Attempt, AttemptState, ProviderResource}
use orchestrator_cli.App.Errors.{Result, ok, err}
use mathlib.Core.List.{map-append}
use orchestrator_cli.App.Decision.{RoutingDecision}
use orchestrator_cli.State.World.{World, Platform}
use orchestrator_cli.State.Action.{Action, ◌>>=◌, statement, now, new_id, continue, change}
use orchestrator_cli.State.Passes.{
  save_routing_decision-Passes, get_routing_decision-Passes, IsStep, Passes, give-Passes,
  bind-Passes,
}
use orchestrator_cli.Common.Float.{Float64}
use orchestrator_cli.State.Decisions.{DecisionJson, save_routing_decision, get_routing_decision}
use orchestrator_cli.State.Tables.{
  update_rows, finish_run, finish_attempt, update_attempt_provider_ref, update_attempt_estimate,
  create_attempt, get_run, find_run, attempts_by_run, has_attempt, update_attempt, insert_attempt,
}
use orchestrator_cli.State.Resources.{save_provider_resource, resource_id, write_resource}

module _ {F : Type 0} where
  abbrev pub tried : World F → List String
  tried w = map (λ (a : Attempt F). a.provider) w.attempts

  abbrev pub Keeps : World F → World F → Type 0
  Keeps u w = tried w ≡ tried u

  pub Keeps-IsStep : IsStep Keeps
  Keeps-IsStep = record { stay = λ w. refl; then_step = λ u v w p q. q ∙ p }

  pub statement-Keeps : Passes Keeps statement
  unfolding statement
  statement-Keeps = record {
    leads = λ w. elim (List-cases w.faults) [
      | inl e ↦ rw (e, statement) refl
      | inr (none, fs, e) ↦ rw (e, statement) refl
      | inr (some x, fs, e) ↦ rw (e, statement) refl
    ];
  }

  -- an action that changes other tables only
  change-Keeps : (g : World F → World F) → ((w : World F) → Keeps w (g w)) → Passes Keeps (change g)
  change-Keeps g h = record { leads = h }

  update_rows-provider :
      (test : Attempt F → Bool) (g : Attempt F → Attempt F) (rows : List (Attempt F))
      → ((a : Attempt F) → (g a).provider ≡ a.provider)
      → map (λ (a : Attempt F). a.provider) (update_rows test g rows)
        ≡ map (λ (a : Attempt F). a.provider) rows
  update_rows-provider test g [] h = refl
  update_rows-provider test g (a ∷ rows) h = elim (Bool-cases (test a)) [
    | inl e ↦ rw e (rw (h a) (ap (◌∷◌ a.provider) (update_rows-provider test g rows h)))
    | inr e ↦ rw e (ap (◌∷◌ a.provider) (update_rows-provider test g rows h))
  ]

  -- a statement that is followed by something that keeps the attempts' providers
  after_statement :
      {A : Type 0} {m : Unit {0} → Action F A}
      → ((a : Unit {0}) → Passes Keeps (m a))
      → Passes Keeps (statement >>= m)
  after_statement h = bind-Passes Keeps-IsStep statement-Keeps h

  pub finish_run-Keeps :
      (id : String) (state : RunState) (code : ℤ) (m : String) (t : ℕ)
      → Passes Keeps (finish_run id state code m t)
  unfolding finish_run
  finish_run-Keeps id state code m t = after_statement (λ a. record { leads = λ w. refl })

  update_attempt-Keeps :
      (id : String) (g : Attempt F → Attempt F)
      → ((a : Attempt F) → (g a).provider ≡ a.provider)
      → Passes Keeps (update_attempt id g)
  unfolding update_attempt
  update_attempt-Keeps id g h =
      after_statement
        (λ a. record { leads = λ w. update_rows-provider (λ x. x.id == id) g w.attempts h })

  pub finish_attempt-Keeps :
      (id : String) (state : AttemptState) (code : ℤ) (m ref : String) (t : ℕ)
      → Passes Keeps (finish_attempt id state code m ref t)
  unfolding finish_attempt
  finish_attempt-Keeps id state code m ref t = update_attempt-Keeps id _ (λ a. refl)

  pub update_attempt_provider_ref-Keeps :
      (id ref : String) → Passes Keeps (update_attempt_provider_ref id ref)
  unfolding update_attempt_provider_ref
  update_attempt_provider_ref-Keeps id ref = update_attempt-Keeps id _ (λ a. refl)

  pub update_attempt_estimate-Keeps :
      (id : String) (e : CostEstimate F) → Passes Keeps (update_attempt_estimate id e)
  unfolding update_attempt_estimate
  update_attempt_estimate-Keeps id e = update_attempt-Keeps id _ (λ a. refl)

  pub save_routing_decision-Keeps :
      ⦃f : Float64 F⦄ (j : DecisionJson F) (d : RoutingDecision F)
      → Passes Keeps (save_routing_decision j d)
  save_routing_decision-Keeps =
      save_routing_decision-Passes Keeps-IsStep
        (λ row. after_statement (λ a. record { leads = λ w. refl }))

  pub get_run-Keeps : (id : String) → Passes Keeps (get_run id)
  unfolding get_run
  get_run-Keeps id = after_statement (λ a. record {
    leads = λ w. elim (Option-cases (find_run id w.runs)) [
      | inl e ↦ rw e refl
      | inr (r, e) ↦ rw e refl
    ];
  })

  pub get_routing_decision-Keeps :
      (j : DecisionJson F) (id : String) → Passes Keeps (get_routing_decision j id)
  get_routing_decision-Keeps = get_routing_decision-Passes Keeps-IsStep statement-Keeps

  pub attempts_by_run-Keeps :
      (p : Platform) (id : String) → Passes Keeps (attempts_by_run {F = F} p id)
  unfolding attempts_by_run
  attempts_by_run-Keeps p id = after_statement (λ a. record { leads = λ w. refl })

  pub now-Keeps : (p : Platform) → Passes Keeps (now p)
  unfolding now
  now-Keeps p = record { leads = λ w. refl }

  pub new_id-Keeps : (p : Platform) (prefix : String) → Passes Keeps (new_id p prefix)
  unfolding new_id
  new_id-Keeps p prefix = record { leads = λ w. refl }

  resource_id-Keeps : (p : Platform) (id : String) → Passes Keeps (resource_id {F = F} p id)
  unfolding resource_id
  resource_id-Keeps p id = elim (Bool-cases (id == "")) [
    | inl e ↦ rw e (new_id-Keeps p "res")
    | inr e ↦ rw e (give-Passes Keeps-IsStep id)
  ]

  write_resource-Keeps : (r : ProviderResource) → Passes Keeps (write_resource {F = F} r)
  unfolding write_resource
  write_resource-Keeps r =
      after_statement (λ a.
        bind-Passes Keeps-IsStep (change-Keeps _ (λ w. refl)) (λ b. give-Passes Keeps-IsStep r))

  pub save_provider_resource-Keeps :
      (p : Platform) (r : ProviderResource) → Passes Keeps (save_provider_resource {F = F} p r)
  unfolding save_provider_resource
  save_provider_resource-Keeps p r =
      bind-Passes Keeps-IsStep (now-Keeps p)
        (λ t. bind-Passes Keeps-IsStep (resource_id-Keeps p r.id) (λ id. write_resource-Keeps _))

  insert_attempt-tried :
      (p : Platform) (a : Attempt F) (w : World F)
      → (tried (insert_attempt p a w).1 ≡ tried w)
        ⊎ (tried (insert_attempt p a w).1 ≡ tried w ++ (a.provider ∷ []))
  insert_attempt-tried p a w = elim (Bool-cases (has_attempt a.id w.attempts)) [
    | inl e ↦ rw e (inl refl)
    | inr e ↦ rw e (inr (map-append (λ (x : Attempt F). x.provider) w.attempts _))
  ]

  pub create_attempt-tried :
      (p : Platform) (a : Attempt F) (w : World F)
      → (tried (create_attempt p a w).1 ≡ tried w)
        ⊎ (tried (create_attempt p a w).1 ≡ tried w ++ (a.provider ∷ []))
  unfolding create_attempt ◌>>=◌
  create_attempt-tried p a w = after (statement w) (statement-Keeps.leads w)
    where
      after :
          (r : Result (Unit {0}) × World F)
          → tried r.1 ≡ tried w
          → (tried (continue (λ x. insert_attempt p a) r).1 ≡ tried w)
            ⊎ (tried (continue (λ x. insert_attempt p a) r).1 ≡ tried w ++ (a.provider ∷ []))
      after (ok x, v) h = rw (← h) (insert_attempt-tried p a v)
      after (err e, v) h = inl h
