-- ===== src/State/Passes.antt =====
-- How a relation between the worlds before and after passes through a sequence of actions.
use orchestrator_cli.Common.{◌≡◌, refl, ℕ, String, Option, none, some}
use orchestrator_cli.Common.Float.{Float64}
use orchestrator_cli.App.Decision.{RoutingDecision}
use orchestrator_cli.App.Errors.{Error, Result, ok, err}
use orchestrator_cli.State.World.{World, DecisionRow}
use orchestrator_cli.State.Action.{
  Action, ◌>>=◌, continue, ignore, attempt_of, give, fail, asks, statement, returned,
}
use orchestrator_cli.State.Decisions.{
  DecisionJson, read_decision, find_decision, get_routing_decision, write_decision,
  save_routing_decision,
}

pub record IsStep {F : Type 0} (R : World F → World F → Type 0) : Type 0 where
  pub stay : (w : World F) → R w w
  pub then_step : (u v w : World F) → R u v → R v w → R u w

-- `m` leads from each world to a related one, whether it fails or not
pub record Passes {F A : Type 0} (R : World F → World F → Type 0) (m : Action F A) : Type 0 where
  pub leads : (w : World F) → R w (m w).1

module _ {F : Type 0} {R : World F → World F → Type 0} (step : IsStep R) where
  pub continue-Passes :
      {A B : Type 0} (k : A → Action F B) (r : Result A × World F)
      → ((a : A) → Passes R (k a))
      → R r.1 (continue k r).1
  continue-Passes k (ok a, w) h = (h a).leads w
  continue-Passes k (err e, w) h = step.stay w

  pub bind-Passes :
      {A B : Type 0} {m : Action F A} {k : A → Action F B}
      → Passes R m
      → ((a : A) → Passes R (k a))
      → Passes R (m >>= k)
  unfolding ◌>>=◌
  bind-Passes {m = m} {k = k} h g = record {
    leads =
        λ w. step.then_step w (m w).1 (continue k (m w)).1 (h.leads w) (continue-Passes k (m w) g);
  }

  pub give-Passes : {A : Type 0} (a : A) → Passes R (give a)
  give-Passes a = record { leads = λ w. step.stay w }

  pub asks-Passes : {A : Type 0} (g : ℕ → Result A) → Passes R (asks g)
  unfolding asks
  asks-Passes g = record { leads = λ w. step.stay w }

  pub fail-Passes : {A : Type 0} (e : Error) → Passes R (fail {A = A} e)
  fail-Passes e = record { leads = λ w. step.stay w }

  pub returned-Passes : {A : Type 0} (r : Result A) → Passes R (returned r)
  returned-Passes r = record { leads = λ w. step.stay w }

  -- the read of a decision changes nothing after its statement
  pub get_routing_decision-Passes :
      Passes R (statement {F = F})
      → (j : DecisionJson F) (id : String) → Passes R (get_routing_decision j id)
  unfolding get_routing_decision
  get_routing_decision-Passes h j id =
      bind-Passes h (λ a. record { leads = λ w. (found (find_decision id w.decisions)).leads w })
    where
      found : (o : Option (DecisionRow F)) → Passes R (read_decision j id o)
      found none = fail-Passes _
      found (some row) = bind-Passes (returned-Passes _) (λ a. bind-Passes (returned-Passes _) (λ b.
          bind-Passes (returned-Passes _) (λ c.
            bind-Passes (returned-Passes _)
              (λ d. bind-Passes (returned-Passes _) (λ e. give-Passes _)))))

  pub save_routing_decision-Passes :
      ⦃f : Float64 F⦄
      → ((row : DecisionRow F) → Passes R (write_decision row))
      → (j : DecisionJson F) (d : RoutingDecision F) → Passes R (save_routing_decision j d)
  unfolding save_routing_decision
  save_routing_decision-Passes h j d = bind-Passes (returned-Passes _) (λ a.
      bind-Passes (returned-Passes _) (λ b.
        bind-Passes (returned-Passes _)
          (λ c. bind-Passes (returned-Passes _) (λ e. bind-Passes (returned-Passes _) (λ g. h _)))))

module _ {F : Type 0} {R : World F → World F → Type 0} where
  pub ignore-Passes : {A : Type 0} {m : Action F A} → Passes R m → Passes R (ignore m)
  unfolding ignore
  ignore-Passes h = record { leads = h.leads }

  pub attempt_of-Passes : {A : Type 0} {m : Action F A} → Passes R m → Passes R (attempt_of m)
  unfolding attempt_of
  attempt_of-Passes h = record { leads = h.leads }

-- a successful sequence of two actions
pub bind_ok :
    {F A B : Type 0} (m : Action F A) (k : A → Action F B) {w v : World F} {b : B}
    → (m >>= k) w ≡ (ok b, v)
    → (a : A) × (u : World F) × (m w ≡ (ok a, u)) × (k a u ≡ (ok b, v))
unfolding ◌>>=◌
bind_ok {F = F} {A = A} {B = B} m k {w} {v} {b} h = go (m w) refl h
  where
    go :
        (r : Result A × World F)
        → m w ≡ r
        → continue k r ≡ (ok b, v)
        → (a : A) × (u : World F) × (m w ≡ (ok a, u)) × (k a u ≡ (ok b, v))
    go (ok a, u) e h = (a, u, e, h)
    go (err x, u) e h = cc
