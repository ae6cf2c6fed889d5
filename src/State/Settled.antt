-- ===== src/State/Settled.antt =====
-- When the store holds no running run with an id, unless SQLite refused a statement.
use orchestrator_cli.Common.{
  ℕ, String, Bool, true, false, ◌==◌, ◌≡◌, refl, ◌⊎◌, inl, inr, Option, none, some, List, [], ◌∷◌,
  Bool-cases, List-cases,
}
use orchestrator_cli.Common.Int.{ℤ}
use orchestrator_cli.App.Runs.{Run, RunState}
use orchestrator_cli.App.Errors.{Error, Result, ok, err}
use orchestrator_cli.State.World.{World, Platform}
use orchestrator_cli.State.Action.{
  Action, ◌>>=◌, continue, statement, now, new_id, ignore, attempt_of, give,
}
use orchestrator_cli.State.Passes.{IsStep, Passes, continue-Passes}
use orchestrator_cli.State.Tables.{update_rows, finish_run, find_run}

abbrev pub is_running : RunState → Bool
is_running RunState.running = true
is_running _ = false

abbrev pub row_running : Option Run → Bool
row_running none = false
row_running (some r) = is_running r.state

abbrev pub still_running : {F : Type 0} → String → World F → Bool
still_running id w = row_running (find_run id w.runs)

pub row_running_of_update :
    (id : String) (g : Run → Run) (runs : List Run)
    → ((r : Run) → (g r).id ≡ r.id)
    → ((r : Run) → is_running (g r).state ≡ false)
    → row_running (find_run id (update_rows (λ x. x.id == id) g runs)) ≡ false
unfolding find_run
row_running_of_update id g [] h k = refl
row_running_of_update id g (r ∷ runs) h k = elim (Bool-cases (r.id == id)) [
  | inl e ↦ rw e (rw (h r) (rw e (k r)))
  | inr e ↦ rw e (rw e (row_running_of_update id g runs h k))
]

module _ {F : Type 0} (id : String) where
  abbrev pub Settled : World F → Type 0
  Settled w = (w.trouble ≡ true) ⊎ (still_running id w ≡ false)

  abbrev pub Stays : World F → World F → Type 0
  Stays u w = Settled u → Settled w

  pub Stays-IsStep : IsStep Stays
  Stays-IsStep = record { stay = λ w h. h; then_step = λ u v w f g h. g (f h) }

  pub record Settles {A : Type 0} (m : Action F A) : Type 0 where
    pub settled : (w : World F) → Settled (m w).1

  -- an action that fails only where the run is settled
  pub record Firm {A : Type 0} (m : Action F A) : Type 0 where
    pub firm : (w : World F) (e : Error) → (m w).0 ≡ err e → Settled (m w).1

  pub bind-Settles :
      {A B : Type 0} {m : Action F A} {k : A → Action F B}
      → Settles m
      → ((a : A) → Passes Stays (k a))
      → Settles (m >>= k)
  unfolding ◌>>=◌
  bind-Settles {m = m} {k = k} h g = record {
    settled = λ w. continue-Passes Stays-IsStep k (m w) g (h.settled w);
  }

  pub bind-late :
      {A B : Type 0} {m : Action F A} {k : A → Action F B}
      → Firm m
      → ((a : A) → Settles (k a))
      → Settles (m >>= k)
  unfolding ◌>>=◌
  bind-late {A = A} {m = m} {k = k} h g = record { settled = λ w. go (m w) (h.firm w) }
    where
      go :
          (r : Result A × World F)
          → ((e : Error) → r.0 ≡ err e → Settled r.1)
          → Settled (continue k r).1
      go (ok a, w) f = (g a).settled w
      go (err e, w) f = f e refl

  pub bind-Firm :
      {A B : Type 0} {m : Action F A} {k : A → Action F B}
      → Firm m
      → ((a : A) → Firm (k a))
      → Firm (m >>= k)
  unfolding ◌>>=◌
  bind-Firm {A = A} {m = m} {k = k} h g = record { firm = λ w. go (m w) (h.firm w) }
    where
      go :
          (r : Result A × World F)
          → ((e : Error) → r.0 ≡ err e → Settled r.1)
          → (e : Error) → (continue k r).0 ≡ err e
          → Settled (continue k r).1
      go (ok a, w) f = (g a).firm w
      go (err x, w) f = λ e k. f x refl

  pub give-Firm : {A : Type 0} (a : A) → Firm (give a)
  give-Firm a = record { firm = λ w e k. absurd (cc k) }

  pub ignore-Firm : {A : Type 0} (m : Action F A) → Firm (ignore m)
  unfolding ignore
  ignore-Firm m = record { firm = λ w e k. absurd (cc k) }

  pub attempt_of-Firm : {A : Type 0} (m : Action F A) → Firm (attempt_of m)
  unfolding attempt_of
  attempt_of-Firm m = record { firm = λ w e k. absurd (cc k) }

  pub now-Firm : (p : Platform) → Firm (now p)
  unfolding now
  now-Firm p = record { firm = λ w e k. absurd (cc k) }

  pub new_id-Firm : (p : Platform) (prefix : String) → Firm (new_id p prefix)
  unfolding new_id
  new_id-Firm p prefix = record { firm = λ w e k. absurd (cc k) }

  pub statement-Firm : Firm statement
  unfolding statement
  statement-Firm = record {
    firm = λ w e. elim (List-cases w.faults) [
      | inl k ↦ rw (k, statement) (λ q. absurd (cc q))
      | inr (none, fs, k) ↦ rw (k, statement) (λ q. absurd (cc q))
      | inr (some x, fs, k) ↦ rw (k, statement) (λ q. inl refl)
    ];
  }

  pub statement-Stays : Passes Stays statement
  unfolding statement
  statement-Stays = record {
    leads = λ w. elim (List-cases w.faults) [
      | inl k ↦ rw (k, statement) (λ h. h)
      | inr (none, fs, k) ↦ rw (k, statement) (λ h. h)
      | inr (some x, fs, k) ↦ rw (k, statement) (λ h. inl refl)
    ];
  }

  pub finish_run-Settles :
      (state : RunState) (code : ℤ) (m : String) (t : ℕ)
      → is_running state ≡ false
      → Settles (finish_run id state code m t)
  unfolding finish_run
  finish_run-Settles state code m t h =
      bind-late statement-Firm (λ a. record {
        settled = λ w. inr (row_running_of_update id _ w.runs (λ r. refl) (λ r. h));
      })
