-- ===== src/State/Tables.antt =====
-- Runs and attempts of internal/state/store.go. A column that holds the text of an instant
-- is read back as that instant; only the sort compares the texts.
use Prim.Native.String.{◌++◌ as str_append}
use orchestrator_cli.Common.{
  ℕ, String, Bool, true, false, ◌||◌, Option, none, some, List, [], ◌∷◌, ◌++◌, ◌==◌, if◌then◌else◌,
}
use orchestrator_cli.Common.Int.{ℤ, pos}
use orchestrator_cli.Common.Text.{str_lt}
use orchestrator_cli.Common.Sort.{sort_stable}
use orchestrator_cli.App.{CostEstimate}
use orchestrator_cli.App.Runs.{Run, RunState, Attempt, AttemptState, Time}
use orchestrator_cli.App.Errors.{plain}
use orchestrator_cli.State.World.{Platform}
use orchestrator_cli.State.Action.{Action, ◌>>◌, give, fail, statement, change, refuse}

-- UPDATE ... WHERE, on the rows that pass a test
abbrev pub update_rows : {A : Type 0} → (A → Bool) → (A → A) → List A → List A
update_rows test f [] = []
update_rows test f (a ∷ more) = (if test a then f a else a) ∷ update_rows test f more

-- SELECT ... WHERE
abbrev pub rows : {A : Type 0} → (A → Bool) → List A → List A
rows test [] = []
rows test (a ∷ more) = let rest = rows test more in if test a then a ∷ rest else rest

abbrev pub first : {A : Type 0} → List A → Option A
first [] = none
first (a ∷ more) = some a

abbrev pub is_present : {A : Type 0} → Option A → Bool
is_present none = false
is_present (some a) = true

-- the row of a run
unfoldable pub find_run : String → List Run → Option Run
find_run id [] = none
find_run id (r ∷ rs) = if r.id == id then some r else find_run id rs

abbrev pub time_key : Platform → Time → String
time_key p none = "0001-01-01T00:00:00Z"
time_key p (some t) = p.time_text t

module _ {F : Type 0} where
  -- INSERT, with the primary key
  abbrev pub insert_run : Platform → Run → Action F (Unit {0})
  insert_run p r w =
      if is_present (find_run r.id w.runs)
      then refuse p.unique_failed w
      else change (λ v. record v { runs = v.runs ++ (record r { ended_at = none } ∷ []) }) w

  unfoldable pub create_run : Platform → Run → Action F (Unit {0})
  create_run p r = statement >> insert_run p r

  unfoldable pub restart_run : Run → Action F (Unit {0})
  restart_run r =
      statement
      >> change (λ w. record w {
        runs =
            update_rows (λ x. x.id == r.id)
              (λ x. record r { id = x.id; ended_at = none; exit_code = pos 0; error = "" }) w.runs;
      })

  unfoldable pub finish_run : String → RunState → ℤ → String → ℕ → Action F (Unit {0})
  finish_run id state code message ended =
      statement
      >> change (λ w. record w {
        runs =
            update_rows (λ x. x.id == id)
              (λ x. record x {
                state = state;
                exit_code = code;
                error = message;
                ended_at = some ended;
              })
              w.runs;
      })

  abbrev pub read_run : String → Option Run → Action F Run
  read_run id none = fail (plain (str_append "run " (str_append id " not found")))
  read_run id (some r) = give r

  unfoldable pub get_run : String → Action F Run
  get_run id = statement >> (λ w. read_run id (find_run id w.runs) w)

  unfoldable pub has_attempt : String → List (Attempt F) → Bool
  has_attempt id [] = false
  has_attempt id (a ∷ more) = a.id == id || has_attempt id more

  abbrev pub insert_attempt : Platform → Attempt F → Action F (Unit {0})
  insert_attempt p a w =
      if has_attempt a.id w.attempts
      then refuse p.unique_failed w
      else change (λ v. record v { attempts = v.attempts ++ (record a { ended_at = none } ∷ []) }) w

  unfoldable pub create_attempt : Platform → Attempt F → Action F (Unit {0})
  create_attempt p a = statement >> insert_attempt p a

  -- UPDATE attempts ... WHERE id = ?
  unfoldable pub update_attempt : String → (Attempt F → Attempt F) → Action F (Unit {0})
  update_attempt id f =
      statement >> change (λ w. record w { attempts = update_rows (λ x. x.id == id) f w.attempts })

  unfoldable pub finish_attempt :
      String → AttemptState → ℤ → String → String → ℕ → Action F (Unit {0})
  finish_attempt id state code reason ref ended = update_attempt id (λ x. record x {
    state = state;
    exit_code = code;
    exit_reason = reason;
    provider_ref = ref;
    ended_at = some ended;
  })

  unfoldable pub update_attempt_provider_ref : String → String → Action F (Unit {0})
  update_attempt_provider_ref id ref = update_attempt id (λ x. record x { provider_ref = ref })

  unfoldable pub update_attempt_estimate : String → CostEstimate F → Action F (Unit {0})
  update_attempt_estimate id e =
      update_attempt id
        (λ x. record x { estimated_hourly_usd = some e.hourly_usd; estimate_currency = e.currency })

  unfoldable pub attempts_by_run : Platform → String → Action F (List (Attempt F))
  attempts_by_run p run_id = statement >> (λ w.
      give
        (sort_stable (λ a b. str_lt (time_key p a.started_at) (time_key p b.started_at))
          (rows (λ a. a.run_id == run_id) w.attempts))
        w)
  -- INSERT ... ON CONFLICT(run_id) DO UPDATE, which sets every other column
