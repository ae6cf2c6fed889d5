-- ===== src/Cli/Attempts.antt =====
-- runAttempts of internal/cli/root.go: attempts on one provider after the other.
use Prim.Native.String.{◌++◌ as str_append}
use orchestrator_cli.Common.{
  ℕ, zero, suc, String, Bool, true, false, not, ◌||◌, Option, none, some, List, [], ◌∷◌, ◌==◌,
  if◌then◌else◌,
}
use orchestrator_cli.Common.Int.{ℤ, pos, pos_part, ltb_ℤ}
use orchestrator_cli.Common.Text.{GoText}
use orchestrator_cli.Common.Float.{Float64}
use orchestrator_cli.App.{JobSpec, DataManifest, CheckpointRef, ProviderCapabilities, provider_auto}
use orchestrator_cli.App.Errors.{Error, Result, ok, err, plain, error_text}
use orchestrator_cli.App.Decision.{HardwareSelection, RoutingDecision}
use orchestrator_cli.Routing.Types.{Options, ProviderAdapter}
use orchestrator_cli.Routing.Registry.{Registry, get}
use orchestrator_cli.Routing.Providers.{contains_fold}
use orchestrator_cli.Routing.Select.{Outcome, select}
use orchestrator_cli.State.World.{World}
use orchestrator_cli.State.Action.{◌>>◌, ignore}
use orchestrator_cli.State.Decisions.{save_routing_decision}
use orchestrator_cli.Checkpoint.{latest, Event}
use orchestrator_cli.Cli.Types.{
  Surroundings, TrainConfig, AttemptExit, RunExit, exit_code_internal, exit_code_routing,
  exit_code_missing_resume,
}
use orchestrator_cli.Cli.Attempt.{write_summary, finish_run_only, run_attempt}

-- `excluded` and `resumeFrom` of the loop
pub record Progress : Type 0 where
  pub excluded : List String
  pub resume_from : Option CheckpointRef

abbrev run_exit : ℤ → Option Error → RunExit
run_exit code e = record { code = code; error = e }

abbrev scheme_of_cut : ⦃t : GoText⦄ → Option String → String
scheme_of_cut none = "file"
scheme_of_cut ⦃t⦄ (some before) = if before == "" then "file" else t.to_lower before

-- checkpointScheme of internal/cli/root.go
unfoldable pub cut_checkpoint_scheme : ⦃t : GoText⦄ → String → String
cut_checkpoint_scheme ⦃t⦄ uri = scheme_of_cut (t.cut_before uri "://")

abbrev unsupported : String → String → String → Error
unsupported provider scheme uri = plain (
    str_append "provider " (
      str_append provider (
        str_append " does not support \""
          (str_append scheme (str_append "\" checkpoint resume URI \"" (str_append uri "\""))))))

module _ {F : Type 0} where
  -- routingOptions
  unfoldable pub routing_options : TrainConfig F → Progress → Options F
  routing_options c g = record c.options { exclude = g.excluded; resume_from = g.resume_from }

  -- the number of rounds of the loop
  unfoldable pub attempt_limit : TrainConfig F → ℕ
  attempt_limit c = if ltb_ℤ c.max_attempts (pos 1) then 1 else pos_part c.max_attempts

  unfoldable pub ensure_capabilities :
      ⦃t : GoText⦄ → String → CheckpointRef → Result (ProviderCapabilities F) → Option Error
  ensure_capabilities provider r (err e) = some e
  ensure_capabilities provider r (ok c) =
      let scheme = cut_checkpoint_scheme r.uri in
      if contains_fold c.supported_checkpoint_schemes scheme
      then none
      else some (unsupported provider scheme r.uri)

  -- ensureProviderSupportsCheckpoint, by what registry.Get returns; `none` is a nil error
  unfoldable pub ensure_provider_supports_checkpoint :
      ⦃t : GoText⦄ → String → CheckpointRef → Result (ProviderAdapter F) → Option Error
  ensure_provider_supports_checkpoint provider r (err e) = some e
  ensure_provider_supports_checkpoint provider r (ok a) =
      ensure_capabilities provider r a.capabilities

-- attemptNumber == maxAttempts, by the number of rounds after this one
abbrev pub is_last : ℕ → Bool
is_last zero = true
is_last (suc n) = false

-- how the choice of a round ends
pub data Choice (F : Type 0) : Type 0 where
  chosen : String → Option (HardwareSelection F) → Choice F
  ended : RunExit → Choice F

-- how a round of the loop ends
pub data Round : Type 0 where
  done : RunExit → Round
  again : Progress → Round

module _ {F : Type 0} ⦃f : Float64 F⦄ ⦃t : GoText⦄ (s : Surroundings F) (c : TrainConfig F)
    (run_id : String) (registry : Registry F) (job : JobSpec) (manifest : DataManifest) where
  -- `finishRunOnly(...); _ = writeSummary(...)`
  unfoldable pub end_run : ℤ → String → World F → World F
  end_run code reason w =
      ((finish_run_only s run_id code reason >> ignore (write_summary s run_id)) w).1

  unfoldable pub save_decision : RoutingDecision F → World F → World F
  save_decision d w =
      if run_id == ""
      then w
      else (save_routing_decision s.decision_json (record d { run_id = run_id }) w).1

  abbrev unreachable : CheckpointRef → String
  unreachable r =
      str_append "retryable provider failure but checkpoint \""
        (str_append r.uri "\" is not reachable by any remaining provider")

  abbrev pub fail_run : ℤ → String → Error → World F → Choice F × World F
  fail_run code text e w = (ended (run_exit code (some e)), end_run code (s.redact job.env text) w)

  -- what follows routing.Select
  unfoldable pub choose_auto : Progress → Outcome F → World F → Choice F × World F
  choose_auto g (d, none) w = (chosen d.selected_provider d.selected_hardware, save_decision d w)
  choose_auto g (d, some e) w = elim g.resume_from [
    | some r ↦
        fail_run exit_code_missing_resume (unreachable r) (plain (unreachable r))
          (save_decision d w)
    | none ↦
        fail_run exit_code_routing (error_text (s.select_error e)) (s.select_error e)
          (save_decision d w)
  ]

  abbrev pub ensured : Option Error → World F → Choice F × World F
  ensured none w = (chosen c.provider none, w)
  ensured (some e) w = fail_run exit_code_missing_resume (error_text e) e w

  unfoldable pub choose_explicit : Option CheckpointRef → World F → Choice F × World F
  choose_explicit none w = (chosen c.provider none, w)
  choose_explicit (some r) w =
      ensured (ensure_provider_supports_checkpoint c.provider r (get registry c.provider)) w

  unfoldable pub choose_provider : Progress → World F → Choice F × World F
  choose_provider g w =
      if c.provider == provider_auto
      then choose_auto g (select registry job (routing_options c g)) w
      else choose_explicit g.resume_from w

  -- checkpoint.Resolver.Latest
  abbrev pub latest_of : Result (List Event) → Option CheckpointRef
  latest_of (err e) = none
  latest_of (ok es) = latest s.sanitize_uri es

  abbrev no_checkpoint : String
  no_checkpoint = "retryable provider failure but no checkpoint was found"

  -- after a retryable failure that is not the last attempt
  unfoldable pub resume_at : Progress → String → Option CheckpointRef → World F → Round × World F
  resume_at g provider none w = (
    done (run_exit exit_code_missing_resume (some (plain no_checkpoint))),
    end_run exit_code_missing_resume no_checkpoint w,
  )
  resume_at g provider (some r) w =
      (again (record { excluded = provider ∷ g.excluded; resume_from = some r }), w)

  abbrev pub finish_retryable : Bool → ℤ → Error → World F → World F
  finish_retryable retryable code e w =
      if retryable then (finish_run_only s run_id code (s.redact job.env (error_text e)) w).1 else w

  abbrev pub attempt_failed :
      Bool → Progress → String → AttemptExit → Error → World F → Round × World F
  attempt_failed last g provider x e w =
      if not x.retryable || (not (c.provider == provider_auto) || last)
      then (
        done (run_exit x.code (some e)),
        (ignore (write_summary s run_id) (finish_retryable x.retryable x.code e w)).1,
      )
      else resume_at g provider (latest_of (s.read_events w.asked)) w

  -- what follows runAttempt
  unfoldable pub after_attempt :
      Bool → Progress → String → AttemptExit → Option Error → World F → Round × World F
  after_attempt last g provider x none w = (done (run_exit x.code none), w)
  after_attempt last g provider x (some e) w = attempt_failed last g provider x e w

  unfoldable pub attempt_round : Bool → Progress → Choice F × World F → Round × World F
  attempt_round last g (ended x, w) = (done x, w)
  attempt_round last g (chosen provider hardware, w) =
      let (x, after) =
        run_attempt s run_id provider g.resume_from hardware registry job manifest w in
      after_attempt last g provider x x.error after

  abbrev pub proceed :
      (Progress → World F → RunExit × World F) → Round × World F → RunExit × World F
  proceed next (done x, w) = (x, w)
  proceed next (again g, w) = next g w

  -- the loop, by the number of rounds left
  unfoldable pub run_attempts_from : ℕ → Progress → World F → RunExit × World F
  run_attempts_from zero g w =
      (run_exit exit_code_internal (some (plain "run did not complete")), w)
  run_attempts_from (suc left) g w =
      proceed (run_attempts_from left) (attempt_round (is_last left) g (choose_provider g w))

  unfoldable pub run_attempts : Option CheckpointRef → World F → RunExit × World F
  run_attempts initial w =
      run_attempts_from (attempt_limit c) (record { excluded = []; resume_from = initial }) w
