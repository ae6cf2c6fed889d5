-- ===== src/Artifact/Tests.antt =====
-- The paths of a run "r_1" in "/h".
use orchestrator_cli.Common.{[], ◌∷◌, if◌then◌else◌, false, ◌≡◌, refl, All}
use orchestrator_cli.Common.Strings.{join, has_prefix, drop_prefix}
use orchestrator_cli.App.Errors.{ok}
use orchestrator_cli.Artifact.{
  Paths, PathTools, for_run, artifacts_of, runs_dir, validate_run_id, valid_run_id, all_id_chars,
  validate_paths, all_contained, ensure_contained, db_path,
}
use orchestrator_cli.Artifact.Contained.{IsElement, IsIn, for_run-IsIn}

-- clean absolute paths, of which the second one is below the first one
abbrev demo_tools : PathTools
demo_tools = record {
  join = λ parts. join "/" parts;
  abs = λ p. ok p;
  rel = λ base child.
      if has_prefix child (join "/" (base ∷ "" ∷ []))
      then ok (drop_prefix child (join "/" (base ∷ "" ∷ [])))
      else ok "..";
  is_abs = λ p. false;
  base = λ p. drop_prefix p "/h/runs/";
  quote = λ p. p;
  wrap = λ label e. e;
  exists = λ p. false;
}

abbrev demo_paths : Paths
demo_paths = record {
  home = "/h";
  db = "/h/switchboard.db";
  run_dir = "/h/runs/r_1";
  workspace = "/h/runs/r_1/workspace";
  events_jsonl = "/h/runs/r_1/events.jsonl";
  logs = "/h/runs/r_1/logs.txt";
  summary = "/h/runs/r_1/summary.json";
  checkpoints = "/h/runs/r_1/checkpoints";
}

made : for_run demo_tools "/h" "r_1" ≡ ok demo_paths
unfolding for_run validate_paths validate_run_id valid_run_id all_id_chars all_contained
    ensure_contained db_path join has_prefix drop_prefix
made = refl

for_run-IsIn_example :
    IsElement "r_1"
    × IsIn demo_tools (runs_dir demo_tools "/h") demo_paths.run_dir
    × All (λ f. IsIn demo_tools demo_paths.run_dir f) (artifacts_of demo_paths)
for_run-IsIn_example = for_run-IsIn demo_tools "/h" "r_1" demo_paths made
