-- ===== src/Artifact.antt =====
-- internal/artifact/artifact.go: the files of a run. path/filepath and the file system are parameters.
mod Contained
mod Tests
use Prim.Native.Char.{Char, code}
use Prim.Native.String.{◌++◌ as str_append}
use orchestrator_cli.Common.{
  ℕ, String, Bool, true, false, not, ◌||◌, ◌&&◌, Option, none, some, List, [], ◌∷◌, ◌==◌, eqb,
  if◌then◌else◌,
}
use orchestrator_cli.Common.Strings.{between, has_prefix}
use orchestrator_cli.App.Errors.{Error, Result, ok, err, plain}

pub record Paths : Type 0 where
  pub home : String
  pub db : String
  pub run_dir : String
  pub workspace : String
  pub events_jsonl : String
  pub logs : String
  pub summary : String
  pub checkpoints : String

-- filepath.Join, Abs, Rel, IsAbs and Base, strconv.Quote, fmt.Errorf with %w, and whether os.Stat finds
-- a file
pub record PathTools : Type 0 where
  pub join : List String → String
  pub abs : String → Result String
  pub rel : String → String → Result String
  pub is_abs : String → Bool
  pub base : String → String
  pub quote : String → String
  pub wrap : String → Error → Error
  pub exists : String → Bool

-- validRunID
abbrev pub is_id_start : ℕ → Bool
is_id_start n = between b'A' b'Z' n || between b'a' b'z' n || between b'0' b'9' n

abbrev pub is_id_char : ℕ → Bool
is_id_char n = is_id_start n || eqb n b'_' || eqb n b'-'

unfoldable pub all_id_chars : String → Bool
all_id_chars String.[] = true
all_id_chars (String.◌∷◌ c s) = is_id_char (code c) && all_id_chars s

unfoldable pub valid_run_id : String → Bool
unfolding all_id_chars
valid_run_id String.[] = false
valid_run_id (String.◌∷◌ c s) = is_id_start (code c) && all_id_chars s

abbrev pub and_then : Option Error → Option Error → Option Error
and_then none later = later
and_then (some e) later = some e

abbrev pub or_error : {A : Type 0} → Option Error → A → Result A
or_error none a = ok a
or_error (some e) a = err e

abbrev pub artifacts_of : Paths → List String
artifacts_of p = p.workspace ∷ p.events_jsonl ∷ p.logs ∷ p.summary ∷ p.checkpoints ∷ []

module _ (t : PathTools) where
  unfoldable pub validate_run_id : String → Option Error
  validate_run_id id =
      if valid_run_id id then none else some (plain (str_append "invalid run id " (t.quote id)))

  unfoldable pub db_path : String → String
  db_path home =
      let current = t.join (home ∷ "switchboard.db" ∷ []) in
      let legacy = t.join (home ∷ "orchestrator.db" ∷ []) in
      if t.exists current then current else if t.exists legacy then legacy else current

  abbrev pub escapes : String → Bool
  escapes r = not (r == "." || r == "") && (has_prefix r "../" || r == ".." || t.is_abs r)

  abbrev pub check_rel : String → String → Result String → Option Error
  check_rel base child (err e) = some e
  check_rel base child (ok r) =
      if escapes r then some (plain (str_append child (str_append " is outside " base))) else none

  abbrev pub check_child : String → String → String → Result String → Option Error
  check_child base child b (err e) = some e
  check_child base child b (ok c) = check_rel base child (t.rel b c)

  abbrev pub check_base : String → String → Result String → Option Error
  check_base base child (err e) = some e
  check_base base child (ok b) = check_child base child b (t.abs child)

  unfoldable pub ensure_contained : String → String → Option Error
  ensure_contained base child = check_base base child (t.abs base)

  abbrev pub labelled : String → Option Error → Option Error
  labelled label none = none
  labelled label (some e) = some (t.wrap label e)

  unfoldable pub all_contained : String → List String → Option Error
  unfolding ensure_contained
  all_contained base [] = none
  all_contained base (p ∷ more) =
      and_then (labelled "artifact path escapes run directory" (ensure_contained base p))
        (all_contained base more)

  abbrev pub runs_dir : String → String
  runs_dir home = t.join (home ∷ "runs" ∷ [])

  unfoldable pub validate_paths : Paths → Option Error
  unfolding validate_run_id
  validate_paths p = and_then (validate_run_id (t.base p.run_dir)) (
      and_then
        (labelled "run directory escapes runs root" (ensure_contained (runs_dir p.home) p.run_dir))
        (all_contained p.run_dir (artifacts_of p)))

  abbrev pub paths_in : String → String → Paths
  paths_in home run_dir = record {
    home = home;
    db = db_path home;
    run_dir = run_dir;
    workspace = t.join (run_dir ∷ "workspace" ∷ []);
    events_jsonl = t.join (run_dir ∷ "events.jsonl" ∷ []);
    logs = t.join (run_dir ∷ "logs.txt" ∷ []);
    summary = t.join (run_dir ∷ "summary.json" ∷ []);
    checkpoints = t.join (run_dir ∷ "checkpoints" ∷ []);
  }

  -- ForRun; a panic is an error
  unfoldable pub for_run : String → String → Result Paths
  unfolding validate_paths
  for_run home id =
      let paths = paths_in home (t.join (home ∷ "runs" ∷ id ∷ [])) in
      or_error (and_then (validate_run_id id) (validate_paths paths)) paths
