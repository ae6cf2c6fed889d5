-- ===== src/Staging/Managed.antt =====
-- internal/staging/managed.go: the upload of the bundled inputs of a job.
use Prim.Native.String.{◌++◌ as str_append}
use orchestrator_cli.Common.{
  ℕ, String, Bool, true, false, Option, none, some, List, [], ◌∷◌, ◌++◌, ◌==◌, length,
  if◌then◌else◌,
}
use orchestrator_cli.Common.Int.{pos}
use orchestrator_cli.App.{DataInput, DataManifest, JobSpec}
use orchestrator_cli.App.Errors.{Error, Result, ok, err, plain}
use orchestrator_cli.Config.Settings.{StagingConfig}
use orchestrator_cli.Staging.Prefix.{join_uri, data_prefix}

-- what the function of WalkDir is called with: an error, a directory, a file whose Info fails, one
-- that is not regular, or a regular one with its path relative to the input, if filepath.Rel has one
pub data Visited : Type 0 where
  walk_failed : Error → Visited
  directory : Visited
  no_info : Error → Visited
  irregular : String → Visited
  file : String → Result String → Visited

-- strconv.Quote, os.Stat (whether it is a directory), filepath.WalkDir, filepath.Base, and UploadFile by the number
-- of files that were uploaded before; `wrap` is fmt.Errorf with %w
pub record StageTools : Type 0 where
  pub quote : String → String
  pub stat : String → Result Bool
  pub walk : String → List Visited
  pub base : String → String
  pub upload : String → String → ℕ → Option Error
  pub wrap : String → Error → Error

-- the uploads so far, source and destination
abbrev pub Uploads : Type 0
Uploads = List (String × String)

abbrev pub Staging : Type 0 → Type 0
Staging A = Uploads → Result A × Uploads

abbrev pub next : {A B : Type 0} → (A → Staging B) → Result A × Uploads → Result B × Uploads
next k (ok a, log) = k a log
next k (err e, log) = (err e, log)

infixl 5 ◌>>=◌
unfoldable pub ◌>>=◌ : {A B : Type 0} → Staging A → (A → Staging B) → Staging B
(m >>= k) log = next k (m log)

abbrev pub give : {A : Type 0} → A → Staging A
give a log = (ok a, log)

abbrev pub lift : {A : Type 0} → Result A → Staging A
lift r log = (r, log)

-- `fmt.Errorf("...: %w", err)` around the error of an action
abbrev pub wrapped : {A : Type 0} → (Error → Error) → Result A × Uploads → Result A × Uploads
wrapped w (ok a, log) = (ok a, log)
wrapped w (err e, log) = (err (w e), log)

abbrev pub wrap_error : {A : Type 0} → (Error → Error) → Result A → Result A
wrap_error w (ok a) = ok a
wrap_error w (err e) = err (w e)

pub record ManagedResult : Type 0 where
  pub job : JobSpec
  pub manifest : DataManifest
  pub uploaded_objects : List String

abbrev pub staged_at : String → DataInput → DataInput
staged_at source i = record i { source = source; mode = "uri" }

abbrev pub managed : JobSpec → DataManifest → List DataInput × List String → ManagedResult
managed job manifest x = record {
  job = record job { inputs = x.0 };
  manifest = record manifest {
    inputs = x.0;
    bundle_size_bytes = pos 0;
    requires_large_bundle_override = false;
  };
  uploaded_objects = x.1;
}

module _ (t : StageTools) where
  abbrev uploaded_as : String → String → Option Error → Staging (Unit {0})
  uploaded_as source destination none log = (ok tt, log ++ ((source, destination) ∷ []))
  uploaded_as source destination (some e) log = (err e, log)

  unfoldable pub upload_file : String → String → Staging (Unit {0})
  upload_file source destination log =
      uploaded_as source destination (t.upload source destination (length log)) log

  -- the walk over a directory; the destinations
  unfoldable pub stage_walk : String → List Visited → Staging (List String)
  stage_walk prefix [] = give []
  stage_walk prefix (Visited.walk_failed e ∷ more) = lift (err e)
  stage_walk prefix (Visited.directory ∷ more) = stage_walk prefix more
  stage_walk prefix (Visited.no_info e ∷ more) = lift (err e)
  stage_walk prefix (Visited.irregular path ∷ more) = lift (
      err (
        plain
          (str_append "staged input path " (str_append (t.quote path) " is not a regular file"))))
  stage_walk prefix (Visited.file path rel ∷ more) = do
    r ← lift rel
    u ← upload_file path (join_uri (prefix ∷ r ∷ []))
    rest ← stage_walk prefix more
    give (join_uri (prefix ∷ r ∷ []) ∷ rest)

  abbrev pub walk_staged : String → String → Staging (List String)
  walk_staged prefix source log =
      wrapped (t.wrap "stage data input") (stage_walk prefix (t.walk source) log)

  -- stageInput after os.Stat
  unfoldable pub stage_as : String → DataInput → Bool → Staging (DataInput × List String)
  unfolding stage_walk
  stage_as prefix i true =
      walk_staged prefix i.source >>= λ objects. give (staged_at prefix i, objects)
  stage_as prefix i false = upload_file i.source (join_uri (prefix ∷ t.base i.source ∷ [])) >>= λ u.
      give (
        staged_at (join_uri (prefix ∷ t.base i.source ∷ [])) i,
        join_uri (prefix ∷ t.base i.source ∷ []) ∷ [],
      )

  unfoldable pub stage_input :
      StagingConfig → String → DataInput → Staging (DataInput × List String)
  unfolding stage_as
  stage_input cfg run_id i =
      lift (wrap_error (t.wrap "stat staged input") (t.stat i.source)) >>= λ is_dir.
      stage_as (join_uri (data_prefix cfg run_id ∷ i.name ∷ [])) i is_dir

  -- one round of the loop of StageBundledInputs
  unfoldable pub stage_or_keep :
      StagingConfig → String → DataInput → Staging (DataInput × List String)
  unfolding stage_input
  stage_or_keep cfg run_id i = if i.mode == "bundle" then stage_input cfg run_id i else give (i, [])

  unfoldable pub stage_inputs :
      StagingConfig → String → List DataInput → Staging (List DataInput × List String)
  stage_inputs cfg run_id [] = give ([], [])
  stage_inputs cfg run_id (i ∷ more) = stage_or_keep cfg run_id i >>= λ x.
      stage_inputs cfg run_id more >>= λ y. give (x.0 ∷ y.0, x.1 ++ y.1)

  unfoldable pub stage_bundled_inputs :
      StagingConfig → String → JobSpec → DataManifest → Staging ManagedResult
  unfolding stage_inputs
  stage_bundled_inputs cfg run_id job manifest =
      if cfg.data_uri_prefix == ""
      then give (record { job = job; manifest = manifest; uploaded_objects = [] })
      else stage_inputs cfg run_id job.inputs >>= λ x. give (managed job manifest x)
