-- ===== src/Staging/Tests.antt =====
-- Staging of a job with a bundled file and a bundled directory.
use orchestrator_cli.Common.{◌==◌, none, [], ◌∷◌, ◌++◌, ◌≡◌, refl, map}
use orchestrator_cli.Common.Strings.{trim, trim_left, trim_right, join}
use orchestrator_cli.App.{DataInput, JobSpec}
use orchestrator_cli.App.Errors.{ok}
use orchestrator_cli.Config.Settings.{StagingConfig}
use orchestrator_cli.Cli.Tests.{demo_manifest}
use orchestrator_cli.Staging.Prefix.{join_uri, trimmed_parts, data_prefix}
use orchestrator_cli.Staging.Managed.{
  Visited, StageTools, Uploads, stage_walk, ManagedResult, ◌>>=◌, upload_file, staged_at, stage_as,
  stage_input, stage_or_keep, stage_inputs, managed, stage_bundled_inputs,
}
use orchestrator_cli.Staging.Staged.{AllStaged, expected, stage_bundled_inputs_ok}

abbrev demo_staging : StageTools
demo_staging = record {
  quote = λ s. s;
  stat = λ s. ok (s == "/d");
  walk = λ s.
      Visited.directory
      ∷ Visited.file "/d/x.csv" (ok "x.csv")
      ∷ Visited.directory
      ∷ Visited.file "/d/y/z.csv" (ok "y/z.csv")
      ∷ [];
  base = λ s. "a.csv";
  upload = λ source destination n. none;
  wrap = λ s e. e;
}

abbrev demo_config : StagingConfig
demo_config = record { checkpoint_uri_prefix = ""; data_uri_prefix = "gs://b/x/" }

abbrev demo_input : DataInput
demo_input = record { name = "train"; source = "/d/a.csv"; mount = "/data"; mode = "bundle" }

abbrev demo_directory : DataInput
demo_directory = record { name = "all"; source = "/d"; mount = ""; mode = "bundle" }

abbrev demo_job : JobSpec
demo_job = record {
  name = "train";
  script = "";
  image = "i";
  command = [];
  args = [];
  env = [];
  inputs = demo_input ∷ demo_directory ∷ [];
  work_dir = "";
}

abbrev demo_result : ManagedResult
demo_result = managed demo_job demo_manifest (
  staged_at "gs://b/x/r_1/data/train/a.csv" demo_input
      ∷ staged_at "gs://b/x/r_1/data/all" demo_directory
      ∷ [],
  "gs://b/x/r_1/data/train/a.csv" ∷ "gs://b/x/r_1/data/all/x.csv" ∷ "gs://b/x/r_1/data/all/y/z.csv"
      ∷ [],
)

abbrev demo_uploads : Uploads
demo_uploads =
    ("/d/a.csv", "gs://b/x/r_1/data/train/a.csv")
    ∷ ("/d/x.csv", "gs://b/x/r_1/data/all/x.csv")
    ∷ ("/d/y/z.csv", "gs://b/x/r_1/data/all/y/z.csv")
    ∷ []

staged_demo :
    stage_bundled_inputs demo_staging demo_config "r_1" demo_job demo_manifest []
    ≡ (ok demo_result, demo_uploads)
unfolding stage_bundled_inputs stage_inputs stage_or_keep stage_input stage_as upload_file
    stage_walk ◌>>=◌ join_uri trimmed_parts data_prefix trim trim_left trim_right join
staged_demo = refl

stage_bundled_inputs_ok_example :
    ((demo_uploads ≡ [] ++ expected demo_staging demo_config "r_1" demo_job.inputs)
      × (map (λ u. u.1) (expected demo_staging demo_config "r_1" demo_job.inputs)
          ≡ demo_result.uploaded_objects))
    × AllStaged demo_staging demo_config "r_1" demo_job.inputs demo_result.job.inputs
    × (demo_result
        ≡ managed demo_job demo_manifest (demo_result.job.inputs, demo_result.uploaded_objects))
stage_bundled_inputs_ok_example =
    stage_bundled_inputs_ok demo_staging demo_config "r_1" demo_job demo_manifest [] demo_uploads
      demo_result refl staged_demo
