-- ===== src/Data/Tests.antt =====
-- A directory, a URI, and a manifest of both.
use orchestrator_cli.Common.{
  true, false, some, List, [], ◌∷◌, ◌≡◌, refl, ◌==◌, if◌then◌else◌, All, arith,
}
use orchestrator_cli.Common.Int.{pos, ◌<ℤ◌, ◌≤ℤ◌}
use orchestrator_cli.App.{JobSpec, DataInput, DataManifest}
use orchestrator_cli.App.Errors.{ok}
use orchestrator_cli.Data.Preflight.{
  Files, directory, missing, regular, a_dir, PreflightOptions, prepare, local_size, validate_uri,
}
use orchestrator_cli.Data.Bundles.{IsAccepted, bundled, prepare_accepts}

abbrev demo_files : Files
demo_files = record {
  lstat = λ p. if p == "data" then directory (a_dir ∷ regular 300 ∷ regular 45 ∷ []) else missing;
  url_scheme = λ s. if s == "data" then some "" else some "s3";
  to_lower = λ s. s;
}

abbrev demo_inputs : List DataInput
demo_inputs =
    record { name = "train"; source = "data"; mount = ""; mode = "" }
    ∷ record { name = "eval"; source = "s3://b/k"; mount = "/eval"; mode = "" }
    ∷ []

abbrev bundling : JobSpec
bundling = record {
  name = "";
  script = "train.py";
  image = "";
  command = [];
  args = [];
  env = [];
  inputs = demo_inputs;
  work_dir = ".";
}

abbrev limited : PreflightOptions
limited = record {
  bundle_size_limit_bytes = pos 1024;
  require_override = true;
  allow_large_bundle = false;
}

abbrev demo_manifest : DataManifest
demo_manifest = record {
  inputs =
      record { name = "train"; source = "data"; mount = "/workspace/data/train"; mode = "bundle" }
      ∷ record { name = "eval"; source = "s3://b/k"; mount = "/eval"; mode = "uri" }
      ∷ [];
  bundle_size_bytes = pos 345;
  requires_large_bundle_override = false;
  bundle_size_limit_bytes = pos 1024;
  large_bundle_override_permitted = false;
}

prepared : prepare demo_files bundling limited ≡ ok demo_manifest
unfolding prepare local_size validate_uri
prepared = refl

prepare_accepts_example :
    All (IsAccepted demo_files) demo_manifest.inputs
    × (demo_manifest.bundle_size_bytes ≡ pos (bundled demo_files demo_manifest.inputs))
    × (limited.require_override ≡ true
        → limited.allow_large_bundle ≡ false
        → pos 0 <ℤ limited.bundle_size_limit_bytes
        → pos (bundled demo_files demo_manifest.inputs) ≤ℤ limited.bundle_size_limit_bytes)
prepare_accepts_example =
    prepare_accepts demo_files bundling limited demo_manifest prepared (omega arith)
