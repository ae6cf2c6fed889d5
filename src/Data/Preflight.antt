-- ===== src/Data/Preflight.antt =====
-- Prepare of internal/data/preflight.go. What os.Lstat and filepath.WalkDir see of a path is a value of
-- `Stat`; a size is a number below 2 ^ 63, and the totals are Go's int64. A text that the code formats with
-- %q stands here without its quotes, and the error about the limit without its two numbers.
use Prim.Native.String.{◌++◌ as str_append}
use orchestrator_cli.Common.{
  ℕ, String, Bool, false, not, ◌&&◌, ◌||◌, Option, none, some, List, [], ◌∷◌, ◌==◌, if◌then◌else◌,
}
use orchestrator_cli.Common.Int.{ℤ, pos, ltb_ℤ, add_int64}
use orchestrator_cli.App.{JobSpec, DataInput, DataManifest, mode_bundle, mode_uri}
use orchestrator_cli.App.Errors.{Error, plain, wrapped, Result, ok, err}

-- one call of the function that filepath.WalkDir is given
pub data Visit : Type 0 where
  unreadable : Error → Visit
  a_link : String → Visit
  a_dir : Visit
  no_info : Error → Visit
  irregular : String → Visit
  regular : ℕ → Visit

-- what os.Lstat says of a path; for a directory, the visits of the walk in their order
pub data Stat : Type 0 where
  missing : Stat
  failed : Error → Stat
  link : Stat
  special : Stat
  file : ℕ → Stat
  directory : List Visit → Stat

pub record Files : Type 0 where
  pub lstat : String → Stat
  pub url_scheme : String → Option String
  pub to_lower : String → String

pub record PreflightOptions : Type 0 where
  pub bundle_size_limit_bytes : ℤ
  pub require_override : Bool
  pub allow_large_bundle : Bool

abbrev pub quoted : String → String → String → String
quoted before s after = str_append before (str_append s after)

unfoldable pub supported_uri_scheme : String → Bool
supported_uri_scheme s = s == "http" || s == "https" || s == "s3" || s == "gs"

abbrev links_text : String
links_text = " is a symlink; bundled data inputs must not contain symlinks"

abbrev files_text : String
files_text =
    " is not a regular file; bundled data inputs must contain only regular files and directories"

-- the walk's function, with the total so far
unfoldable pub visit_size : ℤ → Visit → Result ℤ
visit_size total (unreadable e) = err e
visit_size total (a_link p) = err (plain (quoted "data input path " p links_text))
visit_size total a_dir = ok total
visit_size total (no_info e) = err e
visit_size total (irregular p) = err (plain (quoted "data input path " p files_text))
visit_size total (regular n) = ok (add_int64 total (pos n))

unfoldable pub walk_size : ℤ → List Visit → Result ℤ
unfolding visit_size
walk_size total [] = ok total
walk_size total (v ∷ more) = elim (visit_size total v) [ ok t ↦ walk_size t more | err e ↦ err e ]

abbrev walked : String → Result ℤ → Result ℤ
walked path (ok n) = ok n
walked path (err e) = err (wrapped (quoted "walk data input path " path "") e)

unfoldable pub size_of : String → Stat → Result ℤ
unfolding walk_size
size_of path missing = err (plain (quoted "data input path " path " does not exist"))
size_of path (failed e) = err (wrapped (quoted "stat data input path " path "") e)
size_of path link = err (plain (quoted "data input path " path links_text))
size_of path special = err (plain (quoted "data input path " path files_text))
size_of path (file n) = ok (pos n)
size_of path (directory visits) = walked path (walk_size (pos 0) visits)

module _ (fs : Files) where
  unfoldable pub local_size : String → Result ℤ
  unfolding size_of
  local_size path = size_of path (fs.lstat path)

  abbrev scheme_supported : Option String → Bool
  scheme_supported none = false
  scheme_supported (some s) = not (s == "") && supported_uri_scheme (fs.to_lower s)

  unfoldable pub is_uri : String → Bool
  unfolding supported_uri_scheme
  is_uri source = scheme_supported (fs.url_scheme source)

  abbrev check_scheme : String → Option String → Option Error
  check_scheme source none = some (plain (quoted "invalid data URI " source ""))
  check_scheme source (some s) =
      if s == ""
      then some (plain (quoted "invalid data URI " source ""))
      else if supported_uri_scheme (fs.to_lower s)
      then none
      else some (plain (quoted "unsupported data URI scheme " s ""))

  unfoldable pub validate_uri : String → Option Error
  unfolding supported_uri_scheme
  validate_uri source = check_scheme source (fs.url_scheme source)

  unfoldable pub normalize_input : DataInput → Result DataInput
  unfolding is_uri
  normalize_input i =
      if i.name == ""
      then err (plain "data input name is required")
      else if i.source == ""
      then err (plain (quoted "data input " i.name " source is required"))
      else ok (record i {
        mode = if i.mode == "" then (if is_uri i.source then mode_uri else mode_bundle) else i.mode;
        mount = if i.mount == "" then str_append "/workspace/data/" i.name else i.mount;
      })

  abbrev added : ℤ → Result ℤ → Result ℤ
  added total (ok n) = ok (add_int64 total n)
  added total (err e) = err e

  abbrev unless_error : ℤ → Option Error → Result ℤ
  unless_error total none = ok total
  unless_error total (some e) = err e

  -- the `switch` of the loop: the total after a normalized input
  unfoldable pub total_with : ℤ → DataInput → Result ℤ
  unfolding local_size
  total_with total i =
      if i.mode == mode_bundle
      then added total (local_size i.source)
      else if i.mode == mode_uri
      then unless_error total (validate_uri i.source)
      else err (plain (quoted "unsupported data input mode " i.mode (str_append " for " i.name)))

  -- the loop: the normalized inputs, and the total
  unfoldable pub check_inputs : ℤ → List DataInput → Result (List DataInput × ℤ)
  unfolding normalize_input total_with
  check_inputs total [] = ok ([], total)
  check_inputs total (i ∷ more) = elim (normalize_input i) [
    | err e ↦ err e
    | ok n ↦ elim (total_with total n) [
      | err e ↦ err e
      | ok t ↦ elim (check_inputs t more) [ err e ↦ err e | ok (ns, end) ↦ ok (n ∷ ns, end) ]
    ]
  ]

  abbrev above_limit : PreflightOptions → ℤ → Bool
  above_limit o total =
      o.require_override
      && ltb_ℤ (pos 0) o.bundle_size_limit_bytes
      && ltb_ℤ o.bundle_size_limit_bytes total

  abbrev pub manifest : PreflightOptions → Result (List DataInput × ℤ) → Result DataManifest
  manifest o (err e) = err e
  manifest o (ok (inputs, total)) =
      if above_limit o total && not o.allow_large_bundle
      then err (
          plain
            "data bundle is above limit; use URI/object storage or pass --allow-large-data-bundle")
      else ok (record {
        inputs = inputs;
        bundle_size_bytes = total;
        requires_large_bundle_override = above_limit o total;
        bundle_size_limit_bytes = o.bundle_size_limit_bytes;
        large_bundle_override_permitted = o.allow_large_bundle;
      })

  unfoldable pub prepare : JobSpec → PreflightOptions → Result DataManifest
  unfolding check_inputs
  prepare job o = manifest o (check_inputs (pos 0) job.inputs)
