-- ===== src/Staging/Prefix.antt =====
-- internal/staging/staging.go: the prefixes of a run and the environment of its inputs.
use Prim.Native.Char.{Char}
use Prim.Native.String.{◌++◌ as str_append}
use orchestrator_cli.Common.{
  ℕ, String, Bool, true, false, not, ◌||◌, List, [], ◌∷◌, ◌==◌, eqb, if◌then◌else◌,
}
use orchestrator_cli.Common.Strings.{trim, trim_right, join}
use orchestrator_cli.App.{DataInput}
use orchestrator_cli.Config.Settings.{StagingConfig}
use orchestrator_cli.Cli.Cleanup.{set_value}

abbrev is_slash : ℕ → Bool
is_slash n = eqb n b'/'

-- the parts after the first one
unfoldable pub trimmed_parts : List String → List String
trimmed_parts [] = []
trimmed_parts (p ∷ more) =
    if p == "" then trimmed_parts more else trim is_slash p ∷ trimmed_parts more

unfoldable pub join_uri : List String → String
unfolding trimmed_parts
join_uri [] = ""
join_uri (p ∷ more) =
    join "/" (if p == "" then trimmed_parts more else trim_right is_slash p ∷ trimmed_parts more)

unfoldable pub checkpoint_prefix : StagingConfig → String → String
unfolding join_uri
checkpoint_prefix cfg run_id = join_uri (cfg.checkpoint_uri_prefix ∷ run_id ∷ "checkpoints" ∷ [])

unfoldable pub data_prefix : StagingConfig → String → String
unfolding join_uri
data_prefix cfg run_id = join_uri (cfg.data_uri_prefix ∷ run_id ∷ "data" ∷ [])

-- unicode.IsLetter or unicode.IsDigit, and unicode.ToUpper
pub record Letters : Type 0 where
  pub is_alnum : Char → Bool
  pub upper : Char → Char

-- the loop of inputEnvKey; `separated` is lastUnderscore, or that nothing is written yet
unfoldable pub env_key_from : Letters → Bool → String → String
env_key_from l separated String.[] = String.[]
env_key_from l separated (String.◌∷◌ c s) =
    let kept = env_key_from l false s in
    let dropped = env_key_from l true s in
    if l.is_alnum c
    then String.◌∷◌ (l.upper c) kept
    else if separated
    then dropped
    else String.◌∷◌ "_" dropped

unfoldable pub input_env_key : Letters → String → String
unfolding env_key_from
input_env_key l name = trim (λ n. eqb n b'_') (env_key_from l true name)

abbrev prefix_pairs : String → String → String → List (String × String) → List (String × String)
prefix_pairs configured name prefix env =
    if configured == ""
    then env
    else set_value (str_append "ORCHESTRATOR_" name) prefix
        (set_value (str_append "SWITCHBOARD_" name) prefix env)

abbrev data_name : String → String → String
data_name key suffix = str_append "SWITCHBOARD_DATA_" (str_append key suffix)

abbrev mount_pair : String → String → List (String × String) → List (String × String)
mount_pair key mount env = if mount == "" then env else set_value (data_name key "_MOUNT") mount env

abbrev keyed_input : String → DataInput → List (String × String) → List (String × String)
keyed_input key i env =
    if key == ""
    then env
    else mount_pair key i.mount (set_value (data_name key "_URI") i.source env)

abbrev input_pairs : Letters → DataInput → List (String × String) → List (String × String)
input_pairs l i env =
    if not (i.mode == "uri") || i.source == "" || i.name == ""
    then env
    else keyed_input (input_env_key l i.name) i env

unfoldable pub inputs_env :
    Letters → List DataInput → List (String × String) → List (String × String)
unfolding input_env_key set_value
inputs_env l [] env = env
inputs_env l (i ∷ more) env = inputs_env l more (input_pairs l i env)

unfoldable pub runtime_env :
    Letters → StagingConfig → String → List DataInput → List (String × String)
unfolding inputs_env checkpoint_prefix data_prefix
runtime_env l cfg run_id inputs = inputs_env l inputs (
    prefix_pairs cfg.data_uri_prefix "DATA_URI_PREFIX" (data_prefix cfg run_id) (
      prefix_pairs cfg.checkpoint_uri_prefix "CHECKPOINT_URI_PREFIX" (checkpoint_prefix cfg run_id)
        []))
