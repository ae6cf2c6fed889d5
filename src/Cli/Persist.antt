-- ===== src/Cli/Persist.antt =====
-- persistProviderResource of internal/cli/root.go, and a Submit with its callbacks.
use Prim.Native.String.{◌++◌ as str_append}
use orchestrator_cli.Common.{
  String, ◌&&◌, ◌||◌, not, Option, none, some, List, [], ◌∷◌, ◌==◌, if◌then◌else◌,
}
use orchestrator_cli.App.Runs.{ProviderResource, ProviderResourceKind, AttemptState, RunState}
use orchestrator_cli.App.Errors.{Error, Result, ok, err}
use orchestrator_cli.State.World.{Platform}
use orchestrator_cli.State.Action.{Action, ◌>>=◌, ◌>>◌, give, ignore, attempt_of}
use orchestrator_cli.State.Tables.{finish_run, finish_attempt, update_attempt_provider_ref}
use orchestrator_cli.State.Resources.{save_provider_resource}
use orchestrator_cli.Cli.Types.{
  Submission, finished, on_started, on_resource, attempt_canceled, run_canceled, SubmitResult,
  exit_code_canceled,
}

unfoldable pub redact_values : (String → String) → List (String × String) → List (String × String)
redact_values redact [] = []
redact_values redact ((k, v) ∷ more) = (k, redact v) ∷ redact_values redact more

unfoldable pub redact_provider_resource : (String → String) → ProviderResource → ProviderResource
redact_provider_resource redact r = record r {
  external_id = redact r.external_id;
  provider_ref = redact r.provider_ref;
  project_or_account = redact r.project_or_account;
  metadata = redact_values redact r.metadata;
}

abbrev resource_kind_text : ProviderResourceKind → String
resource_kind_text ProviderResourceKind.custom_job = "custom_job"
resource_kind_text ProviderResourceKind.instance_kind = "instance"

unfoldable pub provider_resource_key : ProviderResource → String
provider_resource_key r =
    let external_id = if r.external_id == "" then r.provider_ref else r.external_id in
    if r.provider == "" || external_id == ""
    then ""
    else str_append r.provider
        (str_append "|" (str_append (resource_kind_text r.kind) (str_append "|" external_id)))

-- resourceIDs: a map from keys to ids, the latest entry first
abbrev pub ResourceIds : Type 0
ResourceIds = List (String × String)

unfoldable pub resource_id_of : String → ResourceIds → String
resource_id_of key [] = ""
resource_id_of key ((k, id) ∷ more) = if k == key then id else resource_id_of key more

abbrev pub with_known_id : ResourceIds → String → ProviderResource → ProviderResource
with_known_id ids key r =
    let id = resource_id_of key ids in
    if not (key == "") && not (id == "") then record r { id = id } else r

abbrev pub error_of : {A : Type 0} → Result A → Option Error
error_of (ok a) = none
error_of (err e) = some e

abbrev pub ids_of : ResourceIds → Result ResourceIds → ResourceIds
ids_of old (ok ids) = ids
ids_of old (err e) = old

module _ {F : Type 0} where
  unfoldable pub persist_provider_resource :
      Platform → (String → String) → ResourceIds → ProviderResource → Action F ResourceIds
  persist_provider_resource p redact ids resource =
      let r = redact_provider_resource redact resource in
      let key = provider_resource_key r in
      save_provider_resource p (with_known_id ids key r) >>= λ saved.
      give (if key == "" then ids else (key, saved.id) ∷ ids)

  -- adapter.Submit with the callbacks of runAttempt, for the attempt and the run with these ids
  unfoldable pub run_submission :
      Platform
      → (String → String)
      → String
      → String
      → ResourceIds
      → Submission
      → Action F (SubmitResult × Option Error)
  run_submission p redact run_id id ids (finished result e) = give (result, e)
  run_submission p redact run_id id ids (on_started ref k) =
      attempt_of (update_attempt_provider_ref id (redact ref)) >>= λ r.
      run_submission p redact run_id id ids (k (error_of r))
  run_submission p redact run_id id ids (on_resource resource k) =
      attempt_of (persist_provider_resource p redact ids resource) >>= λ r.
      run_submission p redact run_id id (ids_of ids r) (k (error_of r))
  run_submission p redact run_id id ids (attempt_canceled ref t rest) =
      ignore (finish_attempt id AttemptState.canceled exit_code_canceled "canceled" ref t)
      >> run_submission p redact run_id id ids rest
  run_submission p redact run_id id ids (run_canceled t rest) =
      ignore (finish_run run_id RunState.canceled exit_code_canceled "canceled" t)
      >> run_submission p redact run_id id ids rest
