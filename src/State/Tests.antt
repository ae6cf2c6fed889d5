-- ===== src/State/Tests.antt =====
-- A decision that is saved for a second run, and a resource that is saved again.
use orchestrator_cli.Common.{
  ap, ℕ, String, true, ◌==◌, ◌≡◌, refl, none, some, List, [], ◌∷◌, if◌then◌else◌,
}
use orchestrator_cli.Common.Float.{Milli, milli_float}
use orchestrator_cli.App.Runs.{
  ProviderResource, ProviderResourceKind, ProviderResourceState, ProviderResourceCleanupPolicy,
}
use orchestrator_cli.App.Errors.{ok, err, plain, Result}
use orchestrator_cli.App.Decision.{RoutingDecision}
use orchestrator_cli.State.World.{World}
use orchestrator_cli.State.Action.{◌>>=◌, statement}
use orchestrator_cli.State.Decisions.{
  DecisionJson, save_routing_decision, get_routing_decision, find_decision, upsert_decision,
}
use orchestrator_cli.State.Resources.{upsert_resource}
use orchestrator_cli.State.RoundTrip.{
  ReadsBack, find_resource, created_of, get-save_routing_decision, find-upsert_resource,
}

abbrev decision : String → RoutingDecision Milli
decision id = record {
  run_id = id;
  selected_provider = "gcp";
  objective = "min_cost";
  selection_reason = "selected gcp by min_cost";
  eligible_providers = [];
  rejected_providers = [];
  selected_hardware = none;
  eligible_hardware = [];
  rejected_hardware = [];
  estimated_required_vram_gb = none;
  estimated_runtime_seconds = none;
  estimated_total_cost_usd = some 3600;
  confidence = "";
}

abbrev write_nothing : {A : Type 0} → List A → Result String
write_nothing [] = ok "[]"
write_nothing (a ∷ more) = err (plain "not written")

abbrev text_of : Result String → String
text_of (ok s) = s
text_of (err e) = ""

-- JSON for decisions without candidates and without selected hardware
abbrev demo_json : DecisionJson Milli
demo_json = record {
  marshal_candidates = write_nothing;
  unmarshal_candidates = λ s. ok [];
  marshal_selection = λ h. err (plain "not written");
  unmarshal_selection = λ s. err (plain "not read");
  marshal_hardware = write_nothing;
  unmarshal_hardware = λ s. ok [];
}

demo-ReadsBack : (id : String) → ReadsBack demo_json (decision id)
demo-ReadsBack id = record {
  eligible = λ s h. refl;
  rejected = λ s h. refl;
  selection = λ h s e k. absurd (cc e);
  eligible_hardware = λ s h. (rw (← ap text_of h) refl, refl);
  rejected_hardware = λ s h. (rw (← ap text_of h) refl, refl);
}

abbrev empty_store : World Milli
empty_store = record {
  runs = [];
  attempts = [];
  decisions = [];
  resources = [];
  faults = [];
  trouble = true;
  asked = 0;
}

abbrev demo_store : World Milli
demo_store = (save_routing_decision demo_json (decision "r_1") empty_store).1

abbrev later_store : World Milli
later_store = (save_routing_decision demo_json (decision "r_2") demo_store).1

was_saved : save_routing_decision demo_json (decision "r_2") demo_store ≡ (ok tt, later_store)
unfolding save_routing_decision statement ◌>>=◌ upsert_decision
was_saved = refl

no_faults : demo_store.faults ≡ []
unfolding save_routing_decision statement ◌>>=◌ upsert_decision
no_faults = refl

get-save_routing_decision_example : (get_routing_decision demo_json "r_1" later_store).0 ≡ (
    if "r_2" == "r_1"
    then ok (decision "r_2")
    else (get_routing_decision demo_json "r_1" demo_store).0)
get-save_routing_decision_example =
    get-save_routing_decision demo_json "r_1" (decision "r_2") demo_store later_store no_faults
      was_saved (tt, tt, refl) (demo-ReadsBack "r_2")

read_first : (get_routing_decision demo_json "r_1" later_store).0 ≡ ok (decision "r_1")
unfolding save_routing_decision get_routing_decision find_decision statement ◌>>=◌ upsert_decision
read_first = refl

abbrev instance_at : ℕ → ProviderResource
instance_at t = record {
  id = "res_1";
  run_id = "r_1";
  attempt_id = "a_1";
  provider = "lambda";
  kind = ProviderResourceKind.instance_kind;
  external_id = "i-1";
  provider_ref = "lambda:i-1";
  region = "";
  project_or_account = "";
  state = ProviderResourceState.running;
  created_by_switchboard = true;
  cleanup_policy = ProviderResourceCleanupPolicy.always;
  metadata = [];
  created_at = some t;
  updated_at = some t;
  last_observed_at = none;
}

find-upsert_resource_example :
    find_resource "res_1" (upsert_resource (instance_at 9) (instance_at 4 ∷ [])) ≡ (
      if "res_1" == "res_1"
      then some (record (instance_at 9) {
        created_at = created_of (instance_at 9) (find_resource "res_1" (instance_at 4 ∷ []));
      })
      else find_resource "res_1" (instance_at 4 ∷ []))
find-upsert_resource_example = find-upsert_resource "res_1" (instance_at 9) (instance_at 4 ∷ [])
