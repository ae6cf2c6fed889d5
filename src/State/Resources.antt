-- ===== src/State/Resources.antt =====
-- The provider resources of internal/state/store.go.
use orchestrator_cli.Common.{
  ℕ, String, Bool, ◌||◌, ◌&&◌, none, some, List, [], ◌∷◌, ◌==◌, if◌then◌else◌,
}
use orchestrator_cli.Common.Text.{str_lt}
use orchestrator_cli.Common.Sort.{sort_stable}
use orchestrator_cli.App.Runs.{ProviderResource, Time}
use orchestrator_cli.State.World.{Platform}
use orchestrator_cli.State.Action.{Action, ◌>>=◌, ◌>>◌, give, statement, change, now, new_id}
use orchestrator_cli.State.Tables.{rows, time_key}

pub record ProviderResourceFilter : Type 0 where
  pub run_id : String
  pub provider : String

abbrev pub or_now : ℕ → Time → Time
or_now t none = some t
or_now t (some x) = some x

-- ON CONFLICT(id) DO UPDATE, which leaves created_at
unfoldable pub upsert_resource : ProviderResource → List ProviderResource → List ProviderResource
upsert_resource r [] = r ∷ []
upsert_resource r (x ∷ xs) =
    if x.id == r.id then record r { created_at = x.created_at } ∷ xs else x ∷ upsert_resource r xs

abbrev pub resource_before : Platform → ProviderResource → ProviderResource → Bool
resource_before p a b =
    if time_key p a.created_at == time_key p b.created_at
    then str_lt a.id b.id
    else str_lt (time_key p a.created_at) (time_key p b.created_at)

abbrev pub passes : ProviderResourceFilter → ProviderResource → Bool
passes f r =
    (f.run_id == "" || r.run_id == f.run_id) && (f.provider == "" || r.provider == f.provider)

module _ {F : Type 0} where
  unfoldable pub resource_id : Platform → String → Action F String
  resource_id p id = if id == "" then new_id p "res" else give id

  unfoldable pub write_resource : ProviderResource → Action F ProviderResource
  write_resource r =
      statement >> (change (λ w. record w { resources = upsert_resource r w.resources }) >> give r)

  unfoldable pub save_provider_resource : Platform → ProviderResource → Action F ProviderResource
  save_provider_resource p r = do
    t ← now p
    id ← resource_id p r.id
    write_resource (record r {
      id = id;
      created_at = or_now t r.created_at;
      updated_at = or_now t r.updated_at;
    })

  unfoldable pub provider_resources :
      Platform → ProviderResourceFilter → Action F (List ProviderResource)
  provider_resources p f =
      statement >> (λ w. give (sort_stable (resource_before p) (rows (passes f) w.resources)) w)
