-- ===== src/Routing/Registry.antt =====
-- internal/provider/registry.go: the adapters by name.
use Prim.Native.String.{◌++◌}
use orchestrator_cli.Common.{String, Option, none, some, List, [], ◌∷◌, ◌==◌, if◌then◌else◌}
use orchestrator_cli.Common.Text.{str_lt}
use orchestrator_cli.Common.Sort.{sort_stable}
use orchestrator_cli.App.Errors.{Result, ok, err, plain}
use orchestrator_cli.Routing.Types.{ProviderAdapter}

-- map[app.ProviderName]app.ProviderAdapter
abbrev pub Registry : Type 0 → Type 0
Registry F = List (String × ProviderAdapter F)

module _ {F : Type 0} where
  unfoldable pub lookup : String → Registry F → Option (ProviderAdapter F)
  lookup name [] = none
  lookup name ((k, a) ∷ r) = if k == name then some a else lookup name r

  abbrev or_unknown : String → Option (ProviderAdapter F) → Result (ProviderAdapter F)
  or_unknown name none = err (plain ("unknown provider \"" ++ (name ++ "\"")))
  or_unknown name (some a) = ok a

  unfoldable pub get : Registry F → String → Result (ProviderAdapter F)
  unfolding lookup
  get r name = or_unknown name (lookup name r)

  -- `none` is the panic on a duplicate name
  unfoldable pub register : Registry F → List (ProviderAdapter F) → Option (Registry F)
  unfolding lookup
  register r [] = some r
  register r (a ∷ rest) =
      let added = register ((a.name, a) ∷ r) rest in
      elim (lookup a.name r) [ none ↦ added | some b ↦ none ]

  unfoldable pub new_registry : List (ProviderAdapter F) → Option (Registry F)
  unfolding register
  new_registry adapters = register [] adapters

  abbrev pub names : Registry F → List String
  names [] = []
  names ((k, a) ∷ r) = k ∷ names r

  -- r.List()
  unfoldable pub list : Registry F → List String
  unfolding sort_stable str_lt
  list r = sort_stable str_lt (names r)
