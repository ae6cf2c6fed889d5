-- ===== src/Config/Loaded.antt =====
-- What LoadTrain returns: a configuration without an error exactly when it is complete for its provider.
use orchestrator_cli.Common.{String, ◌&&◌, Option, none, ◌==◌, ◌≡◌, inl, inr, ◌↔◌, Bool-cases}
use orchestrator_cli.Common.Float.{Float64}
use orchestrator_cli.App.{JobSpec}
use orchestrator_cli.App.Errors.{Error, Result, ok, err}
use orchestrator_cli.Config.Types.{
  Config, TrainFlags, ResolvedTrainConfig, Machine, Loaded, refused, resolved,
}
use orchestrator_cli.Config.Load.{
  resolve_config, validated, at_home, load_from, load_with, load_train, resolve_home, job_of,
}
use orchestrator_cli.Config.Accepts.{IsComplete, validate_resolved_config_iff}

-- `P` holds of the configuration and the error that are returned, if there is one
abbrev Gives : {F : Type 0} → (ResolvedTrainConfig F → Option Error → Type 0) → Loaded F → Type 0
Gives P (refused e) = Unit
Gives P (resolved c e) = P c e

module _ {F : Type 0} ⦃f : Float64 F⦄ (m : Machine F)
    (P : ResolvedTrainConfig F → Option Error → Type 0)
    (each : (flags : TrainFlags) (job : JobSpec) (cfg : Config F) (home : String)
      → Gives P (validated m (resolve_config m flags job cfg home))) where
  at_home-Gives :
      (flags : TrainFlags) (job : JobSpec) (cfg : Config F) (r : Result String)
      → Gives P (at_home m flags job cfg r)
  at_home-Gives flags job cfg (ok home) = each flags job cfg home
  at_home-Gives flags job cfg (err e) = tt

  load_from-Gives :
      (flags : TrainFlags) (dir : String) (cfg : Config F) → Gives P (load_from m flags dir cfg)
  unfolding load_from
  load_from-Gives flags dir cfg =
      elim (Bool-cases ((job_of m flags cfg).script == "" && (job_of m flags cfg).image == "")) [
        | inl e ↦ rw e tt
        | inr e ↦ rw e (at_home-Gives flags _ _ (resolve_home m flags.switchboard_home))
      ]

  load_with-Gives : (flags : TrainFlags) (r : Result (Config F)) → Gives P (load_with m flags r)
  load_with-Gives flags (ok cfg) = load_from-Gives flags (m.dir flags.config_path) cfg
  load_with-Gives flags (err e) = tt

  load_train-Gives : (empty : Config F) (flags : TrainFlags) → Gives P (load_train m empty flags)
  unfolding load_train
  load_train-Gives empty flags = elim (Bool-cases (flags.config_path == "")) [
    | inl e ↦ rw e (load_from-Gives flags "" empty)
    | inr e ↦ rw e (load_with-Gives flags (m.load_file flags.config_path))
  ]

-- the configuration is complete for its provider
abbrev Completes : {F : Type 0} → Machine F → ResolvedTrainConfig F → Type 0
Completes m c = IsComplete m c.provider c.job c.staging c.packaging c.gcp c.lambda c.china_cloud

module _ {F : Type 0} ⦃f : Float64 F⦄ (m : Machine F) where
  validated-Completes :
      (c : ResolvedTrainConfig F) → Gives (λ d e. (e ≡ none) ↔ Completes m d) (validated m c)
  unfolding validated
  validated-Completes c =
      validate_resolved_config_iff m c.provider c.job c.staging c.packaging c.gcp c.lambda
        c.china_cloud

  -- A configuration that load_train returns comes without an error exactly when it has everything that
  -- its provider needs, and its two staging prefixes, where they are set, name an s3 or gs store.
  pub load_train-IsComplete :
      (empty : Config F) (flags : TrainFlags) (c : ResolvedTrainConfig F) (e : Option Error)
      → load_train m empty flags ≡ resolved c e
      → (e ≡ none)
        ↔ IsComplete m c.provider c.job c.staging c.packaging c.gcp c.lambda c.china_cloud
  load_train-IsComplete empty flags c e h = rw h at (
      load_train-Gives m (λ d x. (x ≡ none) ↔ Completes m d)
        (λ a b g k. validated-Completes (resolve_config m a b g k)) empty flags)
