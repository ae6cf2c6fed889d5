-- ===== src/Config/Ready.antt =====
-- That the configuration that LoadTrain returns has its defaults filled in, whatever the error is.
use orchestrator_cli.Common.{
  String, Bool, true, false, ◌&&◌, ◌⊎◌, Option, none, some, ◌==◌, if◌then◌else◌, ◌≡◌, ◌≢◌, refl,
  inl, inr, eq_iff, arith, Bool-cases,
}
use orchestrator_cli.Common.Int.{ℤ, pos, eqb_ℤ, scale_int64}
use orchestrator_cli.Common.Float.{Float64}
use orchestrator_cli.App.{JobSpec}
use orchestrator_cli.App.Errors.{Error, Result, ok, err}
use orchestrator_cli.Config.Clouds.{ChinaCloudProviderConfig}
use orchestrator_cli.Config.Types.{Config, TrainFlags, ResolvedTrainConfig, Machine, resolved}
use orchestrator_cli.Config.Defaults.{
  or_int, or_pointer, merge_china_cloud_provider, resolve_lambda, resolve_china_cloud_provider,
}
use orchestrator_cli.Config.Paths.{resolve_job_paths}
use orchestrator_cli.Config.Load.{
  resolve_config, validated, at_home, load_from, load_with, load_train, resolve_home, job_of,
  name_job, locate_job, locate_config, bundle_max_size_bytes_of,
}

-- every setting of a cloud that the VM runtime reads without a test of its own has a value
pub record ChinaReady {F : Type 0} (p : ChinaCloudProviderConfig F) : Type 0 where
  pub user : p.ssh_user ≢ ""
  pub poll : p.poll_interval_seconds ≢ pos 0
  pub termination : p.terminate_on_completion ≢ none
  pub api_timeout : p.api_timeout_seconds ≢ pos 0
  pub connect_timeout : p.ssh_connect_timeout_secs ≢ pos 0
  pub ready_timeout : p.ssh_ready_timeout_seconds ≢ pos 0

pub record IsReady {F : Type 0} (c : ResolvedTrainConfig F) : Type 0 where
  pub provider : c.provider ≢ ""
  pub job_name : c.job.name ≢ ""
  pub work_dir : c.job.work_dir ≢ ""
  pub build_context : c.packaging.context ≢ ""
  pub objective : c.routing.objective ≢ ""
  pub attempts : c.routing.max_attempts ≢ pos 0
  pub gcp_location : c.gcp.location ≢ ""
  pub gcp_machine : c.gcp.machine_type ≢ ""
  pub gcp_disk : (c.gcp.boot_disk_type ≢ "") × (c.gcp.boot_disk_size_gb ≢ pos 0)
  pub gcp_poll : c.gcp.poll_interval_seconds ≢ pos 0
  pub lambda_poll : c.lambda.poll_interval_seconds ≢ pos 0
  pub lambda_termination : c.lambda.terminate_on_completion ≢ none
  pub lambda_timeouts :
      (c.lambda.api_timeout_seconds ≢ pos 0)
      × (c.lambda.ssh_connect_timeout_secs ≢ pos 0)
      × (c.lambda.ssh_ready_timeout_seconds ≢ pos 0)
  pub alibaba : ChinaReady c.china_cloud.alibaba_cloud
  pub huawei : ChinaReady c.china_cloud.huawei_cloud
  pub tencent : ChinaReady c.china_cloud.tencent_cloud
  pub tianyi : ChinaReady c.china_cloud.tianyi_cloud
  pub baidu : ChinaReady c.china_cloud.baidu_ai_cloud

-- what path/filepath documents: neither Base nor Clean returns ""
pub record HasPaths {F : Type 0} (m : Machine F) : Type 0 where
  pub base_set : (p : String) → m.base p ≢ ""
  pub clean_set : (p : String) → m.clean p ≢ ""

-- the file that the flags name, or Config{} without one
abbrev pub loaded_config : {F : Type 0} → Machine F → Config F → TrainFlags → Result (Config F)
loaded_config m empty flags =
    if flags.config_path == "" then ok empty else m.load_file flags.config_path

-- the limit of a bundle is 512 MiB where the configuration has none
abbrev pub IsLimited : {F : Type 0} → Config F → ℤ → Type 0
IsLimited cfg limit =
    ((eqb_ℤ cfg.data_config.bundle.max_size_mb (pos 0) ≡ true) × (limit ≡ pos 536870912))
    ⊎ ((eqb_ℤ cfg.data_config.bundle.max_size_mb (pos 0) ≡ false)
        × (limit ≡ scale_int64 (scale_int64 cfg.data_config.bundle.max_size_mb 1024) 1024))

-- `d` is not "" or zero
pub or_text_set : (s d : String) → d ≢ "" → (if s == "" then d else s) ≢ ""
or_text_set s d h = ground (arith, eq_iff s "", eq_iff d "")

or_int_set : (n : ℤ) (d : ℤ) → d ≢ pos 0 → or_int n d ≢ pos 0
or_int_set n d h = ground arith

or_pointer_set : (p : Option Bool) (b : Bool) → or_pointer p (some b) ≢ none
or_pointer_set none b = cc
or_pointer_set (some c) b = cc

resolve-ChinaReady :
    {F : Type 0} (p : ChinaCloudProviderConfig F) → ChinaReady (resolve_china_cloud_provider p)
unfolding resolve_china_cloud_provider
resolve-ChinaReady p = record {
  user = or_text_set p.ssh_user "root" cc;
  poll = or_int_set p.poll_interval_seconds (pos 30) cc;
  termination = or_pointer_set p.terminate_on_completion true;
  api_timeout = or_int_set p.api_timeout_seconds (pos 30) cc;
  connect_timeout = or_int_set p.ssh_connect_timeout_secs (pos 10) cc;
  ready_timeout = or_int_set p.ssh_ready_timeout_seconds (pos 600) cc;
}

module _ {F : Type 0} ⦃f : Float64 F⦄ (m : Machine F) where
  resolve_config-IsReady :
      (flags : TrainFlags) (job : JobSpec) (cfg : Config F) (home : String)
      → job.name ≢ ""
      → job.work_dir ≢ ""
      → IsReady (resolve_config m flags job cfg home)
  unfolding resolve_config resolve_lambda
  resolve_config-IsReady flags job cfg home named there = record {
    job_name = named;
    work_dir = there;
    provider = or_text_set flags.provider "local" cc;
    build_context = or_text_set cfg.packaging.context "." cc;
    objective = or_text_set cfg.routing.objective "min_cost" cc;
    attempts = or_int_set cfg.routing.max_attempts (pos 2) cc;
    gcp_location = or_text_set cfg.gcp.location "us-central1" cc;
    gcp_machine = or_text_set cfg.gcp.machine_type "n1-standard-4" cc;
    gcp_disk = (
      or_text_set cfg.gcp.boot_disk_type "pd-ssd" cc,
      or_int_set cfg.gcp.boot_disk_size_gb (pos 100) cc,
    );
    gcp_poll = or_int_set cfg.gcp.poll_interval_seconds (pos 30) cc;
    lambda_poll = or_int_set cfg.lambda.poll_interval_seconds (pos 30) cc;
    lambda_termination = or_pointer_set cfg.lambda.terminate_on_completion true;
    lambda_timeouts = (
      or_int_set cfg.lambda.api_timeout_seconds (pos 30) cc,
      or_int_set cfg.lambda.ssh_connect_timeout_secs (pos 10) cc,
      or_int_set cfg.lambda.ssh_ready_timeout_seconds (pos 600) cc,
    );
    alibaba =
        resolve-ChinaReady
          (merge_china_cloud_provider cfg.china_cloud.common cfg.china_cloud.alibaba_cloud);
    huawei =
        resolve-ChinaReady
          (merge_china_cloud_provider cfg.china_cloud.common cfg.china_cloud.huawei_cloud);
    tencent =
        resolve-ChinaReady
          (merge_china_cloud_provider cfg.china_cloud.common cfg.china_cloud.tencent_cloud);
    tianyi =
        resolve-ChinaReady
          (merge_china_cloud_provider cfg.china_cloud.common cfg.china_cloud.tianyi_cloud);
    baidu =
        resolve-ChinaReady
          (merge_china_cloud_provider cfg.china_cloud.common cfg.china_cloud.baidu_ai_cloud);
  }

module _ {F : Type 0} (m : Machine F) (paths : HasPaths m) where
  name_job-name : (job : JobSpec) → (name_job m job).name ≢ ""
  unfolding name_job
  name_job-name job = elim (Bool-cases (job.name == "")) [
    | inl e ↦ rw e (paths.base_set _)
    | inr e ↦ rw e (λ h. absurd (ground (arith, eq_iff job.name "")))
  ]

  name_job-work_dir : (job : JobSpec) → (name_job m job).work_dir ≢ ""
  unfolding name_job
  name_job-work_dir job = or_text_set job.work_dir "." cc

  either_set : (b : Bool) (p q : String) → p ≢ "" → q ≢ "" → (if b then p else q) ≢ ""
  either_set true p q h k = h
  either_set false p q h k = k

  locate_job-name :
      (flags : TrainFlags) (dir : String) (job : JobSpec)
      → (locate_job m flags dir job).name ≡ job.name
  unfolding locate_job resolve_job_paths
  locate_job-name flags dir job = elim (Bool-cases (dir == "")) [
    | inl e ↦ rw e refl
    | inr e ↦
        rw e (elim (Bool-cases (flags.script == "")) [ inl k ↦ rw k refl | inr k ↦ rw k refl ])
  ]

  locate_job-work_dir :
      (flags : TrainFlags) (dir : String) (job : JobSpec)
      → job.work_dir ≢ ""
      → (locate_job m flags dir job).work_dir ≢ ""
  unfolding locate_job resolve_job_paths
  locate_job-work_dir flags dir job h = elim (Bool-cases (dir == "")) [
    | inl e ↦ rw e h
    | inr e ↦ rw e (elim (Bool-cases (flags.script == "")) [
      | inl k ↦ rw k (either_set _ job.work_dir _ h (paths.clean_set _))
      | inr k ↦ rw k (either_set _ job.work_dir _ h (paths.clean_set _))
    ])
  ]

module _ {F : Type 0} ⦃f : Float64 F⦄ (m : Machine F) where
  locate_config-data_config :
      (dir : String) (cfg : Config F) → (locate_config m dir cfg).data_config ≡ cfg.data_config
  unfolding locate_config
  locate_config-data_config dir cfg = elim (Bool-cases (dir == "")) [
    | inl e ↦ rw e refl
    | inr e ↦ rw e refl
  ]

  bundle_max_size_bytes-IsLimited :
      (cfg : Config F) → IsLimited cfg (bundle_max_size_bytes_of m cfg.data_config.bundle)
  unfolding bundle_max_size_bytes_of
  bundle_max_size_bytes-IsLimited cfg =
      elim (Bool-cases (eqb_ℤ cfg.data_config.bundle.max_size_mb (pos 0))) [
        | inl e ↦ inl (e, rw e refl)
        | inr e ↦ inr (e, rw e refl)
      ]

  -- what LoadTrain makes of a configuration from a directory
  abbrev IsMade : TrainFlags → String → Config F → ResolvedTrainConfig F → Type 0
  IsMade flags dir cfg c =
      (home : String) × (c
        ≡ resolve_config m flags (locate_job m flags dir (name_job m (job_of m flags cfg)))
            (locate_config m dir cfg) home)

  at_home_inv :
      (flags : TrainFlags) (job : JobSpec) (cfg : Config F) (r : Result String)
      (c : ResolvedTrainConfig F) (e : Option Error)
      → at_home m flags job cfg r ≡ resolved c e
      → (home : String) × (c ≡ resolve_config m flags job cfg home)
  unfolding validated
  at_home_inv flags job cfg (ok home) c e h = (home, cc)
  at_home_inv flags job cfg (err x) c e h = absurd (cc h)

  load_from_inv :
      (flags : TrainFlags) (dir : String) (cfg : Config F) (c : ResolvedTrainConfig F)
      (e : Option Error)
      → load_from m flags dir cfg ≡ resolved c e
      → IsMade flags dir cfg c
  unfolding load_from
  load_from_inv flags dir cfg c e h =
      elim (Bool-cases ((job_of m flags cfg).script == "" && (job_of m flags cfg).image == "")) [
        | inl k ↦ let q = rw k at h in absurd (cc q)
        | inr k ↦ at_home_inv flags _ _ (resolve_home m flags.switchboard_home) c e (rw k at h)
      ]

  load_train_inv :
      (empty : Config F) (flags : TrainFlags) (c : ResolvedTrainConfig F) (e : Option Error)
      → load_train m empty flags ≡ resolved c e
      → (cfg : Config F) × (loaded_config m empty flags ≡ ok cfg)
        × (dir : String) × IsMade flags dir cfg c
  unfolding load_train
  load_train_inv empty flags c e h = elim (Bool-cases (flags.config_path == "")) [
    | inl k ↦ rw k (empty, refl, "", load_from_inv flags "" empty c e (rw k at h))
    | inr k ↦ rw k (file (m.load_file flags.config_path) (rw k at h))
  ]
    where
      file :
          (r : Result (Config F))
          → load_with m flags r ≡ resolved c e
          → (cfg : Config F) × (r ≡ ok cfg) × (dir : String) × IsMade flags dir cfg c
      file (ok cfg) h = (cfg, refl, m.dir flags.config_path, load_from_inv flags _ cfg c e h)
      file (err x) h = absurd (cc h)

  -- Whatever the configuration file leaves out, and whether or not the validation finds an error, no
  -- setting that IsReady lists is empty, zero or unset in the configuration that load_train returns:
  -- the provider, the name and the working directory of the job, the build context, the objective and
  -- the number of attempts, and the settings of the clouds that have a default. The limit of a bundle
  -- is 512 MiB where the configuration that was loaded sets none, else its own number of MiB in int64.
  -- filepath.Base and filepath.Clean are taken to return no empty text.
  pub load_train-IsReady :
      HasPaths m
      → (empty : Config F) (flags : TrainFlags) (c : ResolvedTrainConfig F) (e : Option Error)
      → load_train m empty flags ≡ resolved c e
      → IsReady c
        × (cfg : Config F) × (loaded_config m empty flags ≡ ok cfg)
        × IsLimited cfg c.bundle_max_size_bytes
  unfolding resolve_config
  load_train-IsReady paths empty flags c e h =
      let (cfg, k, dir, (home, made)) = load_train_inv empty flags c e h in
      let job = name_job m (job_of m flags cfg) in
      let named : (locate_job m flags dir job).name ≢ "" =
        rw (locate_job-name m paths flags dir job) (name_job-name m paths (job_of m flags cfg)) in
      let there =
        locate_job-work_dir m paths flags dir job
          (name_job-work_dir m paths (job_of m flags cfg)) in
      rw made (
        resolve_config-IsReady m flags _ (locate_config m dir cfg) home named there,
        cfg,
        k,
        rw (locate_config-data_config dir cfg) (bundle_max_size_bytes-IsLimited cfg),
      )
