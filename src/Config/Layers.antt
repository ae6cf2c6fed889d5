-- ===== src/Config/Layers.antt =====
-- The settings of a cloud laid over the common ones and the defaults.
use orchestrator_cli.Common.{
  sym, ap, String, Bool, true, false, ◌||◌, Option, none, some, ◌==◌, ◌≡◌, refl, eq_iff, arith,
  Bool-cases, inl, inr, List, [], ◌∷◌, if◌then◌else◌,
}
use orchestrator_cli.Common.Int.{ℤ, pos, negsuc, eqb_ℤ}
use orchestrator_cli.Common.Float.{Float64}
use orchestrator_cli.Config.Clouds.{ChinaCloudProviderConfig, ChinaCloudConfig}
use orchestrator_cli.Config.Defaults.{
  or_text, or_int, or_pointer, or_float, merge_china_cloud_provider, resolve_china_cloud_provider,
  resolve_china_cloud,
}

-- the first text of a list that is not empty
abbrev pub first_text : List String → String
first_text [] = ""
first_text (s ∷ more) = let rest = first_text more in if s == "" then rest else s

-- the first number of a list that is not 0
abbrev pub first_int : List ℤ → ℤ
first_int [] = pos 0
first_int (n ∷ more) = let rest = first_int more in if eqb_ℤ n (pos 0) then rest else n

-- the first value of a list that is set
abbrev pub first_set : List (Option Bool) → Option Bool
first_set [] = none
first_set (none ∷ more) = first_set more
first_set (some b ∷ more) = some b

first_text_one : (a : String) → first_text (a ∷ []) ≡ a
first_text_one a = ground (arith, eq_iff a "")

first_text_three : (a c d : String) → or_text (or_text a c) d ≡ first_text (a ∷ c ∷ d ∷ [])
first_text_three a c d = ground (arith, eq_iff a "", eq_iff c "", eq_iff d "")

zero_of : (n : ℤ) → eqb_ℤ n (pos 0) ≡ true → n ≡ pos 0
zero_of (pos n) h = let e : n ≡ 0 = ground arith in ap pos e
zero_of (negsuc n) h = absurd (ground arith)

first_int_one : (a : ℤ) → first_int (a ∷ []) ≡ a
first_int_one a = elim (Bool-cases (eqb_ℤ a (pos 0))) [
  | inl e ↦ rw e (sym (zero_of a e))
  | inr e ↦ rw e refl
]

int_over : (a d : ℤ) (more : List ℤ) → first_int more ≡ d → or_int a d ≡ first_int (a ∷ more)
int_over a d more h = rw h refl

first_int_two : (a c : ℤ) → or_int a c ≡ first_int (a ∷ c ∷ [])
first_int_two a c = int_over a c (c ∷ []) (first_int_one c)

first_int_three : (a c d : ℤ) → or_int (or_int a c) d ≡ first_int (a ∷ c ∷ d ∷ [])
first_int_three a c d = elim (Bool-cases (eqb_ℤ a (pos 0))) [
  | inl e ↦ rw e (first_int_two c d)
  | inr e ↦ rw (e, e) refl
]

first_set_three :
    (a c : Option Bool) (d : Bool)
    → or_pointer (or_pointer a c) (some d) ≡ first_set (a ∷ c ∷ some d ∷ [])
first_set_three (some a) c d = refl
first_set_three none (some c) d = refl
first_set_three none none d = refl

-- a setting over a common one, twice
text_again : (a c : String) → or_text (or_text a c) c ≡ or_text a c
text_again a c = elim (Bool-cases (a == "")) [
  | inl e ↦ rw e (elim (Bool-cases (c == "")) [ inl k ↦ rw k refl | inr k ↦ rw k refl ])
  | inr e ↦ rw (e, e) refl
]

text_default_again :
    (a c d : String) → or_text (or_text (or_text (or_text a c) d) c) d ≡ or_text (or_text a c) d
text_default_again a c d = ground (arith, eq_iff a "", eq_iff c "", eq_iff d "")

int_again : (a c : ℤ) → or_int (or_int a c) c ≡ or_int a c
int_again a c = ground arith

int_default_again :
    (a c d : ℤ) → or_int (or_int (or_int (or_int a c) d) c) d ≡ or_int (or_int a c) d
int_default_again a c d = ground arith

pointer_default_again :
    (a c d : Option Bool)
    → or_pointer (or_pointer (or_pointer (or_pointer a c) d) c) d ≡ or_pointer (or_pointer a c) d
pointer_default_again (some a) c d = refl
pointer_default_again none (some c) d = refl
pointer_default_again none none none = refl
pointer_default_again none none (some d) = refl

flag_again : (a c : Bool) → ((a || c) || c) ≡ (a || c)
flag_again true c = refl
flag_again false true = refl
flag_again false false = refl

module _ {F : Type 0} ⦃f : Float64 F⦄ where
  -- the first price of a list that is not 0, else the last one
  abbrev pub first_price : F → List F → F
  first_price x [] = x
  first_price x (y ∷ more) =
      let rest = first_price y more in if f.eq x (f.of_int (pos 0)) then rest else x

  -- every setting of a cloud by itself: where to look for it, in this order
  abbrev pub layered :
      ChinaCloudProviderConfig F → ChinaCloudProviderConfig F → ChinaCloudProviderConfig F
  layered c p = record {
    region = first_text (p.region ∷ c.region ∷ []);
    zone = first_text (p.zone ∷ c.zone ∷ []);
    instance_type = first_text (p.instance_type ∷ c.instance_type ∷ []);
    image_id = first_text (p.image_id ∷ c.image_id ∷ []);
    vpc_id = first_text (p.vpc_id ∷ c.vpc_id ∷ []);
    subnet_id = first_text (p.subnet_id ∷ c.subnet_id ∷ []);
    security_group_id = first_text (p.security_group_id ∷ c.security_group_id ∷ []);
    ssh_key_name = first_text (p.ssh_key_name ∷ c.ssh_key_name ∷ []);
    ssh_private_key = first_text (p.ssh_private_key ∷ c.ssh_private_key ∷ []);
    ssh_user = first_text (p.ssh_user ∷ c.ssh_user ∷ "root" ∷ []);
    endpoint = first_text (p.endpoint ∷ c.endpoint ∷ []);
    project_id = first_text (p.project_id ∷ c.project_id ∷ []);
    account_id = first_text (p.account_id ∷ c.account_id ∷ []);
    system_disk_category = first_text (p.system_disk_category ∷ c.system_disk_category ∷ []);
    system_disk_size_gb = first_int (p.system_disk_size_gb ∷ c.system_disk_size_gb ∷ []);
    internet_bandwidth_mbps =
        first_int (p.internet_bandwidth_mbps ∷ c.internet_bandwidth_mbps ∷ []);
    poll_interval_seconds =
        first_int (p.poll_interval_seconds ∷ c.poll_interval_seconds ∷ pos 30 ∷ []);
    terminate_on_completion =
        first_set (p.terminate_on_completion ∷ c.terminate_on_completion ∷ some true ∷ []);
    keep_instance_on_failure = p.keep_instance_on_failure || c.keep_instance_on_failure;
    api_timeout_seconds = first_int (p.api_timeout_seconds ∷ c.api_timeout_seconds ∷ pos 30 ∷ []);
    ssh_connect_timeout_secs =
        first_int (p.ssh_connect_timeout_secs ∷ c.ssh_connect_timeout_secs ∷ pos 10 ∷ []);
    ssh_ready_timeout_seconds =
        first_int (p.ssh_ready_timeout_seconds ∷ c.ssh_ready_timeout_seconds ∷ pos 600 ∷ []);
    estimate_hourly_usd = first_price p.estimate_hourly_usd (c.estimate_hourly_usd ∷ []);
  }

  merged-layered :
      (c p : ChinaCloudProviderConfig F)
      → resolve_china_cloud_provider (merge_china_cloud_provider c p) ≡ layered c p
  unfolding merge_china_cloud_provider resolve_china_cloud_provider
  merged-layered c p =
      simp (first_text_one, first_text_three, first_int_one, first_int_three, first_set_three)

  float_again : (a c : F) → or_float (or_float a c) c ≡ or_float a c
  float_again a c = elim (Bool-cases (f.eq a (f.of_int (pos 0)))) [
    | inl e ↦
        rw e
          (elim (Bool-cases (f.eq c (f.of_int (pos 0)))) [ inl k ↦ rw k refl | inr k ↦ rw k refl ])
    | inr e ↦ rw (e, e) refl
  ]

  merged_again :
      (c p : ChinaCloudProviderConfig F)
      → resolve_china_cloud_provider (
          merge_china_cloud_provider c
            (resolve_china_cloud_provider (merge_china_cloud_provider c p)))
        ≡ resolve_china_cloud_provider (merge_china_cloud_provider c p)
  unfolding merge_china_cloud_provider resolve_china_cloud_provider
  merged_again c p = simp (
    text_again, text_default_again, int_again, int_default_again, pointer_default_again, flag_again,
    float_again,
  )

  -- The settings of each of the five clouds after the resolution: a text or number is the first one
  -- that is not empty or 0 of the cloud's own, the common one, and the default where there is one;
  -- TerminateOnCompletion is the first one that is set, true where none is; KeepInstanceOnFailure is
  -- true where the cloud's own or the common one is. The common settings stay, and a second resolution
  -- changes nothing.
  pub resolve_china_cloud-layered :
      (c : ChinaCloudConfig F)
      → ((resolve_china_cloud c).alibaba_cloud ≡ layered c.common c.alibaba_cloud)
        × ((resolve_china_cloud c).huawei_cloud ≡ layered c.common c.huawei_cloud)
        × ((resolve_china_cloud c).tencent_cloud ≡ layered c.common c.tencent_cloud)
        × ((resolve_china_cloud c).tianyi_cloud ≡ layered c.common c.tianyi_cloud)
        × ((resolve_china_cloud c).baidu_ai_cloud ≡ layered c.common c.baidu_ai_cloud)
        × ((resolve_china_cloud c).common ≡ c.common)
        × (resolve_china_cloud (resolve_china_cloud c) ≡ resolve_china_cloud c)
  unfolding resolve_china_cloud
  resolve_china_cloud-layered c = (
    merged-layered c.common c.alibaba_cloud,
    merged-layered c.common c.huawei_cloud,
    merged-layered c.common c.tencent_cloud,
    merged-layered c.common c.tianyi_cloud,
    merged-layered c.common c.baidu_ai_cloud,
    refl,
    simp merged_again,
  )
