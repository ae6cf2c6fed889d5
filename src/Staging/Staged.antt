-- ===== src/Staging/Staged.antt =====
-- What StageBundledInputs of internal/staging/managed.go has done when it returns without an error.
use orchestrator_cli.Common.{
  String, Bool, true, false, List, [], ◌∷◌, ◌++◌, ◌==◌, ◌≡◌, refl, sym, ◌∙◌, ap, ◌⊎◌, inl, inr, map,
  Bool-cases, if◌then◌else◌,
}
use orchestrator_cli.App.{DataInput, DataManifest, JobSpec}
use orchestrator_cli.App.Errors.{Result, ok, err}
use orchestrator_cli.Config.Settings.{StagingConfig}
use orchestrator_cli.Staging.Prefix.{join_uri, data_prefix}
use orchestrator_cli.Staging.Managed.{
  Visited, StageTools, Uploads, lift, wrapped, wrap_error, ManagedResult, upload_file, stage_walk,
  staged_at, walk_staged, stage_as, stage_input, stage_or_keep, stage_inputs, managed,
  stage_bundled_inputs,
}
use orchestrator_cli.Staging.Uploaded.{
  next_ok, Adds, files_of, upload_ok, gave, Adds-as, Adds-nil, Adds-append,
}

module _ (t : StageTools) where
  stage_walk_ok :
      (prefix : String) (vs : List Visited) (w v : Uploads) (objects : List String)
      → stage_walk t prefix vs w ≡ (ok objects, v)
      → Adds w v (files_of prefix vs) objects
  unfolding stage_walk
  stage_walk_ok prefix [] w v objects h =
      let (p, q) = gave [] objects w v h in Adds-as w w v w [] [] objects refl q p (Adds-nil w)
  stage_walk_ok prefix (Visited.walk_failed e ∷ more) w v objects h = absurd (cc h)
  stage_walk_ok prefix (Visited.directory ∷ more) w v objects h =
      stage_walk_ok prefix more w v objects h
  stage_walk_ok prefix (Visited.no_info e ∷ more) w v objects h = absurd (cc h)
  stage_walk_ok prefix (Visited.irregular path ∷ more) w v objects h = absurd (cc h)
  stage_walk_ok prefix (Visited.file path (err e) ∷ more) w v objects h =
      let (r, w1, k, l) = next_ok (lift {A = String} (err e)) _ h in absurd (cc k)
  stage_walk_ok prefix (Visited.file path (ok rel) ∷ more) w v objects h =
      let (r, w1, e, k) = next_ok (lift (ok rel)) _ h in
      let (_, w2, l, m) = next_ok (upload_file t path _) _ k in
      let (rest, w3, n, o) = next_ok (stage_walk t prefix more) _ m in
      let (p, q) = gave _ objects w3 v o in
      let (read, first) = gave rel r w w1 e in
      let one : Adds w1 w2 ((path, join_uri (prefix ∷ r ∷ [])) ∷ [])
          (join_uri (prefix ∷ r ∷ []) ∷ []) =
        (upload_ok t path _ w1 w2 tt l, refl) in
      rw read (
        Adds-as w w1 v w3 _ _ objects (sym first) q p
          (Adds-append w1 w2 w3 _ _ _ rest one (stage_walk_ok prefix more w2 w3 rest n)))

  abbrev input_prefix : StagingConfig → String → DataInput → String
  input_prefix cfg run_id i = join_uri (data_prefix cfg run_id ∷ i.name ∷ [])

  -- the uploads for a bundled input: the files below a directory, or the file itself
  abbrev moved_by : StagingConfig → String → DataInput → Result Bool → Uploads
  moved_by cfg run_id i (ok true) = files_of (input_prefix cfg run_id i) (t.walk i.source)
  moved_by cfg run_id i (ok false) =
      (i.source, join_uri (input_prefix cfg run_id i ∷ t.base i.source ∷ [])) ∷ []
  moved_by cfg run_id i (err e) = []

  -- the uploads for all inputs, in their order; only the bundled ones have some
  abbrev pub expected : StagingConfig → String → List DataInput → Uploads
  expected cfg run_id [] = []
  expected cfg run_id (i ∷ more) =
      (if i.mode == "bundle" then moved_by cfg run_id i (t.stat i.source) else [])
      ++ expected cfg run_id more

  -- what becomes of a bundled input
  abbrev IsMoved : StagingConfig → String → DataInput → DataInput → Type 0
  IsMoved cfg run_id i j =
      ((t.stat i.source ≡ ok true) × (j ≡ staged_at (input_prefix cfg run_id i) i))
      ⊎ ((t.stat i.source ≡ ok false)
          × (j ≡ staged_at (join_uri (input_prefix cfg run_id i ∷ t.base i.source ∷ [])) i))

  -- what becomes of an input
  abbrev IsStaged : StagingConfig → String → DataInput → DataInput → Type 0
  IsStaged cfg run_id i j =
      (((i.mode == "bundle") ≡ false) × (j ≡ i))
      ⊎ (((i.mode == "bundle") ≡ true) × IsMoved cfg run_id i j)

  abbrev pub AllStaged : StagingConfig → String → List DataInput → List DataInput → Type 0
  AllStaged cfg run_id [] [] = Unit
  AllStaged cfg run_id (i ∷ is) (j ∷ js) = IsStaged cfg run_id i j × AllStaged cfg run_id is js
  AllStaged cfg run_id _ _ = ⊥

  stage_as_ok :
      (cfg : StagingConfig) (run_id : String) (i : DataInput) (is_dir : Bool) (w v : Uploads)
      (x : DataInput × List String)
      → stage_as t (input_prefix cfg run_id i) i is_dir w ≡ (ok x, v)
      → Adds w v (moved_by cfg run_id i (ok is_dir)) x.1
        × (x.0 ≡ (
            if is_dir
            then staged_at (input_prefix cfg run_id i) i
            else staged_at (join_uri (input_prefix cfg run_id i ∷ t.base i.source ∷ [])) i))
  unfolding stage_as
  stage_as_ok cfg run_id i true w v x h =
      let prefix = input_prefix cfg run_id i in
      let (objects, u, e, k) = next_ok (walk_staged t prefix i.source) _ h in
      let (p, q) = gave (staged_at prefix i, objects) x u v k in
      (
        Adds-as w w v u _ objects x.1 refl q (ap (λ z. z.1) p)
            (stage_walk_ok prefix (t.walk i.source) w u objects (unwrap _ objects u e)),
        sym (ap (λ z. z.0) p),
      )
    where
      unwrap :
          (r : Result (List String) × Uploads) (objects : List String) (u : Uploads)
          → wrapped (t.wrap "stage data input") r ≡ (ok objects, u)
          → r ≡ (ok objects, u)
      unwrap (ok a, l) objects u e = e
      unwrap (err a, l) objects u e = absurd (cc e)
  stage_as_ok cfg run_id i false w v x h =
      let prefix = input_prefix cfg run_id i in
      let (_, u, e, k) = next_ok (upload_file t i.source _) _ h in
      let (p, q) = gave _ x u v k in
      (
        Adds-as w w v u _ _ x.1 refl q (ap (λ z. z.1) p) (upload_ok t i.source _ w u tt e, refl),
        sym (ap (λ z. z.0) p),
      )

  stage_input_ok :
      (cfg : StagingConfig) (run_id : String) (i : DataInput) (w v : Uploads)
      (x : DataInput × List String)
      → stage_input t cfg run_id i w ≡ (ok x, v)
      → Adds w v (moved_by cfg run_id i (t.stat i.source)) x.1 × IsMoved cfg run_id i x.0
  unfolding stage_input
  stage_input_ok cfg run_id i w v x h =
      let (is_dir, u, e, k) =
        next_ok (lift (wrap_error (t.wrap "stat staged input") (t.stat i.source))) _ h in
      let (a, b) = stage_as_ok cfg run_id i is_dir u v x k in
      let stat = unwrap (t.stat i.source) is_dir (ap (λ z. z.0) e) in
      (
        rw stat (Adds-as w u v v _ x.1 x.1 (sym (ap (λ z. z.1) e)) refl refl a),
        by_stat is_dir stat b,
      )
    where
      unwrap :
          (r : Result Bool) (b : Bool)
          → ◌≡◌ {A = Result Bool} (wrap_error (t.wrap "stat staged input") r) (ok b)
          → r ≡ ok b
      unwrap (ok a) b e = e
      unwrap (err a) b e = absurd (cc e)

      by_stat :
          (b : Bool)
          → t.stat i.source ≡ ok b
          → x.0 ≡ (
              if b
              then staged_at (input_prefix cfg run_id i) i
              else staged_at (join_uri (input_prefix cfg run_id i ∷ t.base i.source ∷ [])) i)
          → IsMoved cfg run_id i x.0
      by_stat true e h = inl (e, h)
      by_stat false e h = inr (e, h)

  stage_or_keep_ok :
      (cfg : StagingConfig) (run_id : String) (i : DataInput) (w v : Uploads)
      (x : DataInput × List String)
      → stage_or_keep t cfg run_id i w ≡ (ok x, v)
      → Adds w v (if i.mode == "bundle" then moved_by cfg run_id i (t.stat i.source) else []) x.1
        × IsStaged cfg run_id i x.0
  unfolding stage_or_keep
  stage_or_keep_ok cfg run_id i w v x h = elim (Bool-cases (i.mode == "bundle")) [
    | inl e ↦ let (a, m) = stage_input_ok cfg run_id i w v x (rw e at h) in rw e (a, inr (refl, m))
    | inr e ↦
        let (p, q) = gave (i, []) x w v (rw e at h) in
        rw e (
          Adds-as w w v w [] [] x.1 refl q (ap (λ z. z.1) p) (Adds-nil w),
          inl (refl, sym (ap (λ z. z.0) p)),
        )
  ]

  stage_inputs_ok :
      (cfg : StagingConfig) (run_id : String) (is : List DataInput) (w v : Uploads)
      (x : List DataInput × List String)
      → stage_inputs t cfg run_id is w ≡ (ok x, v)
      → Adds w v (expected cfg run_id is) x.1 × AllStaged cfg run_id is x.0
  unfolding stage_inputs
  stage_inputs_ok cfg run_id [] w v x h =
      let (p, q) = gave ([], []) x w v h in
      (Adds-as w w v w [] [] x.1 refl q (ap (λ z. z.1) p) (Adds-nil w), rw (← p) tt)
  stage_inputs_ok cfg run_id (i ∷ more) w v x h =
      let (y, u, e, k) = next_ok (stage_or_keep t cfg run_id i) _ h in
      let (z, l, m, n) = next_ok (stage_inputs t cfg run_id more) _ k in
      let (p, q) = gave (y.0 ∷ z.0, y.1 ++ z.1) x l v n in
      let (a, b) = stage_or_keep_ok cfg run_id i w u y e in
      let (c, d) = stage_inputs_ok cfg run_id more u l z m in
      (
        Adds-as w w v l _ _ x.1 refl q (ap (λ g. g.1) p) (Adds-append w u l _ _ y.1 z.1 a c),
        rw (← p) (b, d),
      )

  -- When StageBundledInputs returns without an error for a staging prefix that is set, the uploads that
  -- it made are, input by input, those of each file below a bundled directory to its relative path
  -- below the input's prefix and that of a bundled file to its name there, and no other; the listed
  -- objects are their destinations, in this order. Every bundled input is now a URI under its prefix,
  -- with its name and mount, every other one is as before, and the manifest has these inputs, no
  -- bundled bytes and no need of an override.
  pub stage_bundled_inputs_ok :
      (cfg : StagingConfig) (run_id : String) (job : JobSpec) (manifest : DataManifest)
      (w v : Uploads) (r : ManagedResult)
      → (cfg.data_uri_prefix == "") ≡ false
      → stage_bundled_inputs t cfg run_id job manifest w ≡ (ok r, v)
      → ((v ≡ w ++ expected cfg run_id job.inputs)
          × (map (λ u. u.1) (expected cfg run_id job.inputs) ≡ r.uploaded_objects))
        × AllStaged cfg run_id job.inputs r.job.inputs
        × (r ≡ managed job manifest (r.job.inputs, r.uploaded_objects))
  unfolding stage_bundled_inputs
  stage_bundled_inputs_ok cfg run_id job manifest w v r h k =
      let (x, u, e, l) = next_ok (stage_inputs t cfg run_id job.inputs) _ (rw h at k) in
      let (p, q) = gave (managed job manifest x) r u v l in
      let ((a, b), c) = stage_inputs_ok cfg run_id job.inputs w u x e in
      rw (← p) ((sym q ∙ a, b), c, refl)
