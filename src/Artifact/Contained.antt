-- ===== src/Artifact/Contained.antt =====
-- Where the paths of internal/artifact/artifact.go lead.
use Prim.Native.String.{◌++◌ as str_append}
use text.Mathlib.TextLemmas.{cons-append}
use orchestrator_cli.Common.{
  ◌⊎◌, ◌==◌, eq_iff, sym, ap, ◌∙◌, String, true, false, Option, none, some, List, [], ◌∷◌, ◌≡◌, ◌≢◌,
  refl, inl, inr, Bool-cases, arith, All,
}
use orchestrator_cli.Common.Strings.{has_char, has_prefix}
use orchestrator_cli.App.Errors.{Error, Result, ok, err}
use orchestrator_cli.Artifact.{
  Paths, PathTools, valid_run_id, all_id_chars, and_then, or_error, validate_run_id, escapes,
  check_rel, check_child, check_base, ensure_contained, labelled, all_contained, artifacts_of,
  runs_dir, validate_paths, paths_in, for_run,
}

-- one element of a path, that is neither "." nor ".."
abbrev pub IsElement : String → Type 0
IsElement id = (id ≢ "") × (has_char b'/' id ≡ false) × (has_char b'.' id ≡ false)

all_id_chars_lem :
    (s : String) → all_id_chars s ≡ true → (has_char b'/' s ≡ false) × (has_char b'.' s ≡ false)
unfolding all_id_chars
all_id_chars_lem String.[] h = (refl, refl)
all_id_chars_lem (String.◌∷◌ c s) h =
    let rest : all_id_chars s ≡ true = ground arith in
    let (a, b) = all_id_chars_lem s rest in (ground arith, ground arith)

valid_run_id-IsElement : (s : String) → valid_run_id s ≡ true → IsElement s
unfolding valid_run_id
valid_run_id-IsElement String.[] h = absurd (cc h)
valid_run_id-IsElement (String.◌∷◌ c s) h =
    let rest : all_id_chars s ≡ true = ground arith in
    let (a, b) = all_id_chars_lem s rest in ((λ q. absurd (cc q)), ground arith, ground arith)

both_none : (a b : Option Error) → and_then a b ≡ none → (a ≡ none) × (b ≡ none)
both_none none b h = (refl, h)
both_none (some e) b h = absurd (cc h)

parent_prefix : (s : String) → has_prefix (str_append "../" s) "../" ≡ true
unfolding has_prefix
parent_prefix s = rw (cons-append "." "./" s, cons-append "." "/" s, cons-append "/" "" s) refl

dot_prefix : has_prefix "." "../" ≡ false
unfolding has_prefix
dot_prefix = refl

no_prefix : has_prefix "" "../" ≡ false
unfolding has_prefix
no_prefix = refl

module _ (t : PathTools) where
  -- a relative path that stays below where it starts: it is not "..", it does not start with "../", and
  -- it is empty, "." or not absolute
  abbrev pub Below : String → Type 0
  Below r =
      (r ≢ "..")
      × ((rest : String) → r ≢ str_append "../" rest)
      × ((r ≡ "") ⊎ (r ≡ ".") ⊎ (t.is_abs r ≡ false))

  -- the path from the first directory to the second one stays below the first
  abbrev pub IsIn : String → String → Type 0
  IsIn base child =
      (b : String) × (c : String) × (r : String) × (t.abs base ≡ ok b)
      × (t.abs child ≡ ok c)
      × (t.rel b c ≡ ok r)
      × Below r

  parent_escapes : escapes t ".." ≡ true
  unfolding has_prefix
  parent_escapes = refl

  not_parent : (r : String) → escapes t r ≡ false → r ≢ ".."
  not_parent r h e = absurd (cc (parent_escapes, sym (ap (escapes t) e) ∙ h))

  not_under_parent : (r rest : String) → escapes t r ≡ false → r ≢ str_append "../" rest
  not_under_parent r rest h e =
      let up : has_prefix r "../" ≡ true = rw e (parent_prefix rest) in
      let dot : (r == ".") ≡ false = elim (Bool-cases (r == ".")) [
        | inr n ↦ n
        | inl y ↦
            let q : has_prefix "." "../" ≡ true = rw (← ((eq_iff r ".").0 y)) up in
            absurd (cc (q, dot_prefix))
      ] in
      let nothing : (r == "") ≡ false = elim (Bool-cases (r == "")) [
        | inr n ↦ n
        | inl y ↦
            let q : has_prefix "" "../" ≡ true = rw (← ((eq_iff r "").0 y)) up in
            absurd (cc (q, no_prefix))
      ] in
      ground arith

  at_or_below : (r : String) → escapes t r ≡ false → (r ≡ "") ⊎ (r ≡ ".") ⊎ (t.is_abs r ≡ false)
  at_or_below r h = elim (Bool-cases (r == "")) [
    | inl e ↦ inl ((eq_iff r "").0 e)
    | inr e ↦ elim (Bool-cases (r == ".")) [
      | inl k ↦ inr (inl ((eq_iff r ".").0 k))
      | inr k ↦ inr (inr (ground arith))
    ]
  ]

  escapes-Below : (r : String) → escapes t r ≡ false → Below r
  escapes-Below r h = (not_parent r h, (λ rest. not_under_parent r rest h), at_or_below r h)

  ensure_contained-IsIn :
      (base child : String) → ensure_contained t base child ≡ none → IsIn base child
  unfolding ensure_contained
  ensure_contained-IsIn base child h = go (t.abs base) refl h
    where
      last :
          (b c : String) (r : Result String)
          → t.abs base ≡ ok b
          → t.abs child ≡ ok c
          → t.rel b c ≡ r
          → check_rel t base child r ≡ none
          → IsIn base child
      last b c (err e) p q s h = absurd (cc h)
      last b c (ok r) p q s h = elim (Bool-cases (escapes t r)) [
        | inr n ↦ (b, c, r, p, q, s, escapes-Below r n)
        | inl y ↦ let k = rw y at h in absurd (cc k)
      ]

      middle :
          (b : String) (x : Result String)
          → t.abs base ≡ ok b
          → t.abs child ≡ x
          → check_child t base child b x ≡ none
          → IsIn base child
      middle b (err e) p q h = absurd (cc h)
      middle b (ok c) p q h = last b c (t.rel b c) p q refl h

      go : (x : Result String) → t.abs base ≡ x → check_base t base child x ≡ none → IsIn base child
      go (err e) p h = absurd (cc h)
      go (ok b) p h = middle b (t.abs child) p refl h

  labelled-none : (label : String) (e : Option Error) → labelled t label e ≡ none → e ≡ none
  labelled-none label none h = refl
  labelled-none label (some e) h = absurd (cc h)

  all_contained-IsIn :
      (base : String) (ps : List String)
      → all_contained t base ps ≡ none
      → All (λ p. IsIn base p) ps
  unfolding all_contained
  all_contained-IsIn base [] h = tt
  all_contained-IsIn base (p ∷ more) h =
      let (a, b) = both_none _ _ h in
      (ensure_contained-IsIn base p (labelled-none _ _ a), all_contained-IsIn base more b)

  validated : (id : String) → validate_run_id t id ≡ none → valid_run_id id ≡ true
  unfolding validate_run_id
  validated id h = elim (Bool-cases (valid_run_id id)) [
    | inl e ↦ e
    | inr e ↦ let k = rw e at h in absurd (cc k)
  ]

  -- Where ForRun does not panic, the id of the run is one element of a path without a dot; the relative
  -- path from the directory of the runs to that of the run, and from there to each of the run's files,
  -- is not "..", does not start with "../", and is empty, "." or not absolute.
  pub for_run-IsIn :
      (home id : String) (p : Paths)
      → for_run t home id ≡ ok p
      → IsElement id
        × IsIn (runs_dir t home) p.run_dir
        × All (λ f. IsIn p.run_dir f) (artifacts_of p)
  unfolding for_run validate_paths
  for_run-IsIn home id p h = go (and_then (validate_run_id t id) (validate_paths t made)) refl h
    where
      made : Paths
      made = paths_in t home (t.join (home ∷ "runs" ∷ id ∷ []))

      go :
          (o : Option Error)
          → and_then (validate_run_id t id) (validate_paths t made) ≡ o
          → ◌≡◌ {A = Result Paths} (or_error o made) (ok p)
          → IsElement id
            × IsIn (runs_dir t home) p.run_dir
            × All (λ f. IsIn p.run_dir f) (artifacts_of p)
      go (some e) k h = absurd (cc h)
      go none k h =
          let (a, b) = both_none _ _ k in
          let (c, d) = both_none _ _ b in
          let (e, g) = both_none _ _ d in
          let same : made ≡ p = cc in
          rw (← same) (
            valid_run_id-IsElement id (validated id a),
            ensure_contained-IsIn _ _ (labelled-none _ _ e),
            all_contained-IsIn _ _ g,
          )
