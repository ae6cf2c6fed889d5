-- ===== src/Data/Bundles.antt =====
-- What Prepare accepts: the size that it reports, and what the bundled files are.
use Prim.Native.String.{◌++◌ as str_append}
use text.Mathlib.TextLemmas.{append-eq-nil_iff}
use orchestrator_cli.Common.{
  ℕ, ◌+◌, ◌<◌, ◌^◌, String, true, false, Option, none, some, List, [], ◌∷◌, ◌==◌, if◌then◌else◌,
  ◌≡◌, ◌≢◌, ◌⊎◌, inl, inr, ◌∙◌, arith, eq_iff, Bool-cases, Option-cases, All,
}
use orchestrator_cli.Common.Int.{ℤ, pos, add_int64, ◌≤ℤ◌, ◌<ℤ◌}
use orchestrator_cli.App.{JobSpec, DataInput, DataManifest, mode_bundle, mode_uri}
use orchestrator_cli.App.Errors.{ok, Result-cases}
use orchestrator_cli.Data.Preflight.{
  Visit, a_dir, regular, unreadable, a_link, no_info, irregular, Stat, file, directory, missing,
  failed, link, special, Files, PreflightOptions, walk_size, size_of, local_size,
  supported_uri_scheme, validate_uri, normalize_input, total_with, check_inputs, prepare,
}

add_int64_lem : (a b : ℕ) → a + b < 2 ^ 63 → add_int64 (pos a) (pos b) ≡ pos (a + b)
add_int64_lem a b h = ground arith

-- nothing but directories and regular files
abbrev pub IsPlain : Visit → Type 0
IsPlain a_dir = Unit
IsPlain (regular n) = Unit
IsPlain _ = ⊥

abbrev pub IsTree : Stat → Type 0
IsTree (file n) = Unit
IsTree (directory visits) = All IsPlain visits
IsTree _ = ⊥

abbrev pub visited : List Visit → ℕ
visited [] = 0
visited (regular n ∷ more) = n + visited more
visited (_ ∷ more) = visited more

-- the bytes of the regular files of a path
abbrev pub tree_size : Stat → ℕ
tree_size (file n) = n
tree_size (directory visits) = visited visits
tree_size _ = 0

walk_size_lem :
    (t : ℕ) (vs : List Visit) (r : ℤ)
    → walk_size (pos t) vs ≡ ok r
    → t + visited vs < 2 ^ 63
    → (r ≡ pos (t + visited vs)) × All IsPlain vs
unfolding walk_size
walk_size_lem t [] r h b = (ground arith, tt)
walk_size_lem t (a_dir ∷ vs) r h b = let k = walk_size_lem t vs r h b in (k.0, (tt, k.1))
walk_size_lem t (regular n ∷ vs) r h b =
    let e = add_int64_lem t n (omega arith) in
    let k = walk_size_lem (t + n) vs r (rw e at h) (omega arith) in (k.0 ∙ ground arith, (tt, k.1))
walk_size_lem t (unreadable e ∷ vs) r h b = cc
walk_size_lem t (a_link p ∷ vs) r h b = cc
walk_size_lem t (no_info e ∷ vs) r h b = cc
walk_size_lem t (irregular p ∷ vs) r h b = cc

walked_lem :
    (vs : List Visit) (r : ℤ) (p : String)
    → size_of p (directory vs) ≡ ok r
    → visited vs < 2 ^ 63
    → (r ≡ pos (visited vs)) × All IsPlain vs
unfolding size_of
walked_lem vs r p h b = elim (Result-cases (walk_size (pos 0) vs)) [
  | inl (n, e) ↦ let k = walk_size_lem 0 vs n e (omega arith) in (ground arith, k.1)
  | inr (x, e) ↦ absurd (ground arith)
]

size_of_lem :
    (p : String) (s : Stat) (r : ℤ)
    → size_of p s ≡ ok r
    → tree_size s < 2 ^ 63
    → (r ≡ pos (tree_size s)) × IsTree s
unfolding size_of
size_of_lem p (file n) r h b = (ground arith, tt)
size_of_lem p (directory vs) r h b = walked_lem vs r p h b
size_of_lem p missing r h b = absurd (ground arith)
size_of_lem p (failed e) r h b = absurd (ground arith)
size_of_lem p link r h b = absurd (ground arith)
size_of_lem p special r h b = absurd (ground arith)

default_mount : (name : String) → str_append "/workspace/data/" name ≢ ""
default_mount name h = cc ((append-eq-nil_iff {q = name}).0 h).0

module _ (fs : Files) where
  abbrev pub HasScheme : Option String → Type 0
  HasScheme none = ⊥
  HasScheme (some s) = (s ≢ "") × (supported_uri_scheme (fs.to_lower s) ≡ true)

  -- a bundle of plain files, or a URI with a supported scheme
  abbrev pub Fits : DataInput → Type 0
  Fits i =
      ((i.mode ≡ mode_bundle) × IsTree (fs.lstat i.source))
      ⊎ ((i.mode ≡ mode_uri) × HasScheme (fs.url_scheme i.source))

  pub record IsAccepted (i : DataInput) : Type 0 where
    pub named : i.name ≢ ""
    pub sourced : i.source ≢ ""
    pub mounted : i.mount ≢ ""
    pub fits : Fits i

  abbrev bytes_of : DataInput → ℕ
  bytes_of i = if i.mode == mode_bundle then tree_size (fs.lstat i.source) else 0

  -- the bytes that the bundled inputs have together
  abbrev pub bundled : List DataInput → ℕ
  bundled [] = 0
  bundled (i ∷ more) = bytes_of i + bundled more

  validate_uri_lem :
      (source : String) → validate_uri fs source ≡ none → HasScheme (fs.url_scheme source)
  unfolding validate_uri
  validate_uri_lem source h = elim (Option-cases (fs.url_scheme source)) [
    | inl e ↦ absurd (ground arith)
    | inr (s, e) ↦ rw e (ground (arith, eq_iff s ""), ground arith)
  ]

  total_with_lem :
      (t : ℕ) (i : DataInput) (r : ℤ)
      → total_with fs (pos t) i ≡ ok r
      → t + bytes_of i < 2 ^ 63
      → (r ≡ pos (t + bytes_of i)) × Fits i
  unfolding total_with local_size
  total_with_lem t i r h b = elim (Bool-cases (i.mode == mode_bundle)) [
    | inl e ↦ elim (Result-cases (size_of i.source (fs.lstat i.source))) [
      | inl (n, k) ↦
          let s = size_of_lem i.source (fs.lstat i.source) n k (ground arith) in
          let a = add_int64_lem t (tree_size (fs.lstat i.source)) (ground arith) in
          (ground arith, inl ((eq_iff i.mode mode_bundle).0 e, s.1))
      | inr (x, k) ↦ absurd (ground arith)
    ]
    | inr e ↦ elim (Bool-cases (i.mode == mode_uri)) [
      | inl u ↦ elim (Option-cases (validate_uri fs i.source)) [
        | inl v ↦ (ground arith, inr ((eq_iff i.mode mode_uri).0 u, validate_uri_lem i.source v))
        | inr (x, v) ↦ absurd (ground arith)
      ]
      | inr u ↦ absurd (ground arith)
    ]
  ]

  normalize_input_lem :
      (i n : DataInput)
      → normalize_input fs i ≡ ok n
      → (n.name ≢ "") × (n.source ≢ "") × (n.mount ≢ "")
  unfolding normalize_input
  normalize_input_lem i n h = elim (Bool-cases (i.name == "")) [
    | inl e ↦ absurd (ground arith)
    | inr e ↦ elim (Bool-cases (i.source == "")) [
      | inl k ↦ absurd (ground arith)
      | inr k ↦ (
        ground (arith, eq_iff i.name ""),
        ground (arith, eq_iff i.source ""),
        ground (arith, eq_iff i.mount "", default_mount i.name),
      )
    ]
  ]

  check_inputs_lem :
      (t : ℕ) (is ns : List DataInput) (r : ℤ)
      → check_inputs fs (pos t) is ≡ ok (ns, r)
      → t + bundled ns < 2 ^ 63
      → (r ≡ pos (t + bundled ns)) × All IsAccepted ns
  unfolding check_inputs
  check_inputs_lem t [] ns r h b = let same : ns ≡ [] = ground arith in rw same (ground arith, tt)
  check_inputs_lem t (i ∷ is) ns r h b = elim (Result-cases (normalize_input fs i)) [
    | inr (x, e) ↦ absurd (ground arith)
    | inl (n, e) ↦ elim (Result-cases (total_with fs (pos t) n)) [
      | inr (x, k) ↦ absurd (ground arith)
      | inl (u, k) ↦ elim (Result-cases (check_inputs fs u is)) [
        | inr (x, l) ↦ absurd (ground arith)
        | inl ((ms, end), l) ↦
            let same : ns ≡ n ∷ ms = ground arith in
            let last : r ≡ end = ground arith in
            let fit : t + (bytes_of n + bundled ms) < 2 ^ 63 = rw same at b in
            let s = total_with_lem t n u k (omega arith) in
            let rest = check_inputs_lem (t + bytes_of n) is ms end (rw s.0 at l) (omega arith) in
            let names = normalize_input_lem i n e in
            rw same (
              last ∙ rest.0 ∙ ground arith,
              (
                record { named = names.0; sourced = names.1; mounted = names.2; fits = s.1 },
                rest.1,
              ),
            )
      ]
    ]
  ]

  limit_holds :
      (job : JobSpec) (o : PreflightOptions) (man : DataManifest) (ns : List DataInput)
      → check_inputs fs (pos 0) job.inputs ≡ ok (ns, pos (bundled ns))
      → prepare fs job o ≡ ok man
      → o.require_override ≡ true
      → o.allow_large_bundle ≡ false
      → pos 0 <ℤ o.bundle_size_limit_bytes
      → pos (bundled ns) ≤ℤ o.bundle_size_limit_bytes
  unfolding prepare
  limit_holds job o man ns e h q a l = ground arith

  -- Where prepare returns a manifest whose bundled files have less than 2 ^ 63 bytes together, every
  -- input has a name and a mount, and is a URI with a supported scheme or a path that is a regular file
  -- or a walk of directories and regular files only; the size that is reported is the sum of the files;
  -- and with an override required, none given and a positive limit, it is within the limit.
  pub prepare_accepts :
      (job : JobSpec) (o : PreflightOptions) (man : DataManifest)
      → prepare fs job o ≡ ok man
      → bundled man.inputs < 2 ^ 63
      → All IsAccepted man.inputs
        × (man.bundle_size_bytes ≡ pos (bundled man.inputs))
        × (o.require_override ≡ true
            → o.allow_large_bundle ≡ false
            → pos 0 <ℤ o.bundle_size_limit_bytes
            → pos (bundled man.inputs) ≤ℤ o.bundle_size_limit_bytes)
  unfolding prepare
  prepare_accepts job o man h b = elim (Result-cases (check_inputs fs (pos 0) job.inputs)) [
    | inr (x, e) ↦ absurd (ground arith)
    | inl ((ns, r), e) ↦
        let same : man.inputs ≡ ns = ground arith in
        let size : man.bundle_size_bytes ≡ r = ground arith in
        let fit : bundled ns < 2 ^ 63 = rw same at b in
        let k = check_inputs_lem 0 job.inputs ns r e (omega arith) in
        let total : r ≡ pos (bundled ns) = k.0 ∙ ground arith in
        rw same (k.1, size ∙ total, limit_holds job o man ns (rw total at e) h)
  ]
