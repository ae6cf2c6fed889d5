-- ===== src/Redact/Clean.antt =====
-- What SanitizeURI of internal/redact/redact.go leaves of a URI.
use orchestrator_cli.Common.{
  String, Bool, true, false, ◌||◌, Option, none, some, List, [], ◌∷◌, ◌==◌, ◌≡◌, refl, sym, ◌∙◌,
  ◌⊎◌, inl, inr, All, Bool-cases, eq_iff, arith,
}
use orchestrator_cli.Redact.Keys.{replacement, is_secret_query_key}
use orchestrator_cli.Redact.Uris.{
  Query, Url, UriTools, query_has_signed_url_markers, redact_query, redacts, replace_each,
  sanitized_user, sanitized_query, sanitized_fragment, sanitize_url, some_text, url_changes,
  sanitize_uri,
}

All-replaced : (values : List String) → All (λ v. v ≡ replacement) (replace_each values)
All-replaced [] = tt
All-replaced (v ∷ more) = (refl, All-replaced more)

module _ (t : UriTools) where
  abbrev ClearIn : Bool → Query → Type 0
  ClearIn all [] = Unit
  ClearIn all ((key, values) ∷ more) =
      (all || is_secret_query_key t.fold key ≡ true → All (λ v. v ≡ replacement) values)
      × ClearIn all more

  -- a secret parameter, or any one of a signed URL, has only replaced values
  abbrev IsClear : Query → Type 0
  IsClear q = ClearIn (query_has_signed_url_markers t q) q

  -- no user, no fragment and no secret parameter, but for the replacement
  abbrev IsClean : Url → Type 0
  IsClean u =
      ((u.user ≡ none) ⊎ (u.user ≡ some replacement))
      × ((u.fragment ≡ "") ⊎ (u.fragment ≡ replacement))
      × ((u.raw_query ≡ "")
          ⊎ ((q : Query) × ((q ≡ t.query u.raw_query) ⊎ (u.raw_query ≡ t.encode q)) × IsClear q))

  abbrev pub IsSafe : String → Url → Type 0
  IsSafe value u =
      ((sanitize_uri t value ≡ value) × IsClean u)
      ⊎ ((v : Url) × (sanitize_uri t value ≡ t.print v) × IsClean v × (v.rest ≡ u.rest))

  same_marks :
      (all : Bool) (q : Query)
      → query_has_signed_url_markers t (redact_query t all q) ≡ query_has_signed_url_markers t q
  unfolding query_has_signed_url_markers redact_query
  same_marks all [] = refl
  same_marks all ((key, values) ∷ more) = rw (same_marks all more) refl

  cleared : (all : Bool) (q : Query) → ClearIn all (redact_query t all q)
  unfolding redact_query
  cleared all [] = tt
  cleared all ((key, values) ∷ more) = (λ h. rw h (All-replaced values), cleared all more)

  nothing-ClearIn : (all : Bool) (q : Query) → redacts t all q ≡ false → ClearIn all q
  unfolding redacts
  nothing-ClearIn all [] h = tt
  nothing-ClearIn all ((key, values) ∷ more) h =
      let here : all || is_secret_query_key t.fold key ≡ false = ground arith in
      let rest : redacts t all more ≡ false = ground arith in
      (λ k. absurd (cc (sym k ∙ here)), nothing-ClearIn all more rest)

  user_clean :
      (u : Option String) → (sanitized_user t u ≡ none) ⊎ (sanitized_user t u ≡ some replacement)
  user_clean none = inl refl
  user_clean (some s) = inr refl

  fragment_clean :
      (s : String) → (sanitized_fragment t s ≡ "") ⊎ (sanitized_fragment t s ≡ replacement)
  fragment_clean s = elim (Bool-cases (s == "")) [
    | inl e ↦ inl (rw e ((eq_iff s "").0 e))
    | inr e ↦ inr (rw e refl)
  ]

  changed-IsClean : (u : Url) → IsClean (sanitize_url t u)
  unfolding sanitize_url
  changed-IsClean u = (user_clean u.user, fragment_clean u.fragment, query_clean)
    where
      query_clean :
          (sanitized_query t u.raw_query ≡ "")
          ⊎ ((q : Query) × ((q ≡ t.query (sanitized_query t u.raw_query))
                ⊎ (sanitized_query t u.raw_query ≡ t.encode q))
              × IsClear q)
      query_clean = elim (Bool-cases (u.raw_query == "")) [
        | inl e ↦ inl (rw e ((eq_iff u.raw_query "").0 e))
        | inr e ↦
            let all = query_has_signed_url_markers t (t.query u.raw_query) in
            inr (
              redact_query t all (t.query u.raw_query),
              inr (rw e refl),
              rw (same_marks all (t.query u.raw_query)) (cleared all (t.query u.raw_query)),
            )
      ]

  no_user : (o : Option String) → some_text o ≡ false → o ≡ none
  no_user none h = refl
  no_user (some s) h = absurd (cc h)

  rest_kept : (u : Url) → (sanitize_url t u).rest ≡ u.rest
  unfolding sanitize_url
  rest_kept u = refl

  unchanged-IsClean : (u : Url) → url_changes t u ≡ false → IsClean u
  unfolding url_changes
  unchanged-IsClean u h = (
    inl (no_user u.user (ground arith)),
    inl ((eq_iff u.fragment "").0 (ground arith)),
    elim (Bool-cases (u.raw_query == "")) [
      | inl e ↦ inl ((eq_iff u.raw_query "").0 e)
      | inr e ↦ inr (t.query u.raw_query, inl refl, nothing-ClearIn _ _ (ground arith))
    ],
  )

  -- For a text that url.Parse accepts, sanitize_uri returns the text itself only where the URL has no
  -- user, no fragment and no secret parameter among those that URL.Query returns, and otherwise prints
  -- a URL with the same rest in which these are replaced; all parameters of a signed URL are secret. Of
  -- a text that url.Parse refuses, and of parameters that URL.Query drops, nothing is said.
  pub sanitize_uri-IsSafe :
      (value : String) (u : Url) → (value == "") ≡ false → t.parse value ≡ some u → IsSafe value u
  unfolding sanitize_uri
  sanitize_uri-IsSafe value u h k = elim (Bool-cases (url_changes t u)) [
    | inl e ↦ inr (sanitize_url t u, rw (h, k, e) refl, changed-IsClean u, rest_kept u)
    | inr e ↦ inl (rw (h, k, e) refl, unchanged-IsClean u e)
  ]
