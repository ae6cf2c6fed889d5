-- ===== src/Redact/Uris.antt =====
-- SanitizeURI and SanitizeURIReferences of internal/redact/redact.go; net/url and the regular
-- expression are parameters.
use Prim.Native.Char.{Char}
use orchestrator_cli.Common.{
  String, Bool, true, false, not, ◌||◌, ◌&&◌, Option, none, some, List, [], ◌∷◌, ◌==◌, map,
  if◌then◌else◌,
}
use orchestrator_cli.Common.Strings.{contains_text}
use orchestrator_cli.Redact.Keys.{replacement, is_signed_marker, is_secret_query_key}

abbrev pub Query : Type 0
Query = List (String × List String)

-- what SanitizeURI reads and writes of a url.URL; `rest` is what it leaves
pub record Url : Type 0 where
  pub user : Option String
  pub raw_query : String
  pub fragment : String
  pub rest : String

-- url.Parse, URL.Query, Values.Encode, URL.String, unicode.ToLower, and ReplaceAllStringFunc of the
-- pattern of a URI
pub record UriTools : Type 0 where
  pub parse : String → Option Url
  pub query : String → Query
  pub encode : Query → String
  pub print : Url → String
  pub fold : Char → Char
  pub replace_references : (String → String) → String → String

abbrev pub replace_each : List String → List String
replace_each values = map (λ v. replacement) values

abbrev pub some_text : Option String → Bool
some_text none = false
some_text (some s) = true

module _ (t : UriTools) where
  unfoldable pub query_has_signed_url_markers : Query → Bool
  query_has_signed_url_markers [] = false
  query_has_signed_url_markers ((key, values) ∷ more) =
      is_signed_marker t.fold key || query_has_signed_url_markers more

  -- the loop over the query
  unfoldable pub redact_query : Bool → Query → Query
  redact_query all [] = []
  redact_query all ((key, values) ∷ more) =
      (key, if all || is_secret_query_key t.fold key then replace_each values else values)
      ∷ redact_query all more

  -- whether the loop sets `changed`
  unfoldable pub redacts : Bool → Query → Bool
  redacts all [] = false
  redacts all ((key, values) ∷ more) = all || is_secret_query_key t.fold key || redacts all more

  abbrev pub sanitized_user : Option String → Option String
  sanitized_user none = none
  sanitized_user (some u) = some replacement

  abbrev pub sanitized_query : String → String
  sanitized_query raw =
      if raw == ""
      then raw
      else t.encode (redact_query (query_has_signed_url_markers (t.query raw)) (t.query raw))

  abbrev pub sanitized_fragment : String → String
  sanitized_fragment f = if f == "" then f else replacement

  unfoldable pub sanitize_url : Url → Url
  unfolding redact_query query_has_signed_url_markers
  sanitize_url u = record {
    user = sanitized_user u.user;
    raw_query = sanitized_query u.raw_query;
    fragment = sanitized_fragment u.fragment;
    rest = u.rest;
  }

  -- `changed`
  unfoldable pub url_changes : Url → Bool
  unfolding redacts query_has_signed_url_markers
  url_changes u =
      some_text u.user
      || (not (u.raw_query == "")
          && redacts (query_has_signed_url_markers (t.query u.raw_query)) (t.query u.raw_query))
      || not (u.fragment == "")

  abbrev sanitize_parsed : String → Option Url → String
  sanitize_parsed value none = value
  sanitize_parsed value (some u) = if url_changes u then t.print (sanitize_url u) else value

  unfoldable pub sanitize_uri : String → String
  unfolding url_changes sanitize_url
  sanitize_uri value = if value == "" then value else sanitize_parsed value (t.parse value)

  unfoldable pub sanitize_uri_references : String → String
  unfolding sanitize_uri
  sanitize_uri_references value =
      if contains_text value "://" then t.replace_references sanitize_uri value else value
