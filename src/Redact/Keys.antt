-- ===== src/Redact/Keys.antt =====
-- Which keys hold secrets or URIs: IsSecretKey, IsURIKey and the keys of queries in
-- internal/redact/redact.go.
use Prim.Native.Char.{Char}
use orchestrator_cli.Common.{ℕ, String, Bool, false, ◌||◌, List, [], ◌∷◌, ◌==◌, eqb}
use orchestrator_cli.Common.Strings.{to_lower, drop_chars, contains_text}

abbrev pub replacement : String
replacement = "[REDACTED]"

-- the characters that the replacer drops
abbrev is_separator : ℕ → Bool
is_separator n = eqb n b'_' || eqb n b'-' || eqb n b'.' || eqb n b' '

unfoldable pub normalize_query_key : (Char → Char) → String → String
normalize_query_key fold key = drop_chars is_separator (to_lower fold key)

unfoldable pub has_marker : String → List String → Bool
has_marker key [] = false
has_marker key (marker ∷ more) = contains_text key marker || has_marker key more

unfoldable pub is_marker : String → List String → Bool
is_marker key [] = false
is_marker key (marker ∷ more) = key == marker || is_marker key more

unfoldable pub is_secret_key : (Char → Char) → String → Bool
unfolding has_marker normalize_query_key
is_secret_key fold key = has_marker (normalize_query_key fold key) (
    "password" ∷ "passwd" ∷ "secret" ∷ "token" ∷ "apikey" ∷ "accesskey" ∷ "privatekey"
    ∷ "credential" ∷ "authorization" ∷ [])

unfoldable pub is_uri_key : (Char → Char) → String → Bool
unfolding has_marker normalize_query_key
is_uri_key fold key = has_marker (normalize_query_key fold key) ("uri" ∷ "url" ∷ "source" ∷ [])

unfoldable pub is_signed_marker : (Char → Char) → String → Bool
unfolding is_marker normalize_query_key
is_signed_marker fold key = is_marker (normalize_query_key fold key) (
    "xamzsignature" ∷ "xamzcredential" ∷ "xamzsecuritytoken" ∷ "xgoogsignature" ∷ "xgoogcredential"
    ∷ "xgoogsecuritytoken" ∷ "awsaccesskeyid" ∷ "signature" ∷ "sig" ∷ [])

abbrev query_markers : List String
query_markers = "signature" ∷ "sig" ∷ "credential" ∷ "securitytoken" ∷ "accesskeyid" ∷ "secret" ∷ []

unfoldable pub is_secret_query_key : (Char → Char) → String → Bool
unfolding is_secret_key is_marker has_marker normalize_query_key
is_secret_query_key fold key =
    is_secret_key fold key
    || is_marker (normalize_query_key fold key) query_markers
    || has_marker (normalize_query_key fold key) query_markers
