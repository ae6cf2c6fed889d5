-- ===== src/Redact/Tests.antt =====
-- Redaction of one secret.
use mathlib.Core.List.{Memᴰ}
use orchestrator_cli.Common.{ℕ, true, false, none, some, [], ◌∷◌, ◌++◌, ◌==◌, ◌≡◌, refl}
use orchestrator_cli.Common.Strings.{contains_text, drop_chars, to_lower}
use orchestrator_cli.Redact.Uris.{Url, UriTools, sanitize_uri}
use orchestrator_cli.Redact.Clean.{IsSafe, sanitize_uri-IsSafe}
use orchestrator_cli.Redact.Values.{Value, Items, Fields}
use orchestrator_cli.Redact.Redactor.{
  from_environment, replace_values, redact_value, environ_pairs, is_secret_value, byte_length,
}
use orchestrator_cli.Redact.Keys.{is_secret_key}
use orchestrator_cli.Redact.Gone.{Apart}
use orchestrator_cli.Redact.Hidden.{IsHidden, redact_value-IsHidden}
use orchestrator_cli.Redact.Secrets.{secret-gone}

abbrev pub demo_tools : UriTools
demo_tools = record {
  parse = λ s. none;
  query = λ s. [];
  encode = λ q. "";
  print = λ u. u.rest;
  fold = λ c. c;
  replace_references = λ g s. s;
}

abbrev demo_value : Value ℕ
demo_value = Value.object (
    Fields.field "API-Key" (Value.text "TOKEN-ACE22")
      (Fields.field "steps" (Value.array (Items.cons (Value.number 3) Items.nil)) Fields.end))

redact_value-IsHidden_example : IsHidden demo_tools.fold (redact_value demo_tools [] "" demo_value)
redact_value-IsHidden_example = redact_value-IsHidden demo_tools [] "" demo_value

hidden :
    redact_value demo_tools [] "" demo_value
    ≡ Value.object (
        Fields.field "API-Key"
          (Value.text "[REDACTED]")
          (Fields.field "steps" (Value.array (Items.cons (Value.number 3) Items.nil)) Fields.end))
unfolding redact_value is_secret_key contains_text drop_chars to_lower
hidden = refl

demo_pair :
    Memᴰ ("DB_PASSWORD", "TOKEN-ACE22") (environ_pairs ("DB_PASSWORD=TOKEN-ACE22" ∷ []) ++ [])
unfolding environ_pairs
demo_pair = Memᴰ.head refl

demo_secret : is_secret_value (λ c. c) "DB_PASSWORD" "TOKEN-ACE22" ≡ true
unfolding is_secret_key byte_length contains_text drop_chars to_lower
demo_secret = refl

-- a secret that has letters of the replacement
demo-Apart : Apart "TOKEN-ACE22"
unfolding contains_text
demo-Apart = (refl, refl, refl)

secret-gone_example :
    contains_text
      (replace_values
        (from_environment (λ c. c) ("DB_PASSWORD=TOKEN-ACE22" ∷ []) [])
        "login with TOKEN-ACE22")
      "TOKEN-ACE22"
    ≡ false
secret-gone_example =
    secret-gone (λ c. c) ("DB_PASSWORD=TOKEN-ACE22" ∷ []) [] "DB_PASSWORD" "TOKEN-ACE22"
      "login with TOKEN-ACE22" demo_pair demo_secret demo-Apart

abbrev demo_url : Url
demo_url = record { user = some "me:pw"; raw_query = "sig=1"; fragment = ""; rest = "https://h/p" }

abbrev demo_parser : UriTools
demo_parser = record demo_tools {
  parse = λ s. some demo_url;
  query = λ s. ("sig", "1" ∷ []) ∷ [];
  encode = λ q. "sig=[REDACTED]";
}

demo_not_empty : ("https://me:pw@h/p?sig=1" == "") ≡ false
demo_not_empty = refl

sanitize_uri-IsSafe_example : IsSafe demo_parser "https://me:pw@h/p?sig=1" demo_url
sanitize_uri-IsSafe_example =
    sanitize_uri-IsSafe demo_parser "https://me:pw@h/p?sig=1" demo_url demo_not_empty refl

demo_cleaned : sanitize_uri demo_parser "https://me:pw@h/p?sig=1" ≡ "https://h/p"
unfolding sanitize_uri
demo_cleaned = refl
