-- ===== src/Credentials/Keys.antt =====
-- internal/credentials/model.go: keys such as "lambda/api_key". `fold` is unicode.ToLower on what is
-- not ASCII.
use Prim.Native.Char.{Char, code}
use Prim.Native.String.{◌++◌ as str_append}
use orchestrator_cli.Common.{
  ℕ, String, Bool, true, false, ◌&&◌, ◌||◌, Option, none, some, ◌==◌, if◌then◌else◌, eqb, ◌≡◌, refl,
  ◌⊎◌, inl, inr,
}
use orchestrator_cli.Common.Strings.{between, to_lower, trim_space, replace_char, cut}
use orchestrator_cli.App.Errors.{Error}

-- the errors of the package; `not_found` is the value ErrNotFound itself, `no_credential` wraps it
pub data Fault : Type 0 where
  not_found : Fault
  no_credential : String → Fault
  invalid_pair : String → String → Fault
  invalid_key : String → Fault
  other : Error → Fault

-- `(value, error)`
pub data Answer (A : Type 0) : Type 0 where
  ok : A → Answer A
  err : Fault → Answer A

pub Answer-cases :
    {A : Type 0} (r : Answer A) → ((a : A) × (r ≡ ok a)) ⊎ ((e : Fault) × (r ≡ err e))
Answer-cases (ok a) = inl (a, refl)
Answer-cases (err e) = inr (e, refl)

-- [a-z0-9] and [a-z0-9_]
abbrev pub is_alnum : ℕ → Bool
is_alnum n = between b'a' b'z' n || between b'0' b'9' n

abbrev pub is_word : ℕ → Bool
is_word n = is_alnum n || eqb n b'_'

unfoldable pub all_words : String → Bool
all_words String.[] = true
all_words (String.◌∷◌ c s) = is_word (code c) && all_words s

-- validKeyComponent.MatchString
unfoldable pub valid_key_component : String → Bool
unfolding all_words
valid_key_component String.[] = false
valid_key_component (String.◌∷◌ c s) = is_alnum (code c) && all_words s

-- provider + "/" + name
abbrev pub slashed : String → String → String
slashed provider name = str_append provider (str_append "/" name)

module _ (fold : Char → Char) where
  unfoldable pub normalize_component : String → String
  unfolding to_lower trim_space replace_char
  normalize_component value = replace_char "-" "_" (trim_space (to_lower fold value))

  abbrev pub checked : String → String → Answer String
  checked provider name =
      if valid_key_component provider && valid_key_component name
      then ok (slashed provider name)
      else err (invalid_pair provider name)

  unfoldable pub key_of : String → String → Answer String
  key_of provider name = checked (normalize_component provider) (normalize_component name)

  abbrev pub same_key : String → String × String → Answer String → Answer (String × String)
  same_key key parts (err e) = err e
  same_key key parts (ok canonical) = if canonical == key then ok parts else err (invalid_key key)

  abbrev pub split_parts : String → Option (String × String) → Answer (String × String)
  split_parts key none = err (invalid_key key)
  split_parts key (some (provider, name)) = same_key key (provider, name) (key_of provider name)

  unfoldable pub split_key : String → Answer (String × String)
  split_key key = split_parts key (cut b'/' key)
