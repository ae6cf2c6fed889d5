-- ===== src/Redact/Redactor.antt =====
-- The Redactor of internal/redact/redact.go.
use Prim.Native.Char.{Char, code}
use Prim.Native.String.{◌++◌ as str_append}
use orchestrator_cli.Common.{
  ℕ, zero, suc, ◌+◌, ◌-◌, String, Bool, not, ◌&&◌, Option, none, some, List, [], ◌∷◌, ◌++◌, ◌==◌,
  ltb, if◌then◌else◌,
}
use orchestrator_cli.Common.Strings.{has_prefix, cut}
use orchestrator_cli.Common.Sort.{sort_stable}
use orchestrator_cli.Redact.Keys.{replacement, is_secret_key, is_uri_key}
use orchestrator_cli.Redact.Values.{Value, Items, Fields}
use orchestrator_cli.Redact.Uris.{UriTools, sanitize_uri, sanitize_uri_references}

-- the length of a text in characters, and len() of it in UTF-8
unfoldable pub chars : String → ℕ
chars String.[] = 0
chars (String.◌∷◌ c s) = suc (chars s)

abbrev pub utf8_width : ℕ → ℕ
utf8_width n = if ltb n 128 then 1 else if ltb n 2048 then 2 else if ltb n 65536 then 3 else 4

unfoldable pub byte_length : String → ℕ
byte_length String.[] = 0
byte_length (String.◌∷◌ c s) = utf8_width (code c) + byte_length s

-- strings.ReplaceAll for an `old` that is not empty; `skip` counts what is left of a match
unfoldable pub replace_from : String → String → ℕ → String → String
replace_from old new skip String.[] = String.[]
replace_from old new (suc skip) (String.◌∷◌ c s) = replace_from old new skip s
replace_from old new zero (String.◌∷◌ c s) =
    let after = replace_from old new (chars old - 1) s in
    let next = replace_from old new 0 s in
    if has_prefix (String.◌∷◌ c s) old then str_append new after else String.◌∷◌ c next

-- the loop of String over the secrets
unfoldable pub replace_values : List String → String → String
unfolding replace_from
replace_values [] out = out
replace_values (secret ∷ more) out = replace_values more (replace_from secret replacement 0 out)

abbrev pub is_secret_value : (Char → Char) → String → String → Bool
is_secret_value fold key value = is_secret_key fold key && not (ltb (byte_length value) 6)

-- `values[value] = true`
unfoldable pub add_value : String → List String → List String
add_value value [] = value ∷ []
add_value value (v ∷ more) = if v == value then v ∷ more else v ∷ add_value value more

unfoldable pub secrets_of : (Char → Char) → List (String × String) → List String → List String
unfolding byte_length add_value
secrets_of fold [] values = values
secrets_of fold ((key, value) ∷ more) values =
    secrets_of fold more (if is_secret_value fold key value then add_value value values else values)

abbrev with_pair : Option (String × String) → List (String × String) → List (String × String)
with_pair none pairs = pairs
with_pair (some p) pairs = p ∷ pairs

-- the pairs of os.Environ
unfoldable pub environ_pairs : List String → List (String × String)
unfolding cut
environ_pairs [] = []
environ_pairs (pair ∷ more) = with_pair (cut b'=' pair) (environ_pairs more)

abbrev pub longer : String → String → Bool
longer a b = ltb (byte_length b) (byte_length a)

-- FromEnvironment, with the entries of all its maps
unfoldable pub from_environment : (Char → Char) → List String → List (String × String) → List String
unfolding secrets_of environ_pairs
from_environment fold environ pairs =
    sort_stable longer (secrets_of fold (environ_pairs environ ++ pairs) [])

-- the first test of `value` and sanitizeURIValue, with the result of the rest
abbrev pub hide : {F : Type 0} → (Char → Char) → String → Value F → Value F
hide fold key v = if is_secret_key fold key then Value.text replacement else v

-- `values` are those of the Redactor
module _ (t : UriTools) (values : List String) where
  unfoldable pub redact_string : String → String
  unfolding replace_values
  redact_string value = sanitize_uri_references t (replace_values values value)

  unfoldable pub redact_uri : String → String
  unfolding redact_string
  redact_uri value = redact_string (sanitize_uri t value)

  unfoldable pub redact_texts : List String → List String
  unfolding redact_string
  redact_texts [] = []
  redact_texts (s ∷ more) = redact_string s ∷ redact_texts more

  abbrev pub redact_pair : String → String → String
  redact_pair k v =
      if is_secret_key t.fold k
      then replacement
      else if is_uri_key t.fold k
      then redact_uri v
      else redact_string v

  unfoldable pub redact_text_map : List (String × String) → List (String × String)
  redact_text_map [] = []
  redact_text_map ((k, v) ∷ more) = (k, redact_pair k v) ∷ redact_text_map more

  -- `value`
  unfoldable mutual
    unfolding redact_texts redact_text_map

    pub redact_value : {F : Type 0} → String → Value F → Value F
    redact_value key Value.null = hide t.fold key Value.null
    redact_value key (Value.boolean b) = hide t.fold key (Value.boolean b)
    redact_value key (Value.number x) = hide t.fold key (Value.number x)
    redact_value key (Value.integer n) = hide t.fold key (Value.integer n)
    redact_value key (Value.text s) =
        hide t.fold key
          (Value.text (if is_uri_key t.fold key then redact_uri s else redact_string s))
    redact_value key (Value.texts ss) = hide t.fold key (Value.texts (redact_texts ss))
    redact_value key (Value.text_map m) = hide t.fold key (Value.text_map (redact_text_map m))
    redact_value key (Value.array vs) = hide t.fold key (Value.array (redact_items vs))
    redact_value key (Value.object fs) = hide t.fold key (Value.object (redact_fields fs))

    pub redact_items : {F : Type 0} → Items F → Items F
    redact_items Items.nil = Items.nil
    redact_items (Items.cons v more) = Items.cons (redact_value "" v) (redact_items more)

    pub redact_fields : {F : Type 0} → Fields F → Fields F
    redact_fields Fields.end = Fields.end
    redact_fields (Fields.field k v more) = Fields.field k (redact_value k v) (redact_fields more)
