-- ===== src/Common/Strings.antt =====
-- Functions of Go's package `strings` on texts of code points: TrimSpace, ToLower, HasPrefix,
-- TrimPrefix, Contains, Cut and ReplaceAll with one character, TrimRight, Trim and Join.
use Prim.Native.Char.{Char, code}
use Prim.Native.String.{char_at, ◌++◌ as str_append}
use orchestrator_cli.Common.Tests.{eqb, leb, ltb, if◌then◌else◌}
use Prim.Native.Nat.{ℕ, ◌-◌}
use Prim.Native.String.{String}
use mathlib.Core.Bool.{Bool, true, false, ◌&&◌, ◌||◌}
use mathlib.Core.Path.{◌≡◌, refl}
use mathlib.Core.Option.{Option, none, some}
use mathlib.Core.List.{List, [], ◌∷◌}

abbrev pub between : ℕ → ℕ → ℕ → Bool
between lo hi n = leb lo n && leb n hi

-- unicode.IsSpace
abbrev pub is_space : ℕ → Bool
is_space n =
    between 9 13 n
    || eqb n 32
    || eqb n 133
    || eqb n 160
    || eqb n 5760
    || between 8192 8202 n
    || eqb n 8232
    || eqb n 8233
    || eqb n 8239
    || eqb n 8287
    || eqb n 12288

-- unicode.ToLower, with `fold` for what is not ASCII
unfoldable pub lower_char : (Char → Char) → Char → Char
lower_char fold c =
    if ltb (code c) 128
    then (if between 65 90 (code c) then char_at "abcdefghijklmnopqrstuvwxyz" (code c - 65) else c)
    else fold c

unfoldable pub map_chars : (Char → Char) → String → String
map_chars f String.[] = String.[]
map_chars f (String.◌∷◌ c s) = String.◌∷◌ (f c) (map_chars f s)

unfoldable pub to_lower : (Char → Char) → String → String
unfolding map_chars lower_char
to_lower fold s = map_chars (lower_char fold) s

-- strings.NewReplacer with empty replacements of single characters
unfoldable pub drop_chars : (ℕ → Bool) → String → String
drop_chars p String.[] = String.[]
drop_chars p (String.◌∷◌ c s) =
    let rest = drop_chars p s in if p (code c) then rest else String.◌∷◌ c rest

unfoldable pub trim_left : (ℕ → Bool) → String → String
trim_left p String.[] = String.[]
trim_left p (String.◌∷◌ c s) =
    let rest = trim_left p s in if p (code c) then rest else String.◌∷◌ c s

abbrev pub keep_end : Bool → Char → String → String
keep_end true c String.[] = String.[]
keep_end true c (String.◌∷◌ d t) = String.◌∷◌ c (String.◌∷◌ d t)
keep_end false c t = String.◌∷◌ c t

unfoldable pub trim_right : (ℕ → Bool) → String → String
trim_right p String.[] = String.[]
trim_right p (String.◌∷◌ c s) = keep_end (p (code c)) c (trim_right p s)

-- strings.Trim with a set of characters
unfoldable pub trim : (ℕ → Bool) → String → String
unfolding trim_left trim_right
trim p s = trim_right p (trim_left p s)

unfoldable pub trim_space : String → String
unfolding trim
trim_space s = trim is_space s

-- whether a text has the character with this code
abbrev pub has_char : ℕ → String → Bool
has_char n String.[] = false
has_char n (String.◌∷◌ c s) = eqb (code c) n || has_char n s

-- strings.HasPrefix(s, p)
unfoldable pub has_prefix : String → String → Bool
has_prefix s String.[] = true
has_prefix String.[] (String.◌∷◌ d p) = false
has_prefix (String.◌∷◌ c s) (String.◌∷◌ d p) = eqb (code c) (code d) && has_prefix s p

unfoldable pub drop_prefix : String → String → String
drop_prefix s String.[] = s
drop_prefix String.[] (String.◌∷◌ d p) = String.[]
drop_prefix (String.◌∷◌ c s) (String.◌∷◌ d p) = drop_prefix s p

-- strings.TrimPrefix(s, p)
unfoldable pub trim_prefix : String → String → String
unfolding has_prefix drop_prefix
trim_prefix s p = if has_prefix s p then drop_prefix s p else s

-- strings.Contains(s, p)
unfoldable pub contains_text : String → String → Bool
unfolding has_prefix
contains_text String.[] p = has_prefix String.[] p
contains_text (String.◌∷◌ c s) p = has_prefix (String.◌∷◌ c s) p || contains_text s p

-- strings.Cut(s, sep) with a separator of one character
abbrev pub cut_more : Char → Option (String × String) → Option (String × String)
cut_more c none = none
cut_more c (some (a, b)) = some (String.◌∷◌ c a, b)

unfoldable pub cut : ℕ → String → Option (String × String)
cut sep String.[] = none
cut sep (String.◌∷◌ c s) =
    let more = cut_more c (cut sep s) in if eqb (code c) sep then some (String.[], s) else more

-- strings.ReplaceAll(s, old, new) of one character by another one
abbrev pub swap_char : Char → Char → Char → Char
swap_char old new c = if eqb (code c) (code old) then new else c

unfoldable pub replace_char : Char → Char → String → String
unfolding map_chars
replace_char old new s = map_chars (swap_char old new) s

-- strings.Join(parts, sep)
unfoldable pub join : String → List String → String
join sep [] = ""
join sep (a ∷ []) = a
join sep (a ∷ b ∷ more) = str_append a (str_append sep (join sep (b ∷ more)))

lowered : trim_space (to_lower (λ c. c) "  Ab-Z\t") ≡ "ab-z"
unfolding trim_space to_lower
lowered = refl

replaced : replace_char "-" "_" "a-b-" ≡ "a_b_"
unfolding replace_char
replaced = refl

found : contains_text "xaccess" "acc" ≡ true
unfolding contains_text
found = refl

cut_once : cut b'/' "a/b/c" ≡ some ("a", "b/c")
unfolding cut
cut_once = refl
