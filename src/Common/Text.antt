-- ===== src/Common/Text.antt =====
-- Go strings compared by their characters, which is the order of their UTF-8 bytes.
use Prim.Native.Char.{code}
use Prim.Native.String.{String}
use mathlib.Core.Path.{◌≡◌, refl, ap₂}
use mathlib.Core.Bool.{Bool, true, false, not, ◌&&◌}
use mathlib.Core.Option.{Option}
use mathlib.Core.Logic.{inl, inr}
use text.Mathlib.Text.{◌==◌}
use text.Mathlib.TextEquality.{eq_iff, Char-path}
use text.Mathlib.TextPositions.{eq_refl}
use native.Mathlib.Omega.{arith}
use orchestrator_cli.Common.Tests.{ltb, if◌then◌else◌, Bool-cases}

-- `a < b` on strings
unfoldable pub str_lt : String → String → Bool
str_lt String.[] String.[] = false
str_lt String.[] (String.◌∷◌ d t) = true
str_lt (String.◌∷◌ c s) String.[] = false
str_lt (String.◌∷◌ c s) (String.◌∷◌ d t) =
    if ltb (code c) (code d) then true else if ltb (code d) (code c) then false else str_lt s t

pub str_lt_asym : (a b : String) → str_lt a b ≡ true → str_lt b a ≡ false
unfolding str_lt
str_lt_asym String.[] String.[] h = refl
str_lt_asym String.[] (String.◌∷◌ d t) h = refl
str_lt_asym (String.◌∷◌ c s) String.[] h = cc
str_lt_asym (String.◌∷◌ c s) (String.◌∷◌ d t) h = ground (arith, str_lt_asym s t)

-- `a ≤ b` and `b ≤ c` give `a ≤ c`, with `≤` written as the failure of `<` the other way round
pub str_le_trans : (a b c : String) → str_lt b a ≡ false → str_lt c b ≡ false → str_lt c a ≡ false
unfolding str_lt
str_le_trans String.[] String.[] String.[] h k = refl
str_le_trans String.[] String.[] (String.◌∷◌ z u) h k = refl
str_le_trans String.[] (String.◌∷◌ d t) String.[] h k = refl
str_le_trans String.[] (String.◌∷◌ d t) (String.◌∷◌ z u) h k = refl
str_le_trans (String.◌∷◌ c s) String.[] String.[] h k = cc
str_le_trans (String.◌∷◌ c s) String.[] (String.◌∷◌ z u) h k = cc
str_le_trans (String.◌∷◌ c s) (String.◌∷◌ d t) String.[] h k = cc
str_le_trans (String.◌∷◌ c s) (String.◌∷◌ d t) (String.◌∷◌ z u) h k =
    ground (arith, str_le_trans s t u)

-- What the program asks of Go's `strings` and `net/url` and does not implement:
-- strings.ToLower, strings.EqualFold, the scheme that url.Parse finds (`none` on its error), and what
-- strings.Cut finds before a separator (`none` where there is no separator).
pub record GoText : Type 0 where
  pub to_lower : String → String
  pub equal_fold : String → String → Bool
  pub url_scheme : String → Option String
  pub cut_before : String → String → Option String

-- Of two strings of which neither is before the other both are the same.
pub str_lt_total : (a b : String) → str_lt a b ≡ false → str_lt b a ≡ false → a ≡ b
unfolding str_lt
str_lt_total String.[] String.[] h k = refl
str_lt_total String.[] (String.◌∷◌ d t) h k = cc
str_lt_total (String.◌∷◌ c s) String.[] h k = cc
str_lt_total (String.◌∷◌ c s) (String.◌∷◌ d t) h k =
    let same : code c ≡ code d = ground arith in
    ap₂ String.◌∷◌ (Char-path c d same) (str_lt_total s t (ground arith) (ground arith))

pub str_lt_irrefl : (a : String) → str_lt a a ≡ false
unfolding str_lt
str_lt_irrefl String.[] = refl
str_lt_irrefl (String.◌∷◌ c s) = ground (arith, str_lt_irrefl s)

-- `==` on strings is that neither is before the other.
pub str_eq_of_order : (a b : String) → (a == b) ≡ (not (str_lt a b) && not (str_lt b a))
str_eq_of_order a b = elim (Bool-cases (a == b)) [
  | inl same ↦ let e = (eq_iff a b).0 same in rw e (rw (eq_refl, str_lt_irrefl b))
  | inr other ↦ ground (arith, eq_iff a b, str_lt_total a b)
]
