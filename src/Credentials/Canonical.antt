-- ===== src/Credentials/Canonical.antt =====
-- Which keys SplitKey accepts: those that are made of two valid parts.
use Prim.Native.Char.{Char, code}
use Prim.Native.String.{◌++◌ as str_append}
use text.Mathlib.TextLemmas.{nil-append, cons-append}
use text.Mathlib.TextEquality.{Char-path}
use mathlib.Core.Path.{ap₂}
use orchestrator_cli.Common.{
  String, true, some, ◌≡◌, ◌↔◌, refl, sym, ◌∙◌, ap, eq_iff, eq_refl, arith, eqb, inl, inr,
  Option-cases, Bool-cases,
}
use orchestrator_cli.Common.Strings.{
  is_space, lower_char, to_lower, trim_left, trim_right, trim, trim_space, swap_char, replace_char,
  cut,
}
use orchestrator_cli.Credentials.Keys.{
  ok, is_word, all_words, valid_key_component, slashed, normalize_component, key_of, split_key,
  Answer-cases,
}

module _ (fold : Char → Char) where
  lower_word : (c : Char) → is_word (code c) ≡ true → lower_char fold c ≡ c
  unfolding lower_char
  lower_word c h = ground arith

  to_lower_words : (s : String) → all_words s ≡ true → to_lower fold s ≡ s
  unfolding to_lower all_words
  to_lower_words String.[] h = refl
  to_lower_words (String.◌∷◌ c s) h =
      ap₂ String.◌∷◌ (lower_word c (ground arith)) (to_lower_words s (ground arith))

trim_left_words : (s : String) → all_words s ≡ true → trim_left is_space s ≡ s
unfolding trim_left all_words
trim_left_words String.[] h = refl
trim_left_words (String.◌∷◌ c s) h = ground arith

trim_right_words : (s : String) → all_words s ≡ true → trim_right is_space s ≡ s
unfolding trim_right all_words
trim_right_words String.[] h = refl
trim_right_words (String.◌∷◌ c s) h = ground (arith, trim_right_words s)

swap_word : (c : Char) → is_word (code c) ≡ true → swap_char "-" "_" c ≡ c
swap_word c h = ground arith

replace_words : (s : String) → all_words s ≡ true → replace_char "-" "_" s ≡ s
unfolding replace_char all_words
replace_words String.[] h = refl
replace_words (String.◌∷◌ c s) h =
    ap₂ String.◌∷◌ (swap_word c (ground arith)) (replace_words s (ground arith))

words_of_valid : (s : String) → valid_key_component s ≡ true → all_words s ≡ true
unfolding valid_key_component all_words
words_of_valid String.[] h = refl
words_of_valid (String.◌∷◌ c s) h = ground arith

slash-append : (n : String) → str_append "/" n ≡ String.◌∷◌ "/" n
slash-append n = cons-append "/" String.[] n ∙ ap (String.◌∷◌ "/") (nil-append n)

-- a cut finds the slash after a text without one
cut-slashed : (p n : String) → all_words p ≡ true → cut b'/' (slashed p n) ≡ some (p, n)
unfolding cut all_words
cut-slashed String.[] n h = rw (nil-append, slash-append) refl
cut-slashed (String.◌∷◌ c p) n h = rw cons-append (ground (arith, cut-slashed p n))

slashed_of_cut : (s p n : String) → cut b'/' s ≡ some (p, n) → s ≡ slashed p n
unfolding cut
slashed_of_cut String.[] p n h = cc
slashed_of_cut (String.◌∷◌ c s) p n h = elim (Bool-cases (eqb (code c) b'/')) [
  | inl e ↦
      let same : c ≡ "/" = Char-path c "/" (ground arith) in
      let none_before : p ≡ "" = ground arith in
      let rest : n ≡ s = ground arith in rw (none_before, rest, same, nil-append, slash-append) refl
  | inr e ↦ elim (Option-cases (cut b'/' s)) [
    | inl k ↦ absurd (ground arith)
    | inr ((a, b), k) ↦
        let before : p ≡ String.◌∷◌ c a = ground arith in
        let after : n ≡ b = ground arith in
        rw (before, after, cons-append) (ap (String.◌∷◌ c) (slashed_of_cut s a b k))
  ]
]

module _ (fold : Char → Char) where
  normalize_valid : (s : String) → valid_key_component s ≡ true → normalize_component fold s ≡ s
  unfolding normalize_component trim_space trim
  normalize_valid s h =
      let w = words_of_valid s h in
      rw (to_lower_words fold s w, trim_left_words s w, trim_right_words s w) (replace_words s w)

  key_of_valid :
      (p n : String)
      → valid_key_component p ≡ true
      → valid_key_component n ≡ true
      → key_of fold p n ≡ ok (slashed p n)
  unfolding key_of
  key_of_valid p n h k = rw (normalize_valid p h, normalize_valid n k, h, k) refl

  split_key_valid :
      (p n : String)
      → valid_key_component p ≡ true
      → valid_key_component n ≡ true
      → split_key fold (slashed p n) ≡ ok (p, n)
  unfolding split_key
  split_key_valid p n h k =
      rw (cut-slashed p n (words_of_valid p h), key_of_valid p n h k, eq_refl (slashed p n)) refl

  key_of_inv :
      (provider name key : String)
      → key_of fold provider name ≡ ok key
      → (valid_key_component (normalize_component fold provider) ≡ true)
        × (valid_key_component (normalize_component fold name) ≡ true)
        × (key ≡ slashed (normalize_component fold provider) (normalize_component fold name))
  unfolding key_of
  key_of_inv provider name key h = (ground arith, ground arith, ground arith)

  -- The key that is made of a provider and a name is split into the normal forms of both, which are
  -- valid parts.
  pub split_key-key_of :
      (provider name key : String)
      → key_of fold provider name ≡ ok key
      → (valid_key_component (normalize_component fold provider) ≡ true)
        × (valid_key_component (normalize_component fold name) ≡ true)
        × (split_key fold key
            ≡ ok (normalize_component fold provider, normalize_component fold name))
  split_key-key_of provider name key h =
      let k = key_of_inv provider name key h in (k.0, k.1, rw k.2 (split_key_valid _ _ k.0 k.1))

  split_key_inv :
      (key p n : String)
      → split_key fold key ≡ ok (p, n)
      → (valid_key_component p ≡ true) × (valid_key_component n ≡ true) × (key ≡ slashed p n)
  unfolding split_key
  split_key_inv key p n h = elim (Option-cases (cut b'/' key)) [
    | inl e ↦ absurd (ground arith)
    | inr ((a, b), e) ↦ elim (Answer-cases (key_of fold a b)) [
      | inr (x, k) ↦ absurd (ground arith)
      | inl (canonical, k) ↦
          let r = key_of_inv a b canonical k in
          let same : canonical ≡ key = ground (arith, eq_iff canonical key) in
          let first : a ≡ p = ground arith in
          let second : b ≡ n = ground arith in
          let again : cut b'/' key ≡ some (normalize_component fold a, normalize_component fold b) =
            rw (← same, r.2) (cut-slashed _ _ (words_of_valid _ r.0)) in
          let left : normalize_component fold a ≡ p = ground arith in
          let right : normalize_component fold b ≡ n = ground arith in
          (rw left at r.0, rw right at r.1, sym same ∙ (rw (left, right) at r.2))
    ]
  ]

  -- A key is split without an error exactly when it is made of two valid parts with a slash between
  -- them, and then into these parts.
  pub split_key_iff :
      (key p n : String)
      → (split_key fold key ≡ ok (p, n))
        ↔ ((valid_key_component p ≡ true) × (valid_key_component n ≡ true) × (key ≡ slashed p n))
  split_key_iff key p n = (split_key_inv key p n, λ h. rw h.2 (split_key_valid p n h.0 h.1))
