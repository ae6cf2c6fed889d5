-- ===== src/Redact/Gone.antt =====
-- That the loop of String in internal/redact/redact.go removes the secrets that it is given.
use Prim.Native.Char.{Char, code}
use Prim.Native.String.{◌++◌ as str_append}
use mathlib.Core.List.{Memᴰ}
use text.Mathlib.TextLemmas.{nil-append, cons-append, append_assoc}
use orchestrator_cli.Common.{
  ◌⊎◌, ◌∙◌, ap, ℕ, zero, suc, String, Bool, true, false, ◌||◌, ◌&&◌, List, [], ◌∷◌, ◌≡◌, refl, inl,
  inr, Bool-cases, eqb, arith,
}
use orchestrator_cli.Common.Strings.{has_char, has_prefix, contains_text}
use orchestrator_cli.Redact.Keys.{replacement}
use orchestrator_cli.Redact.Redactor.{replace_from, replace_values}

-- the text has no bracket and is no part of the word in the replacement
abbrev pub Apart : String → Type 0
Apart v =
    (has_char b'[' v ≡ false) × (has_char b']' v ≡ false) × (contains_text "REDACTED" v ≡ false)

abbrev past : ℕ → String → String
past n String.[] = String.[]
past zero (String.◌∷◌ c s) = String.◌∷◌ c s
past (suc n) (String.◌∷◌ c s) = past n s

past_zero : (s : String) → past 0 s ≡ s
past_zero String.[] = refl
past_zero (String.◌∷◌ c s) = refl

both : (a b : Bool) → a && b ≡ true → (a ≡ true) × (b ≡ true)
both true true h = (refl, refl)
both true false h = absurd (cc h)
both false b h = absurd (cc h)

starts_apart :
    (d : Char) (p x : String)
    → has_char b'[' (String.◌∷◌ d p) ≡ false
    → has_prefix (str_append replacement x) (String.◌∷◌ d p) ≡ false
unfolding has_prefix
starts_apart d p x h =
    let e : str_append replacement x ≡ String.◌∷◌ "[" (str_append "REDACTED]" x) =
      cons-append "[" "REDACTED]" x in
    let off : eqb (code "[") (code d) ≡ false = ground arith in rw e (rw off refl)

split_replacement :
    (x : String) → str_append replacement x ≡ str_append "[REDACTED" (String.◌∷◌ "]" x)
split_replacement x =
    append_assoc "[REDACTED" "]" x
    ∙ ap (str_append "[REDACTED") (cons-append "]" "" x ∙ ap (String.◌∷◌ "]") (nil-append x))

-- a prefix without "]" ends before the first "]"
prefix_before :
    (w x p : String)
    → has_char b']' p ≡ false
    → has_prefix (str_append w (String.◌∷◌ "]" x)) p ≡ true
    → has_prefix w p ≡ true
unfolding has_prefix
prefix_before String.[] x String.[] k h = refl
prefix_before (String.◌∷◌ c w) x String.[] k h = refl
prefix_before String.[] x (String.◌∷◌ d p) k h =
    let q : (eqb (code "]") (code d) && has_prefix x p) ≡ true = rw nil-append at h in
    absurd (ground arith)
prefix_before (String.◌∷◌ c w) x (String.◌∷◌ d p) k h =
    let q : (eqb (code c) (code d) && has_prefix (str_append w (String.◌∷◌ "]" x)) p) ≡ true =
      rw (cons-append c w (String.◌∷◌ "]" x)) at h in
    let (same, more) = both (eqb (code c) (code d)) _ q in
    let rest : has_char b']' p ≡ false = ground arith in
    rw (same, prefix_before w x p rest more) refl

-- a text without "]" stands before or after a "]"
contains_split :
    (w x p : String) (d : Char)
    → has_char b']' (String.◌∷◌ d p) ≡ false
    → contains_text (str_append w (String.◌∷◌ "]" x)) (String.◌∷◌ d p) ≡ true
    → (contains_text w (String.◌∷◌ d p) ≡ true) ⊎ (contains_text x (String.◌∷◌ d p) ≡ true)
unfolding contains_text has_prefix
contains_split String.[] x p d k h =
    let q : ((eqb (code "]") (code d) && has_prefix x p) || contains_text x (String.◌∷◌ d p))
        ≡ true =
      rw nil-append at h in
    inr (ground arith)
contains_split (String.◌∷◌ c w) x p d k h =
    let tail = String.◌∷◌ "]" x in
    let q : (has_prefix (String.◌∷◌ c (str_append w tail)) (String.◌∷◌ d p)
          || contains_text (str_append w tail) (String.◌∷◌ d p))
        ≡ true =
      rw (cons-append c w tail) at h in
    elim (Bool-cases (contains_text (str_append w tail) (String.◌∷◌ d p))) [
      | inl e ↦ elim (contains_split w x p d k e) [ inl y ↦ inl (ground arith) | inr y ↦ inr y ]
      | inr e ↦
          let here : has_prefix (String.◌∷◌ c (str_append w tail)) (String.◌∷◌ d p) ≡ true =
            ground arith in
          let joined : has_prefix (str_append (String.◌∷◌ c w) tail) (String.◌∷◌ d p) ≡ true =
            rw (cons-append c w tail) here in
          let kept = prefix_before (String.◌∷◌ c w) x (String.◌∷◌ d p) k joined in
          inl (ground arith)
    ]

not_in_replacement :
    (d : Char) (p : String)
    → Apart (String.◌∷◌ d p)
    → contains_text "[REDACTED" (String.◌∷◌ d p) ≡ false
unfolding contains_text has_prefix
not_in_replacement d p (a, b, c) =
    let off : eqb (code "[") (code d) ≡ false = ground arith in rw off c

contains_after :
    (x p : String) (d : Char)
    → Apart (String.◌∷◌ d p)
    → contains_text (str_append replacement x) (String.◌∷◌ d p) ≡ true
    → contains_text x (String.◌∷◌ d p) ≡ true
contains_after x p d k h =
    elim (contains_split "[REDACTED" x p d k.1 (rw (split_replacement x) at h)) [
      | inl e ↦ absurd (cc (not_in_replacement d p k, e))
      | inr e ↦ e
    ]

gone_after :
    (x p : String) (d : Char)
    → Apart (String.◌∷◌ d p)
    → contains_text x (String.◌∷◌ d p) ≡ false
    → contains_text (str_append replacement x) (String.◌∷◌ d p) ≡ false
gone_after x p d k h =
    elim (Bool-cases (contains_text (str_append replacement x) (String.◌∷◌ d p))) [
      | inr e ↦ e
      | inl e ↦ absurd (cc (h, contains_after x p d k e))
    ]

rest_free :
    (d : Char) (p : String) → has_char b'[' (String.◌∷◌ d p) ≡ false → has_char b'[' p ≡ false
rest_free d p h = ground arith

prefix_kept :
    (old s p : String) (n : ℕ)
    → has_char b'[' p ≡ false
    → has_prefix (replace_from old replacement n s) p ≡ true
    → has_prefix (past n s) p ≡ true
unfolding replace_from has_prefix
prefix_kept old String.[] p n k h = h
prefix_kept old (String.◌∷◌ c s) p (suc n) k h = prefix_kept old s p n k h
prefix_kept old (String.◌∷◌ c s) String.[] zero k h = refl
prefix_kept old (String.◌∷◌ c s) (String.◌∷◌ d p) zero k h =
    elim (Bool-cases (has_prefix (String.◌∷◌ c s) old)) [
      | inl e ↦ let q = rw (e, starts_apart d p _ k) at h in absurd (cc q)
      | inr e ↦
          let q : (eqb (code c) (code d) && has_prefix (replace_from old replacement 0 s) p)
              ≡ true =
            rw e at h in
          let (same, more) = both (eqb (code c) (code d)) _ q in
          let rest = prefix_kept old s p 0 (rest_free d p k) more in
          let kept : has_prefix s p ≡ true = rw (past_zero s) at rest in rw same kept
    ]

head_kept :
    (old s p : String)
    → has_char b'[' p ≡ false
    → has_prefix (replace_from old replacement 0 s) p ≡ true
    → has_prefix s p ≡ true
head_kept old s p k h = rw (past_zero s) at (prefix_kept old s p 0 k h)

-- a text that is apart from the replacement does not arise by replacing another one
gone_stays :
    (old s p : String) (d : Char) (n : ℕ)
    → Apart (String.◌∷◌ d p)
    → contains_text (replace_from old replacement n s) (String.◌∷◌ d p) ≡ true
    → contains_text s (String.◌∷◌ d p) ≡ true
unfolding replace_from contains_text
gone_stays old String.[] p d n k h = h
gone_stays old (String.◌∷◌ c s) p d (suc n) k h =
    let rest = gone_stays old s p d n k h in ground arith
gone_stays old (String.◌∷◌ c s) p d zero k h = elim (Bool-cases (has_prefix (String.◌∷◌ c s) old)) [
  | inl e ↦
      let q = contains_after _ p d k (rw e at h) in
      let rest = gone_stays old s p d _ k q in ground arith
  | inr e ↦
      let q : ((eqb (code c) (code d) && has_prefix (replace_from old replacement 0 s) p)
            || contains_text (replace_from old replacement 0 s) (String.◌∷◌ d p))
          ≡ true =
        rw e at h in
      elim (Bool-cases (contains_text (replace_from old replacement 0 s) (String.◌∷◌ d p))) [
        | inl m ↦ let rest = gone_stays old s p d 0 k m in ground arith
        | inr m ↦
            let start : (eqb (code c) (code d) && has_prefix (replace_from old replacement 0 s) p)
                ≡ true =
              ground arith in
            let (same, more) = both (eqb (code c) (code d)) _ start in
            let kept = head_kept old s p (rest_free d p k.0) more in rw (same, kept) refl
      ]
]

gone :
    (s p : String) (d : Char) (n : ℕ)
    → Apart (String.◌∷◌ d p)
    → contains_text (replace_from (String.◌∷◌ d p) replacement n s) (String.◌∷◌ d p) ≡ false
unfolding replace_from contains_text
gone String.[] p d n k = refl
gone (String.◌∷◌ c s) p d (suc n) k = gone s p d n k
gone (String.◌∷◌ c s) p d zero k =
    elim (Bool-cases (has_prefix (String.◌∷◌ c s) (String.◌∷◌ d p))) [
      | inl e ↦ rw e (gone_after _ p d k (gone s p d _ k))
      | inr e ↦
          let rest = gone s p d 0 k in
          rw (e, rest)
            (elim (Bool-cases (eqb (code c) (code d))) [
              | inr m ↦ rw m refl
              | inl m ↦
                  elim (Bool-cases (has_prefix (replace_from (String.◌∷◌ d p) replacement 0 s) p)) [
                    | inr l ↦ rw (m, l) refl
                    | inl l ↦
                        let kept = head_kept (String.◌∷◌ d p) s p (rest_free d p k.0) l in
                        let q : has_prefix (String.◌∷◌ c s) (String.◌∷◌ d p) ≡ true =
                          rw (m, kept) refl in
                        absurd (cc q)
                  ]
            ])
    ]

stays_gone :
    (values : List String) (out p : String) (d : Char)
    → Apart (String.◌∷◌ d p)
    → contains_text out (String.◌∷◌ d p) ≡ false
    → contains_text (replace_values values out) (String.◌∷◌ d p) ≡ false
unfolding replace_values
stays_gone [] out p d k h = h
stays_gone (secret ∷ more) out p d k h =
    stays_gone more (replace_from secret replacement 0 out) p d k
      (elim (Bool-cases (contains_text (replace_from secret replacement 0 out) (String.◌∷◌ d p))) [
        | inr e ↦ e
        | inl e ↦ absurd (cc (gone_stays secret out p d 0 k e))
      ])

pub all_gone :
    (values : List String) (out p : String) (d : Char)
    → Apart (String.◌∷◌ d p)
    → Memᴰ (String.◌∷◌ d p) values
    → contains_text (replace_values values out) (String.◌∷◌ d p) ≡ false
unfolding replace_values
all_gone [] out p d k m = elim m [ ]
all_gone (x ∷ more) out p d k (Memᴰ.tail m) =
    all_gone more (replace_from x replacement 0 out) p d k m
all_gone (x ∷ more) out p d k (Memᴰ.head same) =
    rw (← same)
      (stays_gone more (replace_from (String.◌∷◌ d p) replacement 0 out) p d k (gone out p d 0 k))
