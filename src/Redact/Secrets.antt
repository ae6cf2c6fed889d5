-- ===== src/Redact/Secrets.antt =====
-- That FromEnvironment of internal/redact/redact.go finds the secrets that String then removes.
use Prim.Native.Char.{Char}
use mathlib.Core.List.{Memᴰ}
use orchestrator_cli.Common.{
  String, true, false, List, [], ◌∷◌, ◌++◌, ◌==◌, eq_iff, ◌≡◌, refl, sym, ◌∙◌, ap, inl, inr,
  Bool-cases, arith,
}
use orchestrator_cli.Common.Strings.{contains_text}
use orchestrator_cli.Redact.Redactor.{
  replace_values, is_secret_value, add_value, secrets_of, environ_pairs, longer, byte_length,
  from_environment,
}
use orchestrator_cli.Common.Sort.{mem_sort}
use orchestrator_cli.Redact.Gone.{Apart, all_gone}

mem_kept : (x v : String) (values : List String) → Memᴰ v values → Memᴰ v (add_value x values)
unfolding add_value
mem_kept x v [] m = elim m [ ]
mem_kept x v (y ∷ more) (Memᴰ.tail m) = elim (Bool-cases (y == x)) [
  | inl e ↦ rw e (Memᴰ.tail m)
  | inr e ↦ rw e (Memᴰ.tail (mem_kept x v more m))
]
mem_kept x v (y ∷ more) (Memᴰ.head same) = elim (Bool-cases (y == x)) [
  | inl e ↦ rw e (Memᴰ.head same)
  | inr e ↦ rw e (Memᴰ.head same)
]

mem_added : (v : String) (values : List String) → Memᴰ v (add_value v values)
unfolding add_value
mem_added v [] = Memᴰ.head refl
mem_added v (y ∷ more) = elim (Bool-cases (y == v)) [
  | inl e ↦ rw e (Memᴰ.head (sym ((eq_iff y v).0 e)))
  | inr e ↦ rw e (Memᴰ.tail (mem_added v more))
]

module _ (fold : Char → Char) where
  secrets_kept :
      (pairs : List (String × String)) (v : String) (values : List String)
      → Memᴰ v values
      → Memᴰ v (secrets_of fold pairs values)
  unfolding secrets_of
  secrets_kept [] v values m = m
  secrets_kept ((k, x) ∷ more) v values m = elim (Bool-cases (is_secret_value fold k x)) [
    | inl e ↦ rw e (secrets_kept more v (add_value x values) (mem_kept x v values m))
    | inr e ↦ rw e (secrets_kept more v values m)
  ]

  secrets_found :
      (pairs : List (String × String)) (key v : String) (values : List String)
      → is_secret_value fold key v ≡ true
      → Memᴰ (key, v) pairs
      → Memᴰ v (secrets_of fold pairs values)
  unfolding secrets_of
  secrets_found [] key v values h m = elim m [ ]
  secrets_found ((k, x) ∷ more) key v values h (Memᴰ.tail m) = secrets_found more key v _ h m
  secrets_found ((k, x) ∷ more) key v values h (Memᴰ.head same) =
      let e : is_secret_value fold k x ≡ true =
        sym (ap (λ q. is_secret_value fold q.0 q.1) same) ∙ h in
      let name : v ≡ x = ap (λ q. q.1) same in
      rw (e, name) (secrets_kept more x (add_value x values) (mem_added x values))

  not_empty : (key : String) → is_secret_value fold key "" ≡ false
  unfolding byte_length
  not_empty key = ground arith

  -- When an environment variable or an entry of the maps has a secret key, and its value has at least
  -- six bytes, has no "[" and no "]", and is no part of "REDACTED", the value is not left in any text
  -- after the loop of String over the secrets that from_environment found.
  pub secret-gone :
      (environ : List String) (pairs : List (String × String)) (key v out : String)
      → Memᴰ (key, v) (environ_pairs environ ++ pairs)
      → is_secret_value fold key v ≡ true
      → Apart v
      → contains_text (replace_values (from_environment fold environ pairs) out) v ≡ false
  unfolding from_environment
  secret-gone environ pairs key String.[] out m h k = absurd (cc (not_empty key))
  secret-gone environ pairs key (String.◌∷◌ d p) out m h k =
      all_gone _ out p d k
        (mem_sort longer _ _ (secrets_found (environ_pairs environ ++ pairs) key _ [] h m))
