-- ===== src/Credentials/Laws.antt =====
-- The stores as maps from keys to secrets, and the order in which a credential is looked for.
use Prim.Native.Char.{Char}
use orchestrator_cli.Common.{
  ℕ, String, Option, none, some, List, [], ◌∷◌, ◌==◌, if◌then◌else◌, ◌≡◌, ◌≢◌, refl, eq_iff, arith,
  ◌⊎◌, inl, inr, ◌↔◌, Bool-cases, Option-cases,
}
use orchestrator_cli.Credentials.Keys.{
  not_found, no_credential, Answer, ok, err, split_key, key_of, Answer-cases,
}
use orchestrator_cli.Credentials.Canonical.{split_key-key_of}
use orchestrator_cli.Credentials.Items.{
  Item, Secret, ItemMap, find_item, put_item, drop_item, item_for, secret_of, get_secret,
  set_secret, delete_secret, from_env, resolve,
}

pub find-put :
    (k j : String) (i : Item) (items : ItemMap)
    → find_item j (put_item k i items) ≡ (if k == j then some i else find_item j items)
unfolding find_item put_item
find-put k j i [] = refl
find-put k j i ((l, x) ∷ items) =
    ground (arith, eq_iff l k, eq_iff l j, eq_iff k j, find-put k j i items)

pub find-drop :
    (k j : String) (items : ItemMap)
    → find_item j (drop_item k items) ≡ (if k == j then none else find_item j items)
unfolding find_item drop_item
find-drop k j [] = ground arith
find-drop k j ((l, x) ∷ items) =
    ground (arith, eq_iff l k, eq_iff l j, eq_iff k j, find-drop k j items)

module _ (fold : Char → Char) where
  -- After set_secret the key has the value, and every other key has what it had before; an item that
  -- was there keeps its instant of creation.
  pub get-set_secret :
      (items later : ItemMap) (key value : String) (now : ℕ) (j : String)
      → set_secret fold items key value now ≡ ok later
      → get_secret fold later j ≡ (
          if key == j
          then ok (secret_of key (item_for (find_item key items) value now))
          else get_secret fold items j)
  unfolding set_secret get_secret
  get-set_secret items later key value now j h = elim (Answer-cases (split_key fold key)) [
    | inr (x, e) ↦ absurd (ground arith)
    | inl (parts, e) ↦
        let same : later ≡ put_item key (item_for (find_item key items) value now) items =
          ground arith in
        rw (same, find-put key j (item_for (find_item key items) value now) items)
          (elim (Bool-cases (key == j)) [
            | inl b ↦ let here = (eq_iff key j).0 b in rw b (rw (← here, e) refl)
            | inr b ↦ rw b refl
          ])
  ]

  -- A key is deleted only when it was there; then get_secret does not find it, and every other key
  -- has what it had before.
  pub get-delete_secret :
      (items later : ItemMap) (key j : String)
      → delete_secret fold items key ≡ ok later
      → ((s : Secret) × (get_secret fold items key ≡ ok s))
        × (get_secret fold later j ≡ (if key == j then err not_found else get_secret fold items j))
  unfolding delete_secret get_secret
  get-delete_secret items later key j h = elim (Answer-cases (split_key fold key)) [
    | inr (x, e) ↦ absurd (ground arith)
    | inl (parts, e) ↦ elim (Option-cases (find_item key items)) [
      | inl k ↦ absurd (ground arith)
      | inr (i, k) ↦
          let same : later ≡ drop_item key items = ground arith in
          (
            (secret_of key i, rw (e, k) refl),
            rw (same, find-drop key j items)
                (elim (Bool-cases (key == j)) [
                  | inl b ↦ let here = (eq_iff key j).0 b in rw b (rw (← here, e) refl)
                  | inr b ↦ rw b refl
                ]),
          )
    ]
  ]

-- the first of the variables that is not empty
abbrev pub IsFirst : (String → String) → List String → String → Type 0
IsFirst getenv [] v = ⊥
IsFirst getenv (name ∷ more) v =
    ((getenv name ≢ "") × (v ≡ getenv name)) ⊎ ((getenv name ≡ "") × IsFirst getenv more v)

abbrev pub AllEmpty : (String → String) → List String → Type 0
AllEmpty getenv [] = Unit
AllEmpty getenv (name ∷ more) = (getenv name ≡ "") × AllEmpty getenv more

from_env_first :
    (getenv : String → String) (env : List String) (v : String)
    → IsFirst getenv env v
    → from_env getenv env ≡ some v
unfolding from_env
from_env_first getenv [] v h = absurd h
from_env_first getenv (n ∷ more) v (inl h) = ground (arith, eq_iff (getenv n) "")
from_env_first getenv (n ∷ more) v (inr h) = rw h.0 (from_env_first getenv more v h.1)

from_env-none :
    (getenv : String → String) (env : List String)
    → AllEmpty getenv env
    → from_env getenv env ≡ none
unfolding from_env
from_env-none getenv [] h = refl
from_env-none getenv (n ∷ more) h = rw h.0 (from_env-none getenv more h.1)

module _ (fold : Char → Char) (getenv : String → String) (items : ItemMap)
    (provider name key : String) (made : key_of fold provider name ≡ ok key) where
  abbrev store : Option (String → Answer Secret)
  store = some (get_secret fold items)

  stored :
      (get_secret fold items key ≡ err not_found)
      ⊎ ((s : Secret) × (get_secret fold items key ≡ ok s))
  unfolding get_secret
  stored =
      let split = (split_key-key_of fold provider name key made).2 in
      elim (Option-cases (find_item key items)) [
        | inl e ↦ inl (rw (split, e) refl)
        | inr (i, e) ↦ inr (secret_of key i, rw (split, e) refl)
      ]

  -- For a provider and a name with a key, resolve returns the first of the listed variables that is
  -- not empty, whatever the store holds; where all are empty it returns what the store has under the
  -- key, and an error that no such credential is there exactly when the store has none.
  pub resolve_order :
      (env : List String)
      → ((v : String)
          → IsFirst getenv env v
          → resolve fold getenv store provider name env
            ≡ ok (record { key = key; value = v; created_at = none; updated_at = none }))
        × (AllEmpty getenv env
            → (s : Secret)
            → (resolve fold getenv store provider name env ≡ ok s)
              ↔ (get_secret fold items key ≡ ok s))
        × (AllEmpty getenv env
            → (resolve fold getenv store provider name env ≡ err (no_credential key))
              ↔ (get_secret fold items key ≡ err not_found))
  unfolding resolve
  resolve_order env = (
    λ v h. rw (made, from_env_first getenv env v h) refl,
    λ h s.
        rw (made, from_env-none getenv env h)
          (elim stored [ inl e ↦ rw e (λ k. cc, λ k. cc) | inr (t, e) ↦ rw e (λ k. k, λ k. k) ]),
    λ h.
        rw (made, from_env-none getenv env h)
          (elim stored [
            | inl e ↦ rw e (λ k. refl, λ k. refl)
            | inr (t, e) ↦ rw e (λ k. cc, λ k. cc)
          ]),
  )
