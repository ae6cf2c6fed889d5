-- ===== src/Credentials/Items.antt =====
-- internal/credentials/model.go, memory.go and resolver.go: the items of a store by their keys, the
-- operations that both stores share, and the resolver. A zero time is `none`; the map of items is an
-- association list in the order in which Go visits it.
use Prim.Native.Char.{Char}
use orchestrator_cli.Common.{ℕ, String, Option, none, some, List, [], ◌∷◌, ◌==◌, if◌then◌else◌}
use orchestrator_cli.Common.Text.{str_lt}
use orchestrator_cli.Common.Sort.{sort_stable}
use orchestrator_cli.App.Runs.{Time}
use orchestrator_cli.Credentials.Keys.{not_found, no_credential, Answer, ok, err, split_key, key_of}

pub record Item : Type 0 where
  pub value : String
  pub created_at : Time
  pub updated_at : Time

pub record Secret : Type 0 where
  pub key : String
  pub value : String
  pub created_at : Time
  pub updated_at : Time

pub record Metadata : Type 0 where
  pub key : String
  pub provider : String
  pub name : String
  pub created_at : Time
  pub updated_at : Time

abbrev pub ItemMap : Type 0
ItemMap = List (String × Item)

unfoldable pub find_item : String → ItemMap → Option Item
find_item key [] = none
find_item key ((k, i) ∷ more) = if k == key then some i else find_item key more

unfoldable pub put_item : String → Item → ItemMap → ItemMap
put_item key item [] = (key, item) ∷ []
put_item key item ((k, i) ∷ more) =
    if k == key then (key, item) ∷ more else (k, i) ∷ put_item key item more

unfoldable pub drop_item : String → ItemMap → ItemMap
drop_item key [] = []
drop_item key ((k, i) ∷ more) =
    let rest = drop_item key more in if k == key then rest else (k, i) ∷ rest

abbrev pub created : Option Item → ℕ → Time
created none now = some now
created (some i) now = elim i.created_at [ none ↦ some now | some t ↦ some t ]

-- the item that Set writes
abbrev pub item_for : Option Item → String → ℕ → Item
item_for old value now = record {
  value = value;
  created_at = created old now;
  updated_at = some now;
}

abbrev pub secret_of : String → Item → Secret
secret_of key i = record {
  key = key;
  value = i.value;
  created_at = i.created_at;
  updated_at = i.updated_at;
}

-- the check of a key that every operation begins with
abbrev pub with_key : {A : Type 0} → Answer (String × String) → Answer A → Answer A
with_key (err e) k = err e
with_key (ok parts) k = k

abbrev pub found_secret : String → Option Item → Answer Secret
found_secret key none = err not_found
found_secret key (some i) = ok (secret_of key i)

abbrev pub dropped : String → ItemMap → Option Item → Answer ItemMap
dropped key items none = err not_found
dropped key items (some i) = ok (drop_item key items)

abbrev pub metadata_of : String → Item → String × String → Metadata
metadata_of key i (provider, name) = record {
  key = key;
  provider = provider;
  name = name;
  created_at = i.created_at;
  updated_at = i.updated_at;
}

abbrev pub listed_with : Answer (List Metadata) → Metadata → Answer (List Metadata)
listed_with (ok ms) m = ok (m ∷ ms)
listed_with (err e) m = err e

abbrev sorted : Answer (List Metadata) → Answer (List Metadata)
sorted (ok ms) = ok (sort_stable (λ a b. str_lt a.key b.key) ms)
sorted (err e) = err e

-- the first variable of the environment with a value
unfoldable pub from_env : (String → String) → List String → Option String
from_env getenv [] = none
from_env getenv (name ∷ more) =
    let rest = from_env getenv more in if getenv name == "" then rest else some (getenv name)

abbrev from_store : String → Answer Secret → Answer Secret
from_store key (ok s) = ok s
from_store key (err not_found) = err (no_credential key)
from_store key (err e) = err e

-- the rest of Resolve: `store` is the answer of the store's Get, if there is a store
abbrev pub resolved_in : String → Option (Answer Secret) → Option String → Answer Secret
resolved_in key store (some value) =
    ok (record { key = key; value = value; created_at = none; updated_at = none })
resolved_in key none none = err (no_credential key)
resolved_in key (some answer) none = from_store key answer

abbrev pub asked_store : Option (String → Answer Secret) → String → Option (Answer Secret)
asked_store none key = none
asked_store (some get) key = some (get key)

abbrev pub resolve_key :
    (String → String)
    → Option (String → Answer Secret)
    → List String
    → Answer String
    → Answer Secret
resolve_key getenv store env (err e) = err e
resolve_key getenv store env (ok key) =
    resolved_in key (asked_store store key) (from_env getenv env)

module _ (fold : Char → Char) where
  unfoldable pub get_secret : ItemMap → String → Answer Secret
  get_secret items key = with_key (split_key fold key) (found_secret key (find_item key items))

  -- MemoryStore.Set
  unfoldable pub set_secret : ItemMap → String → String → ℕ → Answer ItemMap
  set_secret items key value now =
      with_key (split_key fold key)
        (ok (put_item key (item_for (find_item key items) value now) items))

  unfoldable pub delete_secret : ItemMap → String → Answer ItemMap
  delete_secret items key = with_key (split_key fold key) (dropped key items (find_item key items))

  -- the loop of List
  unfoldable pub collect : ItemMap → Answer (List Metadata)
  collect [] = ok []
  collect ((key, i) ∷ more) =
      let rest = collect more in
      elim (split_key fold key) [
        | err e ↦ err e
        | ok parts ↦ listed_with rest (metadata_of key i parts)
      ]

  unfoldable pub list_secrets : ItemMap → Answer (List Metadata)
  list_secrets items = sorted (collect items)

  -- Resolver.Resolve
  unfoldable pub resolve :
      (String → String)
      → Option (String → Answer Secret)
      → String
      → String
      → List String
      → Answer Secret
  resolve getenv store provider name env = resolve_key getenv store env (key_of fold provider name)
