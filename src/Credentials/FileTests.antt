-- ===== src/Credentials/FileTests.antt =====
-- An encrypted file whose cipher does nothing.
use Prim.Native.Char.{Char}
use orchestrator_cli.Common.{
  Bool-cases, inl, inr, ℕ, String, Bool, true, false, Option, none, some, [], ◌∷◌, ◌==◌,
  if◌then◌else◌, ◌≡◌, refl, ◌&&◌, eqb, eq_iff, arith, ap, sym, ◌∙◌,
}
use orchestrator_cli.Common.Int.{ℤ, pos, eqb_ℤ, negsuc}
use orchestrator_cli.Common.Strings.{cut}
use orchestrator_cli.App.Errors
use orchestrator_cli.App.Errors.{Error, Result, plain}
use orchestrator_cli.Credentials.Keys.{
  ok, valid_key_component, slashed, normalize_component, key_of, split_key,
}
use orchestrator_cli.Credentials.Items.{
  Item, ItemMap, find_item, put_item, item_for, secret_of, get_secret,
}
use orchestrator_cli.Credentials.Encrypted.{
  Document, Envelope, KdfParams, Crypto, SaveAnswers, EncryptedFileStore, set_encrypted, save,
  encrypt_document, open_encrypted_file,
}
use orchestrator_cli.Credentials.Persisted.{IsSound, get-open-set}

abbrev ascii : Char → Char
ascii c = c

-- Documents of the item a/b, alone or with c/d, and envelopes with one salt and one nonce; the cipher
-- does nothing. The items are written in the order of their keys, whatever their order in the list.
abbrev demo_item : String → Item
demo_item v = record { value = v; created_at = some 7; updated_at = some 7 }

abbrev demo_document : ItemMap → Document
demo_document items = record { version = pos 1; items = items }

abbrev one_item : String → ItemMap
one_item v = ("a/b", demo_item v) ∷ []

abbrev in_order : String → String → ItemMap
in_order v w = ("a/b", demo_item v) ∷ ("c/d", demo_item w) ∷ []

abbrev out_of_order : String → String → ItemMap
out_of_order v w = ("c/d", demo_item w) ∷ ("a/b", demo_item v) ∷ []

abbrev is_seven : Option ℕ → Option ℕ → Bool
is_seven (some a) (some b) = eqb a 7 && eqb b 7
is_seven _ _ = false

abbrev is_at_seven : Item → Bool
is_at_seven i = is_seven i.created_at i.updated_at

abbrev is_cut : Option (String × String) → String → String → Bool
is_cut none v w = false
is_cut (some (x, y)) v w = x == v && y == w

abbrev write_one : String → Option (String × String) → Result String
write_one v none = Errors.ok v
write_one v (some x) = Errors.err (plain "document")

abbrev write_pair : String → String → Result String
write_pair v w =
    if is_cut (cut b'/' (slashed v w)) v w
    then Errors.ok (slashed v w)
    else Errors.err (plain "document")

abbrev write_two : String → String → String → String → Result String
write_two k v l w =
    if k == "a/b" && l == "c/d"
    then write_pair v w
    else if k == "c/d" && l == "a/b"
    then write_pair w v
    else Errors.err (plain "document")

abbrev write_items : ℤ → ItemMap → Result String
write_items (pos n) ((k, i) ∷ []) =
    if eqb n 1 && k == "a/b" && is_at_seven i
    then write_one i.value (cut b'/' i.value)
    else Errors.err (plain "document")
write_items (pos n) ((k, i) ∷ (l, j) ∷ []) =
    if eqb n 1 && is_at_seven i && is_at_seven j
    then write_two k i.value l j.value
    else Errors.err (plain "document")
write_items _ _ = Errors.err (plain "document")

abbrev read_items : String → Option (String × String) → ItemMap
read_items b none = one_item b
read_items b (some (v, w)) = in_order v w

abbrev demo_params : KdfParams
demo_params = record { time = 3; memory_kib = 65536; threads = 4; key_len = 32 }

abbrev demo_envelope : String → Envelope
demo_envelope text = record {
  version = pos 1;
  kdf = "argon2id";
  kdf_params = demo_params;
  cipher = "aes-256-gcm";
  salt = "s";
  nonce = "n";
  ciphertext = text;
}

abbrev is_plain : Envelope → Bool
is_plain e =
    eqb_ℤ e.version (pos 1)
    && e.kdf == "argon2id"
    && e.cipher == "aes-256-gcm"
    && e.salt == "s"
    && e.nonce == "n"
    && eqb e.kdf_params.time 3
    && eqb e.kdf_params.memory_kib 65536
    && eqb e.kdf_params.threads 4
    && eqb e.kdf_params.key_len 32

abbrev read_envelope : String → Result Envelope
read_envelope String.[] = Errors.err (plain "envelope")
read_envelope (String.◌∷◌ c s) = Errors.ok (demo_envelope s)

abbrev is_nothing : String → Bool
is_nothing String.[] = true
is_nothing (String.◌∷◌ c s) = false

abbrev demo_crypto : Crypto String
demo_crypto = record {
  marshal_document = λ d. write_items d.version d.items;
  unmarshal_document = λ b. Errors.ok (demo_document (read_items b (cut b'/' b)));
  marshal_envelope = λ e.
      if is_plain e then Errors.ok (String.◌∷◌ "x" e.ciphertext) else Errors.err (plain "envelope");
  unmarshal_envelope = read_envelope;
  encode = λ b. b;
  decode = λ s. Errors.ok s;
  derive = λ p salt params. p;
  cipher_error = λ k. none;
  seal = λ k n b. b;
  open_sealed = λ k n b. Errors.ok b;
  is_empty = is_nothing;
}

seven : (i : Item) → is_at_seven i ≡ true → i ≡ demo_item i.value
seven i h = go i.created_at i.updated_at refl refl h
  where
    go :
        (a b : Option ℕ)
        → i.created_at ≡ a
        → i.updated_at ≡ b
        → is_seven a b ≡ true
        → i ≡ demo_item i.value
    go (some a) (some b) p q h = let x : a ≡ 7 = ground arith in let y : b ≡ 7 = ground arith in cc
    go (some a) none p q h = absurd (cc h)
    go none b p q h = absurd (cc h)

swapped : (v w key : String) → find_item key (out_of_order v w) ≡ find_item key (in_order v w)
unfolding find_item
swapped v w key = elim (Bool-cases ("a/b" == key)) [
  | inl e ↦ rw (← ((eq_iff "a/b" key).0 e)) refl
  | inr e ↦ rw e (elim (Bool-cases ("c/d" == key)) [ inl k ↦ rw k refl | inr k ↦ rw k refl ])
]

-- the document that is read back from the text of a list of items
abbrev IsBack : ItemMap → String → Type 0
IsBack items b = (key : String) → find_item key items ≡ find_item key (read_items b (cut b'/' b))

write_one-IsBack :
    (v b : String) (o : Option (String × String))
    → cut b'/' v ≡ o
    → write_one v o ≡ Errors.ok b
    → IsBack (one_item v) b
write_one-IsBack v b (some x) e h = absurd (cc h)
write_one-IsBack v b none e h = let q : v ≡ b = cc in λ key. rw (← q, e) refl

write_pair_inv : (v w b : String) → write_pair v w ≡ Errors.ok b → cut b'/' b ≡ some (v, w)
write_pair_inv v w b h = go (cut b'/' (slashed v w)) refl h
  where
    go :
        (o : Option (String × String))
        → cut b'/' (slashed v w) ≡ o
        → ◌≡◌ {A = Result String}
            (if is_cut o v w then Errors.ok (slashed v w) else Errors.err (plain "document"))
            (Errors.ok b)
        → cut b'/' b ≡ some (v, w)
    go none e h = absurd (cc h)
    go (some (x, y)) e h =
        let p : x ≡ v = ground (arith, eq_iff x v) in
        let q : y ≡ w = ground (arith, eq_iff y w) in
        let r : slashed v w ≡ b = ground arith in rw (← r, e, p, q) refl

write_two-IsBack :
    (k v l w b : String)
    → write_two k v l w ≡ Errors.ok b
    → IsBack ((k, demo_item v) ∷ (l, demo_item w) ∷ []) b
write_two-IsBack k v l w b h = elim (Bool-cases (k == "a/b" && l == "c/d")) [
  | inl e ↦
      let p : k ≡ "a/b" = ground (arith, eq_iff k "a/b") in
      let q : l ≡ "c/d" = ground (arith, eq_iff l "c/d") in
      let r = write_pair_inv v w b (rw e at h) in λ key. rw (r, p, q) refl
  | inr e ↦ elim (Bool-cases (k == "c/d" && l == "a/b")) [
    | inl m ↦
        let p : k ≡ "c/d" = ground (arith, eq_iff k "c/d") in
        let q : l ≡ "a/b" = ground (arith, eq_iff l "a/b") in
        let r = write_pair_inv w v b (rw (e, m) at h) in λ key. rw (r, p, q) (swapped w v key)
    | inr m ↦ let x = rw (e, m) at h in absurd (cc x)
  ]
]

demo_document-IsBack :
    (v : ℤ) (items : ItemMap) (b : String)
    → write_items v items ≡ Errors.ok b
    → (v ≡ pos 1) × IsBack items b
demo_document-IsBack (pos n) ((k, i) ∷ []) b h =
    let one : n ≡ 1 = ground arith in
    let p : k ≡ "a/b" = ground (arith, eq_iff k "a/b") in
    let q = seven i (ground arith) in
    let r : write_one i.value (cut b'/' i.value) ≡ Errors.ok b = ground arith in
    (ap pos one, rw (p, q) (write_one-IsBack i.value b (cut b'/' i.value) refl r))
demo_document-IsBack (pos n) ((k, i) ∷ (l, j) ∷ []) b h =
    let one : n ≡ 1 = ground arith in
    let p = seven i (ground arith) in
    let q = seven j (ground arith) in
    let r : write_two k i.value l j.value ≡ Errors.ok b = ground arith in
    (ap pos one, rw (p, q) (write_two-IsBack k i.value l j.value b r))
demo_document-IsBack (pos n) [] b h = absurd (cc h)
demo_document-IsBack (pos n) (x ∷ y ∷ z ∷ more) b h = absurd (cc h)
demo_document-IsBack (negsuc n) items b h = absurd (cc h)

plain_envelope : (e : Envelope) → is_plain e ≡ true → demo_envelope e.ciphertext ≡ e
plain_envelope e h = ground (
  arith,
  eq_iff e.kdf "argon2id",
  eq_iff e.cipher "aes-256-gcm",
  eq_iff e.salt "s",
  eq_iff e.nonce "n",
)

demo_envelope_inv :
    (e : Envelope) (b : String) (p : Bool)
    → (if p then Errors.ok (String.◌∷◌ "x" e.ciphertext) else Errors.err (plain "envelope"))
      ≡ Errors.ok b
    → (p ≡ true) × (String.◌∷◌ "x" e.ciphertext ≡ b)
demo_envelope_inv e b true h = (refl, cc)
demo_envelope_inv e b false h = cc

demo-IsSound : IsSound demo_crypto
demo-IsSound = record {
  document_back = λ d b h.
      (demo_document (read_items b (cut b'/' b)), refl, demo_document-IsBack d.version d.items b h);
  envelope_back = λ e b h.
      let r = demo_envelope_inv e b (is_plain e) h in
      ap read_envelope (sym r.1) ∙ ap Errors.ok (plain_envelope e r.0);
  not_empty = λ e b h. ap is_nothing (sym (demo_envelope_inv e b (is_plain e) h).1);
  decode-encode = λ b. refl;
  open-seal = λ k n b h. refl;
}

abbrev demo_answers : SaveAnswers String
demo_answers = record {
  mkdir = none;
  salt = Errors.ok "s";
  nonce = Errors.ok "n";
  create_temp = none;
  chmod_temp = none;
  write = none;
  sync = none;
  close = none;
  rename = none;
  chmod = none;
}

abbrev demo_store : EncryptedFileStore
demo_store = record { passphrase = "pw"; doc = demo_document (("c/d", demo_item "other") ∷ []) }

-- the store after Set, whose items are not in the order of their keys
abbrev later_store : EncryptedFileStore
later_store = record { passphrase = "pw"; doc = demo_document (out_of_order "secret" "other") }

was_saved :
    set_encrypted demo_crypto ascii demo_answers demo_store none "a/b" "secret" 7
    ≡ (later_store, ok tt, some "xsecret/other")
unfolding set_encrypted split_key cut key_of normalize_component valid_key_component put_item save
    find_item encrypt_document
was_saved = refl

get-open-set_example :
    (b : String) × (t : EncryptedFileStore) × (some "xsecret/other" ≡ some b)
    × (open_encrypted_file demo_crypto (Errors.ok (some b)) "pw" ≡ ok t)
    × ((j : String)
        → get_secret ascii t.doc.items j ≡ (
            if "a/b" == j
            then ok (secret_of "a/b" (item_for (find_item "a/b" demo_store.doc.items) "secret" 7))
            else get_secret ascii demo_store.doc.items j))
get-open-set_example =
    get-open-set demo_crypto demo-IsSound ascii demo_answers demo_store later_store none
      (some "xsecret/other") "a/b" "secret" 7 refl was_saved
