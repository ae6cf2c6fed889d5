-- ===== src/Credentials/Persisted.antt =====
-- The encrypted file after an operation: what can be read back from it, and what a failure leaves.
use Prim.Native.Char.{Char}
use orchestrator_cli.Common.{
  ℕ, String, false, Option, none, some, ◌==◌, if◌then◌else◌, ◌≡◌, refl, sym, ◌∙◌, ap, arith, ◌⊎◌,
  inl, inr, Bool-cases, Option-cases,
}
use orchestrator_cli.Common.Int.{pos}
use orchestrator_cli.App.Errors.{Error, plain, Result, Result-cases}
use orchestrator_cli.App.Errors
use orchestrator_cli.Credentials.Keys.{Fault, other, Answer, ok, err, split_key, Answer-cases}
use orchestrator_cli.Credentials.Items.{
  ItemMap, find_item, put_item, item_for, secret_of, with_key, get_secret, set_secret,
}
use orchestrator_cli.Credentials.Laws.{get-set_secret}
use orchestrator_cli.Credentials.Encrypted.{
  Document, Envelope, Crypto, SaveAnswers, EncryptedFileStore, derive_key, new_params, enclose,
  encrypt_document, decrypt_document, open_encrypted_file, save, save_content, replace_file, writes,
  set_encrypted, with_items, change_items, delete_encrypted, label, check,
}

-- two documents with the same version and the same item under every key: a map has no order
abbrev pub SameDocument : Document → Document → Type 0
SameDocument d e =
    (d.version ≡ e.version) × ((key : String) → find_item key d.items ≡ find_item key e.items)

-- What the encodings and the cipher promise: what was written is read back, the map of the items up to
-- its order, since encoding/json writes the keys of a map in their own order.
pub record IsSound {B : Type 0} (c : Crypto B) : Type 0 where
  pub document_back :
      (d : Document) (b : B)
      → c.marshal_document d ≡ Errors.ok b
      → (e : Document) × (c.unmarshal_document b ≡ Errors.ok e) × SameDocument d e
  pub envelope_back :
      (e : Envelope) (b : B)
      → c.marshal_envelope e ≡ Errors.ok b
      → c.unmarshal_envelope b ≡ Errors.ok e
  pub not_empty : (e : Envelope) (b : B) → c.marshal_envelope e ≡ Errors.ok b → c.is_empty b ≡ false
  pub decode-encode : (b : B) → c.decode (c.encode b) ≡ Errors.ok b
  pub open-seal :
      (k n b : B) → c.cipher_error k ≡ none → c.open_sealed k n (c.seal k n b) ≡ Errors.ok b

module _ {B : Type 0} (c : Crypto B) where
  -- the file is read, with the store's passphrase, as a store of the same document
  abbrev pub IsKept : EncryptedFileStore → B → Type 0
  IsKept s b =
      (t : EncryptedFileStore) × (open_encrypted_file c (Errors.ok (some b)) s.passphrase ≡ ok t)
      × (t.passphrase ≡ s.passphrase)
      × SameDocument s.doc t.doc

  -- the file is as before, after an error, or the store is kept in it
  abbrev pub IsSafe : EncryptedFileStore → Answer (Unit {0}) → Option B → Option B → Type 0
  IsSafe s e old file =
      ((file ≡ old) × (x : Fault) × (e ≡ err x)) ⊎ ((b : B) × (file ≡ some b) × IsKept s b)

module _ {B : Type 0} (c : Crypto B) (sound : IsSound c) where
  -- a document that was encrypted without an error
  abbrev Encloses : SaveAnswers B → Document → String → B → Type 0
  Encloses a doc passphrase content =
      (text : B) × (salt : B) × (nonce : B) × (c.marshal_document doc ≡ Errors.ok text)
      × (c.cipher_error (derive_key c passphrase salt new_params) ≡ none)
      × (c.marshal_envelope (enclose c passphrase text salt nonce) ≡ Errors.ok content)
      × ((passphrase == "") ≡ false)

  encrypt_document_inv :
      (a : SaveAnswers B) (doc : Document) (passphrase : String) (content : B)
      → encrypt_document c a doc passphrase ≡ ok content
      → Encloses a doc passphrase content
  unfolding encrypt_document
  encrypt_document_inv a doc passphrase content h = elim (Bool-cases (passphrase == "")) [
    | inl e ↦ absurd (ground arith)
    | inr e ↦ elim (Result-cases (c.marshal_document doc)) [
      | inr (x, k) ↦ absurd (ground arith)
      | inl (text, k) ↦ elim (Result-cases a.salt) [
        | inr (x, l) ↦ absurd (ground arith)
        | inl (salt, l) ↦
            elim (Option-cases (c.cipher_error (derive_key c passphrase salt new_params))) [
              | inr (x, m) ↦ absurd (ground arith)
              | inl m ↦ elim (Result-cases a.nonce) [
                | inr (x, n) ↦ absurd (ground arith)
                | inl (nonce, n) ↦ (text, salt, nonce, k, m, ground arith, e)
              ]
            ]
      ]
    ]
  ]

  -- A document of the current version that encrypt_document encrypts is what decrypt_document reads
  -- with the same passphrase, up to the order of its items.
  decrypt-encrypt :
      (a : SaveAnswers B) (doc : Document) (passphrase : String) (content : B)
      → encrypt_document c a doc passphrase ≡ ok content
      → doc.version ≡ pos 1
      → (e : Document) × (decrypt_document c content passphrase ≡ ok e) × SameDocument doc e
  unfolding decrypt_document
  decrypt-encrypt a doc passphrase content h v =
      let (text, salt, nonce, k, m, l, e) = encrypt_document_inv a doc passphrase content h in
      let (back, read, same) = sound.document_back doc text k in
      let current : back.version ≡ pos 1 = sym same.0 ∙ v in
      (
        back,
        rw
            (
              e,
              sound.envelope_back (enclose c passphrase text salt nonce) content l,
              sound.decode-encode salt,
              sound.decode-encode nonce,
              sound.decode-encode (c.seal (derive_key c passphrase salt new_params) nonce text),
              m,
              sound.open-seal (derive_key c passphrase salt new_params) nonce text m,
              read,
            )
            (ground arith),
        same,
      )

  open-saved :
      (a : SaveAnswers B) (s : EncryptedFileStore) (content : B)
      → encrypt_document c a s.doc s.passphrase ≡ ok content
      → s.doc.version ≡ pos 1
      → IsKept c s content
  unfolding open_encrypted_file
  open-saved a s content h v =
      let (text, salt, nonce, k, m, l, e) = encrypt_document_inv a s.doc s.passphrase content h in
      let (back, read, same) = decrypt-encrypt a s.doc s.passphrase content h v in
      (
        record { passphrase = s.passphrase; doc = back },
        rw (sound.not_empty (enclose c s.passphrase text salt nonce) content l, read) refl,
        refl,
        same,
      )

  replace_file-IsSafe :
      (a : SaveAnswers B) (s : EncryptedFileStore) (old : Option B) (content : B)
      → IsKept c s content
      → IsSafe c s (replace_file a old content).0 old (replace_file a old content).1
  replace_file-IsSafe a s old content h = elim (Answer-cases (writes a)) [
    | inl (u, e) ↦ rw e (inr (content, refl, h))
    | inr (x, e) ↦ rw e (inl (refl, x, refl))
  ]

  save_content-IsSafe :
      (a : SaveAnswers B) (s : EncryptedFileStore) (old : Option B) (r : Answer B)
      → ((b : B) → r ≡ ok b → IsKept c s b)
      → IsSafe c s (save_content a old r).0 old (save_content a old r).1
  save_content-IsSafe a s old (err e) h = inl (refl, e, refl)
  save_content-IsSafe a s old (ok b) h = replace_file-IsSafe a s old b (h b refl)

  check_inv : {A : Type 0} (e : Option Error) (r : Answer A) (b : A) → check e r ≡ ok b → r ≡ ok b
  check_inv none r b h = h
  check_inv (some e) r b h = cc

  save-IsSafe :
      (a : SaveAnswers B) (s : EncryptedFileStore) (old : Option B)
      → s.doc.version ≡ pos 1
      → IsSafe c s (save c a s old).0 old (save c a s old).1
  unfolding save
  save-IsSafe a s old v =
      save_content-IsSafe a s old _
        (λ b h. open-saved a s b (check_inv (label "create credentials directory" a.mkdir) _ b h) v)

  change_items-IsSafe :
      (a : SaveAnswers B) (s : EncryptedFileStore) (old : Option B) (r : Answer ItemMap)
      → s.doc.version ≡ pos 1
      → IsSafe c
          (change_items c a s old r).0
          (change_items c a s old r).1
          old
          (change_items c a s old r).2
  change_items-IsSafe a s old (err e) v = inl (refl, e, refl)
  change_items-IsSafe a s old (ok items) v = save-IsSafe a (with_items s items) old v

  module _ (fold : Char → Char) where
    pub operations-IsSafe :
        (a : SaveAnswers B) (s : EncryptedFileStore) (old : Option B) (key value : String) (now : ℕ)
        → s.doc.version ≡ pos 1
        → IsSafe c
            (set_encrypted c fold a s old key value now).0
            (set_encrypted c fold a s old key value now).1
            old
            (set_encrypted c fold a s old key value now).2
          × IsSafe c
              (delete_encrypted c fold a s old key).0
              (delete_encrypted c fold a s old key).1
              old
              (delete_encrypted c fold a s old key).2
    unfolding set_encrypted delete_encrypted
    operations-IsSafe a s old key value now v =
        (change_items-IsSafe a s old _ v, change_items-IsSafe a s old _ v)

    change_items_ok :
        (a : SaveAnswers B) (s later : EncryptedFileStore) (old file : Option B)
        (r : Answer ItemMap)
        → change_items c a s old r ≡ (later, ok tt, file)
        → (items : ItemMap) × (r ≡ ok items) × (later ≡ with_items s items)
    change_items_ok a s later old file (err e) h = cc
    change_items_ok a s later old file (ok items) h = (items, refl, cc)

    set_checked :
        (items later : ItemMap) (key value : String) (now : ℕ)
        → with_key (split_key fold key) (
            if value == ""
            then err (other (plain "credential value must not be empty"))
            else ok (put_item key (item_for (find_item key items) value now) items))
          ≡ ok later
        → set_secret fold items key value now ≡ ok later
    unfolding set_secret
    set_checked items later key value now h = ground arith

    set_encrypted_ok :
        (a : SaveAnswers B) (s later : EncryptedFileStore) (old file : Option B)
        (key value : String) (now : ℕ)
        → set_encrypted c fold a s old key value now ≡ (later, ok tt, file)
        → (items : ItemMap) × (set_secret fold s.doc.items key value now ≡ ok items)
          × (later ≡ with_items s items)
    unfolding set_encrypted
    set_encrypted_ok a s later old file key value now h =
        let (items, e, same) = change_items_ok a s later old file _ h in
        (items, set_checked s.doc.items items key value now e, same)

    get-same :
        (s t : EncryptedFileStore) (j : String)
        → SameDocument s.doc t.doc
        → get_secret fold t.doc.items j ≡ get_secret fold s.doc.items j
    unfolding get_secret
    get-same s t j (_, h) = rw (h j) refl

    -- When Set returns no error for a store of the current document version, the file can be read with
    -- the store's passphrase, and a Get on what is read returns the new value for the key, and for any
    -- other key what it returned before. encoding/json and the cipher are taken to read back what they
    -- wrote, the items up to their order.
    pub get-open-set :
        (a : SaveAnswers B) (s later : EncryptedFileStore) (old file : Option B)
        (key value : String) (now : ℕ)
        → s.doc.version ≡ pos 1
        → set_encrypted c fold a s old key value now ≡ (later, ok tt, file)
        → (b : B) × (t : EncryptedFileStore) × (file ≡ some b)
          × (open_encrypted_file c (Errors.ok (some b)) s.passphrase ≡ ok t)
          × ((j : String)
              → get_secret fold t.doc.items j ≡ (
                  if key == j
                  then ok (secret_of key (item_for (find_item key s.doc.items) value now))
                  else get_secret fold s.doc.items j))
    get-open-set a s later old file key value now v h =
        let (items, e, same) = set_encrypted_ok a s later old file key value now h in
        elim (rw h at (operations-IsSafe a s old key value now v).0) [
          | inl (k, x, f) ↦ absurd (cc)
          | inr (b, k, (t, f, p, d)) ↦ (
            b,
            t,
            k,
            ap (open_encrypted_file c (Errors.ok (some b))) (ap (λ t. t.passphrase) (sym same)) ∙ f,
            λ j.
                get-same later t j d
                ∙ rw same (get-set_secret fold s.doc.items items key value now j e),
          )
        ]
