-- ===== src/Credentials/Encrypted.antt =====
-- internal/credentials/encrypted_file.go: a store in one encrypted file. The ciphers, the encodings and
-- the bytes are those of Go's packages and a parameter; the file is `none` where it does not exist.
use Prim.Native.Char.{Char}
use orchestrator_cli.Common.{
  ℕ, String, Bool, true, false, not, ◌||◌, Option, none, some, ◌==◌, if◌then◌else◌, eqb, [],
}
use orchestrator_cli.Common.Int.{ℤ, pos, eqb_ℤ}
use orchestrator_cli.App.Errors.{Error, plain, wrapped, Result}
use orchestrator_cli.App.Errors
use orchestrator_cli.Credentials.Keys.{other, Answer, ok, err, split_key}
use orchestrator_cli.Credentials.Items.{
  ItemMap, find_item, put_item, item_for, with_key, delete_secret,
}

pub record KdfParams : Type 0 where
  pub time : ℕ
  pub memory_kib : ℕ
  pub threads : ℕ
  pub key_len : ℕ

pub record Envelope : Type 0 where
  pub version : ℤ
  pub kdf : String
  pub kdf_params : KdfParams
  pub cipher : String
  pub salt : String
  pub nonce : String
  pub ciphertext : String

pub record Document : Type 0 where
  pub version : ℤ
  pub items : ItemMap

-- encoding/json on the two types, encoding/base64, argon2.IDKey, the error of aes.NewCipher and
-- cipher.NewGCM for a key, GCM's Seal and Open with a key and a nonce, and `len(content) == 0`
pub record Crypto (B : Type 0) : Type 0 where
  pub marshal_document : Document → Result B
  pub unmarshal_document : B → Result Document
  pub marshal_envelope : Envelope → Result B
  pub unmarshal_envelope : B → Result Envelope
  pub encode : B → String
  pub decode : String → Result B
  pub derive : String → B → KdfParams → B
  pub cipher_error : B → Option Error
  pub seal : B → B → B → B
  pub open_sealed : B → B → B → Result B
  pub is_empty : B → Bool

-- what the random source and the file system answer in one call of save
pub record SaveAnswers (B : Type 0) : Type 0 where
  pub mkdir : Option Error
  pub salt : Result B
  pub nonce : Result B
  pub create_temp : Option Error
  pub chmod_temp : Option Error
  pub write : Option Error
  pub sync : Option Error
  pub close : Option Error
  pub rename : Option Error
  pub chmod : Option Error

pub record EncryptedFileStore : Type 0 where
  pub passphrase : String
  pub doc : Document

-- `if err != nil { return ..., err }`
infixl 5 ◌>>=◌
abbrev pub ◌>>=◌ : {A C : Type 0} → Result A → (A → Answer C) → Answer C
Errors.ok a >>= k = k a
Errors.err e >>= k = err (other e)

-- fmt.Errorf("...: %w", err) around the error of a call
abbrev pub labelled : {A : Type 0} → String → Result A → Result A
labelled text (Errors.ok a) = Errors.ok a
labelled text (Errors.err e) = Errors.err (wrapped text e)

abbrev pub label : String → Option Error → Option Error
label text none = none
label text (some e) = some (wrapped text e)

-- the same for a call that returns only an error
abbrev pub check : {C : Type 0} → Option Error → Answer C → Answer C
check none k = k
check (some e) k = err (other e)

abbrev pub or_param : ℕ → ℕ → ℕ
or_param n d = if eqb n 0 then d else n

abbrev refuse : {C : Type 0} → String → Answer C
refuse text = err (other (plain text))

abbrev pub new_params : KdfParams
new_params = record { time = 3; memory_kib = 65536; threads = 4; key_len = 32 }

abbrev pub answered : {A : Type 0} → Result A → Answer A
answered (Errors.ok a) = ok a
answered (Errors.err e) = err (other e)

abbrev checked_document : Document → Answer Document
checked_document doc =
    if eqb_ℤ doc.version (pos 1) then ok doc else refuse "unsupported credentials document version"

abbrev pub new_store : String → EncryptedFileStore
new_store passphrase = record {
  passphrase = passphrase;
  doc = record { version = pos 1; items = [] };
}

abbrev pub with_document : String → Answer Document → Answer EncryptedFileStore
with_document passphrase (ok doc) = ok (record { passphrase = passphrase; doc = doc })
with_document passphrase (err e) = err e

-- what follows the encryption in save, up to the rename
abbrev pub writes : {B : Type 0} → SaveAnswers B → Answer (Unit {0})
writes a = check (label "create credentials temp file" a.create_temp) (
    check a.chmod_temp (
      check a.write (
        check a.sync (check a.close (check (label "replace credentials store" a.rename) (ok tt))))))

-- the error, and the file afterwards
abbrev pub after_writes :
    {B : Type 0} → SaveAnswers B → Option B → B → Answer (Unit {0}) → Answer (Unit {0}) × Option B
after_writes a old content (err e) = (err e, old)
after_writes a old content (ok u) = (check a.chmod (ok tt), some content)

abbrev pub replace_file : {B : Type 0} → SaveAnswers B → Option B → B → Answer (Unit {0}) × Option B
replace_file a old content = after_writes a old content (writes a)

abbrev pub save_content :
    {B : Type 0} → SaveAnswers B → Option B → Answer B → Answer (Unit {0}) × Option B
save_content a old (err e) = (err e, old)
save_content a old (ok content) = replace_file a old content

abbrev pub with_items : EncryptedFileStore → ItemMap → EncryptedFileStore
with_items s items = record s { doc = record { version = s.doc.version; items = items } }

module _ {B : Type 0} (c : Crypto B) where
  unfoldable pub derive_key : String → B → KdfParams → B
  derive_key passphrase salt p = c.derive passphrase salt (record {
    time = or_param p.time 3;
    memory_kib = or_param p.memory_kib 65536;
    threads = or_param p.threads 4;
    key_len = or_param p.key_len 32;
  })

  -- the envelope of a text, once the salt and the nonce are drawn
  abbrev pub enclose : String → B → B → B → Envelope
  enclose passphrase plain_text salt nonce = record {
    version = pos 1;
    kdf = "argon2id";
    kdf_params = new_params;
    cipher = "aes-256-gcm";
    salt = c.encode salt;
    nonce = c.encode nonce;
    ciphertext = c.encode (c.seal (derive_key passphrase salt new_params) nonce plain_text);
  }

  unfoldable pub encrypt_document : SaveAnswers B → Document → String → Answer B
  unfolding derive_key
  encrypt_document a doc passphrase =
      if passphrase == ""
      then refuse "credentials passphrase is required"
      else (c.marshal_document doc >>= λ plain_text. a.salt >>= λ salt.
          check (c.cipher_error (derive_key passphrase salt new_params)) (
            a.nonce >>= λ nonce.
            answered (c.marshal_envelope (enclose passphrase plain_text salt nonce))))

  abbrev opened : Result B → Answer Document
  opened (Errors.ok plain_text) =
      labelled "parse decrypted credentials" (c.unmarshal_document plain_text) >>= checked_document
  opened (Errors.err e) = refuse "decrypt credentials store: invalid passphrase or corrupted store"

  abbrev pub open_envelope : String → Envelope → Answer Document
  open_envelope passphrase e =
      if not (eqb_ℤ e.version (pos 1))
        || not (e.kdf == "argon2id")
        || not (e.cipher == "aes-256-gcm")
      then refuse "unsupported credentials store format"
      else (labelled "decode credentials salt" (c.decode e.salt) >>= λ salt.
          labelled "decode credentials nonce" (c.decode e.nonce) >>= λ nonce.
          labelled "decode credentials ciphertext" (c.decode e.ciphertext) >>= λ ciphertext.
          check (c.cipher_error (derive_key passphrase salt e.kdf_params))
            (opened (c.open_sealed (derive_key passphrase salt e.kdf_params) nonce ciphertext)))

  unfoldable pub decrypt_document : B → String → Answer Document
  unfolding derive_key
  decrypt_document content passphrase =
      if passphrase == ""
      then refuse "credentials passphrase is required"
      else labelled "parse credentials store" (c.unmarshal_envelope content)
        >>= open_envelope passphrase

  -- OpenEncryptedFile, by what os.ReadFile returns; `Errors.ok none` is a file that does not exist
  unfoldable pub open_encrypted_file : Result (Option B) → String → Answer EncryptedFileStore
  open_encrypted_file (Errors.err e) passphrase = err (other (wrapped "read credentials store" e))
  open_encrypted_file (Errors.ok none) passphrase = ok (new_store passphrase)
  open_encrypted_file (Errors.ok (some content)) passphrase =
      if c.is_empty content
      then ok (new_store passphrase)
      else with_document passphrase (decrypt_document content passphrase)

  unfoldable pub save : SaveAnswers B → EncryptedFileStore → Option B → Answer (Unit {0}) × Option B
  save a s old =
      save_content a old (
        check (label "create credentials directory" a.mkdir)
          (encrypt_document a s.doc s.passphrase))

  -- the store, the error and the file after an operation that saves
  abbrev pub saved :
      SaveAnswers B
      → EncryptedFileStore
      → Option B
      → EncryptedFileStore × Answer (Unit {0}) × Option B
  saved a s old = (s, (save a s old).0, (save a s old).1)

  -- an early return, or the new items in the store and save
  abbrev pub change_items :
      SaveAnswers B
      → EncryptedFileStore
      → Option B
      → Answer ItemMap
      → EncryptedFileStore × Answer (Unit {0}) × Option B
  change_items a s old (err e) = (s, err e, old)
  change_items a s old (ok items) = saved a (with_items s items) old

  module _ (fold : Char → Char) where
    unfoldable pub set_encrypted :
        SaveAnswers B
        → EncryptedFileStore
        → Option B
        → String
        → String
        → ℕ
        → EncryptedFileStore × Answer (Unit {0}) × Option B
    set_encrypted a s old key value now = change_items a s old (
        with_key (split_key fold key) (
          if value == ""
          then err (other (plain "credential value must not be empty"))
          else ok (put_item key (item_for (find_item key s.doc.items) value now) s.doc.items)))

    unfoldable pub delete_encrypted :
        SaveAnswers B
        → EncryptedFileStore
        → Option B
        → String
        → EncryptedFileStore × Answer (Unit {0}) × Option B
    delete_encrypted a s old key = change_items a s old (delete_secret fold s.doc.items key)

  -- Init, by what os.Stat returns: the file is there, is not there, or the call fails
  unfoldable pub init_store :
      SaveAnswers B
      → EncryptedFileStore
      → Option B
      → Bool
      → Option Error
      → Answer (Unit {0}) × Option B
  init_store a s old true e = save a s old
  init_store a s (some content) false none =
      (err (other (plain "credentials store already exists")), some content)
  init_store a s none false none = save a s none
  init_store a s old false (some e) = (err (other e), old)
