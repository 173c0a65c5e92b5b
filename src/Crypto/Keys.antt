-- ===== src/Crypto/Keys.antt =====
-- pkg/crypto/ed25519.go: the key files.
pub mod Blocks
pub mod Files
mod Tests
use systemboot.Base.{
  external, ℕ, zero, suc, ◌≤◌, ◌<◌, ◌≡◌, refl, Bool, List, [], Option, none, some, if◌then◌else◌,
  Bytes, bytes, equal, is_empty, length, Error, bad_pem, Outcome, ok, err, panic,
}
use systemboot.Platform.{Platform, Trace, Answer, done, failed, read_file, write_file}
use systemboot.Platform.Monad.{M, pure, raise, lift, ◌>>=◌, ◌>>◌, from_answer, call, call_text}

-- `pem.Block`; its headers are the text between the first line and the content.
pub record PemBlock : Type 0 where
  pub type : Bytes
  pub headers : Bytes
  pub content : Bytes

abbrev pub plain_block : Bytes → Bytes → PemBlock
plain_block type content = record { type = type; headers = []; content = content }

-- The packages encoding/pem, crypto/x509 and ed25519. What draws random bytes also reads the calls
-- made before.
pub record Keys : Type 0 where
  pub decode : Bytes → Option (PemBlock × Bytes)
  pub encode : PemBlock → Bytes
  pub is_encrypted : PemBlock → Bool
  pub decrypt : PemBlock → Bytes → Answer Bytes
  pub encrypt : Trace → Bytes → Bytes → Bytes → Answer PemBlock
  pub generate_key : Trace → Answer (Bytes × Bytes)
  pub verify : Bytes → Bytes → Bytes → Outcome Bool

abbrev pub pub_key_identifier : Bytes
pub_key_identifier = bytes "PUBLIC KEY"

abbrev pub priv_key_identifier : Bytes
priv_key_identifier = bytes "PRIVATE KEY"

module _ (keys : Keys) where
  -- The loop over the blocks of a file, up to one of the type that is wanted. It is given as many
  -- rounds as the file has bytes, and one more.
  unfoldable pub find_block : ℕ → Bytes → Bytes → Outcome PemBlock
  find_block zero wanted text = panic
  find_block (suc rounds) wanted text = elim (keys.decode text) [
    | none ↦ err bad_pem
    | some p ↦
        let rest = find_block rounds wanted p.1 in if equal p.0.type wanted then ok p.0 else rest
  ]

  unfoldable pub first_block : Bytes → Bytes → Outcome PemBlock
  first_block wanted text = find_block (suc (length text)) wanted text

  abbrev pub key_of : Bytes → PemBlock → Outcome Bytes
  key_of password block =
      if keys.is_encrypted block
      then from_answer (keys.decrypt block password)
      else ok block.content

  abbrev encoded : Answer PemBlock → Outcome Bytes
  encoded (done block) = ok (keys.encode block)
  encoded (failed e) = err (external e)

  -- The text of the private key file: the source encrypts it where the password is empty.
  abbrev pub private_text : Trace → Bytes → Bytes → Outcome Bytes
  private_text h password priv =
      if is_empty password
      then encoded (keys.encrypt h priv_key_identifier priv password)
      else ok (keys.encode (plain_block priv_key_identifier priv))

module _ (keys : Keys) (os : Platform) where
  unfoldable pub load_public_key_from_file : Bytes → M Bytes
  load_public_key_from_file path = call_text os (read_file path) >>= λ text.
      lift (first_block keys pub_key_identifier text) >>= λ block. pure block.content

  unfoldable pub load_private_key_from_file : Bytes → Bytes → M Bytes
  load_private_key_from_file path password = call_text os (read_file path) >>= λ text.
      lift (first_block keys priv_key_identifier text) >>= λ block.
      lift (key_of keys password block)

  unfoldable pub generat_ed25519_key : Bytes → Bytes → Bytes → M (Unit {0})
  generat_ed25519_key password private_path public_path h =
      (lift (from_answer (keys.generate_key h)) >>= λ p.
      lift (private_text keys h password p.1) >>= λ text.
      call os (write_file private_path text)
      >> call os (write_file public_path (keys.encode (plain_block pub_key_identifier p.0))))
        h
