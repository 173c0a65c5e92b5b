-- ===== src/Crypto/Keys/Tests.antt =====
-- Runs of the key files, with a simple format of PEM files.
use systemboot.Base.{
  ◌<◌, ◌≡◌, refl, ap, sym, true, false, [], ◌∷◌, ◌++◌, Option, none, some, Bytes, bytes, length,
  take, drop, ok, not_exist, arith,
}
use systemboot.Platform.{done, failed}
use systemboot.Platform.Monad.{call, ◌>>=◌, handle, lift}
use systemboot.Vpd.Store.Memory.{memory, memory-IsFileStore}
use systemboot.Crypto.Keys.{
  PemBlock, Keys, plain_block, pub_key_identifier, first_block, load_public_key_from_file,
  load_private_key_from_file, generat_ed25519_key,
}
use systemboot.Crypto.Keys.Blocks.{Search, first_block-Search}
use systemboot.Crypto.Keys.Files.{load_public_key-generat, load_private_key-generat}

-- A block is the length of its type, the type and the content.
abbrev decode : Bytes → Option (PemBlock × Bytes)
decode [] = none
decode (n ∷ text) = some (plain_block (take n text) (drop n text), [])

abbrev keys : Keys
keys = record {
  decode = decode;
  encode = λ block. length block.type ∷ (block.type ++ block.content);
  is_encrypted = λ block. false;
  decrypt = λ block password. failed not_exist;
  encrypt = λ h type content password. failed not_exist;
  generate_key = λ h. done (bytes "public", bytes "private");
  verify = λ key message signature. ok true;
}

take-length : (s t : Bytes) → take (length s) (s ++ t) ≡ s
take-length [] t = refl
take-length (c ∷ s) t = rw (take-length s t) refl

drop-length : (s t : Bytes) → drop (length s) (s ++ t) ≡ t
drop-length [] t = refl
drop-length (c ∷ s) t = drop-length s t

decode-encode :
    (type key : Bytes)
    → keys.decode (keys.encode (plain_block type key)) ≡ some (plain_block type key, [])
decode-encode type key = rw (take-length type key, drop-length type key) refl

rest_nil : (p : PemBlock × Bytes) (q : PemBlock × Bytes) → some p ≡ some q → q.1 ≡ p.1
rest_nil p q e = ap (λ r. r.1) (some-eq (sym e))
  where
    some-eq : some q ≡ some p → q ≡ p
    some-eq e = cc

decode-shorter :
    (text : Bytes) (b : PemBlock) (rest : Bytes)
    → keys.decode text ≡ some (b, rest)
    → length rest < length text
decode-shorter [] b rest e = cc
decode-shorter (n ∷ text) b rest e =
    rw (rest_nil (plain_block (take n text) (drop n text), []) (b, rest) e) (omega arith)

abbrev password : Bytes
password = bytes "secret"

abbrev private_path : Bytes
private_path = bytes "/private.pem"

abbrev public_path : Bytes
public_path = bytes "/public.pem"

generated : (generat_ed25519_key keys memory password private_path public_path []).0 ≡ ok tt
unfolding generat_ed25519_key ◌>>=◌ handle lift call
generated = refl

first_block-Search_example :
    Search keys pub_key_identifier (
      first_block keys pub_key_identifier
        (keys.encode (plain_block pub_key_identifier (bytes "k"))))
first_block-Search_example =
    first_block-Search keys decode-shorter pub_key_identifier
      (keys.encode (plain_block pub_key_identifier (bytes "k")))

load_public_key-generat_example :
    (public_key private_key : Bytes) × (keys.generate_key [] ≡ done (public_key, private_key))
    × ((load_public_key_from_file keys memory public_path
          (generat_ed25519_key keys memory password private_path public_path []).1).0
        ≡ ok public_key)
load_public_key-generat_example =
    load_public_key-generat keys memory memory-IsFileStore decode-encode password private_path
      public_path [] generated

load_private_key-generat_example :
    (public_key private_key : Bytes) × (keys.generate_key [] ≡ done (public_key, private_key))
    × ((guess : Bytes)
        → (load_private_key_from_file keys memory private_path guess
            (generat_ed25519_key keys memory password private_path public_path []).1).0
          ≡ ok private_key)
load_private_key-generat_example =
    load_private_key-generat keys memory memory-IsFileStore decode-encode password private_path
      public_path [] generated refl (λ key. refl) (λ e. cc)
