-- ===== src/Crypto/Keys/Files.antt =====
-- The key files that `GeneratED25519Key` writes, and what is read back from them.
use systemboot.Base.{
  ◌≡◌, ◌≢◌, refl, sym, ap, ◌∙◌, false, some, [], ◌∷◌, Bytes, is_empty, equal_refl, ok,
}
use systemboot.Platform.{Platform, Trace, Answer, done, failed, read_file, write_file}
use systemboot.Platform.Monad.{call, call_text, lift, ◌>>=◌, handle, from_answer, pure}
use systemboot.Platform.Rules.{bind-eq-ok}
use systemboot.Vpd.Store.{IsFileStore}
use systemboot.Crypto.Keys.{
  Keys, find_block, first_block, pub_key_identifier, priv_key_identifier, plain_block, private_text,
  load_public_key_from_file, load_private_key_from_file, generat_ed25519_key,
}

module _ (keys : Keys) where
  first_block-encode :
      (type key : Bytes)
      → keys.decode (keys.encode (plain_block type key)) ≡ some (plain_block type key, [])
      → first_block keys type (keys.encode (plain_block type key)) ≡ ok (plain_block type key)
  unfolding first_block find_block
  first_block-encode type key e = rw (find_block, e, equal_refl type) refl

module _ (keys : Keys) (os : Platform) where
  -- The calls and the keys of a `GeneratED25519Key` that returned no error.
  record Generated (password private_path public_path : Bytes) (h : Trace) : Type 0 where
    public_key : Bytes
    private_key : Bytes
    text : Bytes
    generated : keys.generate_key h ≡ done (public_key, private_key)
    encoded : private_text keys h password private_key ≡ ok text
    wrote_private : os.unit h (write_file private_path text) ≡ done tt
    wrote_public :
        os.unit
          (write_file private_path text ∷ h)
          (write_file public_path (keys.encode (plain_block pub_key_identifier public_key)))
        ≡ done tt
    behind :
        (generat_ed25519_key keys os password private_path public_path h).1
        ≡ write_file public_path (keys.encode (plain_block pub_key_identifier public_key))
          ∷ write_file private_path text
          ∷ h

  from_answer-eq-ok {ℓ} : {A : Type ℓ} (a : Answer A) {x : A} → from_answer a ≡ ok x → a ≡ done x
  from_answer-eq-ok (done x) e = cc
  from_answer-eq-ok (failed f) e = cc

  generat-Generated :
      (password private_path public_path : Bytes) (h : Trace)
      → (generat_ed25519_key keys os password private_path public_path h).0 ≡ ok tt
      → Generated password private_path public_path h
  unfolding generat_ed25519_key lift call
  generat-Generated password private_path public_path h e =
      let (p, ep, hp) = bind-eq-ok _ _ h e in
      let (text, et, ht) = bind-eq-ok _ _ h (ap (λ r. r.0) (sym hp) ∙ e) in
      let (u, eu, hu) = bind-eq-ok _ _ h (ap (λ r. r.0) (sym (hp ∙ ht)) ∙ e) in
      record {
        public_key = p.0;
        private_key = p.1;
        text = text;
        generated = from_answer-eq-ok _ ep;
        encoded = et;
        wrote_private = from_answer-eq-ok _ eu;
        wrote_public = from_answer-eq-ok _ (ap (λ r. r.0) (sym (hp ∙ ht ∙ hu)) ∙ e);
        behind = ap (λ r. r.1) (hp ∙ ht ∙ hu);
      }

  load_public_key-eq :
      (path text key : Bytes) (t : Trace)
      → os.text t (read_file path) ≡ done text
      → first_block keys pub_key_identifier text ≡ ok (plain_block pub_key_identifier key)
      → (load_public_key_from_file keys os path t).0 ≡ ok key
  unfolding load_public_key_from_file ◌>>=◌ handle call_text lift pure
  load_public_key-eq path text key t e f = rw (e, f) refl

  load_private_key-eq :
      (path password text key : Bytes) (t : Trace)
      → os.text t (read_file path) ≡ done text
      → first_block keys priv_key_identifier text ≡ ok (plain_block priv_key_identifier key)
      → keys.is_encrypted (plain_block priv_key_identifier key) ≡ false
      → (load_private_key_from_file keys os path password t).0 ≡ ok key
  unfolding load_private_key_from_file ◌>>=◌ handle call_text lift pure
  load_private_key-eq path password text key t e f g = rw (e, f, g) refl

  private_text-plain :
      (h : Trace) (password key : Bytes)
      → is_empty password ≡ false
      → private_text keys h password key ≡ ok (keys.encode (plain_block priv_key_identifier key))
  private_text-plain h password key n = rw n refl

  ok-injective : {a b : Bytes} → ok a ≡ ok b → done a ≡ done b
  ok-injective e = cc

  written_path : {p q a b : Bytes} → write_file p a ≡ write_file q b → q ≡ p
  written_path e = cc

  module _ (store : IsFileStore os)
      (decodes : (type key : Bytes)
        → keys.decode (keys.encode (plain_block type key)) ≡ some (plain_block type key, []))
      (password private_path public_path : Bytes) (h : Trace)
      (returned : (generat_ed25519_key keys os password private_path public_path h).0 ≡ ok tt) where
    -- Over a file store, where `pem.Decode` reads what `pem.Encode` wrote, the public key file of a
    -- successful `GeneratED25519Key` loads as the public key that was generated.
    pub load_public_key-generat :
        (public_key private_key : Bytes) × (keys.generate_key h ≡ done (public_key, private_key))
        × ((load_public_key_from_file keys os public_path
              (generat_ed25519_key keys os password private_path public_path h).1).0
            ≡ ok public_key)
    load_public_key-generat =
        let g = generat-Generated password private_path public_path h returned in
        (
          g.public_key,
          g.private_key,
          g.generated,
          rw g.behind (
              load_public_key-eq public_path _ g.public_key _
                (store.read_written _ _ _ g.wrote_public)
                (first_block-encode keys pub_key_identifier g.public_key (decodes _ _))),
        )

    -- Under the same conditions, where a block with no headers does not count as encrypted and the
    -- two files differ, a private key that was generated with a password that is not empty loads
    -- with every password: the file is not encrypted.
    pub load_private_key-generat :
        is_empty password ≡ false
        → ((key : Bytes) → keys.is_encrypted (plain_block priv_key_identifier key) ≡ false)
        → private_path ≢ public_path
        → (public_key private_key : Bytes) × (keys.generate_key h ≡ done (public_key, private_key))
          × ((guess : Bytes)
              → (load_private_key_from_file keys os private_path guess
                  (generat_ed25519_key keys os password private_path public_path h).1).0
                ≡ ok private_key)
    load_private_key-generat nonempty plain differ =
        let g = generat-Generated password private_path public_path h returned in
        (
          g.public_key,
          g.private_key,
          g.generated,
          λ guess. rw g.behind (
              load_private_key-eq private_path guess _ g.private_key _
                (store.read_other _ _ private_path (λ c e. differ (written_path e))
                  ∙ store.read_written _ _ _ g.wrote_private
                  ∙ ok-injective
                      (sym g.encoded ∙ private_text-plain h password g.private_key nonempty))
                (first_block-encode keys priv_key_identifier g.private_key (decodes _ _))
                (plain _)),
        )
