-- ===== src/BootConfig/Zip/Signature.antt =====
-- What `FromZip` does before the signature of the archive is verified.
use systemboot.Base.{
  ℕ, ◌-◌, ◌≤◌, ◌<◌, ◌≡◌, refl, sym, ap, ◌∙◌, Bool, true, false, not, Bool-cases, inl, inr, some,
  ◌∷◌, Bytes, length, length-drop, take-all, take, drop, leb, ◌&&◌, if◌then◌else◌, arith, Outcome,
  ok, err, panic, external, Fault, short_signature, bad_signature, ◌==◌,
}
use systemboot.Base.Int.{pos, negsuc}
use systemboot.Platform.{Platform, Trace, done, failed, read_file, tpm_open, tpm_measure, tpm_close}
use systemboot.Platform.Monad.{
  M, pure, raise, proceed, handle, call_text, Answer-cases, ◌>>=◌, ◌>>◌,
}
use systemboot.Platform.Rules.{
  bind-Returns, Keeps-lift, IsOk, Only, Only-bind, Only-lift, Only-if, Only-raise, Only-pure, Keeps,
  keeps_rules, Keeps-if,
}
use systemboot.Crypto.Measure.{
  blob_pcr, try_measure_data, try_measure_data-Returns, try_measure_data-Keeps,
}
use systemboot.Crypto.Keys.{Keys, load_public_key_from_file}
use systemboot.BootConfig.Manifest.{Manifest}
use systemboot.BootConfig.Zip.{
  Formats, minus, slice, signature_size, check_signature, unpack, from_zip,
}

-- The calls of `t` are those of `h` and later ones, which only read files and measure them.
pub data Reads (h : Trace) : Trace → Type 0 where
  same : Reads h h
  read : {t : Trace} (file : Bytes) → Reads h t → Reads h (read_file file ∷ t)
  opened : {t : Trace} → Reads h t → Reads h (tpm_open ∷ t)
  measured :
      {t : Trace} (pcr : ℕ) (content : Bytes) → Reads h t → Reads h (tpm_measure pcr content ∷ t)
  closed : {t : Trace} → Reads h t → Reads h (tpm_close ∷ t)

module _ (keys : Keys) (os : Platform) (pubkeyfile : Bytes) where
  -- The last 64 bytes of the file are a signature of the bytes before them, under a public key
  -- that was loaded from the key file.
  pub record Signed (content zipbytes : Bytes) : Type 0 where
    pub long_enough : signature_size ≤ length content
    pub before : zipbytes ≡ take (length content - signature_size) content
    pub public_key : Bytes
    pub loaded : (t : Trace) × ((load_public_key_from_file keys os pubkeyfile t).0 ≡ ok public_key)
    pub verified :
        keys.verify public_key zipbytes (drop (length content - signature_size) content) ≡ ok true

if-eq-ok : (b : Bool) (x s : Bytes) → (if b then ok x else panic) ≡ ok s → s ≡ x
if-eq-ok true x s e = cc
if-eq-ok false x s e = cc

slice-eq-ok :
    (content : Bytes) (low high : ℕ) (s : Bytes)
    → slice content (pos low) (pos high) ≡ ok s
    → s ≡ take (high - low) (drop low content)
unfolding slice
slice-eq-ok content low high s e = if-eq-ok (leb low high && leb high (length content)) _ s e

slice-negative :
    (content : Bytes) (low n : ℕ) (s : Bytes) → ¬ (slice content (pos low) (negsuc n) ≡ ok s)
unfolding slice
slice-negative content low n s e = cc

minus-le : (a b : ℕ) → b ≤ a → minus a b ≡ pos (a - b)
minus-le a b le = ground arith

minus-lt : (a b : ℕ) → a < b → minus a b ≡ negsuc (b - a - 1)
minus-lt a b lt = ground arith

first_part :
    (content z : Bytes)
    → slice content (pos 0) (minus (length content) signature_size) ≡ ok z
    → (signature_size ≤ length content) × (z ≡ take (length content - signature_size) content)
first_part content z e = elim (Bool-cases (leb 64 (length content))) [
  | inl f ↦
      let le : 64 ≤ length content = ground (arith, f) in
      let m = ap (slice content (pos 0)) (sym (minus-le (length content) 64 le)) ∙ e in
      (le, slice-eq-ok content 0 (length content - 64) z m ∙ ap (λ n. take n content) (omega arith))
  | inr f ↦
      let lt : length content < 64 = ground (arith, f) in
      absurd (
        slice-negative content 0 _ z
          (ap (slice content (pos 0)) (sym (minus-lt (length content) 64 lt)) ∙ e))
]

last_part :
    (content s : Bytes)
    → signature_size ≤ length content
    → slice content (minus (length content) signature_size) (pos (length content)) ≡ ok s
    → s ≡ drop (length content - signature_size) content
last_part content s le e =
    let m =
      ap (λ i. slice content i (pos (length content))) (sym (minus-le (length content) 64 le))
      ∙ e in
    slice-eq-ok content (length content - 64) (length content) s m
    ∙ take-all _ (drop (length content - 64) content) (rw length-drop (omega arith))

not-eq-false : (b : Bool) → not b ≡ false → b ≡ true
not-eq-false true e = refl
not-eq-false false e = cc

module _ (keys : Keys) (os : Platform) where
  loads :
      (pubkeyfile : Bytes)
      → Only
          (λ key. (t : Trace) × ((load_public_key_from_file keys os pubkeyfile t).0 ≡ ok key))
          (load_public_key_from_file keys os pubkeyfile)
  loads pubkeyfile = record { at = λ t key e. (t, e) }

  check_signature-Signed :
      (filename pubkeyfile content : Bytes)
      → Only
          (Signed keys os pubkeyfile content)
          (check_signature keys os filename (some pubkeyfile) content)
  unfolding check_signature
  check_signature-Signed filename pubkeyfile content =
      Only-bind
        (λ z.
          (signature_size ≤ length content) × (z ≡ take (length content - signature_size) content))
        _ _ _ (Only-lift _ _ (λ z e. first_part content z e))
        (λ zipbytes before. Only-bind _ _ _ _ (loads pubkeyfile) (λ pubkey loaded.
          Only-bind (λ s. s ≡ drop (length content - signature_size) content) _ _ _
            (Only-lift _ _ (λ s e. last_part content s before.0 e))
            (λ signature last.
              Only-if _ (not (length signature == signature_size)) (raise short_signature) _
                (λ _. Only-raise _ short_signature)
                (λ _.
                  Only-bind (λ good. keys.verify pubkey zipbytes signature ≡ ok good) _ _
                    (λ good. if not good then raise (bad_signature filename) else pure zipbytes)
                    (Only-lift _ _ (λ good e. e))
                    (λ good v.
                      Only-if _ (not good) (raise (bad_signature filename)) (pure zipbytes)
                        (λ _. Only-raise _ _)
                        (λ g. Only-pure _ _ (record {
                          long_enough = before.0;
                          before = before.1;
                          public_key = pubkey;
                          loaded = loaded;
                          verified =
                              ap (keys.verify pubkey zipbytes) (sym last)
                              ∙ v
                              ∙ ap ok (not-eq-false good g);
                        })))))))

  check_signature-Reads :
      (h : Trace) (filename pubkeyfile content : Bytes)
      → Keeps (Reads h) (check_signature keys os filename (some pubkeyfile) content)
  unfolding check_signature load_public_key_from_file
  check_signature-Reads h filename pubkeyfile content =
      search (keeps_rules, Keeps-lift, Keeps-if, read) depth 14

module _ (keys : Keys) (formats : Formats) (os : Platform) (filename pubkeyfile : Bytes)
    (h : Trace) where
  -- How `FromZip` ends, where there is a public key: it returned no value and has only read files
  -- and measured; or the file that it read is signed, and all that it did follows from unpacking
  -- the signed bytes.
  pub data Guarded : Outcome (Manifest × Bytes) × Trace → Type 0 where
    refused : {r : Outcome (Manifest × Bytes)} {t : Trace} → ¬ IsOk r → Reads h t → Guarded (r, t)
    signed :
        (content zipbytes : Bytes) (t : Trace) {r : Outcome (Manifest × Bytes) × Trace}
        → os.text h (read_file filename) ≡ done content
        → Signed keys os pubkeyfile content zipbytes
        → Reads h t
        → r ≡ unpack formats os zipbytes t
        → Guarded r

  from_zip-unread :
      (e : Fault)
      → os.text h (read_file filename) ≡ failed e
      → from_zip keys formats os filename (some pubkeyfile) h
        ≡ (err (external e), read_file filename ∷ h)
  unfolding from_zip ◌>>=◌ handle call_text raise
  from_zip-unread e a = rw a refl

  from_zip-read :
      (content : Bytes)
      → os.text h (read_file filename) ≡ done content
      → from_zip keys formats os filename (some pubkeyfile) h
        ≡ (try_measure_data os blob_pcr content
              >> (check_signature keys os filename (some pubkeyfile) content >>= λ zipbytes.
                  unpack formats os zipbytes))
            (read_file filename ∷ h)
  unfolding from_zip ◌>>=◌ handle call_text
  from_zip-read content a = rw a refl

  module _ (content : Bytes) (a : os.text h (read_file filename) ≡ done content) where
    after_check :
        (r : Outcome Bytes) (u : Trace)
        → Reads h u
        → ((z : Bytes) → r ≡ ok z → Signed keys os pubkeyfile content z)
        → Guarded (proceed (λ zipbytes. unpack formats os zipbytes) raise r u)
    unfolding raise
    after_check (ok z) u k s = signed content z u a (s z refl) k refl
    after_check (err e) u k s = refused (λ n. n) k
    after_check panic u k s = refused (λ n. n) k

    bind-Guarded :
        (m : M Bytes) (t : Trace)
        → Only (Signed keys os pubkeyfile content) m
        → Keeps (Reads h) m
        → Reads h t
        → Guarded ((m >>= λ zipbytes. unpack formats os zipbytes) t)
    unfolding ◌>>=◌ handle
    bind-Guarded m t only keeps reads =
        after_check (m t).0 (m t).1 (keeps.at t reads) (λ z e. only.at t z e)

  -- Where `FromZip` is given a public key, nothing is unpacked, and no file or directory is written,
  -- unless the last 64 bytes of the file that it read are a signature of the bytes before them,
  -- under a public key that was loaded from the key file; and it is those bytes that are unpacked.
  -- Else it returns no manifest.
  pub from_zip-Guarded : Guarded (from_zip keys formats os filename (some pubkeyfile) h)
  from_zip-Guarded = elim (Answer-cases (os.text h (read_file filename))) [
    | inl (content, a) ↦
        rw
          (
            from_zip-read content a,
            bind-Returns (try_measure_data os blob_pcr content) _ (read_file filename ∷ h)
                (try_measure_data-Returns os blob_pcr content),
          )
          (bind-Guarded content a (check_signature keys os filename (some pubkeyfile) content) _
            (check_signature-Signed keys os filename pubkeyfile content)
            (check_signature-Reads keys os h filename pubkeyfile content)
            ((try_measure_data-Keeps os (Reads h) (λ t k. opened k) (λ pcr c t k. measured pcr c k)
                (λ t k. closed k) (λ f t k. read f k) blob_pcr content).at
              _ (read filename same)))
    | inr (e, a) ↦ rw (from_zip-unread e a) (refused (λ n. n) (read filename same))
  ]
