-- ===== src/BootConfig/Zip.antt =====
-- pkg/bootconfig/zipconfig.go: a boot configuration in a signed ZIP file.
pub mod Reader
pub mod Signature
pub mod Extract
use systemboot.Base.{
  ℕ, zero, suc, ◌+◌, ◌-◌, Bool, not, Option, none, some, List, [], ◌∷◌, Bytes, bytes, equal,
  is_empty, length, take, drop, leb, ltb, ◌&&◌, ◌==◌, if◌then◌else◌, Error, end_of_file,
  short_signature, bad_signature, no_manifest, Outcome, ok, err, panic,
}
use systemboot.Base.Int.{ℤ, pos, negsuc}
use systemboot.Text.Split.{ends_with}
use systemboot.Text.FilePath.{path_join}
use systemboot.Platform.{Platform, Answer, read_file, write_file, make_dirs, temp_dir}
use systemboot.Platform.Monad.{M, pure, raise, lift, from_answer, call, call_text, ◌>>=◌, ◌>>◌}
use systemboot.Crypto.Measure.{blob_pcr, try_measure_data}
use systemboot.Crypto.Keys.{Keys, load_public_key_from_file}
use systemboot.BootConfig.Manifest.{Manifest}

-- `a - b` of two lengths.
abbrev pub minus : ℕ → ℕ → ℤ
minus a b = if leb b a then pos (a - b) else negsuc (b - a - 1)

-- Go's `s[low:high]`, with `high` at most the length: it panics where the bounds are not in order.
unfoldable pub slice : Bytes → ℤ → ℤ → Outcome Bytes
slice s (pos low) (pos high) =
    if leb low high && leb high (length s) then ok (take (high - low) (drop low s)) else panic
slice s low high = panic

-- The bytes that `ReadAt` copied, whose number it returns, and its error.
pub record ReadResult : Type 0 where
  pub copied : Bytes
  pub error : Option Error

-- `memoryZipReader.ReadAt`, on a buffer of `size` bytes.
unfoldable pub read_at : Bytes → ℕ → ℤ → Outcome ReadResult
read_at content size (negsuc n) = panic
read_at content size (pos offset) =
    let c_len = length content in
    if ltb c_len offset
    then ok (record { copied = []; error = some end_of_file })
    else if leb size (c_len - offset)
    then ok (record { copied = take size (drop offset content); error = none })
    else ok (record { copied = drop offset content; error = some end_of_file })

-- A file of a ZIP archive, with what `Open` and `ReadAll` return for it.
pub record ZipFile : Type 0 where
  pub name : Bytes
  pub content : Answer Bytes

-- `zip.NewReader`, on a reader and a size, and `json.Unmarshal` into a manifest.
pub record Formats : Type 0 where
  pub new_reader : (ℕ → ℤ → Outcome ReadResult) → ℕ → Answer (List ZipFile)
  pub decode_manifest : Bytes → Answer Manifest

abbrev pub signature_size : ℕ
signature_size = 64

-- `ManifestFromBytes`
unfoldable pub manifest_from_bytes : Formats → Bytes → Outcome Manifest
manifest_from_bytes formats text = from_answer (formats.decode_manifest text)

module _ (keys : Keys) (os : Platform) where
  -- The bytes of the archive, behind the check of the signature if there is a public key.
  unfoldable pub check_signature : Bytes → Option Bytes → Bytes → M Bytes
  unfolding slice
  check_signature filename none bytes_read = pure bytes_read
  check_signature filename (some pubkeyfile) bytes_read =
      lift (slice bytes_read (pos 0) (minus (length bytes_read) signature_size)) >>= λ zipbytes.
      load_public_key_from_file keys os pubkeyfile >>= λ pubkey.
      lift (slice bytes_read (minus (length bytes_read) signature_size) (pos (length bytes_read)))
      >>= λ signature.
          if not (length signature == signature_size)
          then raise short_signature
          else (lift (keys.verify pubkey zipbytes signature) >>= λ good.
              if not good then raise (bad_signature filename) else pure zipbytes)

module _ (formats : Formats) where
  abbrev pub some_manifest : Outcome Manifest → Outcome (Option Manifest)
  some_manifest (ok m) = ok (some m)
  some_manifest (err e) = err e
  some_manifest panic = panic

  -- What a file makes of the manifest found so far.
  unfoldable pub parse_manifest : ZipFile → Bytes → Option Manifest → Outcome (Option Manifest)
  unfolding manifest_from_bytes
  parse_manifest f buf manifest =
      if equal f.name (bytes "manifest.json")
      then some_manifest (manifest_from_bytes formats buf)
      else ok manifest

module _ (formats : Formats) (os : Platform) where
  -- The loop over the files.
  unfoldable pub extract_loop : Bytes → List ZipFile → Option Manifest → M (Option Manifest)
  extract_loop dir [] manifest = pure manifest
  extract_loop dir (f ∷ files) manifest =
      let rest = extract_loop dir files in
      let destination = path_join (dir ∷ f.name ∷ []) in
      if is_empty f.name
      then rest manifest
      else if ends_with b'/' f.name
      then call os (make_dirs destination) >> rest manifest
      else (lift (from_answer f.content) >>= λ buf.
          lift (parse_manifest formats f buf manifest) >>= λ manifest'.
          call os (write_file destination buf) >> rest manifest')

  abbrev pub with_manifest : Bytes → Option Manifest → M (Manifest × Bytes)
  with_manifest dir none = raise no_manifest
  with_manifest dir (some m) = pure (m, dir)

  -- Unpack the archive and decode its manifest.
  unfoldable pub unpack : Bytes → M (Manifest × Bytes)
  unfolding extract_loop
  unpack zipbytes =
      lift (from_answer (formats.new_reader (read_at zipbytes) (length zipbytes))) >>= λ files.
      call_text os temp_dir >>= λ dir.
      extract_loop dir files none >>= λ manifest. with_manifest dir manifest

module _ (keys : Keys) (formats : Formats) (os : Platform) where
  unfoldable pub from_zip : Bytes → Option Bytes → M (Manifest × Bytes)
  unfolding check_signature unpack
  from_zip filename pubkeyfile = call_text os (read_file filename) >>= λ bytes_read.
      try_measure_data os blob_pcr bytes_read
      >> (check_signature keys os filename pubkeyfile bytes_read >>= λ zipbytes.
          unpack formats os zipbytes)
