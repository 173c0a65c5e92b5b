-- ===== src/BootConfig/Zip/Extract.antt =====
-- The manifest that the loop over the files of an archive finds.
use systemboot.Base.{
  ◌≡◌, refl, subst, sym, ap, ◌∙◌, Bool, true, false, Bool-cases, inl, inr, Option, none, some, List,
  [], ◌∷◌, Bytes, bytes, equal, equal_iff, is_empty, if◌then◌else◌, ok,
}
use systemboot.Text.Split.{ends_with}
use systemboot.Text.FilePath.{path_join}
use systemboot.Platform.{Platform, Answer, done, failed, write_file, make_dirs}
use systemboot.Platform.Monad.{M, lift, from_answer, call}
use systemboot.Platform.Rules.{Only, Only-if, Only-pure, Only-lift, Only-bind, Only-any}
use systemboot.BootConfig.Manifest.{Manifest}
use systemboot.BootConfig.Zip.{
  ZipFile, Formats, manifest_from_bytes, some_manifest, parse_manifest, extract_loop,
}

abbrev pub is_manifest : ZipFile → Bool
is_manifest f = equal f.name (bytes "manifest.json")

abbrev or_else : Option ZipFile → Option ZipFile → Option ZipFile
or_else (some g) o = some g
or_else none o = o

-- The last file whose name is `manifest.json`.
abbrev pub last_manifest : List ZipFile → Option ZipFile
last_manifest [] = none
last_manifest (f ∷ files) = or_else (last_manifest files) (if is_manifest f then some f else none)

-- The manifest is that of this file, decoded; or the one found before, where there is no file.
pub data Found (formats : Formats) (before : Option Manifest)
    : Option ZipFile → Option Manifest → Type 0 where
  kept : Found formats before none before
  decoded :
      (f : ZipFile) (buf : Bytes) (m : Manifest)
      → f.content ≡ done buf
      → formats.decode_manifest buf ≡ done m
      → Found formats before (some f) (some m)

-- A file that is not the manifest keeps the one found before, and the manifest replaces it.
data Read (formats : Formats) (f : ZipFile) (before : Option Manifest)
    : Option Manifest → Type 0 where
  other : is_manifest f ≡ false → Read formats f before before
  new :
      (buf : Bytes) (m : Manifest)
      → is_manifest f ≡ true
      → f.content ≡ done buf
      → formats.decode_manifest buf ≡ done m
      → Read formats f before (some m)

from_answer-eq-ok : (x : Answer Bytes) (b : Bytes) → from_answer x ≡ ok b → x ≡ done b
from_answer-eq-ok (done c) b e = cc
from_answer-eq-ok (failed c) b e = cc

ok-injective : {x y : Option Manifest} → ok x ≡ ok y → x ≡ y
ok-injective e = cc

or_else-none : (o : Option ZipFile) → or_else o none ≡ o
or_else-none none = refl
or_else-none (some g) = refl

module _ (formats : Formats) where
  Found-or_else :
      (f : ZipFile) (buf : Bytes) (m : Manifest) (before : Option Manifest) (o : Option ZipFile)
      (r : Option Manifest)
      → f.content ≡ done buf
      → formats.decode_manifest buf ≡ done m
      → Found formats (some m) o r
      → Found formats before (or_else o (some f)) r
  Found-or_else f buf m before none none a b k = elim k [ ]
  Found-or_else f buf m before (some _) none a b k = elim k [ ]
  Found-or_else f buf m before none (some _) a b kept = decoded f buf m a b
  Found-or_else f buf m before (some _) (some _) a b (decoded g buf' n c d) = decoded g buf' n c d

  Found-cons :
      (f : ZipFile) (files : List ZipFile) (before middle r : Option Manifest)
      → Read formats f before middle
      → Found formats middle (last_manifest files) r
      → Found formats before (last_manifest (f ∷ files)) r
  Found-cons f files before middle r (other e) k = rw (e, or_else-none (last_manifest files)) k
  Found-cons f files before middle r (new buf m e a b) k =
      rw e (Found-or_else f buf m before (last_manifest files) r a b k)

  module _ (f : ZipFile) (buf : Bytes) (before : Option Manifest) (a : f.content ≡ done buf) where
    some_manifest-Read :
        (b : Bool) (x : Answer Manifest) (m : Option Manifest)
        → is_manifest f ≡ b
        → formats.decode_manifest buf ≡ x
        → (if b then some_manifest formats (from_answer x) else ok before) ≡ ok m
        → Read formats f before m
    some_manifest-Read true (done n) m i d e =
        subst (Read formats f before) (ok-injective e) (new buf n i a d)
    some_manifest-Read true (failed n) m i d e = cc
    some_manifest-Read false x m i d e = subst (Read formats f before) (ok-injective e) (other i)

    parse_manifest-Read :
        (m : Option Manifest) → parse_manifest formats f buf before ≡ ok m → Read formats f before m
    unfolding parse_manifest manifest_from_bytes
    parse_manifest-Read m e =
        some_manifest-Read (is_manifest f) (formats.decode_manifest buf) m refl refl e

-- A name that is empty or that ends in a slash is not that of the manifest.
skipped : (f : ZipFile) → is_empty f.name ≡ true → is_manifest f ≡ false
skipped f e = elim (Bool-cases (is_manifest f)) [
  | inl i ↦ absurd (no (sym (ap is_empty ((equal_iff f.name (bytes "manifest.json")).0 i)) ∙ e))
  | inr i ↦ i
]
  where
    no : false ≡ true → ⊥
    no e = cc

directory : (f : ZipFile) → ends_with b'/' f.name ≡ true → is_manifest f ≡ false
unfolding ends_with
directory f e = elim (Bool-cases (is_manifest f)) [
  | inl i ↦
      absurd (no (sym (ap (ends_with b'/') ((equal_iff f.name (bytes "manifest.json")).0 i)) ∙ e))
  | inr i ↦ i
]
  where
    no : false ≡ true → ⊥
    no e = cc

module _ (formats : Formats) (os : Platform) (dir : Bytes) where
  skip-Found :
      (f : ZipFile) (files : List ZipFile) (before : Option Manifest) (m : M (Option Manifest))
      → is_manifest f ≡ false
      → Only (Found formats before (last_manifest files)) m
      → Only (Found formats before (last_manifest (f ∷ files))) m
  skip-Found f files before m i rest = record {
    at = λ h r e. Found-cons formats f files before before r (other i) (rest.at h r e);
  }

  -- Where the loop over the files of an archive ends with no error, the manifest is that of the
  -- last file named `manifest.json`, decoded, and the one found before where no file has that name.
  pub extract_loop-Found :
      (files : List ZipFile) (before : Option Manifest)
      → Only (Found formats before (last_manifest files)) (extract_loop formats os dir files before)
  unfolding extract_loop
  extract_loop-Found [] before = Only-pure _ before kept
  extract_loop-Found (f ∷ files) before =
      Only-if _ (is_empty f.name) _ _
        (λ e. skip-Found f files before _ (skipped f e) (extract_loop-Found files before))
        (λ _.
          Only-if _ (ends_with b'/' f.name) _ _
            (λ e. skip-Found f files before _ (directory f e) (
              Only-bind _ _ (call os (make_dirs (path_join (dir ∷ f.name ∷ [])))) _ (Only-any _)
                (λ _ _. extract_loop-Found files before)))
            (λ _.
              Only-bind (λ buf. f.content ≡ done buf) _ (lift (from_answer f.content)) _
                (Only-lift _ _ (λ buf e. from_answer-eq-ok f.content buf e))
                (λ buf a.
                  Only-bind (Read formats f before) _ (lift (parse_manifest formats f buf before)) _
                    (Only-lift _ _ (λ m e. parse_manifest-Read formats f buf before a m e))
                    (λ m k.
                      Only-bind _ _ (call os (write_file (path_join (dir ∷ f.name ∷ [])) buf)) _
                        (Only-any _)
                        (λ _ _. record {
                          at = λ h r e.
                              Found-cons formats f files before m r k
                                ((extract_loop-Found files m).at h r e);
                        })))))
