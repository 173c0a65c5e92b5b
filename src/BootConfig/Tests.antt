-- ===== src/BootConfig/Tests.antt =====
-- Runs of the boot configurations and of the signed archives.
use systemboot.Base.{refl, true, false, List, [], ◌∷◌, none, some, bytes, ok, not_exist}
use systemboot.Platform.{done, failed, tpm_open, tpm_measure}
use systemboot.Platform.Rules.{Extends, Only}
use systemboot.Vpd.Store.Memory.{memory}
use systemboot.Crypto.Measure.{boot_config_pcr}
use systemboot.Crypto.Keys.{Keys}
use systemboot.BootConfig.{BootConfig, empty_config, bytestream}
use systemboot.BootConfig.Boot.{boot}
use systemboot.BootConfig.Boot.Files.{OutcomeOfFiles, boot-Leaks}
use systemboot.BootConfig.Boot.Measured.{boot-Extends}
use systemboot.BootConfig.Manifest.{Manifest}
use systemboot.Base.Int.{pos}
use systemboot.BootConfig.Zip.{Formats, ZipFile, read_at, from_zip, extract_loop}
use systemboot.BootConfig.Zip.Extract.{Found, last_manifest, extract_loop-Found}
use systemboot.BootConfig.Zip.Reader.{ReadsAt, read_at-ReadsAt}
use systemboot.BootConfig.Zip.Signature.{Guarded, from_zip-Guarded}

abbrev linux : BootConfig
linux = record empty_config {
  kernel = bytes "/boot/vmlinuz";
  kernel_args = bytes "quiet";
  initramfs = bytes "/boot/initrd";
}

boot-Leaks_example : OutcomeOfFiles memory linux [] (boot memory linux []).1
boot-Leaks_example = boot-Leaks memory linux []

boot-Extends_example :
    Extends
      (tpm_measure boot_config_pcr (bytestream linux) ∷ tpm_open ∷ [])
      (boot memory linux []).1
boot-Extends_example = boot-Extends memory linux [] refl

abbrev manifest : Manifest
manifest = record { version = pos 1; configs = linux ∷ [] }

read_at-ReadsAt_example : ReadsAt (bytes "abcdef") 4 3 (read_at (bytes "abcdef") 4 (pos 3))
read_at-ReadsAt_example = read_at-ReadsAt (bytes "abcdef") 4 3

-- Keys that accept every signature, and archives with no file.
abbrev keys : Keys
keys = record {
  decode = λ text. some ((record { type = bytes "PUBLIC KEY"; headers = []; content = text }), []);
  encode = λ block. block.content;
  is_encrypted = λ block. false;
  decrypt = λ block password. failed not_exist;
  encrypt = λ h type content password. failed not_exist;
  generate_key = λ h. done (bytes "public", bytes "private");
  verify = λ key message signature. ok true;
}

abbrev formats : Formats
formats = record { new_reader = λ reader size. done []; decode_manifest = λ text. done manifest }

from_zip-Guarded_example :
    Guarded keys formats memory
      (bytes "/a.zip")
      (bytes "/key.pem")
      []
      (from_zip keys formats memory (bytes "/a.zip") (some (bytes "/key.pem")) [])
from_zip-Guarded_example =
    from_zip-Guarded keys formats memory (bytes "/a.zip") (bytes "/key.pem") []

abbrev files : List ZipFile
files =
    record { name = bytes "boot/"; content = failed not_exist }
    ∷ record { name = bytes "manifest.json"; content = done (bytes "{}") }
    ∷ []

extract_loop-Found_example :
    Only
      (Found formats none (last_manifest files))
      (extract_loop formats memory (bytes "/tmp/a") files none)
extract_loop-Found_example = extract_loop-Found formats memory (bytes "/tmp/a") files none
