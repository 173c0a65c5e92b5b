-- ===== src/Vpd.antt =====
-- pkg/vpd/vpd.go: the variables of the Vital Product Data, as files below a directory.
pub mod All
pub mod Store
use systemboot.Base.{ℕ, List, [], ◌∷◌, Bool, true, false, if◌then◌else◌, Bytes, bytes}
use systemboot.Text.FilePath.{path_join}
use systemboot.Platform.{Platform, read_file, write_file}
use systemboot.Platform.Monad.{M, call, call_text}

abbrev pub max_boot_entry : ℕ
max_boot_entry = 9999

-- The directory `VpdDir` is a variable of the package that a flag may set.
module _ (os : Platform) (vpd_dir : Bytes) where
  unfoldable pub get_base_dir : Bool → Bytes
  get_base_dir read_only =
      if read_only
      then path_join (vpd_dir ∷ bytes "ro" ∷ [])
      else path_join (vpd_dir ∷ bytes "rw" ∷ [])

  -- The file of a variable.
  unfoldable pub file_of : Bytes → Bool → Bytes
  file_of key read_only = path_join (get_base_dir read_only ∷ key ∷ [])

  unfoldable pub get : Bytes → Bool → M Bytes
  get key read_only = call_text os (read_file (file_of key read_only))

  unfoldable pub set : Bytes → Bytes → Bool → M (Unit {0})
  set key value read_only = call os (write_file (file_of key read_only) value)
