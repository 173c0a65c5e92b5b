-- ===== src/BootConfig.antt =====
-- pkg/bootconfig/bootconfig.go: a boot configuration and its plain methods.
pub mod Boot
pub mod Manifest
pub mod Zip
mod Tests
use systemboot.Base.{Outcome, Bool, not, ◌&&◌, ◌||◌, List, [], ◌∷◌, ◌++◌, Bytes, is_empty}
use systemboot.Platform.{Answer}
use systemboot.Platform.Monad.{from_answer}

pub record BootConfig : Type 0 where
  pub name : Bytes
  pub kernel : Bytes
  pub initramfs : Bytes
  pub kernel_args : Bytes
  pub device_tree : Bytes
  pub multiboot : Bytes
  pub multiboot_args : Bytes
  pub modules : List Bytes

-- `new(BootConfig)`
abbrev pub empty_config : BootConfig
empty_config = record {
  name = [];
  kernel = [];
  initramfs = [];
  kernel_args = [];
  device_tree = [];
  multiboot = [];
  multiboot_args = [];
  modules = [];
}

unfoldable pub is_valid : BootConfig → Bool
is_valid bc =
    (not (is_empty bc.kernel) && is_empty bc.multiboot)
    || (is_empty bc.kernel && not (is_empty bc.multiboot))

-- The loop of `fileNames` over the modules.
unfoldable pub append_modules : List Bytes → List Bytes → List Bytes
append_modules str [] = str
append_modules str (m ∷ ms) = append_modules (str ++ (m ∷ [])) ms

unfoldable pub file_names : BootConfig → List Bytes
unfolding append_modules
file_names bc = append_modules (bc.kernel ∷ bc.initramfs ∷ []) bc.modules

-- The loop of `bytestream` over the modules.
unfoldable pub concat_modules : Bytes → List Bytes → Bytes
concat_modules b [] = b
concat_modules b (m ∷ ms) = concat_modules (b ++ m) ms

unfoldable pub bytestream : BootConfig → Bytes
unfolding concat_modules
bytestream bc =
    concat_modules
      (bc.name
        ++ (bc.kernel
            ++ (bc.initramfs
                ++ (bc.kernel_args ++ (bc.device_tree ++ (bc.multiboot ++ bc.multiboot_args))))))
      bc.modules

-- `NewBootConfig`; `decode` is `json.Unmarshal` into the structure.
unfoldable pub new_boot_config : (Bytes → Answer BootConfig) → Bytes → Outcome BootConfig
new_boot_config decode text = from_answer (decode text)
