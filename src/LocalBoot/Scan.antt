-- ===== src/LocalBoot/Scan.antt =====
-- localboot/grub.go: `ScanGrubConfigs`.
pub mod Valid
use systemboot.Base.{
  ℕ, List, [], ◌∷◌, ◌++◌, Option, none, some, Bool, not, ◌&&◌, ltb, if◌then◌else◌, length, Bytes,
  bytes, equal, one_of, Error, external, message,
}
use systemboot.Text.Split.{split_on}
use systemboot.Text.FilePath.{path_dir, path_base}
use systemboot.Platform.{Platform, read_file}
use systemboot.Platform.Monad.{M, pure, handle, lift, ◌>>=◌, call_text}
use systemboot.Walk.{
  Entry, plain_file, plain_dir, dir_error, lstat_error, Signal, go_on, skip_dir, stop, rel, walk,
  look_at,
}
use systemboot.BootConfig.{BootConfig}
use systemboot.Storage.Device.{BlockDev}
use systemboot.LocalBoot.Grub.{GrubVersion, grub_v1, grub_v2, parse_grub_cfg}

abbrev pub grub_search_directories : List Bytes
grub_search_directories =
    bytes "boot" ∷ bytes "EFI" ∷ bytes "efi" ∷ bytes "grub" ∷ bytes "grub2" ∷ []

abbrev pub search_depth : ℕ
search_depth = 4

unfoldable pub is_grub_search_dir : Bytes → Bool
is_grub_search_dir dirname = one_of dirname grub_search_directories

-- The version by the name of the file; other files are not looked at.
unfoldable pub version_of : Bytes → Option GrubVersion
version_of cfgname =
    if equal cfgname (bytes "grub.cfg")
    then some grub_v1
    else if equal cfgname (bytes "grub2.cfg")
    then some grub_v2
    else none

-- `normalize` removes the diacritics from a path.
module _ (os : Platform) (normalize : Bytes → Bytes) (devices : List BlockDev)
    (basedir : Bytes) where
  -- A directory whose path relative to the base has too many parts is skipped.
  abbrev pub by_depth : Option Bytes → Signal
  by_depth none = stop (message (bytes "Rel"))
  by_depth (some p) = if ltb search_depth (length (split_on b'/' p)) then skip_dir else go_on

  unfoldable pub enter_dir : Bytes → Signal
  unfolding is_grub_search_dir rel split_on
  enter_dir path =
      if equal (path_dir path) basedir && not (is_grub_search_dir (path_base path))
      then skip_dir
      else by_depth (rel basedir path)

  abbrev pub read_cfg : Option GrubVersion → Bytes → List BootConfig → M (List BootConfig × Signal)
  read_cfg none path bootconfigs = pure (bootconfigs, go_on)
  read_cfg (some ver) path bootconfigs =
      handle (call_text os (read_file path))
        (λ content. lift (parse_grub_cfg ver devices content basedir) >>= λ cfgs.
          pure (bootconfigs ++ cfgs, go_on))
        (λ e. pure (bootconfigs, stop e))

  -- The walk function; `bootconfigs` is the variable that it appends to.
  unfoldable pub visit_grub : List BootConfig → Bytes → Entry → M (List BootConfig × Signal)
  unfolding enter_dir version_of
  visit_grub bootconfigs path (dir_error name e) = pure (bootconfigs, stop (external e))
  visit_grub bootconfigs path (lstat_error e) = pure (bootconfigs, stop (external e))
  visit_grub bootconfigs path (plain_dir name) = pure (bootconfigs, enter_dir (normalize path))
  visit_grub bootconfigs path (plain_file name) =
      read_cfg (version_of name) (normalize path) bootconfigs

  -- An error of the walk is only logged.
  unfoldable pub scan_grub_configs : M (List BootConfig)
  unfolding visit_grub
  scan_grub_configs =
      look_at os basedir >>= λ tree. walk visit_grub tree basedir [] >>= λ r. pure r.0
