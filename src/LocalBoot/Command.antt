-- ===== src/LocalBoot/Command.antt =====
-- localboot/main.go: the command, its GRUB mode and its path mode.
pub mod Reading
pub mod Mounting
pub mod Keeping
pub mod Started
pub mod Dry
pub mod Mounted
pub mod Undone
pub mod Chosen
use systemboot.Base.{
  ℕ, suc, ◌+◌, List, [], ◌∷◌, ◌++◌, Bool, not, ◌&&◌, ◌==◌, if◌then◌else◌, Bytes, bytes, is_empty,
  Error, exited, message, wrapped,
}
use systemboot.Base.Int.{ℤ, pos, negsuc}
use systemboot.Text.FilePath.{path_join}
use systemboot.Platform.{mnt_detach, Platform, Trace, unmount}
use systemboot.Platform.Monad.{M, pure, raise, handle, finally, ◌>>=◌, ◌>>◌}
use systemboot.BootConfig.{BootConfig, empty_config}
use systemboot.BootConfig.Boot.{boot}
use systemboot.Storage.Device.{BlockDev}
use systemboot.Storage.Filesystem.{Mountpoint, get_supported_filesystems, mount_device}
use systemboot.Storage.Gpt.{get_gpt_table, partitions_by_guid}
use systemboot.Storage.Stats.{get_block_stats}
use systemboot.LocalBoot.Scan.{scan_grub_configs}

-- The flags.
pub record Flags : Type 0 where
  pub base_mountpoint : Bytes
  pub dryrun : Bool
  pub debug : Bool
  pub config_idx : ℤ
  pub grub_mode : Bool
  pub kernel_path : Bytes
  pub initramfs_path : Bytes
  pub kernel_cmdline : Bytes
  pub device_guid : Bytes

-- `log.Fatal(err)` behind an error: the program ends with the status 1.
abbrev pub or_fatal {ℓ} : {A : Type ℓ} → M A → M A
or_fatal m = handle m pure (λ _. raise (exited 1))

-- An error that is only logged.
abbrev pub or_log : M (Unit {0}) → M (Unit {0})
or_log m = handle m pure (λ _. pure tt)

-- The deferred clean-up of the GRUB mode.
abbrev pub unmount_all : List Mountpoint → Trace → Trace
unmount_all [] h = h
unmount_all (m ∷ ms) h = unmount_all ms (unmount m.path mnt_detach ∷ h)

module _ (os : Platform) (normalize : Bytes → Bytes) where
  abbrev pub mount_first : List Bytes → Bytes → List BlockDev → M Mountpoint
  mount_first filesystems base [] =
      raise (message (bytes "Error looking up for partition with GUID"))
  mount_first filesystems base (dev ∷ partitions) =
      handle
        (mount_device os (path_join (bytes "/dev" ∷ dev.name ∷ []))
          (path_join (base ∷ dev.name ∷ [])) filesystems)
        pure (λ e. raise (wrapped (bytes "mountByGUID: cannot mount") e))

  unfoldable pub mount_by_guid : List BlockDev → List Bytes → Bytes → Bytes → M Mountpoint
  mount_by_guid devices filesystems guid base =
      handle (partitions_by_guid os devices guid) (mount_first filesystems base)
        (λ _. raise (message (bytes "Error looking up for partition with GUID")))

  -- The loop that mounts every device; those that cannot be mounted are left out.
  unfoldable pub mount_every :
      List Bytes → Bytes → List BlockDev → List Mountpoint → M (List Mountpoint)
  mount_every filesystems base [] mounted = pure mounted
  mount_every filesystems base (dev ∷ devices) mounted =
      let rest = λ (ms : List Mountpoint). mount_every filesystems base devices ms in
      handle
        (mount_device os (path_join (bytes "/dev" ∷ dev.name ∷ []))
          (path_join (base ∷ dev.name ∷ [])) filesystems)
        (λ m. rest (mounted ++ (m ∷ []))) (λ _. rest mounted)

  unfoldable pub scan_every :
      List BlockDev → List Mountpoint → List BootConfig → M (List BootConfig)
  scan_every devices [] bootconfigs = pure bootconfigs
  scan_every devices (m ∷ mounted) bootconfigs =
      scan_grub_configs os normalize devices m.path >>= λ cfgs.
      scan_every devices mounted (bootconfigs ++ cfgs)

  -- The loop for `-config`, from the `n`-th configuration on.
  unfoldable pub boot_index : Bool → ℕ → ℕ → List BootConfig → M (Unit {0})
  boot_index dryrun idx n [] = pure tt
  boot_index dryrun idx n (cfg ∷ bootconfigs) =
      let rest = boot_index dryrun idx (n + 1) bootconfigs in
      if idx == n then if dryrun then pure tt else or_log (boot os cfg) >> rest else rest

  -- The loop that tries every configuration.
  unfoldable pub boot_every : List BootConfig → M (Unit {0})
  boot_every [] = pure tt
  boot_every (cfg ∷ bootconfigs) = or_log (boot os cfg) >> boot_every bootconfigs

  abbrev pub choose : Bool → ℤ → List BootConfig → M (Unit {0})
  choose dryrun idx [] = raise (message (bytes "No boot configuration found"))
  choose dryrun (pos idx) (cfg ∷ bootconfigs) = boot_index dryrun idx 0 (cfg ∷ bootconfigs)
  choose dryrun (negsuc n) (cfg ∷ bootconfigs) =
      if dryrun then pure tt else boot_every (cfg ∷ bootconfigs)

  unfoldable pub scan_and_boot : List BlockDev → Bool → ℤ → List Mountpoint → M (Unit {0})
  scan_and_boot devices dryrun idx mounted = scan_every devices mounted [] >>= choose dryrun idx

  unfoldable pub boot_grub_mode : List BlockDev → Bytes → Bytes → Bool → ℤ → M (Unit {0})
  boot_grub_mode devices base guid dryrun idx =
      or_fatal (get_supported_filesystems os) >>= λ filesystems.
      if is_empty guid
      then (mount_every filesystems base devices [] >>= λ mounted.
          finally (scan_and_boot devices dryrun idx mounted) (unmount_all mounted))
      else (mount_by_guid devices filesystems guid base >>= λ mountpoint.
          scan_and_boot devices dryrun idx (mountpoint ∷ []))

  abbrev pub path_config : Flags → Mountpoint → BootConfig
  path_config flags mountpoint = record empty_config {
    kernel = path_join (mountpoint.path ∷ flags.kernel_path ∷ []);
    initramfs = path_join (mountpoint.path ∷ flags.initramfs_path ∷ []);
    kernel_args = flags.kernel_cmdline;
  }

  unfoldable pub boot_path_mode : Flags → List BlockDev → Bytes → Bytes → Bool → M (Unit {0})
  boot_path_mode flags devices base guid dryrun =
      or_fatal (get_supported_filesystems os) >>= λ filesystems.
      mount_by_guid devices filesystems guid base >>= λ mountpoint.
      if dryrun
      then pure tt
      else handle (boot os (path_config flags mountpoint)) pure
          (λ e. raise (wrapped (bytes "Failed to boot kernel") e))

  -- The debug output reads the table of each device.
  unfoldable pub print_tables : List BlockDev → M (Unit {0})
  print_tables [] = pure tt
  print_tables (dev ∷ devices) =
      let rest = print_tables devices in handle (get_gpt_table os dev) (λ _. rest) (λ _. rest)

  abbrev pub run_mode : Flags → List BlockDev → M (Unit {0})
  run_mode flags devices =
      if flags.grub_mode
      then or_fatal (
          boot_grub_mode devices flags.base_mountpoint flags.device_guid flags.dryrun
            flags.config_idx)
      else if not (is_empty flags.kernel_path)
      then or_fatal
          (boot_path_mode flags devices flags.base_mountpoint flags.device_guid flags.dryrun)
      else raise (exited 1)

  unfoldable pub localboot : Flags → M (Unit {0})
  localboot flags =
      if flags.grub_mode && not (is_empty flags.kernel_path)
      then raise (exited 1)
      else (or_fatal (get_block_stats os) >>= λ devices.
          (if flags.debug then print_tables devices else pure tt)
          >> run_mode flags devices
          >> raise (exited 1))
