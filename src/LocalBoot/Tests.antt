-- ===== src/LocalBoot/Tests.antt =====
-- Runs of the scan for configurations and of the command.
use systemboot.Base.{◌≡◌, refl, List, [], ◌∷◌, true, false, Bytes, bytes, equal, if◌then◌else◌, ok}
use systemboot.Base.Int.{pos, negsuc}
use systemboot.Platform.{Platform, Trace, Event, Answer, done, read_file, read_handle, open_file}
use systemboot.Platform.Devices.{Tree, file, directory, no_tree, tree_and}
use systemboot.Platform.Rules.{Yields}
use systemboot.Vpd.Store.Memory.{memory}
use systemboot.BootConfig.{BootConfig, empty_config}
use systemboot.Storage.Device.{BlockDev, BlockStat}
use systemboot.LocalBoot.Scan.{scan_grub_configs}
use systemboot.LocalBoot.Scan.Valid.{AllValid, scan_grub_configs-Yields}
use systemboot.LocalBoot.Command.{Flags, boot_grub_mode, choose, localboot}
use systemboot.LocalBoot.Command.Dry.{loads, localboot-loads}
use systemboot.LocalBoot.Command.Started.{IsStartable, localboot-Backed}
use systemboot.BootConfig.Boot.Backed.{Backed}
use systemboot.LocalBoot.Command.Chosen.{started, choose-started}
use systemboot.LocalBoot.Command.Mounted.{Pending}
use systemboot.LocalBoot.Command.Undone.{boot_grub_mode-Pending}

-- A machine with two disks and a GRUB configuration on each.
abbrev machine_text : Trace → Event → Answer Bytes
machine_text h (read_file path) = done (bytes "menuentry one {\n linux /vmlinuz quiet\n}\n")
machine_text (open_file path ∷ h) (read_handle fd) =
    if equal path (bytes "/proc/filesystems")
    then done (bytes "nodev\tproc\n\text4\n")
    else done (bytes "1 2 3 4 5 6 7 8 9 10 11\n")
machine_text h e = done []

abbrev machine_tree : Trace → Event → Tree
machine_tree h e = directory (bytes "block") (
    tree_and (file (bytes "sda1"))
      (tree_and (directory (bytes "boot") (tree_and (file (bytes "grub.cfg")) no_tree)) no_tree))

abbrev machine : Platform
machine = record memory { text = machine_text; tree = machine_tree }

abbrev zero_stat : BlockStat
zero_stat = record {
  read_ios = 0;
  read_merges = 0;
  read_sectors = 0;
  read_ticks = 0;
  write_ios = 0;
  write_merges = 0;
  write_sectors = 0;
  write_ticks = 0;
  in_flight = 0;
  io_ticks = 0;
  time_in_queue = 0;
  discard_ios = 0;
  discard_merges = 0;
  discard_sectors = 0;
  discard_ticks = 0;
}

abbrev disks : List BlockDev
disks =
    record { name = bytes "sda1"; stat = zero_stat; fs_uuid = bytes "a1b2-c3d4" }
    ∷ record { name = bytes "sda2"; stat = zero_stat; fs_uuid = bytes "0123-4567" }
    ∷ []

abbrev flags : Flags
flags = record {
  base_mountpoint = bytes "/mnt";
  dryrun = true;
  debug = true;
  config_idx = negsuc 0;
  grub_mode = true;
  kernel_path = [];
  initramfs_path = [];
  kernel_cmdline = [];
  device_guid = [];
}

scan_grub_configs-Yields_example :
    Yields AllValid (scan_grub_configs machine (λ path. path) disks (bytes "/mnt/sda1"))
scan_grub_configs-Yields_example =
    scan_grub_configs-Yields machine (λ path. path) disks (bytes "/mnt/sda1")

localboot-loads_example : loads (localboot machine (λ path. path) flags []).1 ≡ loads []
localboot-loads_example = localboot-loads machine (λ path. path) flags [] refl

boot_grub_mode-Pending_example :
    Pending machine
      (bytes "/mnt/sda1")
      0
      []
      (boot_grub_mode machine (λ path. path) disks (bytes "/mnt") [] false (pos 1) []).1
boot_grub_mode-Pending_example =
    boot_grub_mode-Pending machine (λ path. path) disks (bytes "/mnt") false (pos 1)
      (bytes "/mnt/sda1") []

abbrev linux : BootConfig
linux = record empty_config { kernel = bytes "/boot/vmlinuz"; kernel_args = bytes "quiet" }

abbrev xen : BootConfig
xen = record empty_config { multiboot = bytes "/boot/xen" }

abbrev real_run : Flags
real_run = record flags { dryrun = false }

localboot-Backed_example :
    Backed machine
      (IsStartable machine (λ path. path) real_run)
      (localboot machine (λ path. path) real_run []).1
localboot-Backed_example = localboot-Backed machine (λ path. path) real_run [] tt

choose-started_example :
    choose machine (λ path. path) false (pos 1) (linux ∷ xen ∷ []) []
    ≡ (ok tt, started machine (pos 1) (linux ∷ xen ∷ []) [])
choose-started_example = choose-started machine (λ path. path) (pos 1) linux (xen ∷ []) []
