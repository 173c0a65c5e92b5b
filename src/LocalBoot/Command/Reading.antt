-- ===== src/LocalBoot/Command/Reading.antt =====
-- What the functions that only read keep of the calls made so far.
use systemboot.Base.{
  ℕ, ◌≡◌, refl, List, [], ◌∷◌, ◌++◌, Bool, true, false, Option, none, some, Bytes, Error,
}
use systemboot.Platform.{
  Platform, Trace, Event, open_file, close_file, stat_file, read_at, read_handle, read_file,
  walk_dir, seek_file, read_gpt, make_dirs,
}
use systemboot.Platform.Rules.{
  Keeps, Keeps-raise, Keeps-finally, Keeps-if, Keeps-handle, Keeps-bind, Keeps-pure, keeps_rules,
}
use systemboot.Walk.{Entry, plain_file, plain_dir, dir_error, lstat_error}
use systemboot.Walk.Rules.{walk-Keeps, Keeps-look_at}
use systemboot.BootConfig.{BootConfig}
use systemboot.Storage.Device.{BlockDev}
use systemboot.Storage.Filesystem.{Mountpoint, get_supported_filesystems}
use systemboot.Storage.Gpt.{matching, get_gpt_table, partitions_by_guid_loop, partitions_by_guid}
use systemboot.Storage.Stats.{visit_block, stats_loop, devices_of, get_block_stats}
use systemboot.Storage.Uuid.{read_buffer, ext4_uuid, try_ext4, vfat_uuid, try_vfat, get_uuid}
use systemboot.LocalBoot.Grub.{GrubVersion}
use systemboot.LocalBoot.Scan.{version_of, read_cfg, visit_grub, scan_grub_configs}
use systemboot.LocalBoot.Command.{scan_every, print_tables}

-- The calls that these functions make.
abbrev pub is_read : Event → Bool
is_read (open_file path) = true
is_read (close_file fd) = true
is_read (stat_file fd) = true
is_read (read_at fd size off) = true
is_read (read_handle fd) = true
is_read (read_file path) = true
is_read (walk_dir path) = true
is_read (seek_file fd off) = true
is_read (read_gpt fd) = true
is_read (make_dirs path) = true
is_read e = false

module _ {κ} (os : Platform) (P : Trace → Type κ)
    (reads : (e : Event) → is_read e ≡ true → (h : Trace) → P h → P (e ∷ h)) where
  ruleset reading = (keeps_rules, Keeps-finally, Keeps-if)

  pub get_supported_filesystems-Keeps : Keeps P (get_supported_filesystems os)
  unfolding get_supported_filesystems
  get_supported_filesystems-Keeps = search (reading, reads) depth 10

  pub get_gpt_table-Keeps : (device : BlockDev) → Keeps P (get_gpt_table os device)
  unfolding get_gpt_table
  get_gpt_table-Keeps device = search (reading, reads) depth 10

  partitions_by_guid_loop-Keeps :
      (found devices : List BlockDev) (guid : Bytes)
      → Keeps P (partitions_by_guid_loop os found devices guid)
  unfolding partitions_by_guid_loop
  partitions_by_guid_loop-Keeps found [] guid = Keeps-pure P _
  partitions_by_guid_loop-Keeps found (d ∷ devices) guid =
      Keeps-handle P _ _ _ (get_gpt_table-Keeps d)
        (λ table. partitions_by_guid_loop-Keeps (matching d guid table found) devices guid)
        (λ _. partitions_by_guid_loop-Keeps found devices guid)

  pub partitions_by_guid-Keeps :
      (devices : List BlockDev) (guid : Bytes) → Keeps P (partitions_by_guid os devices guid)
  unfolding partitions_by_guid
  partitions_by_guid-Keeps devices guid = partitions_by_guid_loop-Keeps [] devices guid

  read_buffer-Keeps : (file size off : ℕ) → Keeps P (read_buffer os file size off)
  unfolding read_buffer
  read_buffer-Keeps file size off = search (reading, reads) depth 10

  ext4_uuid-Keeps : (file : ℕ) → Keeps P (ext4_uuid os file)
  unfolding ext4_uuid
  ext4_uuid-Keeps file = search (reading, reads, read_buffer-Keeps) depth 12

  vfat_uuid-Keeps : (file : ℕ) → Keeps P (vfat_uuid os file)
  unfolding vfat_uuid
  vfat_uuid-Keeps file = search (reading, reads, read_buffer-Keeps) depth 12

  try_ext4-Keeps : (devname : Bytes) → Keeps P (try_ext4 os devname)
  unfolding try_ext4
  try_ext4-Keeps devname = search (reading, reads, ext4_uuid-Keeps) depth 10

  try_vfat-Keeps : (devname : Bytes) → Keeps P (try_vfat os devname)
  unfolding try_vfat
  try_vfat-Keeps devname = search (reading, reads, vfat_uuid-Keeps) depth 10

  pub get_uuid-Keeps : (devpath : Bytes) → Keeps P (get_uuid os devpath)
  unfolding get_uuid
  get_uuid-Keeps devpath = search (reading, try_ext4-Keeps, try_vfat-Keeps) depth 10

  pub stats_loop-Keeps :
      (blockdevs : List BlockDev) (devnames : List Bytes)
      → Keeps P (stats_loop os blockdevs devnames)
  unfolding stats_loop
  stats_loop-Keeps blockdevs [] = Keeps-pure P _
  stats_loop-Keeps blockdevs (devname ∷ devnames) =
      let rest = λ (bs : List BlockDev). stats_loop-Keeps bs devnames in
      search (reading, reads, get_uuid-Keeps, rest) depth 14

  visit_block-Keeps : (s : List Bytes) (path : Bytes) (e : Entry) → Keeps P (visit_block s path e)
  unfolding visit_block
  visit_block-Keeps s path (plain_file name) = Keeps-pure P _
  visit_block-Keeps s path (plain_dir name) = Keeps-pure P _
  visit_block-Keeps s path (dir_error name e) = Keeps-pure P _
  visit_block-Keeps s path (lstat_error e) = Keeps-pure P _

  devices_of-Keeps : (r : List Bytes × Option Error) → Keeps P (devices_of os r)
  devices_of-Keeps (devnames, none) = stats_loop-Keeps [] devnames
  devices_of-Keeps (devnames, some e) = Keeps-raise P e

  pub get_block_stats-Keeps : Keeps P (get_block_stats os)
  unfolding get_block_stats
  get_block_stats-Keeps = Keeps-bind P _ _ (Keeps-look_at P os _ (reads _ refl)) (λ tree.
      Keeps-bind P _ _ (walk-Keeps visit_block P visit_block-Keeps tree _ []) devices_of-Keeps)

  module _ (normalize : Bytes → Bytes) (devices : List BlockDev) where
    read_cfg-Keeps :
        (basedir : Bytes) (ver : Option GrubVersion) (path : Bytes) (cs : List BootConfig)
        → Keeps P (read_cfg os normalize devices basedir ver path cs)
    read_cfg-Keeps basedir none path cs = Keeps-pure P _
    read_cfg-Keeps basedir (some ver) path cs = search (reading, reads) depth 10

    visit_grub-Keeps :
        (basedir : Bytes) (cs : List BootConfig) (path : Bytes) (e : Entry)
        → Keeps P (visit_grub os normalize devices basedir cs path e)
    unfolding visit_grub
    visit_grub-Keeps basedir cs path (dir_error name e) = Keeps-pure P _
    visit_grub-Keeps basedir cs path (lstat_error e) = Keeps-pure P _
    visit_grub-Keeps basedir cs path (plain_dir name) = Keeps-pure P _
    visit_grub-Keeps basedir cs path (plain_file name) =
        read_cfg-Keeps basedir (version_of name) _ cs

    scan_grub_configs-Keeps :
        (basedir : Bytes) → Keeps P (scan_grub_configs os normalize devices basedir)
    unfolding scan_grub_configs
    scan_grub_configs-Keeps basedir =
        Keeps-bind P _ _ (Keeps-look_at P os _ (reads _ refl)) (λ tree.
          Keeps-bind P _ _ (walk-Keeps _ P (visit_grub-Keeps basedir) tree _ [])
            (λ r. Keeps-pure P _))

    pub scan_every-Keeps :
        (mounted : List Mountpoint) (cs : List BootConfig)
        → Keeps P (scan_every os normalize devices mounted cs)
    unfolding scan_every
    scan_every-Keeps [] cs = Keeps-pure P _
    scan_every-Keeps (m ∷ mounted) cs =
        Keeps-bind P _ _ (scan_grub_configs-Keeps m.path)
          (λ cfgs. scan_every-Keeps mounted (cs ++ cfgs))

  module _ (normalize : Bytes → Bytes) where
    pub print_tables-Keeps : (ds : List BlockDev) → Keeps P (print_tables os normalize ds)
    unfolding print_tables
    print_tables-Keeps [] = Keeps-pure P _
    print_tables-Keeps (d ∷ ds) =
        Keeps-handle P _ _ _ (get_gpt_table-Keeps d) (λ _. print_tables-Keeps ds)
          (λ _. print_tables-Keeps ds)
