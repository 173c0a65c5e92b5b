-- ===== src/Storage/Tests.antt =====
-- Runs of the readers of block devices.
use systemboot.Base.{
  Bytes, ℕ, ◌≡◌, ◌≢◌, ◌++◌, List, [], ◌∷◌, map, bytes, length, arith, All, refl, true, false, ok,
}
use systemboot.Text.Split.{Lacks}
use systemboot.Text.Fields.{is_space, fields, IsWord}
use systemboot.Storage.Device.{BlockDev, BlockStat}
use systemboot.Storage.Stat.{block_stat_from_bytes}
use systemboot.Storage.Stat.RoundTrip.{
  print_fields, StatOutcome, StatIsU64, first_counters, discard_counters, without_discards,
  block_stat_from_bytes-print, block_stat_from_bytes-StatOutcome,
}
use systemboot.Platform.{Platform, done}
use systemboot.Platform.Rules.{May}
use systemboot.Vpd.Store.Memory.{memory}
use systemboot.Storage.Filesystem.{mount_device}
use systemboot.Storage.Filesystem.Names.{
  Listed as ListedName, print_line, names, scan_filesystems, scan_filesystems-names,
}
use systemboot.Storage.Filesystem.Mounts.{MountEnding, mount_device-MountEnding}
use systemboot.Storage.Mounts.{
  Mounted, words, print_mount, first_directory, find_mountpoint, find_mountpoint-print,
}
use systemboot.Storage.Gpt.{partitions_by_guid}
use systemboot.Storage.Gpt.Searched.{Searched, partitions_by_guid-Searched}
use systemboot.Storage.Stats.{stats_loop}
use systemboot.Storage.Stats.Listed.{Listed, stats_loop-Listed}
use systemboot.Text.Hex.Digits.{IsByte}
use systemboot.Storage.Uuid.Text.{Volume, ext4_volume, volume_text, volume_text_injective}

abbrev busy : BlockStat
busy = record {
  read_ios = 1;
  read_merges = 2;
  read_sectors = 3;
  read_ticks = 4;
  write_ios = 5;
  write_merges = 6;
  write_sectors = 7;
  write_ticks = 8;
  in_flight = 9;
  io_ticks = 10;
  time_in_queue = 18446744073709551615;
  discard_ios = 12;
  discard_merges = 13;
  discard_sectors = 14;
  discard_ticks = 15;
}

busy-StatIsU64 : StatIsU64 busy
busy-StatIsU64 = record {
  read_ios = omega arith;
  read_merges = omega arith;
  read_sectors = omega arith;
  read_ticks = omega arith;
  write_ios = omega arith;
  write_merges = omega arith;
  write_sectors = omega arith;
  write_ticks = omega arith;
  in_flight = omega arith;
  io_ticks = omega arith;
  time_in_queue = omega arith;
  discard_ios = omega arith;
  discard_merges = omega arith;
  discard_sectors = omega arith;
  discard_ticks = omega arith;
}

block_stat_from_bytes-print_example :
    (block_stat_from_bytes
        (print_fields (first_counters busy ++ (discard_counters busy ++ (16 ∷ 17 ∷ []))))
      ≡ ok busy)
    × (block_stat_from_bytes (print_fields (first_counters busy ++ (12 ∷ 13 ∷ [])))
        ≡ ok (without_discards busy))
block_stat_from_bytes-print_example =
    block_stat_from_bytes-print busy (16 ∷ 17 ∷ []) (12 ∷ 13 ∷ []) busy-StatIsU64
      (omega arith, (omega arith, tt)) (omega arith, (omega arith, tt)) (omega arith)

block_stat_from_bytes-StatOutcome_example :
    StatOutcome (length (fields (bytes "1 2 3"))) (block_stat_from_bytes (bytes "1 2 3"))
block_stat_from_bytes-StatOutcome_example = block_stat_from_bytes-StatOutcome (bytes "1 2 3")

abbrev uuid_ending : ℕ → Bytes
uuid_ending n = 1 ∷ 2 ∷ 3 ∷ 4 ∷ 5 ∷ 6 ∷ 7 ∷ 8 ∷ 9 ∷ 10 ∷ 11 ∷ 12 ∷ 13 ∷ 14 ∷ 15 ∷ n ∷ []

uuid_ending-IsByte : (n : ℕ) → IsByte n → All IsByte (uuid_ending n)
uuid_ending-IsByte n h = ground arith

abbrev volume_ending : (n : ℕ) → IsByte n → Volume
volume_ending n h = ext4_volume (uuid_ending n) (uuid_ending-IsByte n h) refl

byte_0 : IsByte 0
byte_0 = omega arith

byte_1 : IsByte 1
byte_1 = omega arith

volume_text_injective_example :
    volume_text (volume_ending 0 byte_0) ≢ volume_text (volume_ending 1 byte_1)
volume_text_injective_example =
    volume_text_injective (volume_ending 0 byte_0) (volume_ending 1 byte_1) (λ e. cc)

abbrev zero_stat : BlockStat
zero_stat = record {
  read_ios = 0;
  read_merges = 0;
  read_sectors = 0;
  read_ticks = 0;
  write_ios = 0;
  write_merges = 0;
  write_sectors = 0;
  write_ticks = 0;
  in_flight = 0;
  io_ticks = 0;
  time_in_queue = 0;
  discard_ios = 0;
  discard_merges = 0;
  discard_sectors = 0;
  discard_ticks = 0;
}

abbrev disks : List BlockDev
disks =
    record { name = bytes "sda1"; stat = zero_stat; fs_uuid = bytes "a1b2" }
    ∷ record { name = bytes "sda2"; stat = zero_stat; fs_uuid = bytes "0123" }
    ∷ []

abbrev listed : List ListedName
listed =
    record { nodev = true; name = bytes "proc" }
    ∷ record { nodev = false; name = bytes "ext4" }
    ∷ []

listed-Lacks : All (λ l. Lacks b'\t' l.name) listed
listed-Lacks = ((refl, (refl, (refl, (refl, tt)))), ((refl, (refl, (refl, (refl, tt)))), tt))

scan_filesystems-names_example : scan_filesystems [] (map print_line listed) ≡ ok (names listed)
scan_filesystems-names_example = scan_filesystems-names listed listed-Lacks

mount_device-MountEnding_example :
    MountEnding memory
      (bytes "/dev/sda1")
      (bytes "/mnt/sda1")
      []
      (bytes "ext4" ∷ bytes "vfat" ∷ [])
      (mount_device memory
        (bytes "/dev/sda1")
        (bytes "/mnt/sda1")
        (bytes "ext4" ∷ bytes "vfat" ∷ [])
        [])
mount_device-MountEnding_example =
    mount_device-MountEnding memory (bytes "/dev/sda1") (bytes "/mnt/sda1") []
      (bytes "ext4" ∷ bytes "vfat" ∷ [])

abbrev mounts : List Mounted
mounts =
    record { device = bytes "a"; directory = bytes "/"; options = [] }
    ∷ record { device = bytes "b"; directory = bytes "/b"; options = bytes "rw" ∷ [] }
    ∷ []

mounts-AllWords : All (λ m. All IsWord (words m)) mounts
unfolding is_space
mounts-AllWords = (
  ((refl, tt), ((refl, tt), tt)),
  (((refl, tt), ((refl, (refl, tt)), ((refl, (refl, tt)), tt))), tt),
)

find_mountpoint-print_example :
    find_mountpoint (bytes "b") (map fields (map print_mount mounts))
    ≡ first_directory (bytes "b") mounts
find_mountpoint-print_example = find_mountpoint-print (bytes "b") mounts mounts-AllWords

-- A machine whose files read as the counters of a block device.
abbrev machine : Platform
machine = record memory { text = λ h e. done (print_fields (first_counters busy)) }

stats_loop-Listed_example :
    May
      (Listed machine [] (bytes "sda1" ∷ bytes "sda2" ∷ []))
      (stats_loop machine [] (bytes "sda1" ∷ bytes "sda2" ∷ []))
stats_loop-Listed_example = stats_loop-Listed machine [] (bytes "sda1" ∷ bytes "sda2" ∷ []) tt

-- A machine whose disks have a system partition each.
abbrev partitioned : Platform
partitioned = record memory {
  table = λ h e. done (
      record { is_empty_part = true; type_guid = bytes "C12A" }
      ∷ record { is_empty_part = false; type_guid = bytes "C12A" }
      ∷ []);
}

partitions_by_guid-Searched_example :
    (found : List BlockDev) × ((partitions_by_guid partitioned disks (bytes "C12A") []).0
      ≡ ok found)
    × Searched partitioned
        (bytes "C12A")
        disks
        []
        found
        (partitions_by_guid partitioned disks (bytes "C12A") []).1
partitions_by_guid-Searched_example =
    partitions_by_guid-Searched partitioned (bytes "C12A") disks []
