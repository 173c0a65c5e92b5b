-- ===== src/Storage/Device.antt =====
-- pkg/storage/blockdev.go: a block device with its statistics, and the search by file system UUID.
use systemboot.Base.{
  ℕ, List, [], ◌∷◌, ◌++◌, ◌≡◌, if◌then◌else◌, Bytes, equal, filter, append-nil, append_assoc,
  Bool-cases, inl, inr,
}

pub record BlockStat : Type 0 where
  pub read_ios : ℕ
  pub read_merges : ℕ
  pub read_sectors : ℕ
  pub read_ticks : ℕ
  pub write_ios : ℕ
  pub write_merges : ℕ
  pub write_sectors : ℕ
  pub write_ticks : ℕ
  pub in_flight : ℕ
  pub io_ticks : ℕ
  pub time_in_queue : ℕ
  pub discard_ios : ℕ
  pub discard_merges : ℕ
  pub discard_sectors : ℕ
  pub discard_ticks : ℕ

pub record BlockDev : Type 0 where
  pub name : Bytes
  pub stat : BlockStat
  pub fs_uuid : Bytes

-- The loop of `PartitionsByFsUUID`: `partitions` is what it has found so far.
unfoldable pub partitions_by_fs_uuid_loop : List BlockDev → List BlockDev → Bytes → List BlockDev
partitions_by_fs_uuid_loop partitions [] fsuuid = partitions
partitions_by_fs_uuid_loop partitions (device ∷ devices) fsuuid =
    partitions_by_fs_uuid_loop
      (if equal device.fs_uuid fsuuid then partitions ++ (device ∷ []) else partitions) devices
      fsuuid

unfoldable pub partitions_by_fs_uuid : List BlockDev → Bytes → List BlockDev
unfolding partitions_by_fs_uuid_loop
partitions_by_fs_uuid devices fsuuid = partitions_by_fs_uuid_loop [] devices fsuuid

loop-filter :
    (partitions devices : List BlockDev) (fsuuid : Bytes)
    → partitions_by_fs_uuid_loop partitions devices fsuuid
      ≡ partitions ++ filter (λ d. equal d.fs_uuid fsuuid) devices
unfolding partitions_by_fs_uuid_loop
loop-filter partitions [] fsuuid = rw append-nil
loop-filter partitions (d ∷ ds) fsuuid = elim (Bool-cases (equal d.fs_uuid fsuuid)) [
  | inl e ↦ rw (e, loop-filter (partitions ++ (d ∷ [])) ds fsuuid) (rw append_assoc)
  | inr e ↦ rw (e, loop-filter partitions ds fsuuid)
]

-- `PartitionsByFsUUID` returns the devices with the file system UUID, in the order of the list.
pub partitions_by_fs_uuid-filter :
    (devices : List BlockDev) (fsuuid : Bytes)
    → partitions_by_fs_uuid devices fsuuid ≡ filter (λ d. equal d.fs_uuid fsuuid) devices
unfolding partitions_by_fs_uuid
partitions_by_fs_uuid-filter devices fsuuid = loop-filter [] devices fsuuid
