-- ===== src/Storage/Gpt.antt =====
-- pkg/storage/blockdev.go: GPT tables, and the search by partition GUID.
pub mod Searched
use systemboot.Base.{List, [], ◌∷◌, ◌++◌, if◌then◌else◌, Bytes, bytes, equal}
use systemboot.Platform.{Platform, open_file, close_file, seek_file, read_gpt}
use systemboot.Platform.Devices.{Partition}
use systemboot.Platform.Monad.{M, pure, handle, finally, ◌>>=◌, ◌>>◌, call, call_number, call_for}
use systemboot.Storage.Device.{BlockDev}

-- The loop over the partitions of a table: the device is found once for each that matches.
unfoldable pub matching : BlockDev → Bytes → List Partition → List BlockDev → List BlockDev
matching device guid [] partitions = partitions
matching device guid (part ∷ parts) partitions = matching device guid parts (
    if part.is_empty_part
    then partitions
    else if equal part.type_guid guid
    then partitions ++ (device ∷ [])
    else partitions)

-- The bytes of `SystemPartitionGUID`.
abbrev pub system_partition_guid : Bytes
system_partition_guid =
    0x28 ∷ 0x73 ∷ 0x2A ∷ 0xC1 ∷ 0x1F ∷ 0xF8 ∷ 0xD2 ∷ 0x11 ∷ 0xBA ∷ 0x4B ∷ 0x00 ∷ 0xA0 ∷ 0xC9 ∷ 0x3E
    ∷ 0xC9 ∷ 0x3B ∷ []

module _ (os : Platform) where
  unfoldable pub get_gpt_table : BlockDev → M (List Partition)
  get_gpt_table device = call_number os (open_file (bytes "/dev/" ++ device.name)) >>= λ fd.
      finally (call os (seek_file fd 512) >> call_for os.table (read_gpt fd))
        (λ h. close_file fd ∷ h)

  -- The loop over the devices; those without a table are skipped.
  unfoldable pub partitions_by_guid_loop : List BlockDev → List BlockDev → Bytes → M (List BlockDev)
  unfolding matching get_gpt_table
  partitions_by_guid_loop partitions [] guid = pure partitions
  partitions_by_guid_loop partitions (device ∷ devices) guid =
      let rest = λ (found : List BlockDev). partitions_by_guid_loop found devices guid in
      handle (get_gpt_table device) (λ table. rest (matching device guid table partitions))
        (λ _. rest partitions)

  unfoldable pub partitions_by_guid : List BlockDev → Bytes → M (List BlockDev)
  unfolding partitions_by_guid_loop
  partitions_by_guid devices guid = partitions_by_guid_loop [] devices guid

  -- `guid_string` is the method `String` of a GUID.
  unfoldable pub filter_efi_system_partitions : (Bytes → Bytes) → List BlockDev → M (List BlockDev)
  unfolding partitions_by_guid
  filter_efi_system_partitions guid_string devices =
      partitions_by_guid devices (guid_string system_partition_guid)
