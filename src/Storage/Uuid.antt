-- ===== src/Storage/Uuid.antt =====
-- pkg/storage/blockdev.go: the file system UUID of a device, for FAT32 and ext4.
pub mod Text
use systemboot.Base.{
  ℕ, zero, suc, ◌+◌, ◌*◌, ◌%◌, ◌^◌, List, [], ◌∷◌, ◌++◌, map, Bool, not, ◌==◌, if◌then◌else◌, Bytes,
  bytes, equal, is_empty,
}
use systemboot.Text.Split.{join}
use systemboot.Text.Hex.{hex_groups, hex_digit}
use systemboot.Platform.{Platform, Trace, open_file, close_file, stat_file, read_at}
use systemboot.Platform.Monad.{M, pure, handle, ◌>>=◌, finally, call_number, call_text}

abbrev pub ext2_sprblk_off : ℕ
ext2_sprblk_off = 1024

abbrev pub ext2_sprblk_magic_off : ℕ
ext2_sprblk_magic_off = 56

abbrev pub ext2_sprblk_magic_size : ℕ
ext2_sprblk_magic_size = 2

abbrev pub ext2_sprblk_magic : ℕ
ext2_sprblk_magic = 0xEF53

abbrev pub ext2_sprblk_uuid_off : ℕ
ext2_sprblk_uuid_off = 104

abbrev pub ext2_sprblk_uuid_size : ℕ
ext2_sprblk_uuid_size = 16

abbrev pub fat32_magic_off : ℕ
fat32_magic_off = 82

abbrev pub fat32_magic_size : ℕ
fat32_magic_size = 8

abbrev pub fat32_magic : Bytes
fat32_magic = bytes "FAT32   "

abbrev pub fat32_id_off : ℕ
fat32_id_off = 67

abbrev pub fat32_id_size : ℕ
fat32_id_size = 4

-- A buffer of `n` bytes, that were zero, with what was read into it.
unfoldable pub fill : ℕ → Bytes → Bytes
fill zero read = []
fill (suc n) [] = 0 ∷ fill n []
fill (suc n) (c ∷ read) = (c % 256) ∷ fill n read

-- `b[i]`
abbrev pub cell : Bytes → ℕ → ℕ
cell [] i = 0
cell (c ∷ b) zero = c
cell (c ∷ b) (suc i) = cell b i

-- `uint16(b[1])<<8 + uint16(b[0])`
unfoldable pub ext4_magic : Bytes → ℕ
ext4_magic b = (cell b 1 * 2 ^ 8 % 2 ^ 16 + cell b 0) % 2 ^ 16

-- The groups of bytes between the dashes of the UUID, in the order of the format.
abbrev pub ext4_groups : Bytes → List Bytes
ext4_groups b =
    (cell b 0 ∷ cell b 1 ∷ cell b 2 ∷ cell b 3 ∷ [])
    ∷ (cell b 4 ∷ cell b 5 ∷ [])
    ∷ (cell b 6 ∷ cell b 7 ∷ [])
    ∷ (cell b 8 ∷ cell b 9 ∷ [])
    ∷ (cell b 10 ∷ cell b 11 ∷ cell b 12 ∷ cell b 13 ∷ cell b 14 ∷ cell b 15 ∷ [])
    ∷ []

abbrev pub vfat_groups : Bytes → List Bytes
vfat_groups b = (cell b 3 ∷ cell b 2 ∷ []) ∷ (cell b 1 ∷ cell b 0 ∷ []) ∷ []

-- `%02x` of every byte, with a dash between two groups.
unfoldable pub print_uuid : List Bytes → Bytes
unfolding join
print_uuid groups = join (b'-' ∷ []) (hex_groups groups)

module _ (os : Platform) where
  -- `file.ReadAt(b, off)` into a fresh buffer of `n` bytes.
  unfoldable pub read_buffer : ℕ → ℕ → ℕ → M Bytes
  unfolding fill
  read_buffer file n off = call_text os (read_at file n off) >>= λ read. pure (fill n read)

  -- The body of `tryEXT4` behind the opening of the device; an empty text is no UUID.
  unfoldable pub ext4_uuid : ℕ → M Bytes
  unfolding read_buffer ext4_magic print_uuid
  ext4_uuid file =
      handle (call_number os (stat_file file))
        (λ _.
          handle (read_buffer file ext2_sprblk_magic_size (ext2_sprblk_off + ext2_sprblk_magic_off))
            (λ b.
              if not (ext4_magic b == ext2_sprblk_magic)
              then pure []
              else handle
                  (read_buffer file ext2_sprblk_uuid_size (ext2_sprblk_off + ext2_sprblk_uuid_off))
                  (λ u. pure (print_uuid (ext4_groups u))) (λ _. pure []))
            (λ _. pure []))
        (λ _. pure [])

  unfoldable pub try_ext4 : Bytes → M Bytes
  unfolding ext4_uuid
  try_ext4 devname =
      handle (call_number os (open_file devname))
        (λ file. finally (ext4_uuid file) (λ h. close_file file ∷ h)) (λ _. pure [])

  -- The body of `tryVFAT` behind the opening of the device.
  unfoldable pub vfat_uuid : ℕ → M Bytes
  unfolding read_buffer print_uuid
  vfat_uuid file =
      handle (call_number os (stat_file file))
        (λ _.
          handle (read_buffer file fat32_magic_size fat32_magic_off)
            (λ b.
              if not (equal b fat32_magic)
              then pure []
              else handle (read_buffer file fat32_id_size fat32_id_off)
                  (λ u. pure (print_uuid (vfat_groups u))) (λ _. pure []))
            (λ _. pure []))
        (λ _. pure [])

  unfoldable pub try_vfat : Bytes → M Bytes
  unfolding vfat_uuid
  try_vfat devname =
      handle (call_number os (open_file devname))
        (λ file. finally (vfat_uuid file) (λ h. close_file file ∷ h)) (λ _. pure [])

  unfoldable pub get_uuid : Bytes → M Bytes
  unfolding try_vfat try_ext4
  get_uuid devpath =
      try_vfat devpath >>= λ fsuuid. if not (is_empty fsuuid) then pure fsuuid else try_ext4 devpath
