-- ===== src/LocalBoot/Grub/Tests.antt =====
-- Runs of the reader of GRUB configurations.
use systemboot.Base.{◌≡◌, refl, List, [], ◌∷◌, ◌++◌, Bytes, bytes, ok, map, filter, equal}
use systemboot.LocalBoot.Grub.FsUuid.{first_with, beside, search_line-one}
use systemboot.BootConfig.{empty_config, is_valid}
use systemboot.Storage.Device.{BlockDev, BlockStat, partitions_by_fs_uuid}
use systemboot.LocalBoot.Grub.{
  search_root, search_words, search_line, is_valid_fs_uuid, move_to, grub_v1, grub_v2,
  parse_grub_cfg,
}
use systemboot.LocalBoot.Grub.Blocks.{blocks, read_block, parse_grub_cfg-blocks}

abbrev zero_stat : BlockStat
zero_stat = record {
  read_ios = 0;
  read_merges = 0;
  read_sectors = 0;
  read_ticks = 0;
  write_ios = 0;
  write_merges = 0;
  write_sectors = 0;
  write_ticks = 0;
  in_flight = 0;
  io_ticks = 0;
  time_in_queue = 0;
  discard_ios = 0;
  discard_merges = 0;
  discard_sectors = 0;
  discard_ticks = 0;
}

abbrev disks : List BlockDev
disks =
    record { name = bytes "sda1"; stat = zero_stat; fs_uuid = bytes "a1b2-c3d4" }
    ∷ record { name = bytes "sda2"; stat = zero_stat; fs_uuid = bytes "0123-4567" }
    ∷ []

abbrev file : Bytes
file =
    bytes
      "set x\nmenuentry one --class os {\n  search --fs-uuid --set=root 0123-4567\n linux /vmlinuz quiet \\$x\n initrd initrd.img\n}\nmenuentry two\n linux\nmenuentry three\nmultiboot ../xen a\nmodule m b c\nmodule n"

parse_file :
    parse_grub_cfg grub_v2 disks file (bytes "/mnt/sda1")
    ≡ ok (
        record empty_config {
          name = bytes "one ";
          kernel = bytes "/mnt/sda2/vmlinuz";
          kernel_args = bytes "quiet $x";
          initramfs = bytes "/mnt/sda2/initrd.img";
        }
        ∷ record empty_config {
          name = bytes "three";
          multiboot = bytes "/mnt/xen";
          multiboot_args = bytes "a";
          modules = bytes "/mnt/sda1/m b c" ∷ bytes "/mnt/sda1/n" ∷ [];
        }
        ∷ [])
unfolding parse_grub_cfg search_root search_words is_valid_fs_uuid move_to partitions_by_fs_uuid
    equal
parse_file = refl

parse_grub_cfg-blocks_example :
    parse_grub_cfg grub_v1 disks file (bytes "/mnt/sda1")
    ≡ ok (filter is_valid (map (read_block grub_v1 disks (bytes "/mnt/sda1")) (blocks file)))
parse_grub_cfg-blocks_example = parse_grub_cfg-blocks grub_v1 disks (bytes "/mnt/sda1") file refl

search_line-one_example :
    search_line disks
      (bytes "/mnt/sda1")
      (bytes "search" ∷ ((bytes "--set=root" ∷ []) ++ (bytes "0123-4567" ∷ [])))
    ≡ beside (bytes "/mnt/sda1") (first_with (bytes "0123-4567") disks)
unfolding is_valid_fs_uuid equal
search_line-one_example =
    search_line-one disks (bytes "/mnt/sda1") (bytes "0123-4567") (bytes "--set=root" ∷ []) []
      (refl, tt) tt refl refl
