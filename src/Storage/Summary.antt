-- ===== src/Storage/Summary.antt =====
-- pkg/storage/blockdev.go: `Summary`, the text for a block device.
use systemboot.Base.{List, [], ◌∷◌, ◌++◌, Bytes, bytes}
use systemboot.Text.Decimal.{format_uint}
use systemboot.Storage.Device.{BlockDev}

-- The lines of the summary, each with its label and its value.
abbrev pub summary_lines : List (Bytes × Bytes) → Bytes
summary_lines [] = []
summary_lines ((label, value) ∷ lines) =
    bytes "    " ++ (label ++ (bytes ": " ++ (value ++ (b'\n' ∷ summary_lines lines))))

unfoldable pub summary : BlockDev → Bytes
unfolding format_uint
summary b =
    bytes "BlockStat{\n"
    ++ (summary_lines (
          (bytes "Name", b.name)
          ∷ (bytes "ReadIOs", format_uint b.stat.read_ios)
          ∷ (bytes "ReadMerges", format_uint b.stat.read_merges)
          ∷ (bytes "ReadSectors", format_uint b.stat.read_sectors)
          ∷ (bytes "ReadTicks", format_uint b.stat.read_ticks)
          ∷ (bytes "WriteIOs", format_uint b.stat.write_ios)
          ∷ (bytes "WriteMerges", format_uint b.stat.write_merges)
          ∷ (bytes "WriteSectors", format_uint b.stat.write_sectors)
          ∷ (bytes "WriteTicks", format_uint b.stat.write_ticks)
          ∷ (bytes "InFlight", format_uint b.stat.in_flight)
          ∷ (bytes "IOTicks", format_uint b.stat.io_ticks)
          ∷ (bytes "TimeInQueue", format_uint b.stat.time_in_queue)
          ∷ [])
        ++ bytes "}")
