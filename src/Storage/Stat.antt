-- ===== src/Storage/Stat.antt =====
-- pkg/storage/blockdev.go: `BlockStatFromBytes`, the reader of /sys/class/block/<device>/stat.
pub mod RoundTrip
use systemboot.Base.{
  ℕ, ◌^◌, List, [], ◌∷◌, ◌++◌, Bool, length, ltb, if◌then◌else◌, Bytes, Outcome, ok, err, panic,
  ◌>>=◌, too_few_fields,
}
use systemboot.Text.Fields.{fields}
use systemboot.Text.Decimal.{parse_uint}
use systemboot.Storage.Device.{BlockStat}

-- The values of a `uint64` are below this.
abbrev pub u64_bound : ℕ
u64_bound = 2 ^ 64

-- The loop over the fields; `intfields` is what it has read so far.
unfoldable pub parse_fields : List ℕ → List Bytes → Outcome (List ℕ)
unfolding parse_uint
parse_fields intfields [] = ok intfields
parse_fields intfields (field ∷ fs) =
    parse_uint u64_bound field >>= λ v. parse_fields (intfields ++ (v ∷ [])) fs

-- The part behind `len(fields) >= 15`, on the fields behind the first eleven.
abbrev pub with_discards : BlockStat → List ℕ → BlockStat
with_discards bs (a ∷ b ∷ c ∷ d ∷ _) = record bs {
  discard_ios = a;
  discard_merges = b;
  discard_sectors = c;
  discard_ticks = d;
}
with_discards bs _ = bs

-- The fields by their index; an index out of range panics.
unfoldable pub stat_of : List ℕ → Outcome BlockStat
stat_of (a ∷ b ∷ c ∷ d ∷ e ∷ f ∷ g ∷ h ∷ i ∷ j ∷ k ∷ rest) = ok (
    with_discards
      (record {
        read_ios = a;
        read_merges = b;
        read_sectors = c;
        read_ticks = d;
        write_ios = e;
        write_merges = f;
        write_sectors = g;
        write_ticks = h;
        in_flight = i;
        io_ticks = j;
        time_in_queue = k;
        discard_ios = 0;
        discard_merges = 0;
        discard_sectors = 0;
        discard_ticks = 0;
      })
      rest)
stat_of _ = panic

unfoldable pub block_stat_from_bytes : Bytes → Outcome BlockStat
unfolding parse_fields stat_of fields
block_stat_from_bytes buf =
    let fs = fields buf in
    if ltb (length fs) 11
    then err (too_few_fields (length fs))
    else (parse_fields [] fs >>= λ intfields. stat_of intfields)
