-- ===== src/Storage/Stats.antt =====
-- pkg/storage/blockdev.go: `GetBlockStats`.
pub mod Listed
use systemboot.Base.{
  List, [], ◌∷◌, ◌++◌, Option, none, some, Bool, if◌then◌else◌, Bytes, bytes, equal, Error,
  external, message,
}
use systemboot.Text.FilePath.{path_join}
use systemboot.Platform.{Platform, open_file, close_file, read_handle}
use systemboot.Platform.Monad.{M, pure, raise, finally, lift, ◌>>=◌, call_number, call_text}
use systemboot.Walk.{
  Entry, plain_file, plain_dir, dir_error, lstat_error, Signal, go_on, stop, rel, walk, look_at,
}
use systemboot.Storage.Device.{BlockDev}
use systemboot.Storage.Stat.{block_stat_from_bytes}
use systemboot.Storage.Uuid.{get_uuid}

abbrev pub block_root : Bytes
block_root = bytes "/sys/class/block"

-- The name of an entry is appended, unless it is the directory itself.
abbrev pub add_devname : List Bytes → Option Bytes → List Bytes × Signal
add_devname devnames none = (devnames, stop (message (bytes "Rel")))
add_devname devnames (some r) =
    if equal r (bytes ".") then (devnames, go_on) else (devnames ++ (r ∷ []), go_on)

-- The walk function of `GetBlockStats`.
unfoldable pub visit_block : List Bytes → Bytes → Entry → M (List Bytes × Signal)
unfolding rel
visit_block devnames path (plain_file name) = pure (add_devname devnames (rel block_root path))
visit_block devnames path (plain_dir name) = pure (add_devname devnames (rel block_root path))
visit_block devnames path (dir_error name e) = pure (devnames, stop (external e))
visit_block devnames path (lstat_error e) = pure (devnames, stop (external e))

module _ (os : Platform) where
  -- The loop over the names. The files are closed when the function returns.
  unfoldable pub stats_loop : List BlockDev → List Bytes → M (List BlockDev)
  stats_loop blockdevs [] = pure blockdevs
  stats_loop blockdevs (devname ∷ devnames) =
      let rest = λ (bs : List BlockDev). stats_loop bs devnames in
      call_number os (open_file (block_root ++ (b'/' ∷ (devname ++ bytes "/stat")))) >>= λ fd.
      finally
        (call_text os (read_handle fd) >>= λ buf. lift (block_stat_from_bytes buf) >>= λ bstat.
          get_uuid os (path_join (bytes "/dev/" ∷ devname ∷ [])) >>= λ uuid.
          rest (blockdevs ++ (record { name = devname; stat = bstat; fs_uuid = uuid } ∷ [])))
        (λ h. close_file fd ∷ h)

  abbrev pub devices_of : List Bytes × Option Error → M (List BlockDev)
  devices_of (devnames, some e) = raise e
  devices_of (devnames, none) = stats_loop [] devnames

  unfoldable pub get_block_stats : M (List BlockDev)
  unfolding visit_block stats_loop
  get_block_stats =
      look_at os block_root >>= λ tree. walk visit_block tree block_root [] >>= devices_of
