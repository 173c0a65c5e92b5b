-- ===== src/Storage/Filesystem.antt =====
-- pkg/storage/filesystem.go: the file systems of the kernel, and mounts.
pub mod Mounts
pub mod Names
use systemboot.Base.{List, [], ◌∷◌, ◌++◌, Bytes, bytes, message}
use systemboot.Storage.Filesystem.Names.{scan_filesystems}
use systemboot.Text.Lines.{lines}
use systemboot.Platform.{ms_rdonly, Platform, open_file, read_handle, make_dirs, mount}
use systemboot.Platform.Monad.{
  M, pure, raise, handle, lift, ◌>>=◌, ◌>>◌, call, call_number, call_text,
}

pub record Mountpoint : Type 0 where
  pub device_name : Bytes
  pub path : Bytes
  pub fs_type : Bytes

module _ (os : Platform) where
  -- The file is read as a whole.
  unfoldable pub get_supported_filesystems : M (List Bytes)
  unfolding scan_filesystems lines
  get_supported_filesystems = call_number os (open_file (bytes "/proc/filesystems")) >>= λ fd.
      call_text os (read_handle fd) >>= λ text. lift (scan_filesystems [] (lines text))

  -- The loop of `Mount` over the types of file systems.
  unfoldable pub mount_loop : Bytes → Bytes → List Bytes → M Mountpoint
  mount_loop devname mountpath [] =
      raise (message (bytes "no suitable filesystem type found to mount " ++ devname))
  mount_loop devname mountpath (fstype ∷ filesystems) =
      let rest = mount_loop devname mountpath filesystems in
      handle (call os (mount devname mountpath fstype ms_rdonly))
        (λ _. pure (record { device_name = devname; path = mountpath; fs_type = fstype }))
        (λ _. rest)

  unfoldable pub mount_device : Bytes → Bytes → List Bytes → M Mountpoint
  unfolding mount_loop
  mount_device devname mountpath filesystems =
      call os (make_dirs mountpath) >> mount_loop devname mountpath filesystems
