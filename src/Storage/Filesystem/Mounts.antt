-- ===== src/Storage/Filesystem/Mounts.antt =====
-- Which file system `Mount` mounts.
use systemboot.Base.{
  ◌≡◌, refl, inl, inr, List, [], ◌∷◌, ◌++◌, Bytes, Outcome, ok, err, Error, external, Fault,
}
use systemboot.Platform.{ms_rdonly, Platform, Trace, done, failed, make_dirs, mount}
use systemboot.Platform.Monad.{handle, raise, pure, call, Answer-cases, ◌>>=◌}
use systemboot.Storage.Filesystem.{Mountpoint, mount_loop, mount_device}

module _ (os : Platform) (devname mountpath : Bytes) where
  -- The calls that try these types one behind the other, each in vain.
  pub data Refused : Trace → List Bytes → Trace → Type 0 where
    none_tried : {h : Trace} → Refused h [] h
    one_tried :
        {h t : Trace} {fstype : Bytes} {rest : List Bytes} (e : Fault)
        → os.unit h (mount devname mountpath fstype ms_rdonly) ≡ failed e
        → Refused (mount devname mountpath fstype ms_rdonly ∷ h) rest t
        → Refused h (fstype ∷ rest) t

  -- How the trial of the types ends.
  pub data Tried (h : Trace) : List Bytes → Outcome Mountpoint × Trace → Type 0 where
    mounted :
        {before : List Bytes} {fstype : Bytes} {t : Trace} (after : List Bytes)
        → Refused h before t
        → os.unit t (mount devname mountpath fstype ms_rdonly) ≡ done tt
        → Tried h (before ++ (fstype ∷ after)) (
          ok (record { device_name = devname; path = mountpath; fs_type = fstype }),
          mount devname mountpath fstype ms_rdonly ∷ t,
        )
    none_fits :
        {filesystems : List Bytes} {t : Trace} {e : Error}
        → Refused h filesystems t
        → Tried h filesystems (err e, t)

  pub data MountEnding (h : Trace) (filesystems : List Bytes)
      : Outcome Mountpoint × Trace → Type 0 where
    no_directory :
        {e : Fault}
        → os.unit h (make_dirs mountpath) ≡ failed e
        → MountEnding h filesystems (err (external e), make_dirs mountpath ∷ h)
    tried :
        {r : Outcome Mountpoint × Trace}
        → os.unit h (make_dirs mountpath) ≡ done tt
        → Tried (make_dirs mountpath ∷ h) filesystems r
        → MountEnding h filesystems r

  module _ (h : Trace) (fstype : Bytes) (rest : List Bytes) where
    mount_loop-done :
        os.unit h (mount devname mountpath fstype ms_rdonly) ≡ done tt
        → mount_loop os devname mountpath (fstype ∷ rest) h ≡ (
          ok (record { device_name = devname; path = mountpath; fs_type = fstype }),
          mount devname mountpath fstype ms_rdonly ∷ h,
        )
    unfolding mount_loop handle call pure
    mount_loop-done a = rw a refl

    mount_loop-failed :
        (e : Fault)
        → os.unit h (mount devname mountpath fstype ms_rdonly) ≡ failed e
        → mount_loop os devname mountpath (fstype ∷ rest) h
          ≡ mount_loop os devname mountpath rest (mount devname mountpath fstype ms_rdonly ∷ h)
    unfolding mount_loop handle call
    mount_loop-failed e a = rw a refl

  Tried-one :
      (h : Trace) (fstype : Bytes) (rest : List Bytes) (r : Outcome Mountpoint × Trace) (e : Fault)
      → os.unit h (mount devname mountpath fstype ms_rdonly) ≡ failed e
      → Tried (mount devname mountpath fstype ms_rdonly ∷ h) rest r
      → Tried h (fstype ∷ rest) r
  Tried-one h fstype rest r e a (mounted after k b) = mounted after (one_tried e a k) b
  Tried-one h fstype rest r e a (none_fits k) = none_fits (one_tried e a k)

  mount_loop-Tried :
      (h : Trace) (filesystems : List Bytes)
      → Tried h filesystems (mount_loop os devname mountpath filesystems h)
  mount_loop-Tried h [] = unfold mount_loop raise in none_fits none_tried
  mount_loop-Tried h (fstype ∷ rest) =
      elim (Answer-cases (os.unit h (mount devname mountpath fstype ms_rdonly))) [
        | inl (x, a) ↦ rw (mount_loop-done h fstype rest a) (mounted rest none_tried a)
        | inr (e, a) ↦ rw (mount_loop-failed h fstype rest e a) (
            Tried-one h fstype rest _ e a
              (mount_loop-Tried (mount devname mountpath fstype ms_rdonly ∷ h) rest))
      ]

  mount_device-done :
      (h : Trace) (filesystems : List Bytes)
      → os.unit h (make_dirs mountpath) ≡ done tt
      → mount_device os devname mountpath filesystems h
        ≡ mount_loop os devname mountpath filesystems (make_dirs mountpath ∷ h)
  unfolding mount_device ◌>>=◌ handle call
  mount_device-done h filesystems a = rw a refl

  mount_device-failed :
      (h : Trace) (filesystems : List Bytes) (e : Fault)
      → os.unit h (make_dirs mountpath) ≡ failed e
      → mount_device os devname mountpath filesystems h
        ≡ (err (external e), make_dirs mountpath ∷ h)
  unfolding mount_device ◌>>=◌ handle call raise
  mount_device-failed h filesystems e a = rw a refl

  -- `Mount` makes the directory, and then tries the types of file systems in the order of the list.
  -- It mounts the device with the first type that the kernel accepts, tries none behind it, and
  -- returns an error where none is accepted or the directory cannot be made.
  pub mount_device-MountEnding :
      (h : Trace) (filesystems : List Bytes)
      → MountEnding h filesystems (mount_device os devname mountpath filesystems h)
  mount_device-MountEnding h filesystems = elim (Answer-cases (os.unit h (make_dirs mountpath))) [
    | inl (x, a) ↦
        rw (mount_device-done h filesystems a)
          (tried a (mount_loop-Tried (make_dirs mountpath ∷ h) filesystems))
    | inr (e, a) ↦ rw (mount_device-failed h filesystems e a) (no_directory a)
  ]
