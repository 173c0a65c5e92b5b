-- ===== src/LocalBoot/Command/Mounted.antt =====
-- What the GRUB mode mounts, it unmounts.
use systemboot.Base.{
  ℕ, ◌+◌, ◌≡◌, refl, List, [], ◌∷◌, ◌++◌, if◌then◌else◌, Bytes, equal, arith, Outcome, ok, err,
  panic,
}
use systemboot.Platform.{mnt_detach, Platform, Trace, Answer, done, failed, mount, unmount}
use systemboot.Platform.Monad.{M, pure, proceed, handle}
use systemboot.Storage.Device.{BlockDev}
use systemboot.Storage.Filesystem.{Mountpoint, mount_device}
use systemboot.Storage.Filesystem.Mounts.{
  Refused, none_tried, one_tried, Tried, mounted, none_fits, MountEnding, no_directory, tried,
  mount_device-MountEnding,
}
use systemboot.LocalBoot.Command.{unmount_all, mount_every}

-- One, where the mount point is at the path.
abbrev hit : Bytes → Bytes → ℕ
hit p path = if equal p path then 1 else 0

abbrev answered : Answer (Unit {0}) → ℕ → ℕ
answered (done x) n = n
answered (failed e) n = 0

-- How often something has been mounted on the path, and unmounted.
abbrev pub mounts : Platform → Bytes → Trace → ℕ
mounts os p [] = 0
mounts os p (mount device path fstype flags ∷ h) =
    answered (os.unit h (mount device path fstype flags)) (hit p path) + mounts os p h
mounts os p (_ ∷ h) = mounts os p h

abbrev pub unmounts : Bytes → Trace → ℕ
unmounts p [] = 0
unmounts p (unmount path flags ∷ h) = hit p path + unmounts p h
unmounts p (_ ∷ h) = unmounts p h

-- How many mount points of the list are at the path.
abbrev pub uses : Bytes → List Mountpoint → ℕ
uses p [] = 0
uses p (m ∷ ms) = hit p m.path + uses p ms

module _ (os : Platform) (p : Bytes) where
  -- Between the two, `n` mounts on the path have not been undone.
  abbrev pub Pending : ℕ → Trace → Trace → Type 0
  Pending n start end = mounts os p end + unmounts p start ≡ unmounts p end + mounts os p start + n

  uses-append : (ms ns : List Mountpoint) → uses p (ms ++ ns) ≡ uses p ms + uses p ns
  uses-append [] ns = omega arith
  uses-append (m ∷ ms) ns = let ih = uses-append ms ns in omega arith

  unmounts-unmount_all :
      (ms : List Mountpoint) (h : Trace) → unmounts p (unmount_all ms h) ≡ uses p ms + unmounts p h
  unmounts-unmount_all [] h = omega arith
  unmounts-unmount_all (m ∷ ms) h =
      let ih = unmounts-unmount_all ms (unmount m.path mnt_detach ∷ h) in omega arith

  mounts-unmount_all :
      (ms : List Mountpoint) (h : Trace) → mounts os p (unmount_all ms h) ≡ mounts os p h
  mounts-unmount_all [] h = refl
  mounts-unmount_all (m ∷ ms) h = mounts-unmount_all ms (unmount m.path mnt_detach ∷ h)

  pub Pending-unmount_all :
      (ms : List Mountpoint) (start h : Trace)
      → Pending (uses p ms) start h
      → Pending 0 start (unmount_all ms h)
  Pending-unmount_all ms start h q =
      let a = unmounts-unmount_all ms h in let b = mounts-unmount_all ms h in omega arith

  -- What a call of `Mount` leaves.
  abbrev After : (Mountpoint → ℕ) → ℕ → Trace → Outcome Mountpoint × Trace → Type 0
  After used n start (ok m, t) = Pending (n + used m) start t
  After used n start (err e, t) = Pending n start t
  After used n start (panic, t) = ⊥

  Refused-Pending :
      {devname path : Bytes} {h t : Trace} {filesystems : List Bytes} (n : ℕ) (start : Trace)
      → Refused os devname path h filesystems t
      → Pending n start h
      → Pending n start t
  Refused-Pending n start none_tried q = q
  Refused-Pending n start (one_tried e a k) q = Refused-Pending n start k (rw a (omega arith))

  Tried-After :
      {devname path : Bytes} {h : Trace} {filesystems : List Bytes} {r : Outcome Mountpoint × Trace}
      (n : ℕ) (start : Trace)
      → Tried os devname path h filesystems r
      → Pending n start h
      → After (λ m. hit p m.path) n start r
  Tried-After n start (mounted after k a) q =
      let below = Refused-Pending n start k q in rw a (omega arith)
  Tried-After n start (none_fits k) q = Refused-Pending n start k q

  MountEnding-After :
      {devname path : Bytes} {h : Trace} {filesystems : List Bytes} {r : Outcome Mountpoint × Trace}
      (n : ℕ) (start : Trace)
      → MountEnding os devname path h filesystems r
      → Pending n start h
      → After (λ m. hit p m.path) n start r
  MountEnding-After n start (no_directory e) q = q
  MountEnding-After n start (tried a k) q = Tried-After n start k q

  module _ (normalize : Bytes → Bytes) (filesystems : List Bytes) (base : Bytes)
      (start : Trace) where
    -- What the loop that mounts the devices leaves.
    abbrev pub AfterAll : Outcome (List Mountpoint) × Trace → Type 0
    AfterAll (ok ms, t) = Pending (uses p ms) start t
    AfterAll (err e, t) = ⊥
    AfterAll (panic, t) = ⊥

    proceed-AfterAll :
        (ms : List Mountpoint) (f : Mountpoint → M (List Mountpoint)) (g : M (List Mountpoint))
        (r : Outcome Mountpoint × Trace)
        → After (λ m. hit p m.path) (uses p ms) start r
        → ((m : Mountpoint) (t : Trace)
            → Pending (uses p (ms ++ (m ∷ []))) start t
            → AfterAll (f m t))
        → ((t : Trace) → Pending (uses p ms) start t → AfterAll (g t))
        → AfterAll (proceed f (λ _. g) r.0 r.1)
    proceed-AfterAll ms f g (ok m, t) q kf kg =
        let e = uses-append ms (m ∷ []) in kf m t (omega arith)
    proceed-AfterAll ms f g (err x, t) q kf kg = kg t q
    proceed-AfterAll ms f g (panic, t) q kf kg = absurd q

    pub mount_every-AfterAll :
        (devices : List BlockDev) (ms : List Mountpoint) (h : Trace)
        → Pending (uses p ms) start h
        → AfterAll (mount_every os normalize filesystems base devices ms h)
    unfolding mount_every handle
    mount_every-AfterAll [] ms h q = unfold pure in q
    mount_every-AfterAll (dev ∷ devices) ms h q =
        proceed-AfterAll ms _ _ (mount_device os _ _ filesystems h)
          (MountEnding-After (uses p ms) start (mount_device-MountEnding os _ _ h filesystems) q)
          (λ m t k. mount_every-AfterAll devices (ms ++ (m ∷ [])) t k)
          (λ t k. mount_every-AfterAll devices ms t k)
