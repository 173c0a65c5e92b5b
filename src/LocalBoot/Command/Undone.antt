-- ===== src/LocalBoot/Command/Undone.antt =====
-- What the GRUB mode mounts, it unmounts, whatever follows.
use systemboot.Base.{
  ℕ, ◌+◌, ◌≡◌, refl, sym, List, [], ◌∷◌, Bool, true, false, Bytes, arith, Outcome, ok, err, panic,
}
use systemboot.Base.Int.{ℤ, pos, negsuc}
use systemboot.Platform.{Platform, Trace, Event, mount, unmount}
use systemboot.Platform.Monad.{M, raise, proceed, handle, finally, ◌>>=◌}
use systemboot.Platform.Rules.{Keeps, Keeps-bind, Keeps-handle, Keeps-pure, Keeps-raise, Keeps-if}
use systemboot.BootConfig.{BootConfig}
use systemboot.BootConfig.Boot.Calls.{is_boot_call, boot-Keeps}
use systemboot.Storage.Device.{BlockDev}
use systemboot.Storage.Filesystem.{Mountpoint}
use systemboot.LocalBoot.Command.{
  or_log, unmount_all, mount_every, boot_index, boot_every, choose, scan_and_boot, boot_grub_mode,
}
use systemboot.LocalBoot.Command.Reading.{
  is_read, get_supported_filesystems-Keeps, scan_every-Keeps,
}
use systemboot.LocalBoot.Command.Mounted.{
  Pending, uses, AfterAll, mount_every-AfterAll, Pending-unmount_all,
}

abbrev is_mounting : Event → Bool
is_mounting (mount device path fstype flags) = true
is_mounting (unmount path flags) = true
is_mounting e = false

read_quiet : (e : Event) → is_read e ≡ true → is_mounting e ≡ false
read_quiet (mount device path fstype flags) r = sym r
read_quiet (unmount path flags) r = sym r
read_quiet e r = refl

boot_quiet : (e : Event) → is_boot_call e ≡ true → is_mounting e ≡ false
boot_quiet (mount device path fstype flags) r = sym r
boot_quiet (unmount path flags) r = sym r
boot_quiet e r = refl

module _ (os : Platform) (p : Bytes) (n : ℕ) (start : Trace) where
  abbrev Open : Trace → Type 0
  Open = Pending os p n start

  quiet : (e : Event) → is_mounting e ≡ false → (h : Trace) → Open h → Open (e ∷ h)
  quiet (mount device path fstype flags) r h q = cc
  quiet (unmount path flags) r h q = cc
  quiet e r h q = q

  reads : (e : Event) → is_read e ≡ true → (h : Trace) → Open h → Open (e ∷ h)
  reads e r = quiet e (read_quiet e r)

  boots : (e : Event) → is_boot_call e ≡ true → (h : Trace) → Open h → Open (e ∷ h)
  boots e r = quiet e (boot_quiet e r)

  or_log-Keeps : (m : M (Unit {0})) → Keeps Open m → Keeps Open (or_log m)
  or_log-Keeps m k = Keeps-handle Open _ _ _ k (Keeps-pure Open) (λ _. Keeps-pure Open _)

  module _ (normalize : Bytes → Bytes) where
    boot_index-Keeps :
        (dryrun : Bool) (idx k : ℕ) (cs : List BootConfig)
        → Keeps Open (boot_index os normalize dryrun idx k cs)
    unfolding boot_index
    boot_index-Keeps dryrun idx k [] = Keeps-pure Open _
    boot_index-Keeps dryrun idx k (cfg ∷ cs) =
        let rest = boot_index-Keeps dryrun idx (k + 1) cs in
        Keeps-if Open _ _ _
          (Keeps-if Open _ _ _ (Keeps-pure Open _)
            (Keeps-bind Open _ _ (or_log-Keeps _ (boot-Keeps os Open boots cfg)) (λ _. rest)))
          rest

    boot_every-Keeps : (cs : List BootConfig) → Keeps Open (boot_every os normalize cs)
    unfolding boot_every
    boot_every-Keeps [] = Keeps-pure Open _
    boot_every-Keeps (cfg ∷ cs) =
        Keeps-bind Open _ _ (or_log-Keeps _ (boot-Keeps os Open boots cfg))
          (λ _. boot_every-Keeps cs)

    choose-Keeps :
        (dryrun : Bool) (idx : ℤ) (cs : List BootConfig)
        → Keeps Open (choose os normalize dryrun idx cs)
    choose-Keeps dryrun idx [] = Keeps-raise Open _
    choose-Keeps dryrun (pos idx) (cfg ∷ cs) = boot_index-Keeps dryrun idx 0 (cfg ∷ cs)
    choose-Keeps dryrun (negsuc k) (cfg ∷ cs) =
        Keeps-if Open _ _ _ (Keeps-pure Open _) (boot_every-Keeps (cfg ∷ cs))

    scan_and_boot-Keeps :
        (devices : List BlockDev) (dryrun : Bool) (idx : ℤ) (mounted : List Mountpoint)
        → Keeps Open (scan_and_boot os normalize devices dryrun idx mounted)
    unfolding scan_and_boot
    scan_and_boot-Keeps devices dryrun idx mounted =
        Keeps-bind Open _ _ (scan_every-Keeps os Open reads normalize devices mounted [])
          (choose-Keeps dryrun idx)

module _ (os : Platform) (normalize : Bytes → Bytes) (p : Bytes) (start : Trace)
    (devices : List BlockDev) (base : Bytes) (dryrun : Bool) (idx : ℤ) where
  abbrev with_mounted : List Mountpoint → M (Unit {0})
  with_mounted ms = finally (scan_and_boot os normalize devices dryrun idx ms) (unmount_all ms)

  with_mounted-Pending :
      (ms : List Mountpoint) (t : Trace)
      → Pending os p (uses p ms) start t
      → Pending os p 0 start (with_mounted ms t).1
  unfolding finally
  with_mounted-Pending ms t q =
      Pending-unmount_all os p ms start _
        ((scan_and_boot-Keeps os p (uses p ms) start normalize devices dryrun idx ms).at t q)

  proceed-Pending :
      (filesystems : List Bytes) (r : Outcome (List Mountpoint) × Trace)
      → AfterAll os p normalize filesystems base start r
      → Pending os p 0 start (proceed with_mounted raise r.0 r.1).1
  proceed-Pending filesystems (ok ms, t) q = with_mounted-Pending ms t q
  proceed-Pending filesystems (err e, t) q = absurd q
  proceed-Pending filesystems (panic, t) q = absurd q

  mount_all-Keeps :
      (filesystems : List Bytes)
      → Keeps
          (Pending os p 0 start)
          (mount_every os normalize filesystems base devices [] >>= with_mounted)
  unfolding ◌>>=◌ handle
  mount_all-Keeps filesystems = record {
    at = λ h q.
        proceed-Pending filesystems (mount_every os normalize filesystems base devices [] h)
          (mount_every-AfterAll os p normalize filesystems base start devices [] h q);
  }

  boot_grub_mode-Keeps :
      Keeps (Pending os p 0 start) (boot_grub_mode os normalize devices base [] dryrun idx)
  unfolding boot_grub_mode
  boot_grub_mode-Keeps =
      Keeps-bind _ _ _
        (Keeps-handle _ _ _ _ (get_supported_filesystems-Keeps os _ (reads os p 0 start))
          (Keeps-pure _) (λ _. Keeps-raise _ _))
        mount_all-Keeps

-- Without a GUID, `BootGrubMode` unmounts as often from each path as it has mounted there, with and
-- without `-dryrun`, for every `-config`, and whatever the machine answers: also where no
-- configuration is found, where the scan panics, and where no kernel starts.
pub boot_grub_mode-Pending :
    (os : Platform) (normalize : Bytes → Bytes) (devices : List BlockDev) (base : Bytes)
    (dryrun : Bool) (idx : ℤ) (p : Bytes) (h : Trace)
    → Pending os p 0 h (boot_grub_mode os normalize devices base [] dryrun idx h).1
boot_grub_mode-Pending os normalize devices base dryrun idx p h =
    (boot_grub_mode-Keeps os normalize p h devices base dryrun idx).at h (omega arith)
