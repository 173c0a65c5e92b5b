-- ===== src/LocalBoot/Command/Keeping.antt =====
-- What the whole command keeps of the calls made so far.
use systemboot.Base.{
  ℕ, ◌+◌, ◌≡◌, List, [], ◌∷◌, ◌++◌, true, false, Bool-cases, inl, inr, if◌then◌else◌, All,
  All-append, Bytes, ◌==◌,
}
use systemboot.Base.Int.{ℤ, pos, negsuc}
use systemboot.Platform.{Platform, Trace, Event}
use systemboot.Platform.Monad.{M, pure}
use systemboot.Platform.Rules.{
  Keeps, Keeps-finally, Keeps-if, Keeps-handle, Keeps-bind, Keeps-pure, Keeps-raise,
  Keeps-bind_Only, keeps_rules, Only, Only-pure, Only-bind,
}
use systemboot.BootConfig.{BootConfig}
use systemboot.BootConfig.Boot.{boot}
use systemboot.Storage.Device.{BlockDev}
use systemboot.Storage.Filesystem.{Mountpoint}
use systemboot.LocalBoot.Scan.{scan_grub_configs}
use systemboot.LocalBoot.Command.{
  Flags, or_log, scan_every, boot_index, boot_every, choose, scan_and_boot, boot_grub_mode,
  path_config, boot_path_mode, run_mode, localboot,
}
use systemboot.LocalBoot.Command.Reading.{
  is_read, get_supported_filesystems-Keeps, get_block_stats-Keeps, scan_every-Keeps,
  print_tables-Keeps,
}
use systemboot.LocalBoot.Command.Mounting.{
  is_mounting, unmount_all-Keeps, mount_by_guid-Keeps, mount_every-Keeps,
}

-- A property `P` of the calls, and a property `Q` of the configurations that are started.
module _ {κ} (os : Platform) (P : Trace → Type κ)
    (reads : (e : Event) → is_read e ≡ true → (h : Trace) → P h → P (e ∷ h))
    (mounts : (e : Event) → is_mounting e ≡ true → (h : Trace) → P h → P (e ∷ h))
    (normalize : Bytes → Bytes) (flags : Flags) (Q : BootConfig → Type 0)
    (boots : flags.dryrun ≡ false → (bc : BootConfig) → Q bc → Keeps P (boot os bc))
    (scanned : (devices : List BlockDev) (base : Bytes)
      → Only (All Q) (scan_grub_configs os normalize devices base)) where
  or_log-Keeps : (m : M (Unit {0})) → Keeps P m → Keeps P (or_log m)
  or_log-Keeps m k = Keeps-handle P _ _ _ k (Keeps-pure P) (λ _. Keeps-pure P _)

  -- Code that runs only without `-flags.dryrun`.
  unless_dry-Keeps :
      (m : M (Unit {0}))
      → (flags.dryrun ≡ false → Keeps P m)
      → Keeps P (if flags.dryrun then pure tt else m)
  unless_dry-Keeps m k = elim (Bool-cases flags.dryrun) [
    | inl d ↦ rw d (Keeps-pure P tt)
    | inr d ↦ rw d (k d)
  ]

  scan_every-Only :
      (devices : List BlockDev) (mounted : List Mountpoint) (cs : List BootConfig)
      → All Q cs
      → Only (All Q) (scan_every os normalize devices mounted cs)
  unfolding scan_every
  scan_every-Only devices [] cs q = Only-pure _ cs q
  scan_every-Only devices (m ∷ mounted) cs q =
      Only-bind (All Q) (All Q) _ _ (scanned devices m.path)
        (λ ds w. scan_every-Only devices mounted (cs ++ ds) (All-append Q cs ds q w))

  boot_index-Keeps :
      (idx k : ℕ) (cs : List BootConfig)
      → All Q cs
      → Keeps P (boot_index os normalize flags.dryrun idx k cs)
  unfolding boot_index
  boot_index-Keeps idx k [] q = Keeps-pure P _
  boot_index-Keeps idx k (cfg ∷ cs) (q, qs) =
      let rest = boot_index-Keeps idx (k + 1) cs qs in
      Keeps-if P (idx == k) _ _
        (unless_dry-Keeps _ (λ d. Keeps-bind P _ _ (or_log-Keeps _ (boots d cfg q)) (λ _. rest)))
        rest

  boot_every-Keeps :
      (cs : List BootConfig)
      → All Q cs
      → flags.dryrun ≡ false
      → Keeps P (boot_every os normalize cs)
  unfolding boot_every
  boot_every-Keeps [] q d = Keeps-pure P _
  boot_every-Keeps (cfg ∷ cs) (q, qs) d =
      Keeps-bind P _ _ (or_log-Keeps _ (boots d cfg q)) (λ _. boot_every-Keeps cs qs d)

  choose-Keeps :
      (idx : ℤ) (cs : List BootConfig)
      → All Q cs
      → Keeps P (choose os normalize flags.dryrun idx cs)
  choose-Keeps idx [] q = Keeps-raise P _
  choose-Keeps (pos idx) (cfg ∷ cs) q = boot_index-Keeps idx 0 (cfg ∷ cs) q
  choose-Keeps (negsuc k) (cfg ∷ cs) q = unless_dry-Keeps _ (boot_every-Keeps (cfg ∷ cs) q)

  scan_and_boot-Keeps :
      (devices : List BlockDev) (idx : ℤ) (mounted : List Mountpoint)
      → Keeps P (scan_and_boot os normalize devices flags.dryrun idx mounted)
  unfolding scan_and_boot
  scan_and_boot-Keeps devices idx mounted =
      Keeps-bind_Only P (All Q) _ _ (scan_every-Keeps os P reads normalize devices mounted [])
        (scan_every-Only devices mounted [] tt) (choose-Keeps idx)

  pub boot_grub_mode-Keeps :
      (devices : List BlockDev) (base guid : Bytes) (idx : ℤ)
      → Keeps P (boot_grub_mode os normalize devices base guid flags.dryrun idx)
  unfolding boot_grub_mode
  boot_grub_mode-Keeps devices base guid idx =
      Keeps-bind P _ _
        (Keeps-handle P _ _ _ (get_supported_filesystems-Keeps os P reads) (Keeps-pure P)
          (λ _. Keeps-raise P _))
        (λ filesystems.
          Keeps-if P _ _ _
            (Keeps-bind P _ _ (mount_every-Keeps os P reads mounts normalize filesystems base _ [])
              (λ ms.
                Keeps-finally P _ _ (scan_and_boot-Keeps devices idx ms)
                  (unmount_all-Keeps os P reads mounts normalize ms)))
            (Keeps-bind P _ _
              (mount_by_guid-Keeps os P reads mounts normalize devices filesystems guid base)
              (λ m. scan_and_boot-Keeps devices idx (m ∷ []))))

  module _ (paths : (m : Mountpoint) → Q (path_config os normalize flags m)) where
    boot_path_mode-Keeps :
        (devices : List BlockDev) (base guid : Bytes)
        → Keeps P (boot_path_mode os normalize flags devices base guid flags.dryrun)
    unfolding boot_path_mode
    boot_path_mode-Keeps devices base guid =
        Keeps-bind P _ _
          (Keeps-handle P _ _ _ (get_supported_filesystems-Keeps os P reads) (Keeps-pure P)
            (λ _. Keeps-raise P _))
          (λ filesystems.
            Keeps-bind P _ _
              (mount_by_guid-Keeps os P reads mounts normalize devices filesystems guid base)
              (λ m. unless_dry-Keeps _ (λ d.
                Keeps-handle P _ _ _ (boots d _ (paths m)) (Keeps-pure P) (λ _. Keeps-raise P _))))

    ruleset modes = (keeps_rules, Keeps-if, boot_grub_mode-Keeps, boot_path_mode-Keeps)

    run_mode-Keeps : (devices : List BlockDev) → Keeps P (run_mode os normalize flags devices)
    run_mode-Keeps devices = search modes

    pub localboot-Keeps : Keeps P (localboot os normalize flags)
    unfolding localboot
    localboot-Keeps = Keeps-if P _ _ _ (Keeps-raise P _) (
        Keeps-bind P _ _
          (Keeps-handle P _ _ _ (get_block_stats-Keeps os P reads) (Keeps-pure P)
            (λ _. Keeps-raise P _))
          (λ devices.
            Keeps-bind P _ _
              (Keeps-if P _ _ _ (print_tables-Keeps os P reads normalize devices) (Keeps-pure P _))
              (λ _. Keeps-bind P _ _ (run_mode-Keeps devices) (λ _. Keeps-raise P _))))
