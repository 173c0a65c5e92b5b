-- ===== src/LocalBoot/Command/Mounting.antt =====
-- What mounting keeps of the calls made so far.
use systemboot.Base.{◌≡◌, refl, List, [], ◌∷◌, ◌++◌, Bool, true, false, Bytes}
use systemboot.Platform.{mnt_detach, Platform, Trace, Event, mount, make_dirs, unmount}
use systemboot.Platform.Rules.{
  Keeps, Keeps-finally, Keeps-if, Keeps-handle, Keeps-bind, Keeps-pure, Keeps-raise, Keeps-call,
  keeps_rules,
}
use systemboot.Storage.Device.{BlockDev}
use systemboot.Storage.Filesystem.{Mountpoint, mount_loop, mount_device}
use systemboot.LocalBoot.Command.{unmount_all, mount_first, mount_by_guid, mount_every}
use systemboot.LocalBoot.Command.Reading.{is_read, partitions_by_guid-Keeps}

-- The calls that mount and unmount.
abbrev pub is_mounting : Event → Bool
is_mounting (make_dirs path) = true
is_mounting (mount device path fstype flags) = true
is_mounting (unmount path flags) = true
is_mounting e = false

module _ {κ} (os : Platform) (P : Trace → Type κ)
    (reads : (e : Event) → is_read e ≡ true → (h : Trace) → P h → P (e ∷ h))
    (mounts : (e : Event) → is_mounting e ≡ true → (h : Trace) → P h → P (e ∷ h))
    (normalize : Bytes → Bytes) where
  ruleset mounting_rules = (keeps_rules, Keeps-finally, Keeps-if)

  pub unmount_all-Keeps : (ms : List Mountpoint) (h : Trace) → P h → P (unmount_all ms h)
  unmount_all-Keeps [] h p = p
  unmount_all-Keeps (m ∷ ms) h p =
      unmount_all-Keeps ms (unmount m.path mnt_detach ∷ h) (mounts _ refl h p)

  mount_loop-Keeps :
      (devname mountpath : Bytes) (filesystems : List Bytes)
      → Keeps P (mount_loop os devname mountpath filesystems)
  unfolding mount_loop
  mount_loop-Keeps devname mountpath [] = Keeps-raise P _
  mount_loop-Keeps devname mountpath (fstype ∷ filesystems) =
      Keeps-handle P _ _ _ (Keeps-call P os _ (mounts _ refl)) (λ _. Keeps-pure P _)
        (λ _. mount_loop-Keeps devname mountpath filesystems)

  pub mount_device-Keeps :
      (devname mountpath : Bytes) (filesystems : List Bytes)
      → Keeps P (mount_device os devname mountpath filesystems)
  unfolding mount_device
  mount_device-Keeps devname mountpath filesystems =
      Keeps-bind P _ _ (Keeps-call P os _ (mounts _ refl))
        (λ _. mount_loop-Keeps devname mountpath filesystems)

  pub mount_first-Keeps :
      (filesystems : List Bytes) (base : Bytes) (partitions : List BlockDev)
      → Keeps P (mount_first os normalize filesystems base partitions)
  mount_first-Keeps filesystems base [] = Keeps-raise P _
  mount_first-Keeps filesystems base (dev ∷ partitions) =
      search (mounting_rules, mount_device-Keeps)

  pub mount_by_guid-Keeps :
      (devices : List BlockDev) (filesystems : List Bytes) (guid base : Bytes)
      → Keeps P (mount_by_guid os normalize devices filesystems guid base)
  unfolding mount_by_guid
  mount_by_guid-Keeps devices filesystems guid base =
      Keeps-handle P _ _ _ (partitions_by_guid-Keeps os P reads devices guid)
        (mount_first-Keeps filesystems base) (λ _. Keeps-raise P _)

  pub mount_every-Keeps :
      (filesystems : List Bytes) (base : Bytes) (devices : List BlockDev)
      (mounted : List Mountpoint)
      → Keeps P (mount_every os normalize filesystems base devices mounted)
  unfolding mount_every
  mount_every-Keeps filesystems base [] mounted = Keeps-pure P _
  mount_every-Keeps filesystems base (dev ∷ devices) mounted =
      Keeps-handle P _ _ _ (mount_device-Keeps _ _ filesystems)
        (λ m. mount_every-Keeps filesystems base devices (mounted ++ (m ∷ [])))
        (λ _. mount_every-Keeps filesystems base devices mounted)
