-- ===== src/Recovery.antt =====
-- pkg/recovery: what to do about critical errors.
use systemboot.Base.{ℕ, [], ◌∷◌, Bool, not, if◌then◌else◌, Bytes, is_empty}
use systemboot.Platform.{
  Platform, run_command, sync_disks, sleep, machine_restart, machine_power_off,
}
use systemboot.Platform.Monad.{M, pure, ◌>>◌, call, note}

-- The interface `Recoverer`.
pub record Recoverer : Type 0 where
  pub recover : Bytes → M (Unit {0})

pub record PermissiveRecoverer : Type 0 where
  pub recovery_command : Bytes

pub record SecureRecoverer : Type 0 where
  pub reboot : Bool
  pub sync : Bool
  pub debug : Bool

-- `DebugTimeout`, in seconds.
abbrev pub debug_timeout : ℕ
debug_timeout = 10

module _ (os : Platform) where
  unfoldable pub permissive_recover : PermissiveRecoverer → Bytes → M (Unit {0})
  permissive_recover pr message =
      if not (is_empty pr.recovery_command)
      then call os (run_command (pr.recovery_command ∷ []))
      else pure tt

  unfoldable pub secure_recover : SecureRecoverer → Bytes → M (Unit {0})
  secure_recover sr message =
      (if sr.sync then note sync_disks else pure tt)
      >> (if sr.debug then note (sleep debug_timeout) else pure tt)
      >> (if sr.reboot then call os machine_restart else call os machine_power_off)

  abbrev pub permissive : PermissiveRecoverer → Recoverer
  permissive pr = record { recover = permissive_recover pr }

  abbrev pub secure : SecureRecoverer → Recoverer
  secure sr = record { recover = secure_recover sr }
