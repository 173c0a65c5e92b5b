-- ===== src/Uinit.antt =====
-- uinit/main.go: the init command.
pub mod Rounds
pub mod Booted
pub mod Added
mod Tests
use systemboot.Base.{
  ℕ, zero, suc, List, [], ◌∷◌, ◌++◌, Option, none, some, Bool, not, if◌then◌else◌, Bytes, bytes,
}
use systemboot.Platform.{Platform, Trace, run_command, sleep}
use systemboot.Platform.Monad.{M, pure, crash, handle, ◌>>=◌, ◌>>◌, call, note}
use systemboot.Booter.{Booter, Json, boot_entry}
use systemboot.Booter.Entries.{BootEntry, get_boot_entries}

pub record Flags : Type 0 where
  pub allow_interactive : Bool
  pub do_quiet : Bool
  pub interval : ℕ
  pub no_default_boot : Bool

abbrev pub default_bootsequence : List (List Bytes)
default_bootsequence =
    (bytes "netboot" ∷ bytes "-userclass" ∷ bytes "linuxboot" ∷ [])
    ∷ (bytes "localboot" ∷ bytes "-grub" ∷ [])
    ∷ []

module _ (os : Platform) (flags : Flags) where
  -- `entry.Booter.Boot()`; an error is only logged.
  abbrev pub boot_with : Option Booter → M (Unit {0})
  boot_with none = crash
  boot_with (some b) = handle (boot_entry os b) pure (λ _. pure tt)

  -- The loop over the boot entries.
  unfoldable pub try_entries : List BootEntry → M (Unit {0})
  try_entries [] = pure tt
  try_entries (entry ∷ entries) =
      boot_with entry.booter >> note (sleep flags.interval) >> try_entries entries

  -- The loop over the default boot sequence.
  unfoldable pub try_default : List (List Bytes) → M (Unit {0})
  try_default [] = pure tt
  try_default (bootcmd ∷ bootcmds) =
      note (run_command (if not flags.do_quiet then bootcmd ++ (bytes "-d" ∷ []) else bootcmd))
      >> try_default bootcmds

  -- The first `n` rounds of the endless loop.
  unfoldable pub default_rounds : ℕ → M (Unit {0})
  unfolding try_default
  default_rounds zero = pure tt
  default_rounds (suc n) =
      try_default default_bootsequence >> note (sleep flags.interval) >> default_rounds n

  -- The command, up to `n` rounds of its endless loop.
  unfoldable pub uinit : Json → Bytes → ℕ → M (Unit {0})
  unfolding try_entries default_rounds
  uinit json vpd_dir n =
      (if flags.allow_interactive then note (sleep 5) else pure tt)
      >> (get_boot_entries os vpd_dir json >>= λ boot_entries.
          try_entries boot_entries
          >> (if not flags.no_default_boot then default_rounds n else pure tt))
