-- ===== src/VpdBootManager/Add.antt =====
-- cmds/vpdbootmanager/add.go: `addBootEntry`, on the text of the entry.
pub mod Free
use systemboot.Base.{
  ℕ, zero, suc, ◌+◌, ◌-◌, ◌++◌, Bytes, bytes, Error, external, not_exist, no_free_entry, false,
}
use systemboot.Text.Decimal.{pad4}
use systemboot.Platform.{Platform}
use systemboot.Platform.Monad.{M, pure, raise, handle}
use systemboot.Vpd.{get, set, max_boot_entry}

-- `fmt.Sprintf("Boot%04d", i)`
unfoldable pub boot_key : ℕ → Bytes
unfolding pad4
boot_key i = bytes "Boot" ++ pad4 i

module _ (os : Platform) (vpd_dir : Bytes) where
  -- Behind an error of `Get`: a variable that does not exist is written.
  unfoldable pub write_if_missing : Bytes → Bytes → Error → M (Unit {0})
  write_if_missing key content (external not_exist) = set os vpd_dir key content false
  write_if_missing key content e = raise e

  -- The loop, with `rounds` entries left to look at, from the entry `i` on.
  unfoldable pub add_loop : ℕ → ℕ → Bytes → M (Unit {0})
  unfolding write_if_missing
  add_loop zero i content = raise no_free_entry
  add_loop (suc rounds) i content =
      let next = add_loop rounds (i + 1) content in
      handle (get os vpd_dir (boot_key i) false) (λ _. next) (write_if_missing (boot_key i) content)

  unfoldable pub add_boot_entry : Bytes → M (Unit {0})
  add_boot_entry content = add_loop (max_boot_entry - 1) 1 content
