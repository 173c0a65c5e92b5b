-- ===== src/Booter.antt =====
-- pkg/booter: the kinds of boot entries and the commands that they run.
pub mod Entries
pub mod Select
mod Tests
use systemboot.Base.{
  ℕ, suc, ◌≡◌, Bool, not, List, [], ◌∷◌, ◌++◌, Option, none, some, ◌⊎◌, inl, inr, if◌then◌else◌,
  Bytes, bytes, equal, is_empty, Error, external, Fault, wrong_type, unknown_method, command_failed,
}
use systemboot.Base.Int.{ℤ, pos, negsuc}
use systemboot.Text.Decimal.{format_uint}
use systemboot.Platform.{Platform, run_command, Answer, done, failed}
use systemboot.Platform.Monad.{M, pure, raise, handle, call}

pub record NetBooter : Type 0 where
  pub type : Bytes
  pub method : Bytes
  pub mac : Bytes
  pub override_url : Option Bytes
  pub retries : Option ℤ
  pub debug_on_failure : Bool

pub record LocalBooter : Type 0 where
  pub type : Bytes
  pub method : Bytes
  pub device_guid : Bytes
  pub kernel : Bytes
  pub kernel_args : Bytes
  pub initramfs : Bytes

-- The implementations of the interface `Booter`.
pub data Booter : Type 0 where
  net : NetBooter → Booter
  local : LocalBooter → Booter
  null : Booter

unfoldable pub type_name : Booter → Bytes
type_name (net nb) = nb.type
type_name (local lb) = lb.type
type_name null = bytes "null"

-- `json.Unmarshal` into the two structures.
pub record Json : Type 0 where
  pub decode_net : Bytes → Answer NetBooter
  pub decode_local : Bytes → Answer LocalBooter

module _ (json : Json) where
  abbrev check_net : Answer NetBooter → Booter ⊎ Error
  check_net (failed e) = inr (external e)
  check_net (done nb) =
      if not (equal nb.type (bytes "netboot")) then inr (wrong_type nb.type) else inl (net nb)

  unfoldable pub new_net_booter : Bytes → Booter ⊎ Error
  new_net_booter config = check_net (json.decode_net config)

  abbrev check_local : Answer LocalBooter → Booter ⊎ Error
  check_local (failed e) = inr (external e)
  check_local (done lb) =
      if not (equal lb.type (bytes "localboot")) then inr (wrong_type lb.type) else inl (local lb)

  unfoldable pub new_local_booter : Bytes → Booter ⊎ Error
  new_local_booter config = check_local (json.decode_local config)

-- `strconv.Itoa`
unfoldable pub itoa : ℤ → Bytes
itoa (pos n) = format_uint n
itoa (negsuc n) = b'-' ∷ format_uint (suc n)

abbrev url_flags : Option Bytes → List Bytes
url_flags none = []
url_flags (some url) = bytes "-netboot-url" ∷ url ∷ []

abbrev retry_flags : Option ℤ → List Bytes
retry_flags none = []
retry_flags (some n) = bytes "-retries" ∷ itoa n ∷ []

-- The command of `NetBooter.Boot`.
unfoldable pub net_command : NetBooter → List Bytes ⊎ Error
unfolding itoa
net_command nb =
    let bootcmd =
      (bytes "netboot" ∷ bytes "-d" ∷ bytes "-userclass" ∷ bytes "linuxboot" ∷ [])
      ++ (url_flags nb.override_url ++ retry_flags nb.retries) in
    let fix = if nb.debug_on_failure then bytes "-fix" ∷ [] else [] in
    if equal nb.method (bytes "dhcpv6")
    then inl (bootcmd ++ ((bytes "-6=true" ∷ bytes "-4=false" ∷ []) ++ fix))
    else if equal nb.method (bytes "dhcpv4")
    then inl (bootcmd ++ ((bytes "-6=false" ∷ bytes "-4=true" ∷ []) ++ fix))
    else inr (unknown_method nb.method)

-- The command of `LocalBooter.Boot`.
unfoldable pub local_command : LocalBooter → List Bytes ⊎ Error
local_command lb =
    let bootcmd = bytes "localboot" ∷ bytes "-d" ∷ [] in
    let ramfs =
      if not (is_empty lb.initramfs) then bytes "-initramfs" ∷ lb.initramfs ∷ [] else [] in
    let cmdline =
      if not (is_empty lb.kernel_args) then bytes "-cmdline" ∷ lb.kernel_args ∷ [] else [] in
    if equal lb.method (bytes "grub")
    then inl (bootcmd ++ (bytes "-grub" ∷ []))
    else if equal lb.method (bytes "path")
    then inl (
        bootcmd
        ++ (bytes "-kernel" ∷ lb.kernel ∷ bytes "-guid" ∷ lb.device_guid ∷ (ramfs ++ cmdline)))
    else inr (unknown_method lb.method)

module _ (os : Platform) where
  abbrev pub run_net : List Bytes ⊎ Error → M (Unit {0})
  run_net (inl bootcmd) =
      handle (call os (run_command bootcmd)) pure (λ e. raise (command_failed e))
  run_net (inr e) = raise e

  -- An error of the local command is only logged.
  abbrev pub run_local : List Bytes ⊎ Error → M (Unit {0})
  run_local (inl bootcmd) = handle (call os (run_command bootcmd)) pure (λ _. pure tt)
  run_local (inr e) = raise e

  unfoldable pub boot_entry : Booter → M (Unit {0})
  unfolding net_command local_command
  boot_entry (net nb) = run_net (net_command nb)
  boot_entry (local lb) = run_local (local_command lb)
  boot_entry null = pure tt
