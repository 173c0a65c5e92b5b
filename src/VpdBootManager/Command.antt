-- ===== src/VpdBootManager/Command.antt =====
-- cmds/vpdbootmanager/main.go, and of add.go `add` with the parsers of the flags.
pub mod Accepted
use systemboot.Base.{
  ◌==◌, List, [], ◌∷◌, ◌++◌, Option, none, some, Bool, false, not, ◌&&◌, if◌then◌else◌, Bytes,
  bytes, equal, is_empty, Error, external, message, exited,
}
use systemboot.Base.Int.{ℤ, pos, negsuc}
use systemboot.Platform.{Platform, Answer, done, failed}
use systemboot.Platform.Monad.{M, pure, raise, crash, handle, lift, ◌>>=◌, from_answer}
use systemboot.Booter.{Booter, net, local, NetBooter, LocalBooter}
use systemboot.VpdBootManager.Add.{add_boot_entry}

-- What the flags say behind `flg.Parse`; `VpdDir` and `dryRun` are variables of the program.
pub record LocalFlags : Type 0 where
  pub kernel_args : Bytes
  pub ramfs : Bytes
  pub vpd_dir : Bytes
  pub dry_run : Bool

pub record NetFlags : Type 0 where
  pub override_url : Bytes
  pub retries : ℤ
  pub vpd_dir : Bytes
  pub dry_run : Bool

-- Package `flag`, for the two sets of flags: from the directory that is the default to the values,
-- or the end of the program. `net.ParseMAC`, and `json.Marshal`.
pub record Tools : Type 0 where
  pub parse_local : Bytes → List Bytes → Option LocalFlags
  pub parse_net : Bytes → List Bytes → Option NetFlags
  pub parse_mac : Bytes → Answer (Unit {0})
  pub marshal : Booter → Answer Bytes

-- A parsed entry, with the variables of the program.
pub record Parsed : Type 0 where
  pub entry : Booter
  pub vpd_dir : Bytes
  pub dry_run : Bool

module _ (tools : Tools) (default_dir : Bytes) where
  abbrev pub with_local_flags : LocalBooter → Option LocalFlags → M Parsed
  with_local_flags cfg none = raise (exited 2)
  with_local_flags cfg (some flg) = pure (record {
    entry = local (record cfg { kernel_args = flg.kernel_args; initramfs = flg.ramfs });
    vpd_dir = flg.vpd_dir;
    dry_run = flg.dry_run;
  })

  abbrev pub local_booter : Bytes → Bytes → Bytes → LocalBooter
  local_booter method device_guid kernel = record {
    type = bytes "localboot";
    method = method;
    device_guid = device_guid;
    kernel = kernel;
    kernel_args = [];
    initramfs = [];
  }

  abbrev pub path_arguments : Bytes → List Bytes → M Parsed
  path_arguments method (device_guid ∷ kernel ∷ args) =
      with_local_flags (local_booter method device_guid kernel) (tools.parse_local default_dir args)
  path_arguments method (device_guid ∷ []) =
      raise (message (bytes "You need to pass DeviceGUID and Kernel path"))
  path_arguments method [] = raise (message (bytes "You need to pass DeviceGUID and Kernel path"))

  unfoldable pub parse_localboot_flags : Bytes → List Bytes → M Parsed
  parse_localboot_flags method args =
      if equal method (bytes "grub")
      then with_local_flags (local_booter method [] []) (tools.parse_local default_dir args)
      else if equal method (bytes "path")
      then path_arguments method args
      else raise (message (bytes "Method needs to be grub or path"))

  abbrev pub is_minus_one : ℤ → Bool
  is_minus_one (pos n) = false
  is_minus_one (negsuc n) = n == 0

  abbrev pub with_net_flags : Bytes → Bytes → Option NetFlags → M Parsed
  with_net_flags method mac none = raise (exited 2)
  with_net_flags method mac (some flg) = pure (record {
    entry = net (record {
      type = bytes "netboot";
      method = method;
      mac = mac;
      override_url = if not (is_empty flg.override_url) then some flg.override_url else none;
      retries = if not (is_minus_one flg.retries) then some flg.retries else none;
      debug_on_failure = false;
    });
    vpd_dir = flg.vpd_dir;
    dry_run = flg.dry_run;
  })

  unfoldable pub parse_netboot_flags : Bytes → Bytes → List Bytes → M Parsed
  parse_netboot_flags method mac args =
      if not (equal method (bytes "dhcpv4")) && not (equal method (bytes "dhcpv6"))
      then raise (message (bytes "Method needs to be either dhcpv4 or dhcpv6"))
      else (lift (from_answer (tools.parse_mac mac)) >>= λ _.
          with_net_flags method mac (tools.parse_net default_dir args))

  -- The entry for the arguments behind its type.
  abbrev pub netboot_entry : List Bytes → M Parsed
  netboot_entry (method ∷ mac ∷ args) = parse_netboot_flags method mac args
  netboot_entry (method ∷ []) = raise (message (bytes "You need to pass method and MAC address"))
  netboot_entry [] = raise (message (bytes "You need to pass method and MAC address"))

  abbrev pub localboot_entry : List Bytes → M Parsed
  localboot_entry (method ∷ args) = parse_localboot_flags method args
  localboot_entry [] = raise (message (bytes "You need to provide method"))

  unfoldable pub parse_entry : Bytes → List Bytes → M Parsed
  unfolding parse_netboot_flags parse_localboot_flags
  parse_entry entrytype args =
      if equal entrytype (bytes "netboot")
      then netboot_entry args
      else if equal entrytype (bytes "localboot")
      then localboot_entry args
      else raise (message (bytes "Unknown entry type"))

  module _ (os : Platform) where
    -- With `-dryrun` the content is only printed.
    unfoldable pub write_entry : Parsed → M (Unit {0})
    write_entry p = lift (from_answer (tools.marshal p.entry)) >>= λ content.
        if p.dry_run then pure tt else add_boot_entry os p.vpd_dir content

    unfoldable pub add : Bytes → List Bytes → M (Unit {0})
    unfolding parse_entry write_entry
    add entrytype args = parse_entry entrytype args >>= write_entry

    -- `args[1]` is a run-time panic where there is no second argument.
    abbrev pub add_action : List Bytes → M (Unit {0})
    add_action [] = crash
    add_action (entrytype ∷ args) = add entrytype args

    unfoldable pub cli : List Bytes → M (Unit {0})
    unfolding add
    cli [] = raise (message (bytes "You need to provide action"))
    cli (action ∷ args) =
        if equal action (bytes "add")
        then add_action args
        else raise (message (bytes "Unrecognized action"))

    -- An error ends the program, with the status 1 unless the flags have ended it before.
    abbrev pub exit_with : Error → M (Unit {0})
    exit_with (exited status) = raise (exited status)
    exit_with e = raise (exited 1)

    -- `main`
    unfoldable pub vpdbootmanager : List Bytes → M (Unit {0})
    unfolding cli
    vpdbootmanager args = handle (cli args) pure exit_with
