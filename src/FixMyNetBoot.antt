-- ===== src/FixMyNetBoot.antt =====
-- cmds/fixmynetboot/main.go: the checks of the network interfaces.
pub mod Checked
pub mod Passed
mod Tests
use systemboot.Base.{
  List, [], ◌∷◌, ◌++◌, Bool, true, false, not, none, some, if◌then◌else◌, Bytes, bytes, is_empty,
  exited,
}
use systemboot.Base.Int.{pos}
use systemboot.Platform.{Platform, list_interfaces}
use systemboot.Platform.Devices.{Interface}
use systemboot.Platform.Monad.{M, pure, raise, handle, ◌>>=◌, call_for}
use systemboot.Checker.{Check, run_checks}
use systemboot.Checker.Interfaces.{
  interface_exists, link_speed, link_autoneg, interface_has_link_local_address,
  interface_has_global_addresses, interface_remediate, emergency_shell,
}

-- The loop over the interfaces.
unfoldable pub nonloopback_names : List Interface → List Bytes → List Bytes
nonloopback_names [] interfaces = interfaces
nonloopback_names (iface ∷ all_interfaces) interfaces =
    nonloopback_names all_interfaces
      (if not iface.is_loopback then interfaces ++ (iface.name ∷ []) else interfaces)

module _ (os : Platform) where
  abbrev pub checklist : Bytes → List Check
  checklist ifname =
      record {
        name = ifname ++ bytes " exists";
        run = interface_exists os ifname;
        remediate = some (interface_remediate os ifname);
        stop_on_error = true;
      }
      ∷ record {
        name = ifname ++ bytes " link speed";
        run = link_speed os ifname (pos 100);
        remediate = none;
        stop_on_error = false;
      }
      ∷ record {
        name = ifname ++ bytes " link autoneg";
        run = link_autoneg os ifname true;
        remediate = none;
        stop_on_error = false;
      }
      ∷ record {
        name = ifname ++ bytes " has link-local";
        run = interface_has_link_local_address os ifname;
        remediate = none;
        stop_on_error = true;
      }
      ∷ record {
        name = ifname ++ bytes " has global addresses";
        run = interface_has_global_addresses os (bytes "eth0");
        remediate = none;
        stop_on_error = true;
      }
      ∷ []

  unfoldable pub check_interface : Bytes → M (Unit {0})
  unfolding run_checks
  check_interface ifname = run_checks (checklist ifname)

  unfoldable pub get_non_loopback_interfaces : M (List Bytes)
  unfolding nonloopback_names
  get_non_loopback_interfaces = call_for os.interfaces list_interfaces >>= λ all_interfaces.
      pure (nonloopback_names all_interfaces [])

  -- The loop over the interfaces; `log.Fatal` ends the program with the status 1.
  unfoldable pub check_all : Bool → List Bytes → M (Unit {0})
  unfolding check_interface
  check_all do_emergency_shell [] = pure tt
  check_all do_emergency_shell (ifname ∷ interfaces) =
      let rest = check_all do_emergency_shell interfaces in
      handle (check_interface ifname) (λ _. rest)
        (λ _.
          if not do_emergency_shell
          then raise (exited 1)
          else handle (emergency_shell os) (λ _. rest) (λ _. raise (exited 1)))

  -- The command, for the flag `-shell` and the first argument.
  unfoldable pub fixmynetboot : Bool → Bytes → M (Unit {0})
  unfolding get_non_loopback_interfaces check_all
  fixmynetboot do_emergency_shell ifname =
      if is_empty ifname
      then (handle get_non_loopback_interfaces pure (λ _. raise (exited 1))
          >>= check_all do_emergency_shell)
      else check_all do_emergency_shell (ifname ∷ [])
