-- ===== src/NetBoot/Command.antt =====
-- netboot/main.go: the command.
use systemboot.Base.{◌∷◌, [], ◌++◌, List, not, ◌&&◌, if◌then◌else◌, Bytes, bytes, is_empty, exited}
use systemboot.Platform.{
  Platform, interface_by_name, nonloopback_interfaces, interface_up, run_command,
}
use systemboot.Platform.Monad.{M, pure, raise, handle, ◌>>=◌, ◌>>◌, call, call_texts}
use systemboot.NetBoot.{Flags, Net}
use systemboot.NetBoot.Boot.{dhcp6, dhcp4, boot}

module _ (net : Net) (os : Platform) (flags : Flags) where
  -- The names of the interfaces to try.
  unfoldable pub interface_list : M (List Bytes)
  interface_list =
      if not (is_empty flags.ifname)
      then handle (call os (interface_by_name flags.ifname)) (λ _. pure (flags.ifname ∷ []))
          (λ _. raise (exited 1))
      else handle (call_texts os nonloopback_interfaces) pure (λ _. raise (exited 1))

  -- Behind an attempt that failed.
  abbrev pub diagnose : Bytes → M (Unit {0})
  diagnose ifname =
      if flags.do_fix
      then handle (call os (run_command (bytes "fixmynetboot" ∷ ifname ∷ []))) pure
          (λ _. raise (exited 1))
      else pure tt

  -- The loop over the versions of DHCP.
  unfoldable pub try_dhcp : Bytes → List (Bytes → M (Bytes × Bytes)) → M (Unit {0})
  try_dhcp ifname [] = pure tt
  try_dhcp ifname (d ∷ dhcp) =
      let rest = try_dhcp ifname dhcp in
      handle (boot net os flags ifname d) (λ _. rest) (λ _. diagnose ifname >> rest)

  abbrev pub dhcp_functions : List (Bytes → M (Bytes × Bytes))
  dhcp_functions =
      (if flags.use_v6 then dhcp6 net os flags ∷ [] else [])
      ++ (if flags.use_v4 then dhcp4 net os flags ∷ [] else [])

  -- The loop over the interfaces; those that do not come up are skipped.
  unfoldable pub try_interfaces : List Bytes → M (Unit {0})
  unfolding try_dhcp
  try_interfaces [] = pure tt
  try_interfaces (iface ∷ iflist) =
      let rest = try_interfaces iflist in
      handle (call os (interface_up iface)) (λ _. try_dhcp iface dhcp_functions >> rest) (λ _. rest)

  unfoldable pub netboot : M (Unit {0})
  unfolding interface_list try_interfaces
  netboot =
      if flags.skip_dhcp && is_empty flags.override_netboot_url
      then raise (exited 1)
      else if not flags.use_v6 && not flags.use_v4
      then raise (exited 1)
      else (interface_list >>= try_interfaces) >> raise (exited 1)
