-- ===== src/Checker/Interfaces.antt =====
-- pkg/checker/interfaces.go, dmesg.go and commandexecutor.go: the checks and the remediations.
use systemboot.Base.{
  ℕ, List, [], ◌∷◌, ◌++◌, Bool, not, ◌==◌, ltb, if◌then◌else◌, none, Bytes, bytes, length, Error,
  message, wrapped, true, false,
}
use systemboot.Base.Int.{ℤ, pos, negsuc}
use systemboot.Text.Split.{split_on, contains}
use systemboot.Platform.{
  Platform, Answer, interface_by_name, ethtool_get, interface_addrs, read_dmesg, dhcp_request,
  run_command,
}
use systemboot.Platform.Devices.{Link, Address}
use systemboot.Platform.Monad.{
  M, pure, raise, handle, lift, ◌>>=◌, ◌>>◌, call, call_text, call_for, from_answer,
}

-- The loop of `grep` over the lines.
unfoldable pub matching_lines : Bytes → List Bytes → List Bytes → List Bytes
matching_lines pattern [] ret = ret
matching_lines pattern (line ∷ lines) ret =
    matching_lines pattern lines (if contains line pattern then ret ++ (line ∷ []) else ret)

unfoldable pub grep : Bytes → Bytes → List Bytes
unfolding matching_lines split_on
grep b pattern = matching_lines pattern (split_on b'\n' b) []

-- The loop over the addresses of an interface; one that is no `net.IPNet` is an error.
unfoldable pub ip_list : List Address → List Address → M (List Address)
ip_list iplist [] = pure iplist
ip_list iplist (addr ∷ addrs) =
    let rest = ip_list (iplist ++ (addr ∷ [])) addrs in
    if not addr.is_ip_net then raise (message (bytes "not a net.IPNet")) else rest

-- The loop that looks for an address of a kind.
unfoldable pub find_address : (Address → Bool) → Error → List Address → M (Unit {0})
find_address kind e [] = raise e
find_address kind e (addr ∷ addrs) =
    let rest = find_address kind e addrs in if kind addr then pure tt else rest

-- `int(eth.Speed) < minSpeed`
abbrev pub slower : ℕ → ℤ → Bool
slower speed (pos n) = ltb speed n
slower speed (negsuc n) = false

module _ (os : Platform) where
  unfoldable pub interface_exists : Bytes → M (Unit {0})
  interface_exists ifname = call os (interface_by_name ifname)

  unfoldable pub eth_stats : Bytes → M Link
  eth_stats ifname = call_for os.link (ethtool_get ifname)

  unfoldable pub link_speed : Bytes → ℤ → M (Unit {0})
  unfolding eth_stats
  link_speed ifname min_speed = eth_stats ifname >>= λ eth.
      if slower eth.speed min_speed then raise (message (bytes "link speed")) else pure tt

  unfoldable pub link_autoneg : Bytes → Bool → M (Unit {0})
  unfolding eth_stats
  link_autoneg ifname expected = eth_stats ifname >>= λ eth.
      let want = if expected then 1 else 0 in
      if not (eth.autoneg == want) then raise (message (bytes "link autoneg")) else pure tt

  unfoldable pub addresses : Bytes → M (List Address)
  unfolding ip_list
  addresses ifname =
      call os (interface_by_name ifname)
      >> (call_for os.addresses (interface_addrs ifname) >>= ip_list [])

  unfoldable pub interface_has_link_local_address : Bytes → M (Unit {0})
  unfolding addresses find_address
  interface_has_link_local_address ifname =
      addresses ifname
      >>= find_address (λ addr. addr.is_link_local_unicast)
          (message (bytes "no link local addresses for interface " ++ ifname))

  unfoldable pub interface_has_global_addresses : Bytes → M (Unit {0})
  unfolding addresses find_address
  interface_has_global_addresses ifname =
      addresses ifname
      >>= find_address (λ addr. addr.is_global_unicast)
          (message (bytes "no unicast global addresses for interface " ++ ifname))

  unfoldable pub get_dmesg : M Bytes
  get_dmesg = call_text os read_dmesg

  unfoldable pub interface_remediate : Bytes → M (Unit {0})
  unfolding grep get_dmesg
  interface_remediate ifname =
      handle get_dmesg
        (λ dmesg.
          if length (grep dmesg ifname) == 0
          then raise (message (bytes "no trace of the interface in dmesg"))
          else pure tt)
        (λ e. raise (wrapped (bytes "cannot read dmesg") e))

  -- `conversation_to_netconf` is the function of the DHCP library.
  unfoldable pub interface_can_do_dhcpv6 : (Bytes → Answer (Bytes × Bytes)) → Bytes → M (Unit {0})
  interface_can_do_dhcpv6 conversation_to_netconf ifname =
      call_text os (
        dhcp_request ifname (record {
          v6 = true;
          timeout = pos 10;
          retries = pos 2;
          efi_x86_64 = false;
          user_class = none;
        }))
      >>= λ conv. lift (from_answer (conversation_to_netconf conv)) >>= λ _. pure tt

  unfoldable pub run_cmd : Bytes → List Bytes → M (Unit {0})
  run_cmd prog args = call os (run_command (prog ∷ args))

  abbrev pub default_shell : Bytes
  default_shell = bytes "elvish"

  -- The check and the remediation that run a command.
  unfoldable pub command_executor : Bytes → List Bytes → M (Unit {0})
  unfolding run_cmd
  command_executor prog args = run_cmd prog args

  unfoldable pub command_executor_remediation : Bytes → List Bytes → M (Unit {0})
  unfolding run_cmd
  command_executor_remediation prog args = run_cmd prog args

  unfoldable pub emergency_shell : M (Unit {0})
  unfolding command_executor_remediation
  emergency_shell = command_executor_remediation default_shell []
