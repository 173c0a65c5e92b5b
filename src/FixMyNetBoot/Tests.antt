-- ===== src/FixMyNetBoot/Tests.antt =====
-- A run of the checks.
use systemboot.Base.{All, List, Bytes, ◌≡◌, refl, [], ◌∷◌, ok, true, false, bytes}
use systemboot.Platform.{Platform, done}
use systemboot.Platform.Monad.{handle, ◌>>=◌, pure, call, call_for}
use systemboot.Vpd.Store.Memory.{memory}
use systemboot.Checker.{run_checks}
use systemboot.Checker.Interfaces.{
  interface_exists, link_speed, link_autoneg, interface_has_link_local_address,
  interface_has_global_addresses, addresses, ip_list, find_address, eth_stats,
}
use systemboot.FixMyNetBoot.{check_interface, check_all, fixmynetboot}
use systemboot.FixMyNetBoot.Passed.{Passed, Checked, fixmynetboot-Passed}

-- Every interface is up, with a link-local and a global address.
abbrev machine : Platform
machine = record memory {
  link = λ h e. done (record { speed = 1000; autoneg = 1 });
  addresses = λ h e. done (
      record { is_ip_net = true; is_link_local_unicast = true; is_global_unicast = false }
      ∷ record { is_ip_net = true; is_link_local_unicast = false; is_global_unicast = true }
      ∷ []);
}

all_pass : (fixmynetboot machine false (bytes "eth1") []).0 ≡ ok tt
unfolding fixmynetboot check_all check_interface run_checks interface_exists link_speed link_autoneg
    interface_has_link_local_address interface_has_global_addresses addresses ip_list find_address
    eth_stats handle ◌>>=◌ pure call call_for
all_pass = refl

fixmynetboot-Passed_example :
    (names : List Bytes) × Checked machine (bytes "eth1") [] names × All (Passed machine) names
fixmynetboot-Passed_example = fixmynetboot-Passed machine (bytes "eth1") [] all_pass
