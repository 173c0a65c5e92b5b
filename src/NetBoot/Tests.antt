-- ===== src/NetBoot/Tests.antt =====
-- Runs of the network boot.
use systemboot.Base.{
  ℕ, ◌≡◌, refl, ◌≤◌, ◌+◌, ◌*◌, [], ◌∷◌, none, true, false, Bytes, bytes, Error, Bool, external,
  fault, panic,
}
use systemboot.Base.Int.{pos}
use systemboot.Platform.{Platform, Trace, Event, Answer, done, failed, http_get}
use systemboot.Platform.Devices.{http_client}
use systemboot.Platform.Monad.{◌>>=◌, handle, call, pure}
use systemboot.Vpd.Store.Memory.{memory}
use systemboot.NetBoot.{Flags, Net}
use systemboot.NetBoot.Boot.{fetch_loop, use_response, max_http_attempts}
use systemboot.NetBoot.Command.{netboot, interface_list}
use systemboot.NetBoot.Attempts.{Fetched, fetch_loop-Fetched, fetch-panic}
use systemboot.NetBoot.Certificates.{AllChecked, netboot-AllChecked}
use systemboot.NetBoot.Dry.{effects, netboot-effects}
use systemboot.NetBoot.Requests.{netboot-requests}
use systemboot.NetBoot.Requests.Rules.{requests}
use systemboot.NetBoot.Started.{AllFetched, netboot-AllFetched}

abbrev is_slow : Error → Bool
is_slow (external (fault n)) = true
is_slow e = false

abbrev network : Net
network = record {
  parse_url = λ url. done (record { scheme = bytes "HTTPS"; path = bytes "/images/linux" });
  new_request = λ url. done tt;
  is_timeout = is_slow;
  append_certs = λ pool pem. pem;
  conversation_to_netconf = λ c. done (c, bytes "https://boot/images/linux");
  conversation_to_netconfv4 = λ c. done (c, bytes "https://boot/images/linux");
}

-- The server answers with the status 200.
abbrev answers : Trace → Event → Answer ℕ
answers h (http_get client url) = done 200
answers h e = done 3

abbrev online : Platform
online = record memory { number = answers; text = λ h e. done (bytes "boot file") }

-- Each request times out.
abbrev is_silent : Trace → Event → Answer ℕ
is_silent h (http_get client url) = failed (fault 110)
is_silent h e = done 3

abbrev silent : Platform
silent = record memory { number = is_silent }

abbrev flags : Flags
flags = record {
  use_v4 = false;
  use_v6 = true;
  ifname = bytes "eth0";
  dry_run = false;
  skip_dhcp = false;
  override_netboot_url = [];
  read_timeout = pos 3;
  dhcp_retries = pos 3;
  user_class = [];
  ca_cert_file = bytes "/etc/cacerts.pem";
  skip_cert_verify = false;
  do_fix = false;
}

abbrev url : Bytes
url = bytes "https://boot/images/linux"

fetch_loop-Fetched_example :
    Fetched network online http_client url 3 none []
      (fetch_loop network online flags 3 http_client url none []).0
      (fetch_loop network online flags 3 http_client url none []).1
fetch_loop-Fetched_example = fetch_loop-Fetched network online http_client url flags 3 none []

fetch-panic_example :
    ((fetch_loop network silent flags max_http_attempts http_client url none
        >>= use_response network silent flags url)
      []).0
    ≡ panic
fetch-panic_example =
    fetch-panic network silent http_client url flags [] refl (λ t. (fault 110, refl, refl))

netboot-AllChecked_example : AllChecked (netboot network online flags []).1
netboot-AllChecked_example = netboot-AllChecked network online flags refl

netboot-AllFetched_example : AllFetched online (netboot network online flags []).1
netboot-AllFetched_example = netboot-AllFetched online network flags [] tt

abbrev dry_flags : Flags
dry_flags = record flags { dry_run = true }

netboot-effects_example : effects (netboot network online dry_flags []).1 ≡ 0
netboot-effects_example = netboot-effects network online dry_flags [] refl

-- The flag names one interface, and one version of DHCP is in use.
netboot-requests_example : requests (netboot network silent flags []).1 ≤ 0 + 1 * (1 * 3)
unfolding interface_list handle call pure
netboot-requests_example = netboot-requests network silent flags (bytes "eth0" ∷ []) [] refl
