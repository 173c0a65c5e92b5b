-- ===== src/NetBoot.antt =====
-- netboot/main.go: the flags, the scheme of a URL and the HTTP client.
pub mod Boot
pub mod Command
pub mod Calls
pub mod Keeping
pub mod Dry
pub mod Requests
pub mod Started
pub mod Certificates
pub mod Attempts
pub mod Measured
mod Tests
use systemboot.Base.{
  Option, none, some, false, ◌∷◌, [], ◌++◌, Bool, not, ◌&&◌, if◌then◌else◌, Bytes, bytes, equal,
  is_empty, Error, Fault, external, message, wrapped,
}
use systemboot.Base.Int.{ℤ}
use systemboot.Text.Case.{to_lower}
use systemboot.Platform.{Platform, Answer, done, failed, system_cert_pool, read_file}
use systemboot.Platform.Devices.{
  Client, http_client, https_client, TlsConfig, default_config, insecure_skip_verify, root_cas,
}
use systemboot.Platform.Monad.{M, pure, raise, handle, ◌>>=◌, call_text}

pub record Flags : Type 0 where
  pub use_v4 : Bool
  pub use_v6 : Bool
  pub ifname : Bytes
  pub dry_run : Bool
  pub skip_dhcp : Bool
  pub override_netboot_url : Bytes
  pub read_timeout : ℤ
  pub dhcp_retries : ℤ
  pub user_class : Bytes
  pub ca_cert_file : Bytes
  pub skip_cert_verify : Bool
  pub do_fix : Bool

-- A parsed `url.URL`, with what the program reads of it.
pub record Url : Type 0 where
  pub scheme : Bytes
  pub path : Bytes

-- `url.Parse`, `http.NewRequest`, the test for a `net.Error` whose `Timeout` holds,
-- `AppendCertsFromPEM`, and `ConversationToNetconf` for the versions 6 and 4 of DHCP: the network
-- configuration and the URL of the boot file.
pub record Net : Type 0 where
  pub parse_url : Bytes → Answer Url
  pub new_request : Bytes → Answer (Unit {0})
  pub is_timeout : Error → Bool
  pub append_certs : Bytes → Bytes → Bytes
  pub conversation_to_netconf : Bytes → Answer (Bytes × Bytes)
  pub conversation_to_netconfv4 : Bytes → Answer (Bytes × Bytes)

-- `retryableNetError`, for the error nil or another one.
abbrev pub retryable_net_error : Net → Option Error → Bool
retryable_net_error net none = false
retryable_net_error net (some e) = net.is_timeout e

module _ (net : Net) where
  abbrev pub check_scheme : Answer Url → M Bytes
  check_scheme (failed e) = raise (external e)
  check_scheme (done u) =
      let scheme = to_lower u.scheme in
      if not (equal scheme (bytes "http")) && not (equal scheme (bytes "https"))
      then raise (message (bytes "URL scheme must be http or https"))
      else pure scheme

  unfoldable pub get_scheme : Bytes → M Bytes
  unfolding to_lower
  get_scheme urlstring = check_scheme (net.parse_url urlstring)

  module _ (os : Platform) where
    unfoldable pub load_ca_certs : Flags → M Bytes
    load_ca_certs flags = call_text os system_cert_pool >>= λ root_certs.
        handle (call_text os (read_file flags.ca_cert_file))
          (λ ca_certs. pure (net.append_certs root_certs ca_certs))
          (λ e. raise (wrapped (bytes "could not find cert file") e))

    -- The TLS configuration for the scheme https.
    abbrev pub tls_config : Flags → M TlsConfig
    tls_config flags =
        if flags.skip_cert_verify
        then pure insecure_skip_verify
        else if not (is_empty flags.ca_cert_file)
        then (load_ca_certs flags >>= λ pool. pure (root_cas pool))
        else pure default_config

    unfoldable pub get_client_for_bootfile : Flags → Bytes → M Client
    unfolding get_scheme load_ca_certs
    get_client_for_bootfile flags bootfile = get_scheme bootfile >>= λ scheme.
        if equal scheme (bytes "https")
        then (tls_config flags >>= λ config. pure (https_client config))
        else if equal scheme (bytes "http")
        then pure http_client
        else raise (message (bytes "Scheme is unsupported"))
