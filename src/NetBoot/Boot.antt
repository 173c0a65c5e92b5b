-- ===== src/NetBoot/Boot.antt =====
-- netboot/main.go: the DHCP requests, the attempts to fetch the boot file, and `boot`.
use systemboot.Base.{
  ℕ, zero, suc, ◌∷◌, [], Option, none, some, Bool, true, false, not, ◌||◌, ◌==◌, if◌then◌else◌,
  Bytes, bytes, equal, is_empty, message, wrapped,
}
use systemboot.Text.Split.{ends_with}
use systemboot.Text.FilePath.{path_base}
use systemboot.Platform.{
  Platform, sleep, http_get, read_body, close_body, write_file, open_file, kexec_file_load,
  kexec_reboot, dhcp_request, configure_interface,
}
use systemboot.Platform.Devices.{Client}
use systemboot.Platform.Monad.{
  M, pure, raise, crash, handle, finally, ◌>>=◌, ◌>>◌, call, call_number, call_text, note,
  from_answer, lift,
}
use systemboot.Crypto.Measure.{boot_config_pcr, try_measure_data}
use systemboot.NetBoot.{retryable_net_error, Flags, Url, Net, get_scheme, get_client_for_bootfile}

-- `maxHTTPAttempts`
abbrev pub max_http_attempts : ℕ
max_http_attempts = 3

-- `retryableHTTPError`, for a response with the status.
unfoldable pub retryable_http_error : ℕ → Bool
retryable_http_error status = status == 500 || status == 502

-- An error, with the text in front of it.
abbrev pub in_context {ℓ} : {A : Type ℓ} → Bytes → M A → M A
in_context text m = handle m pure (λ e. raise (wrapped text e))

abbrev pub user_class_option : Bytes → Option Bytes
user_class_option user_class = if not (is_empty user_class) then some user_class else none

module _ (net : Net) (os : Platform) (flags : Flags) where
  unfoldable pub dhcp6 : Bytes → M (Bytes × Bytes)
  dhcp6 ifname =
      in_context (bytes "DHCPv6: netboot request failed") (
        call_text os (
          dhcp_request ifname (record {
            v6 = true;
            timeout = flags.read_timeout;
            retries = flags.dhcp_retries;
            efi_x86_64 = true;
            user_class = user_class_option flags.user_class;
          })))
      >>= λ conversation. lift (from_answer (net.conversation_to_netconf conversation))

  unfoldable pub dhcp4 : Bytes → M (Bytes × Bytes)
  dhcp4 ifname =
      in_context (bytes "DHCPv4: netboot request failed") (
        call_text os (
          dhcp_request ifname (record {
            v6 = false;
            timeout = flags.read_timeout;
            retries = flags.dhcp_retries;
            efi_x86_64 = false;
            user_class = user_class_option flags.user_class;
          })))
      >>= λ conversation. lift (from_answer (net.conversation_to_netconfv4 conversation))

  -- The loop of the attempts, with the number of those left; `resp` is the latest response,
  -- by its status. An error never comes with a response of the status 500 or 502.
  unfoldable pub fetch_loop : ℕ → Client → Bytes → Option ℕ → M (Option ℕ)
  unfolding retryable_http_error
  fetch_loop zero client bootfile resp = pure resp
  fetch_loop (suc n) client bootfile resp =
      let rest = fetch_loop n client bootfile in
      handle (lift (from_answer (net.new_request bootfile)))
        (λ _.
          handle (call_number os (http_get client bootfile))
            (λ status.
              if retryable_http_error status
              then note (sleep 1) >> rest (some status)
              else pure (some status))
            (λ e.
              if retryable_net_error net (some e)
              then note (sleep 1) >> rest none
              else raise (wrapped (bytes "DHCP: http.Get failed") e)))
        (λ e. raise (wrapped (bytes "could not build request") e))

  -- The name of the file that the boot file is saved to.
  unfoldable pub boot_file_name : Url → M Bytes
  boot_file_name u =
      let filename = path_base u.path in
      if ends_with b'/' u.path
      then raise (message (bytes "invalid file path, cannot end with '/'"))
      else if equal filename (bytes ".") || is_empty filename
      then raise (message (bytes "invalid empty file name extracted from file path"))
      else pure filename

  unfoldable pub kexec_into : Bytes → M (Unit {0})
  kexec_into filename =
      in_context (bytes "DHCP: cannot open file") (call_number os (open_file filename))
      >>= λ kernel.
          in_context (bytes "DHCP: kexec.FileLoad failed")
            (call os (kexec_file_load kernel none []))
          >> in_context (bytes "DHCP: kexec.Reboot failed") (call os kexec_reboot)

  -- `boot` behind the measurement.
  unfoldable pub save_and_start : Bytes → Bytes → M (Unit {0})
  unfolding boot_file_name kexec_into
  save_and_start bootfile body =
      in_context (bytes "DHCP: cannot parse URL") (lift (from_answer (net.parse_url bootfile)))
      >>= λ u. boot_file_name u >>= λ filename.
          in_context (bytes "DHCP: cannot write to file") (call os (write_file filename body))
          >> (if not flags.dry_run then kexec_into filename else pure tt)

  -- `boot` behind the attempts. Where there is no response, `resp.Body` is a run-time panic.
  unfoldable pub use_response : Bytes → Option ℕ → M (Unit {0})
  unfolding save_and_start
  use_response bootfile none = crash
  use_response bootfile (some status) =
      finally
        (if not (status == 200)
          then raise (message (bytes "status code is not 200 OK"))
          else (in_context (bytes "DHCP: cannot read boot file from the network")
                (call_text os read_body)
              >>= λ body. try_measure_data os boot_config_pcr body >> save_and_start bootfile body))
        (λ h. close_body ∷ h)

  -- The URL that DHCP gives, without the flag for it.
  unfoldable pub lease : Bytes → (Bytes → M (Bytes × Bytes)) → M Bytes
  lease ifname dhcp =
      in_context (bytes "DHCPv6: netboot request failed") (dhcp ifname) >>= λ answer.
      (if not flags.dry_run
        then in_context (bytes "DHCP: cannot configure interface")
            (call os (configure_interface ifname answer.0))
        else pure tt)
      >> pure answer.1

  -- `boot` behind the choice of the URL.
  unfoldable pub boot_from : Bytes → M (Unit {0})
  unfolding fetch_loop use_response
  boot_from bootfile =
      in_context (bytes "DHCP: cannot get scheme from URL") (get_scheme net bootfile) >>= λ scheme.
      if is_empty scheme
      then raise (message (bytes "DHCP: no valid scheme found in URL"))
      else (in_context (bytes "DHCP: cannot get client")
            (get_client_for_bootfile net os flags bootfile)
          >>= λ client. fetch_loop max_http_attempts client bootfile none >>= use_response bootfile)

  unfoldable pub boot : Bytes → (Bytes → M (Bytes × Bytes)) → M (Unit {0})
  unfolding lease boot_from
  boot ifname dhcp = (if flags.skip_dhcp then pure [] else lease ifname dhcp) >>= λ bootfile.
      boot_from
        (if not (is_empty flags.override_netboot_url) then flags.override_netboot_url else bootfile)
