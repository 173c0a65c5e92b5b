-- ===== src/NetBoot/Keeping.antt =====
-- What the whole command keeps of the calls made so far.
use systemboot.Base.{
  ℕ, ◌≡◌, refl, not, [], ◌∷◌, List, All, All-append, Option, none, some, Bool, true, false,
  Bool-cases, inl, inr, if◌then◌else◌, Bytes,
}
use systemboot.Platform.{
  Platform, Trace, Event, http_get, configure_interface, kexec_file_load, kexec_reboot, tpm_open,
  tpm_measure, tpm_close, system_cert_pool, read_file, sleep, dhcp_request, open_file, write_file,
  read_body, close_body, run_command, interface_up, interface_by_name, nonloopback_interfaces,
}
use systemboot.Platform.Devices.{Client}
use systemboot.Platform.Monad.{M, pure}
use systemboot.Platform.Rules.{
  Keeps, Keeps-bind, Keeps-handle, Keeps-if, Keeps-pure, Keeps-raise, Keeps-finally, Keeps-call,
  Keeps-call_text, Keeps-crash, Keeps-bind_Only, keeps_rules, Only, Only-pure, Only-raise,
  Only-handle,
}
use systemboot.Crypto.Measure.{try_measure_data-Keeps}
use systemboot.NetBoot.{Flags, Net, get_client_for_bootfile}
use systemboot.NetBoot.Boot.{
  dhcp6, dhcp4, boot_file_name, kexec_into, save_and_start, use_response, lease, boot_from, boot,
  max_http_attempts,
}
use systemboot.NetBoot.Calls.{
  is_setup, in_context-Keeps, get_scheme-Keeps, get_client-Keeps, fetch_loop-Keeps, dhcp6-Keeps,
  dhcp4-Keeps,
}
use systemboot.NetBoot.Command.{interface_list, try_dhcp, dhcp_functions, try_interfaces, netboot}

-- The calls of the command, but for those that request the boot file, configure an interface, and
-- load or start a kernel.
abbrev pub is_harmless : Event → Bool
is_harmless system_cert_pool = true
is_harmless (read_file path) = true
is_harmless (sleep n) = true
is_harmless (dhcp_request ifname request) = true
is_harmless (write_file path content) = true
is_harmless (open_file path) = true
is_harmless tpm_open = true
is_harmless (tpm_measure pcr content) = true
is_harmless tpm_close = true
is_harmless read_body = true
is_harmless close_body = true
is_harmless (run_command cmd) = true
is_harmless (interface_up name) = true
is_harmless (interface_by_name name) = true
is_harmless nonloopback_interfaces = true
is_harmless e = false

setup_is_harmless : (e : Event) → is_setup e ≡ true → is_harmless e ≡ true
setup_is_harmless system_cert_pool r = refl
setup_is_harmless (read_file path) r = refl
setup_is_harmless (sleep n) r = refl
setup_is_harmless (dhcp_request ifname request) r = refl
setup_is_harmless e r = cc

module _ {κ} (P : Trace → Type κ) (net : Net) (os : Platform) (flags : Flags)
    (harmless : (e : Event) → is_harmless e ≡ true → (h : Trace) → P h → P (e ∷ h)) where
  ruleset net_rules = (keeps_rules, Keeps-finally, Keeps-if)

  setup : (e : Event) → is_setup e ≡ true → (h : Trace) → P h → P (e ∷ h)
  setup e r = harmless e (setup_is_harmless e r)

  -- What is done only in a real run.
  unless_dry-Keeps :
      (m : M (Unit {0}))
      → (flags.dry_run ≡ false → Keeps P m)
      → Keeps P (if not flags.dry_run then m else pure tt)
  unless_dry-Keeps m k = elim (Bool-cases flags.dry_run) [
    | inl d ↦ rw d (Keeps-pure P tt)
    | inr d ↦ rw d (k d)
  ]

  -- Functions that are tried one behind the other.
  abbrev AllKeep : List (Bytes → M (Bytes × Bytes)) → Type κ
  AllKeep ds = All (λ d. (ifname : Bytes) → Keeps P (d ifname)) ds

  dhcp_functions-AllKeep : AllKeep (dhcp_functions net os flags)
  dhcp_functions-AllKeep = All-append _ _ _ (six flags.use_v6) (four flags.use_v4)
    where
      six : (b : Bool) → AllKeep (if b then dhcp6 net os flags ∷ [] else [])
      six true = (dhcp6-Keeps P net os flags setup, tt)
      six false = tt

      four : (b : Bool) → AllKeep (if b then dhcp4 net os flags ∷ [] else [])
      four true = (dhcp4-Keeps P net os flags setup, tt)
      four false = tt

  -- Behind the attempts to fetch the boot file.
  module _
      (loads : flags.dry_run ≡ false
        → (fd : ℕ) (h : Trace) → P h
        → P (kexec_file_load fd none [] ∷ h))
      (reboots : flags.dry_run ≡ false → (h : Trace) → P h → P (kexec_reboot ∷ h)) where
    kexec_into-Keeps :
        (filename : Bytes) → flags.dry_run ≡ false → Keeps P (kexec_into net os flags filename)
    unfolding kexec_into
    kexec_into-Keeps filename d = search (net_rules, in_context-Keeps, harmless, reboots d) depth 12

    save_and_start-Keeps : (url body : Bytes) → Keeps P (save_and_start net os flags url body)
    unfolding save_and_start boot_file_name
    save_and_start-Keeps url body =
        search (net_rules, in_context-Keeps, harmless, unless_dry-Keeps, kexec_into-Keeps) depth 16

    pub use_response-Keeps :
        (url : Bytes) (resp : Option ℕ) → Keeps P (use_response net os flags url resp)
    unfolding use_response
    use_response-Keeps url none = Keeps-crash P
    use_response-Keeps url (some status) =
        Keeps-finally P _ _
          (Keeps-if P _ _ _ (Keeps-raise P _) (
            Keeps-bind P _ _
              (in_context-Keeps P _ _ (Keeps-call_text P os _ (harmless read_body refl)))
              (λ body.
                Keeps-bind P _ _
                  (try_measure_data-Keeps os P (harmless _ refl) (λ _ _. harmless _ refl)
                    (harmless _ refl) (λ _. harmless _ refl) _ body)
                  (λ _. save_and_start-Keeps url body))))
          (harmless close_body refl)

  -- The rest of the command.
  module _
      (configures : flags.dry_run ≡ false
        → (ifname conf : Bytes) (h : Trace) → P h
        → P (configure_interface ifname conf ∷ h)) where
    pub lease-Keeps :
        (ifname : Bytes) (d : Bytes → M (Bytes × Bytes))
        → Keeps P (d ifname)
        → Keeps P (lease net os flags ifname d)
    unfolding lease
    lease-Keeps ifname d k = Keeps-bind P _ _ (in_context-Keeps P _ _ k) (λ answer.
        Keeps-bind P _ _
          (unless_dry-Keeps _
            (λ r. in_context-Keeps P _ _ (Keeps-call P os _ (configures r ifname answer.0))))
          (λ _. Keeps-pure P answer.1))

    -- With a property of the clients that the command makes.
    module _ (Q : Client → Type 0)
        (gets : (c : Client) (url : Bytes) (h : Trace) → Q c → P h → P (http_get c url ∷ h))
        (clients : (url : Bytes) → Only Q (get_client_for_bootfile net os flags url))
        (responses : (url : Bytes) (resp : Option ℕ)
          → Keeps P (use_response net os flags url resp)) where
      boot_from-Keeps : (url : Bytes) → Keeps P (boot_from net os flags url)
      unfolding boot_from
      boot_from-Keeps url =
          Keeps-bind P _ _ (in_context-Keeps P _ _ (get_scheme-Keeps P net url)) (λ scheme.
            Keeps-if P _ _ _ (Keeps-raise P _) (
              Keeps-bind_Only P Q _ _
                (in_context-Keeps P _ _ (get_client-Keeps P net os flags setup url))
                (Only-handle Q Q _ _ _ (clients url) (λ c k. Only-pure _ c k) (λ _. Only-raise _ _))
                (λ client k.
                  Keeps-bind P _ _
                    (fetch_loop-Keeps P net os flags setup max_http_attempts client url none
                      (λ h. gets client url h k))
                    (responses url))))

      boot-Keeps :
          (d : Bytes → M (Bytes × Bytes)) (ifname : Bytes)
          → Keeps P (d ifname)
          → Keeps P (boot net os flags ifname d)
      unfolding boot
      boot-Keeps d ifname k =
          Keeps-bind P _ _ (Keeps-if P _ _ _ (Keeps-pure P []) (lease-Keeps ifname d k))
            (λ bootfile. boot_from-Keeps _)

      try_dhcp-Keeps :
          (ifname : Bytes) (ds : List (Bytes → M (Bytes × Bytes)))
          → AllKeep ds
          → Keeps P (try_dhcp net os flags ifname ds)
      unfolding try_dhcp
      try_dhcp-Keeps ifname [] k = Keeps-pure P _
      try_dhcp-Keeps ifname (d ∷ ds) (k, ks) =
          let rest = try_dhcp-Keeps ifname ds ks in
          Keeps-handle P _ _ _ (boot-Keeps d ifname (k ifname)) (λ _. rest)
            (λ e. Keeps-bind P _ _ (search (net_rules, harmless)) (λ _. rest))

      try_interfaces-Keeps : (iflist : List Bytes) → Keeps P (try_interfaces net os flags iflist)
      unfolding try_interfaces
      try_interfaces-Keeps [] = Keeps-pure P _
      try_interfaces-Keeps (iface ∷ iflist) =
          let rest = try_interfaces-Keeps iflist in
          Keeps-handle P _ _ _ (Keeps-call P os _ (harmless _ refl))
            (λ _.
              Keeps-bind P _ _
                (try_dhcp-Keeps iface (dhcp_functions net os flags) dhcp_functions-AllKeep)
                (λ _. rest))
            (λ _. rest)

      pub netboot-Keeps : Keeps P (netboot net os flags)
      unfolding netboot interface_list
      netboot-Keeps = search (net_rules, harmless, try_interfaces-Keeps) depth 12
