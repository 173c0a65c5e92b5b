-- ===== src/NetBoot/Calls.antt =====
-- What the parts of `boot` keep of the calls made so far.
use systemboot.Base.{ℕ, zero, suc, ◌≡◌, [], ◌∷◌, Option, none, Bool, true, false, Bytes}
use systemboot.Platform.{
  Platform, Trace, Event, Answer, done, failed, http_get, system_cert_pool, read_file, sleep,
  dhcp_request, open_file, write_file, kexec_file_load, kexec_reboot,
}
use systemboot.Platform.Devices.{Client}
use systemboot.Platform.Monad.{M}
use systemboot.Platform.Rules.{
  Keeps, Keeps-handle, Keeps-if, Keeps-pure, Keeps-raise, Keeps-finally, Keeps-call_number,
  Keeps-lift, keeps_rules,
}
use systemboot.NetBoot.{
  Flags, Net, Url, check_scheme, get_scheme, load_ca_certs, get_client_for_bootfile,
}
use systemboot.NetBoot.Boot.{
  in_context, dhcp6, dhcp4, fetch_loop, boot_file_name, kexec_into, save_and_start,
}

-- The calls up to the request for the boot file.
abbrev pub is_setup : Event → Bool
is_setup system_cert_pool = true
is_setup (read_file path) = true
is_setup (sleep n) = true
is_setup (dhcp_request ifname request) = true
is_setup e = false

-- The calls that save it.
abbrev pub is_saving : Event → Bool
is_saving (write_file path content) = true
is_saving (open_file path) = true
is_saving kexec_reboot = true
is_saving e = false

module _ {κ} (P : Trace → Type κ) where
  ruleset net_rules = (keeps_rules, Keeps-finally, Keeps-if)

  pub in_context-Keeps {ℓ} :
      {A : Type ℓ} (text : Bytes) (m : M A) → Keeps P m → Keeps P (in_context text m)
  in_context-Keeps text m k = Keeps-handle P _ _ _ k (Keeps-pure P) (λ _. Keeps-raise P _)

  pub get_scheme-Keeps : (net : Net) (url : Bytes) → Keeps P (get_scheme net url)
  unfolding get_scheme
  get_scheme-Keeps net url = checked (net.parse_url url)
    where
      checked : (u : Answer Url) → Keeps P (check_scheme net u)
      checked (failed e) = Keeps-raise P _
      checked (done u) = Keeps-if P _ _ _ (Keeps-raise P _) (Keeps-pure P _)

  module _ (net : Net) (os : Platform) (flags : Flags)
      (calls : (e : Event) → is_setup e ≡ true → (h : Trace) → P h → P (e ∷ h)) where
    load_ca_certs-Keeps : Keeps P (load_ca_certs net os flags)
    unfolding load_ca_certs
    load_ca_certs-Keeps = search (net_rules, calls)

    pub get_client-Keeps : (url : Bytes) → Keeps P (get_client_for_bootfile net os flags url)
    unfolding get_client_for_bootfile
    get_client-Keeps url = search (net_rules, get_scheme-Keeps, load_ca_certs-Keeps) depth 10

    pub fetch_loop-Keeps :
        (n : ℕ) (client : Client) (url : Bytes) (resp : Option ℕ)
        → ((h : Trace) → P h → P (http_get client url ∷ h))
        → Keeps P (fetch_loop net os flags n client url resp)
    unfolding fetch_loop
    fetch_loop-Keeps zero client url resp gets = Keeps-pure P _
    fetch_loop-Keeps (suc n) client url resp gets =
        let rest = λ (r : Option ℕ). fetch_loop-Keeps n client url r gets in
        Keeps-handle P _ _ _ (Keeps-lift P _)
          (λ _.
            Keeps-handle P _ _ _ (Keeps-call_number P os _ gets)
              (λ status. search (net_rules, calls, rest)) (λ e. search (net_rules, calls, rest)))
          (λ e. Keeps-raise P _)

    pub dhcp6-Keeps : (ifname : Bytes) → Keeps P (dhcp6 net os flags ifname)
    unfolding dhcp6
    dhcp6-Keeps ifname = search (net_rules, calls) depth 8

    pub dhcp4-Keeps : (ifname : Bytes) → Keeps P (dhcp4 net os flags ifname)
    unfolding dhcp4
    dhcp4-Keeps ifname = search (net_rules, calls) depth 8

  module _ (net : Net) (os : Platform) (flags : Flags)
      (calls : (e : Event) → is_saving e ≡ true → (h : Trace) → P h → P (e ∷ h)) where
    pub save_and_start-Keeps :
        ((fd : ℕ) (h : Trace) → P h → P (kexec_file_load fd none [] ∷ h))
        → (url body : Bytes) → Keeps P (save_and_start net os flags url body)
    unfolding save_and_start boot_file_name kexec_into
    save_and_start-Keeps loads url body = search (net_rules, calls, loads) depth 16
