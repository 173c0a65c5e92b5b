-- ===== src/NetBoot/Certificates.antt =====
-- The HTTP clients that the command uses.
use systemboot.Base.{equal, bytes, message, ◌≡◌, [], ◌∷◌, true, false, Bytes, is_empty, not}
use systemboot.Platform.{Event, Platform, Trace, http_get}
use systemboot.Platform.Devices.{
  Client, http_client, https_client, default_config, insecure_skip_verify, root_cas,
}
use systemboot.Platform.Rules.{Only, Only-pure, Only-raise, Only-bind, Only-if, Only-any}
use systemboot.NetBoot.{Flags, Net, get_scheme, load_ca_certs, tls_config, get_client_for_bootfile}
use systemboot.NetBoot.Keeping.{is_harmless, netboot-Keeps, use_response-Keeps}
use systemboot.NetBoot.Command.{netboot}

-- The client checks the certificates of the server, where it uses any.
abbrev pub Checks : Client → Type 0
Checks http_client = Unit {0}
Checks (https_client default_config) = Unit {0}
Checks (https_client insecure_skip_verify) = ⊥
Checks (https_client (root_cas pool)) = Unit {0}

-- Each request so far was made by a client that does.
abbrev pub AllChecked : Trace → Type 0
AllChecked [] = Unit {0}
AllChecked (http_get client url ∷ h) = Checks client × AllChecked h
AllChecked (_ ∷ h) = AllChecked h

harmless : (e : Event) → is_harmless e ≡ true → (h : Trace) → AllChecked h → AllChecked (e ∷ h)
harmless (http_get client url) r h c = cc
harmless e r h c = c

module _ (net : Net) (os : Platform) (flags : Flags) where
  module _ (verify : flags.skip_cert_verify ≡ false) where
    tls_config-Only : Only (λ c. Checks (https_client c)) (tls_config net os flags)
    tls_config-Only =
        Only-if _ flags.skip_cert_verify _ _ (λ e. cc)
          (λ _.
            Only-if _ (not (is_empty flags.ca_cert_file)) _ _
              (λ _.
                Only-bind (λ _. Unit {0}) _ (load_ca_certs net os flags) _ (Only-any _)
                  (λ pool _. Only-pure _ (root_cas pool) tt))
              (λ _. Only-pure _ default_config tt))

    get_client-Only : (url : Bytes) → Only Checks (get_client_for_bootfile net os flags url)
    unfolding get_client_for_bootfile
    get_client-Only url =
        Only-bind (λ _. Unit {0}) _ (get_scheme net url) _ (Only-any _)
          (λ scheme _.
            Only-if _ (equal scheme (bytes "https")) _ _
              (λ _.
                Only-bind (λ c. Checks (https_client c)) _ (tls_config net os flags) _
                  tls_config-Only (λ c k. Only-pure _ (https_client c) k))
              (λ _.
                Only-if _ (equal scheme (bytes "http")) _ _ (λ _. Only-pure _ http_client tt)
                  (λ _. Only-raise _ (message (bytes "Scheme is unsupported")))))

-- Without `-skip-cert-verify`, no request that the command makes is by a client that does not check
-- the certificate of an HTTPS server, whatever DHCP and the network answer.
pub netboot-AllChecked :
    (net : Net) (os : Platform) (flags : Flags)
    → flags.skip_cert_verify ≡ false
    → AllChecked (netboot net os flags []).1
netboot-AllChecked net os flags verify =
    (netboot-Keeps AllChecked net os flags harmless (λ _ _ _ h p. p) Checks (λ c url h k p. (k, p))
        (get_client-Only net os flags verify)
        (use_response-Keeps AllChecked net os flags harmless (λ _ _ h p. p) (λ _ h p. p))).at
      [] tt
