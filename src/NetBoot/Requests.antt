-- ===== src/NetBoot/Requests.antt =====
-- How many requests the command makes for boot files.
pub mod Rules
use systemboot.Base.{
  exited, not, is_empty, ◌&&◌, ℕ, zero, suc, ◌+◌, ◌*◌, ◌≤◌, ◌≡◌, refl, [], ◌∷◌, List, length, All,
  All-append, Option, none, Bool, true, false, if◌then◌else◌, Bytes, Error, Outcome, ok, err, panic,
  arith,
}
use native.Mathlib.Nat.{suc-mul}
use systemboot.Platform.{Platform, Trace, Event, http_get, sleep}
use systemboot.Platform.Devices.{Client}
use systemboot.Platform.Monad.{M, handle, pure, raise, proceed, ◌>>=◌, ◌>>◌, note, call_number}
use systemboot.Platform.Rules.{Keeps, Keeps-lift, Keeps-if, Keeps-call, keeps_rules}
use systemboot.NetBoot.{Flags, Net, get_scheme, get_client_for_bootfile}
use systemboot.NetBoot.Boot.{
  dhcp6, dhcp4, fetch_loop, boot_from, boot, max_http_attempts, in_context, use_response, lease,
}
use systemboot.NetBoot.Calls.{
  is_setup, in_context-Keeps, get_scheme-Keeps, get_client-Keeps, dhcp6-Keeps, dhcp4-Keeps,
}
use systemboot.NetBoot.Keeping.{is_harmless, use_response-Keeps, lease-Keeps}
use systemboot.NetBoot.Command.{interface_list, try_dhcp, dhcp_functions, try_interfaces, netboot}
use systemboot.NetBoot.Requests.Rules.{
  requests, Requests, last_raise, guarded, pause, Requests-pure, Requests-raise, Requests-of_Keeps,
  Requests-weaken, Requests-if, Requests-handle, Requests-bind,
}

module _ (net : Net) (os : Platform) (flags : Flags) where
  one_request : (client : Client) (url : Bytes) → Requests 1 (call_number os (http_get client url))
  unfolding call_number
  one_request client url = record { at = λ h. omega arith }

  module _ (k : ℕ) where
    abbrev AtMost : Trace → Type 0
    AtMost t = requests t ≤ k

    harmless : (e : Event) → is_harmless e ≡ true → (h : Trace) → AtMost h → AtMost (e ∷ h)
    harmless (http_get client url) r h p = cc
    harmless e r h p = p

    setup : (e : Event) → is_setup e ≡ true → (h : Trace) → AtMost h → AtMost (e ∷ h)
    setup (http_get client url) r h p = cc
    setup e r h p = p

    -- The parts of the command that make no request.
    scheme-AtMost : (text url : Bytes) → Keeps AtMost (in_context text (get_scheme net url))
    scheme-AtMost text url = in_context-Keeps AtMost _ _ (get_scheme-Keeps AtMost net url)

    client-AtMost :
        (text url : Bytes)
        → Keeps AtMost (in_context text (get_client_for_bootfile net os flags url))
    client-AtMost text url =
        in_context-Keeps AtMost _ _ (get_client-Keeps AtMost net os flags setup url)

    use_response-AtMost :
        (url : Bytes) (resp : Option ℕ) → Keeps AtMost (use_response net os flags url resp)
    use_response-AtMost url resp =
        use_response-Keeps AtMost net os flags harmless (λ _ _ h p. p) (λ _ h p. p) url resp

    lease-AtMost :
        (ifname : Bytes) (d : Bytes → M (Bytes × Bytes))
        → Keeps AtMost (d ifname)
        → Keeps AtMost (lease net os flags ifname d)
    lease-AtMost ifname d k = lease-Keeps AtMost net os flags harmless (λ _ _ _ h p. p) ifname d k

  fetch_loop-Requests :
      (n : ℕ) (client : Client) (url : Bytes) (resp : Option ℕ)
      → Requests n (fetch_loop net os flags n client url resp)
  unfolding fetch_loop
  fetch_loop-Requests zero client url resp = Requests-pure 0 resp
  fetch_loop-Requests (suc n) client url resp =
      let rest = fetch_loop-Requests n client url in
      Requests-handle 0 (suc n) (omega arith) _ _ _
        (Requests-of_Keeps _ (λ k. Keeps-lift (AtMost k) _))
        (λ _.
          Requests-handle 1 n (omega arith) _ _ _ (one_request client url)
            (λ status. Requests-if n _ _ _ (pause n _ (rest _)) (Requests-pure n _))
            (λ e. Requests-if n _ _ _ (pause n _ (rest _)) (Requests-raise n _)))
        (λ e. Requests-raise (suc n) _)

  boot_from-Requests : (url : Bytes) → Requests max_http_attempts (boot_from net os flags url)
  unfolding boot_from
  boot_from-Requests url =
      Requests-bind 0 3 (omega arith) _ _ (Requests-of_Keeps _ (λ k. scheme-AtMost k _ url))
        (λ scheme. Requests-if 3 _ _ _ (Requests-raise 3 _) (
          Requests-bind 0 3 (omega arith) _ _ (Requests-of_Keeps _ (λ k. client-AtMost k _ url))
            (λ client.
              Requests-bind 3 0 (omega arith) _ _ (fetch_loop-Requests 3 client url none)
                (λ resp. Requests-of_Keeps _ (λ k. use_response-AtMost k url resp)))))

  -- A function for a version of DHCP makes no request itself.
  abbrev Quiet : (Bytes → M (Bytes × Bytes)) → Type 0
  Quiet d = (k : ℕ) (ifname : Bytes) → Keeps (AtMost k) (d ifname)

  boot-Requests :
      (d : Bytes → M (Bytes × Bytes)) (ifname : Bytes)
      → Quiet d
      → Requests max_http_attempts (boot net os flags ifname d)
  unfolding boot
  boot-Requests d ifname q =
      Requests-bind 0 3 (omega arith) _ _
        (Requests-if 0 _ _ _ (Requests-pure 0 [])
          (Requests-of_Keeps _ (λ k. lease-AtMost k ifname d (q k ifname))))
        (λ bootfile. boot_from-Requests _)

  -- Functions for the versions of DHCP, tried one behind the other.
  try_dhcp-Requests :
      (ifname : Bytes) (ds : List (Bytes → M (Bytes × Bytes)))
      → All Quiet ds
      → Requests (length ds * max_http_attempts) (try_dhcp net os flags ifname ds)
  unfolding try_dhcp
  try_dhcp-Requests ifname [] q = Requests-pure 0 tt
  try_dhcp-Requests ifname (d ∷ ds) (q, qs) =
      let rest = try_dhcp-Requests ifname ds qs in
      Requests-handle 3 (length ds * 3) (omega arith) _ _ _ (boot-Requests d ifname q) (λ _. rest)
        (λ e.
          Requests-bind 0 (length ds * 3) (omega arith) _ _
            (Requests-of_Keeps _ (λ k. search (keeps_rules, Keeps-if))) (λ _. rest))

  dhcp_functions-Quiet : All Quiet (dhcp_functions net os flags)
  dhcp_functions-Quiet = All-append _ _ _ (six flags.use_v6) (four flags.use_v4)
    where
      six : (b : Bool) → All Quiet (if b then dhcp6 net os flags ∷ [] else [])
      six true = (λ k. dhcp6-Keeps (AtMost k) net os flags (setup k), tt)
      six false = tt

      four : (b : Bool) → All Quiet (if b then dhcp4 net os flags ∷ [] else [])
      four true = (λ k. dhcp4-Keeps (AtMost k) net os flags (setup k), tt)
      four false = tt

  abbrev per_interface : ℕ
  per_interface = length (dhcp_functions net os flags) * max_http_attempts

  try_interfaces-Requests :
      (ifs : List Bytes) → Requests (length ifs * per_interface) (try_interfaces net os flags ifs)
  unfolding try_interfaces
  try_interfaces-Requests [] = Requests-pure _ tt
  try_interfaces-Requests (iface ∷ ifs) =
      let n : ℕ = length ifs * per_interface in
      let rest =
        Requests-weaken n (length (iface ∷ ifs) * per_interface) _
          (omega (arith, suc-mul (length ifs) per_interface)) (try_interfaces-Requests ifs) in
      Requests-handle 0 (length (iface ∷ ifs) * per_interface) (omega arith) _ _ _
        (Requests-of_Keeps _ (λ k. Keeps-call (AtMost k) os _ (λ h p. p)))
        (λ _.
          Requests-bind per_interface n (omega (arith, suc-mul (length ifs) per_interface)) _ _
            (try_dhcp-Requests iface _ dhcp_functions-Quiet) (λ _. try_interfaces-Requests ifs))
        (λ _. rest)

  interface_list-AtMost : (k : ℕ) → Keeps (AtMost k) (interface_list net os flags)
  unfolding interface_list
  interface_list-AtMost k = search (keeps_rules, Keeps-if)

  interfaces_of-Requests :
      (ifs : List Bytes) (h : Trace)
      → (interface_list net os flags h).0 ≡ ok ifs
      → requests ((interface_list net os flags >>= try_interfaces net os flags) h).1
        ≤ requests h + length ifs * per_interface
  unfolding ◌>>=◌ handle
  interfaces_of-Requests ifs h e =
      let k : ℕ = requests h in
      rw e (
        omega (
          arith,
          (interface_list-AtMost k).at h (omega arith),
          (try_interfaces-Requests ifs).at (interface_list net os flags h).1,
        ))

  -- Where the command finds the interfaces `ifs` to try, it makes at most three requests for a boot
  -- file for each of them and each version of DHCP in use, whatever the network answers.
  pub netboot-requests :
      (ifs : List Bytes) (h : Trace)
      → (interface_list net os flags h).0 ≡ ok ifs
      → requests (netboot net os flags h).1
        ≤ requests h + length ifs * (length (dhcp_functions net os flags) * max_http_attempts)
  unfolding netboot
  netboot-requests ifs h e =
      let le : requests h ≤ requests h + length ifs * per_interface = omega arith in
      let tried : M (Unit {0}) = interface_list net os flags >>= try_interfaces net os flags in
      let run : M (Unit {0}) = tried >> raise (exited 1) in
      let checked : M (Unit {0}) =
        if not flags.use_v6 && not flags.use_v4 then raise (exited 1) else run in
      guarded (flags.skip_dhcp && is_empty flags.override_netboot_url) checked (exited 1) h le (
        guarded (not flags.use_v6 && not flags.use_v4) run (exited 1) h le
          (last_raise tried (exited 1) h (interfaces_of-Requests ifs h e)))
