-- ===== src/FixMyNetBoot/Checked.antt =====
-- What holds of an interface that passes the checks.
use systemboot.Base.{
  ◌≡◌, refl, sym, ap, ◌∙◌, List, [], ◌∷◌, ◌++◌, Bool, true, false, message, append-nil,
  append_assoc, inl, inr, not, Bytes, bytes, Error, ok, if◌then◌else◌,
}
use systemboot.Platform.{Platform, Trace, done, interface_addrs, interface_by_name}
use systemboot.Platform.Devices.{Address}
use systemboot.Platform.Monad.{pure, raise, ◌>>=◌, call, call_for, Answer-cases}
use systemboot.Platform.Rules.{bind-eq-ok}
use systemboot.Checker.{run_checks}
use systemboot.Checker.Mandatory.{Succeeded, mandatory-Succeeded}
use systemboot.Checker.Interfaces.{
  ip_list, find_address, addresses, interface_has_link_local_address,
  interface_has_global_addresses,
}
use systemboot.FixMyNetBoot.{checklist, check_interface}

-- An address of the kind is in the list.
abbrev pub any : (Address → Bool) → List Address → Bool
any kind [] = false
any kind (a ∷ rest) = let more = any kind rest in if kind a then true else more

-- When it was asked, the machine reported addresses of the interface with one of the kind.
abbrev pub Reported : Platform → (Address → Bool) → Bytes → Type 0
Reported os kind ifname =
    (t : Trace) × (addrs : List Address) × (os.addresses t (interface_addrs ifname) ≡ done addrs)
    × (any kind addrs ≡ true)

find_address-any :
    (kind : Address → Bool) (e : Error) (addrs : List Address) (t : Trace)
    → (find_address kind e addrs t).0 ≡ ok tt
    → any kind addrs ≡ true
unfolding find_address raise
find_address-any kind e [] t q = cc
find_address-any kind e (a ∷ rest) t q = found (kind a) (find_address-any kind e rest t) q
  where
    found :
        (b : Bool)
        → ((find_address kind e rest t).0 ≡ ok tt → any kind rest ≡ true)
        → ((if b then pure tt else find_address kind e rest) t).0 ≡ ok tt
        → (if b then true else any kind rest) ≡ true
    found true ih q = refl
    found false ih q = ih q

-- The addresses that are returned are those that were reported.
ip_list-ok :
    (seen addrs found : List Address) (t : Trace)
    → (ip_list seen addrs t).0 ≡ ok found
    → found ≡ seen ++ addrs
unfolding ip_list pure raise
ip_list-ok seen [] found t q = let e = append-nil seen in cc
ip_list-ok seen (a ∷ rest) found t q =
    kept a.is_ip_net (ip_list-ok (seen ++ (a ∷ [])) rest found t) q
  where
    kept :
        (b : Bool)
        → ((ip_list (seen ++ (a ∷ [])) rest t).0 ≡ ok found → found ≡ (seen ++ (a ∷ [])) ++ rest)
        → ((if not b
              then raise (message (bytes "not a net.IPNet"))
              else ip_list (seen ++ (a ∷ [])) rest)
            t).0
          ≡ ok found
        → found ≡ seen ++ (a ∷ rest)
    kept false ih k = cc
    kept true ih k = ih k ∙ append_assoc seen (a ∷ []) rest

module _ (os : Platform) where
  reported-ok :
      (ifname : Bytes) (t : Trace) (addrs : List Address)
      → (call_for os.addresses (interface_addrs ifname) t).0 ≡ ok addrs
      → os.addresses t (interface_addrs ifname) ≡ done addrs
  unfolding call_for
  reported-ok ifname t addrs q = elim (Answer-cases (os.addresses t (interface_addrs ifname))) [
    | inl (x, e) ↦ cc
    | inr (x, e) ↦ cc
  ]

  addresses-ok :
      (ifname : Bytes) (t : Trace) (addrs : List Address)
      → (addresses os ifname t).0 ≡ ok addrs
      → (s : Trace) × (os.addresses s (interface_addrs ifname) ≡ done addrs)
  unfolding addresses
  addresses-ok ifname t addrs q =
      let (u, e, k) = bind-eq-ok (call os (interface_by_name ifname)) _ t q in
      let (l, f, m) =
        bind-eq-ok (call_for os.addresses (interface_addrs ifname)) (ip_list []) _
          (ap (λ r. r.0) (sym k) ∙ q) in
      let same = ip_list-ok [] l addrs _ (ap (λ r. r.0) (sym m) ∙ ap (λ r. r.0) (sym k) ∙ q) in
      (_, reported-ok ifname _ l f ∙ ap done (sym same))

  check-Reported :
      (kind : Address → Bool) (x : Error) (ifname : Bytes)
      → Succeeded (addresses os ifname >>= find_address kind x)
      → Reported os kind ifname
  check-Reported kind x ifname (t, q) =
      let (addrs, e, k) = bind-eq-ok (addresses os ifname) (find_address kind x) t q in
      let (s, f) = addresses-ok ifname t addrs e in
      (s, addrs, f, find_address-any kind x addrs _ (ap (λ r. r.0) (sym k) ∙ q))

  link_local-Reported :
      (ifname : Bytes)
      → Succeeded (interface_has_link_local_address os ifname)
      → Reported os (λ addr. addr.is_link_local_unicast) ifname
  unfolding interface_has_link_local_address
  link_local-Reported ifname p = check-Reported _ _ ifname p

  global-Reported :
      (ifname : Bytes)
      → Succeeded (interface_has_global_addresses os ifname)
      → Reported os (λ addr. addr.is_global_unicast) ifname
  unfolding interface_has_global_addresses
  global-Reported ifname p = check-Reported _ _ ifname p

  -- Where the checks of an interface pass, the machine has reported a link-local address of this
  -- interface, and a global address of `eth0`, whatever the interface is that is checked.
  pub check_interface-Reported :
      (ifname : Bytes) (h : Trace)
      → (check_interface os ifname h).0 ≡ ok tt
      → Reported os (λ addr. addr.is_link_local_unicast) ifname
        × Reported os (λ addr. addr.is_global_unicast) (bytes "eth0")
  check_interface-Reported ifname h q =
      let passed : Succeeded (run_checks (checklist os ifname)) =
        (h, unfold check_interface in q) in
      (
        link_local-Reported ifname
            (mandatory-Succeeded (checklist os ifname) 3 _ refl refl refl passed),
        global-Reported (bytes "eth0")
            (mandatory-Succeeded (checklist os ifname) 4 _ refl refl refl passed),
      )
