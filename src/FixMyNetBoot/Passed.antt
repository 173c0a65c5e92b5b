-- ===== src/FixMyNetBoot/Passed.antt =====
-- What holds of the interfaces where the whole command succeeds.
use systemboot.Base.{
  ◌≡◌, refl, sym, ◌∙◌, List, [], ◌∷◌, ◌++◌, map, filter, append-nil, append_assoc, All, true, false,
  Bool-cases, not, inl, inr, Bytes, bytes, is_empty, exited, Error, Outcome, ok, err, panic,
}
use systemboot.Platform.{Platform, Trace, done, list_interfaces}
use systemboot.Platform.Devices.{Interface}
use systemboot.Platform.Monad.{M, pure, raise, handle, proceed, call_for, ◌>>=◌, Answer-cases}
use systemboot.FixMyNetBoot.{
  check_interface, nonloopback_names, get_non_loopback_interfaces, check_all, fixmynetboot,
}
use systemboot.FixMyNetBoot.Checked.{Reported, check_interface-Reported}

nonloopback_names-filter :
    (all : List Interface) (seen : List Bytes)
    → nonloopback_names all seen ≡ seen ++ map (λ i. i.name) (filter (λ i. not i.is_loopback) all)
unfolding nonloopback_names
nonloopback_names-filter [] seen = sym (append-nil seen)
nonloopback_names-filter (i ∷ all) seen = elim (Bool-cases i.is_loopback) [
  | inl e ↦ rw e (nonloopback_names-filter all seen)
  | inr e ↦
      rw e
        (nonloopback_names-filter all (seen ++ (i.name ∷ [])) ∙ append_assoc seen (i.name ∷ []) _)
]

not_ok : {r : Outcome (Unit {0})} (x : Error) → r ≡ err x → ¬ (r ≡ ok tt)
not_ok x e q = cc

-- Where an error ends the program, success is that of both parts.
fatal-ok :
    (m k : M (Unit {0})) (x : Error) (h : Trace)
    → (handle m (λ _. k) (λ _. raise x) h).0 ≡ ok tt
    → ((m h).0 ≡ ok tt) × ((k (m h).1).0 ≡ ok tt)
unfolding handle raise
fatal-ok m k x h q = both (m h).0 (m h).1 q
  where
    both :
        (r : Outcome (Unit {0})) (t : Trace)
        → (proceed {A = Unit {0}} {B = Unit {0}} (λ _. k) (λ _. raise x) r t).0 ≡ ok tt
        → (r ≡ ok tt) × ((k t).0 ≡ ok tt)
    both (ok tt) t q = (refl, q)
    both (err e) t q = absurd (not_ok x refl q)
    both panic t q = cc

module _ (os : Platform) where
  -- What the checks of an interface ask for.
  abbrev pub Passed : Bytes → Type 0
  Passed ifname =
      Reported os (λ addr. addr.is_link_local_unicast) ifname
      × Reported os (λ addr. addr.is_global_unicast) (bytes "eth0")

  -- The interfaces that the command checks: the one that is named, or those that the machine lists,
  -- without the loopback interfaces.
  pub data Checked (ifname : Bytes) (h : Trace) : List Bytes → Type 0 where
    named : is_empty ifname ≡ false → Checked ifname h (ifname ∷ [])
    listed :
        {all : List Interface}
        → is_empty ifname ≡ true
        → os.interfaces h list_interfaces ≡ done all
        → Checked ifname h (map (λ i. i.name) (filter (λ i. not i.is_loopback) all))

  check_all-Passed :
      (names : List Bytes) (h : Trace) → (check_all os false names h).0 ≡ ok tt → All Passed names
  unfolding check_all
  check_all-Passed [] h q = tt
  check_all-Passed (ifname ∷ names) h q =
      let (p, rest) =
        fatal-ok (check_interface os ifname) (check_all os false names) (exited 1) h q in
      (check_interface-Reported os ifname h p, check_all-Passed names _ rest)

  listed-Passed :
      (ifname : Bytes) (h : Trace)
      → is_empty ifname ≡ true
      → ((handle (get_non_loopback_interfaces os) pure (λ _. raise (exited 1))
            >>= check_all os false)
          h).0
        ≡ ok tt
      → (names : List Bytes) × Checked ifname h names × All Passed names
  unfolding get_non_loopback_interfaces handle ◌>>=◌ call_for raise pure
  listed-Passed ifname h e q = elim (Answer-cases (os.interfaces h list_interfaces)) [
    | inl (all, a) ↦ (
      map (λ i. i.name) (filter (λ i. not i.is_loopback) all),
      listed e a,
      check_all-Passed _ _ (rw (a, nonloopback_names-filter all []) at q),
    )
    | inr (f, a) ↦ absurd (not_ok (exited 1) refl (rw a at q))
  ]

  -- Where the command succeeds, without `-shell`, the machine has reported a link-local address for
  -- each of the interfaces that it checks: the one that is named, or else all of the machine but the
  -- loopback interfaces; and a global address of `eth0`, where there is any interface to check.
  pub fixmynetboot-Passed :
      (ifname : Bytes) (h : Trace)
      → (fixmynetboot os false ifname h).0 ≡ ok tt
      → (names : List Bytes) × Checked ifname h names × All Passed names
  unfolding fixmynetboot
  fixmynetboot-Passed ifname h q = elim (Bool-cases (is_empty ifname)) [
    | inl e ↦ listed-Passed ifname h e (rw e at q)
    | inr e ↦ (ifname ∷ [], named e, check_all-Passed (ifname ∷ []) h (rw e at q))
  ]
