-- ===== src/Uinit/Rounds.antt =====
-- The endless loop of the init command.
use systemboot.Base.{
  ℕ, zero, suc, ◌+◌, ◌≡◌, ◌≤◌, refl, List, [], ◌∷◌, Bool, true, false, if◌then◌else◌, Bytes, bytes,
  equal, arith, ◌⊎◌, inl, inr, Bool-cases, All, some, Error, ok,
}
use systemboot.Platform.{Platform, Trace, run_command, sleep}
use systemboot.Platform.Monad.{M, pure, note, handle, ◌>>=◌, ◌>>◌}
use systemboot.Platform.Rules.{
  Returns, Returns-pure, Returns-bind, Returns-note, bind-Returns, NoPanic, Returns-handle,
  returns_rules,
}
use systemboot.Booter.{
  Booter, Json, net, local, null, net_command, local_command, run_net, run_local, boot_entry,
}
use systemboot.Booter.Entries.{BootEntry, set_booters, get_boot_entries}
use systemboot.Booter.Entries.Listing.{get_boot_entries-set_booters}
use systemboot.Vpd.Store.{IsFileStore}
use systemboot.Uinit.{uinit, try_entries, Flags, default_bootsequence, try_default, default_rounds}

-- How often a program has been run, by its name.
abbrev pub runs : Bytes → Trace → ℕ
runs name [] = 0
runs name (run_command (prog ∷ args) ∷ h) = (if equal prog name then 1 else 0) + runs name h
runs name (_ ∷ h) = runs name h

abbrev pub IsDefault : Bytes → Type 0
IsDefault name = (name ≡ bytes "netboot") ⊎ (name ≡ bytes "localboot")

module _ (os : Platform) (flags : Flags) where
  run_once :
      (name : Bytes) (h : Trace)
      → IsDefault name
      → runs name (try_default os flags default_bootsequence h).1 ≡ suc (runs name h)
  unfolding try_default ◌>>=◌ handle note pure equal
  run_once name h (inl e) = elim (Bool-cases flags.do_quiet) [
    | inl q ↦ rw (e, q) (omega arith)
    | inr q ↦ rw (e, q) (omega arith)
  ]
  run_once name h (inr e) = elim (Bool-cases flags.do_quiet) [
    | inl q ↦ rw (e, q) (omega arith)
    | inr q ↦ rw (e, q) (omega arith)
  ]

  try_default-Returns : (bootcmds : List (List Bytes)) → Returns (try_default os flags bootcmds)
  unfolding try_default
  try_default-Returns [] = Returns-pure tt
  try_default-Returns (c ∷ cs) = Returns-bind _ _ (Returns-note _) (λ _. try_default-Returns cs)

  default_rounds-runs :
      (name : Bytes) (n : ℕ) (h : Trace)
      → IsDefault name
      → runs name (default_rounds os flags n h).1 ≡ n + runs name h
  unfolding default_rounds note pure
  default_rounds-runs name zero h d = omega arith
  default_rounds-runs name (suc n) h d =
      let t : Trace = (try_default os flags default_bootsequence h).1 in
      let once = run_once name h d in
      let rest = default_rounds-runs name n (sleep flags.interval ∷ t) d in
      rw
        (
          bind-Returns (try_default os flags default_bootsequence)
              (λ _. note (sleep flags.interval) >> default_rounds os flags n) h
              (try_default-Returns default_bootsequence),
          bind-Returns (note (sleep flags.interval)) (λ _. default_rounds os flags n) t
              (Returns-note _),
        )
        (omega arith)

  abbrev pub HasBooter : BootEntry → Type 0
  HasBooter entry = (b : Booter) × (entry.booter ≡ some b)

  run_net-NoPanic : (r : List Bytes ⊎ Error) → NoPanic (run_net os r)
  run_net-NoPanic (inl bootcmd) = search returns_rules
  run_net-NoPanic (inr e) = search returns_rules

  run_local-NoPanic : (r : List Bytes ⊎ Error) → NoPanic (run_local os r)
  run_local-NoPanic (inl bootcmd) = search returns_rules
  run_local-NoPanic (inr e) = search returns_rules

  pub boot_entry-NoPanic : (b : Booter) → NoPanic (boot_entry os b)
  unfolding boot_entry
  boot_entry-NoPanic (net nb) = run_net-NoPanic (net_command nb)
  boot_entry-NoPanic (local lb) = run_local-NoPanic (local_command lb)
  boot_entry-NoPanic null = search returns_rules

  pub try_entries-Returns :
      (entries : List BootEntry) → All HasBooter entries → Returns (try_entries os flags entries)
  unfolding try_entries
  try_entries-Returns [] k = Returns-pure tt
  try_entries-Returns (entry ∷ entries) ((b, e), k) =
      Returns-bind _ _
        (rw e (Returns-handle _ _ _ (boot_entry-NoPanic b) Returns-pure (λ _. Returns-pure tt)))
        (λ _. Returns-bind _ _ (Returns-note _) (λ _. try_entries-Returns entries k))

  pub set_booters-HasBooter :
      (json : Json) (entries : List BootEntry) → All HasBooter (set_booters json entries)
  unfolding set_booters
  set_booters-HasBooter json [] = tt
  set_booters-HasBooter json (entry ∷ entries) = ((_, refl), set_booters-HasBooter json entries)

  -- Behind the boot entries.
  after_entries-runs :
      (name : Bytes) (n : ℕ) (entries : List BootEntry) (h : Trace)
      → IsDefault name
      → All HasBooter entries
      → n ≤ runs name ((try_entries os flags entries >> default_rounds os flags n) h).1
  after_entries-runs name n entries h d k =
      let t : Trace = (try_entries os flags entries h).1 in
      let e = default_rounds-runs name n t d in
      rw
        (bind-Returns (try_entries os flags entries) (λ _. default_rounds os flags n) h
          (try_entries-Returns entries k))
        (omega arith)

  pub bind-known :
      {A : Type 0} (m : M A) (f : A → M (Unit {0})) (t : Trace) (a : A)
      → (m t).0 ≡ ok a
      → (m >>= f) t ≡ f a (m t).1
  unfolding ◌>>=◌ handle
  bind-known m f t a e = rw e refl

  pub greeting-Returns : (b : Bool) → Returns (if b then note (sleep 5) else pure tt)
  greeting-Returns true = Returns-note _
  greeting-Returns false = Returns-pure tt

-- Over a file store, and without `-nodefault`, the init command never gives up: whatever the boot
-- entries are and however their commands end, the `netboot` and the `localboot` of the default
-- sequence have each run at least once for each round of the endless loop.
pub uinit-runs :
    (os : Platform) (flags : Flags) (json : Json) (vpd_dir name : Bytes) (n : ℕ) (h : Trace)
    → IsFileStore os
    → IsDefault name
    → flags.no_default_boot ≡ false
    → n ≤ runs name (uinit os flags json vpd_dir n h).1
unfolding uinit
uinit-runs os flags json vpd_dir name n h store d q =
    let greeting = (if flags.allow_interactive then note (sleep 5) else pure tt) in
    let t : Trace = (greeting h).1 in
    rw
      (
        bind-Returns greeting _ h (greeting-Returns os flags flags.allow_interactive),
        bind-known os flags (get_boot_entries os vpd_dir json) _ t _
            (get_boot_entries-set_booters os vpd_dir store t json),
        q,
      )
      (after_entries-runs os flags name n _ _ d (set_booters-HasBooter os flags json _))
