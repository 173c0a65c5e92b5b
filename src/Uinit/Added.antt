-- ===== src/Uinit/Added.antt =====
-- What `vpdbootmanager add` writes is what the init command runs.
use systemboot.Base.{
  ℕ, ◌≡◌, refl, sym, ◌∙◌, ap, List, Bool-cases, true, false, if◌then◌else◌, Bytes, bytes, ◌⊎◌, inl,
  inr, some, Error, external, ok, err, Outcome,
}
use systemboot.Platform.{Platform, Trace, done, sleep}
use systemboot.Platform.Monad.{M, pure, note, lift, handle, raise, ◌>>=◌, Answer-cases}
use systemboot.Platform.Rules.{Extends, bind-Returns, same, later}
use systemboot.Vpd.{file_of}
use systemboot.Vpd.Store.{IsFileStore}
use systemboot.Booter.Select.{
  IsNet, IsLocal, Selected, netboot, localboot, nothing, get_booter_for-Selected,
}
use systemboot.Booter.{Booter, Json, net, local, null, NetBooter, net_command, local_command}
use systemboot.Booter.Entries.{get_boot_entries, set_booters, get_booter_for}
use systemboot.Booter.Entries.Listing.{listing, get_boot_entries-set_booters}
use systemboot.Booter.Entries.Added.{entry_of, HasValue, HasValue-IsIn, add_boot_entry-HasValue}
use systemboot.VpdBootManager.Add.{boot_key}
use systemboot.VpdBootManager.Command.{Tools, Parsed, parse_entry, write_entry, add}
use systemboot.VpdBootManager.Command.Accepted.{IsCommand, IsBootable, parse_entry-Accepts}
use systemboot.Uinit.{uinit, Flags}
use systemboot.Uinit.Rounds.{set_booters-HasBooter, bind-known, greeting-Returns}
use systemboot.Uinit.Booted.{
  command_of, RunSince, entries_and_rounds-RunSince, get_boot_entries-Extends,
}

two_types : (t : Bytes) → t ≡ bytes "netboot" → t ≡ bytes "localboot" → ⊥
two_types t n l = cc

module _ (json : Json) where
  -- The text decodes to the booter, and not also to a network booter of the type `netboot` where the
  -- booter is a local one.
  abbrev pub Carries : Bytes → Booter → Type 0
  Carries content (net nb) = json.decode_net content ≡ done nb
  Carries content (local lb) =
      (json.decode_local content ≡ done lb)
      × ((nb : NetBooter) → json.decode_net content ≡ done nb → nb.type ≡ lb.type)
  Carries content null = ⊥

  Selected-Carries :
      (content : Bytes) (b x : Booter)
      → IsBootable b
      → Carries content b
      → Selected json content x
      → x ≡ b
  unfolding IsNet IsLocal
  Selected-Carries content (net nb) x (t, c) d (netboot nb' (a, _)) = cc
  Selected-Carries content (net nb) x (t, c) d (localboot lb is n) = absurd (n nb (d, t))
  Selected-Carries content (net nb) x (t, c) d (nothing m n) = absurd (n nb (d, t))
  Selected-Carries content (local lb) x (t, c) (d, other) (netboot nb (a, k)) =
      absurd (two_types nb.type k (other nb a ∙ t))
  Selected-Carries content (local lb) x (t, c) (d, other) (localboot lb' (a, _) n) = cc
  Selected-Carries content (local lb) x (t, c) (d, other) (nothing m n) = absurd (m lb (d, t))
  Selected-Carries content null x k d s = absurd k

IsBootable-command : (b : Booter) → IsBootable b → (cmd : List Bytes) × (command_of b ≡ inl cmd)
IsBootable-command (net nb) (t, c) = known (net_command nb) c
  where
    known : (r : List Bytes ⊎ Error) → IsCommand r → (cmd : List Bytes) × (r ≡ inl cmd)
    known (inl cmd) c = (cmd, refl)
    known (inr e) c = absurd c
IsBootable-command (local lb) (t, c) = known (local_command lb) c
  where
    known : (r : List Bytes ⊎ Error) → IsCommand r → (cmd : List Bytes) × (r ≡ inl cmd)
    known (inl cmd) c = (cmd, refl)
    known (inr e) c = absurd c
IsBootable-command null k = absurd k

-- Over a file store, the command of a booter whose text is the value of an entry is run.
module _ (os : Platform) (store : IsFileStore os) (flags : Flags) (json : Json) (vpd_dir : Bytes)
    (content : Bytes) (cmd : List Bytes) where
  abbrev greeting : M (Unit {0})
  greeting = if flags.allow_interactive then note (sleep 5) else pure tt

  greeting-HasValue :
      (u : Trace)
      → HasValue os vpd_dir content u
      → HasValue os vpd_dir content (greeting u).1 × Extends u (greeting u).1
  unfolding note pure
  greeting-HasValue u (k, lt, e) = elim (Bool-cases flags.allow_interactive) [
    | inr q ↦ rw q ((k, lt, e), same)
    | inl q ↦ rw q (
      (
        k,
        lt,
        rw
            (
              store.read_other u (sleep 5) (file_of os vpd_dir (boot_key k) false) (λ _ x. cc),
              store.read_other u (sleep 5) (file_of os vpd_dir (boot_key k) true) (λ _ x. cc),
            )
            e,
      ),
      later _ same,
    )
  ]

  uinit-RunSince :
      (b : Booter) (n : ℕ) (u : Trace)
      → IsBootable b
      → Carries json content b
      → command_of b ≡ inl cmd
      → HasValue os vpd_dir content u
      → RunSince cmd u (uinit os flags json vpd_dir n u).1
  unfolding uinit
  uinit-RunSince b n u k d c v =
      let t : Trace = (greeting u).1 in
      let (vt, x) = greeting-HasValue u v in
      let (i, m) = HasValue-IsIn os vpd_dir json content t vt in
      let entries = set_booters json (listing os vpd_dir t 9999 0) in
      let chosen : get_booter_for json (entry_of (boot_key i) content) ≡ b =
        Selected-Carries json content b _ k d (get_booter_for-Selected json _) in
      rw
        (
          bind-Returns greeting _ u (greeting-Returns os flags flags.allow_interactive),
          bind-known os flags (get_boot_entries os vpd_dir json) _ t _
              (get_boot_entries-set_booters os vpd_dir store t json),
        )
        (entries_and_rounds-RunSince os flags cmd u b _ entries n _ (ap some chosen) c
          (set_booters-HasBooter os flags json _) m
          ((get_boot_entries-Extends os vpd_dir u json).at t x))

not_ok : {r : Outcome (Unit {0})} (x : Error) → r ≡ err x → ¬ (r ≡ ok tt)
not_ok x e q = cc

-- Where the entry was written with no error, its text is the value of an entry.
write_entry-HasValue :
    (tools : Tools) (default_dir : Bytes) (os : Platform) (p : Parsed) (h : Trace)
    → IsFileStore os
    → p.dry_run ≡ false
    → (write_entry tools default_dir os p h).0 ≡ ok tt
    → (content : Bytes) × (tools.marshal p.entry ≡ done content)
      × HasValue os p.vpd_dir content (write_entry tools default_dir os p h).1
unfolding write_entry ◌>>=◌ handle lift raise
write_entry-HasValue tools default_dir os p h store dry e =
    elim (Answer-cases (tools.marshal p.entry)) [
      | inl (content, a) ↦ (
        content,
        a,
        rw (a, dry) (add_boot_entry-HasValue os p.vpd_dir store h content (rw (a, dry) at e)),
      )
      | inr (f, a) ↦ absurd (not_ok (external f) refl (rw a at e))
    ]

-- Over a file store: where `add` has accepted the arguments for the entry of `p`, without
-- `-dryrun`, and has returned no error, and the JSON text of the entry decodes to it again, then
-- the init command that starts next, with the directory of `p`, runs the command of that entry,
-- whatever the other entries are and however their commands end.
pub add-RunSince :
    (tools : Tools) (default_dir : Bytes) (os : Platform) (flags : Flags) (json : Json)
    (entrytype : Bytes) (args : List Bytes) (p : Parsed) (n : ℕ) (h : Trace)
    → IsFileStore os
    → (parse_entry tools default_dir entrytype args h).0 ≡ ok p
    → p.dry_run ≡ false
    → ((content : Bytes) → tools.marshal p.entry ≡ done content → Carries json content p.entry)
    → (add tools default_dir os entrytype args h).0 ≡ ok tt
    → (cmd : List Bytes) × (command_of p.entry ≡ inl cmd)
      × RunSince cmd
          (add tools default_dir os entrytype args h).1
          (uinit os flags json p.vpd_dir n (add tools default_dir os entrytype args h).1).1
unfolding add
add-RunSince tools default_dir os flags json entrytype args p n h store e dry carries added =
    let t : Trace = (parse_entry tools default_dir entrytype args h).1 in
    let known =
      bind-known os flags (parse_entry tools default_dir entrytype args)
        (write_entry tools default_dir os) h p e in
    let (cmd, c) =
      IsBootable-command p.entry
        ((parse_entry-Accepts tools default_dir entrytype args).at h p e) in
    let (content, a, v) =
      write_entry-HasValue tools default_dir os p t store dry (ap (λ r. r.0) (sym known) ∙ added) in
    (
      cmd,
      c,
      rw known (
          uinit-RunSince os store flags json p.vpd_dir content cmd p.entry n _
            ((parse_entry-Accepts tools default_dir entrytype args).at h p e) (carries content a) c
            v),
    )
