-- ===== src/Uinit/Booted.antt =====
-- The init command runs the entry that `vpdbootmanager add` has written.
use systemboot.Base.{
  ℕ, zero, suc, ◌+◌, ◌≡◌, sym, ◌∙◌, ap, List, [], ◌∷◌, not, if◌then◌else◌, Bytes, ◌⊎◌, inl, inr,
  All, some, Error, exited,
}
use mathlib.Core.List.{Memᴰ}
use mathlib.Core.List.Memᴰ.{head, tail}
use systemboot.Platform.{Platform, Trace, Event, run_command, sleep}
use systemboot.Platform.Monad.{pure, note, call, raise, handle, ◌>>◌, Answer-cases}
use systemboot.Platform.Rules.{
  Keeps, Keeps-pure, Keeps-bind, Keeps-note, Keeps-if, Extends, extends_rules, bind-Returns,
  Returns-note, Returns-handle, Returns-pure, Returns, later,
}
use systemboot.Crypto.Measure.{try_measure_data, try_measure_data-Keeps}
use systemboot.Vpd.{get}
use systemboot.Booter.{
  Booter, Json, net, local, null, net_command, local_command, run_net, run_local, boot_entry,
}
use systemboot.Booter.Entries.{BootEntry, found, entry_round, entries_loop, get_boot_entries}
use systemboot.Uinit.{
  boot_with, try_entries, Flags, try_default, default_rounds, default_bootsequence,
}
use systemboot.Uinit.Rounds.{HasBooter, try_entries-Returns, boot_entry-NoPanic}

-- What `Boot` runs for a booter.
abbrev pub command_of : Booter → List Bytes ⊎ Error
command_of (net nb) = net_command nb
command_of (local lb) = local_command lb
command_of null = inr (exited 0)

-- The command has been run behind the trace `start`.
pub data RunSince (cmd : List Bytes) (start : Trace) : Trace → Type 0 where
  ran : {h : Trace} → Extends start h → RunSince cmd start (run_command cmd ∷ h)
  since : {h : Trace} → (e : Event) → RunSince cmd start h → RunSince cmd start (e ∷ h)

module _ (os : Platform) (flags : Flags) (cmd : List Bytes) (start : Trace) where
  ruleset since_rules = (extends_rules, since)

  -- The runs that follow keep it.
  boot_with-Keeps :
      {P : Trace → Type 0} (b : Booter)
      → ((e : Event) (h : Trace) → P h → P (e ∷ h))
      → Keeps P (boot_with os flags (some b))
  unfolding boot_entry
  boot_with-Keeps {P = P} (net nb) k = by_command (net_command nb)
    where
      by_command : (r : List Bytes ⊎ Error) → Keeps P (handle (run_net os r) pure (λ _. pure tt))
      by_command (inl c) = search (extends_rules, k)
      by_command (inr e) = search extends_rules
  boot_with-Keeps {P = P} (local lb) k = by_command (local_command lb)
    where
      by_command : (r : List Bytes ⊎ Error) → Keeps P (handle (run_local os r) pure (λ _. pure tt))
      by_command (inl c) = search (extends_rules, k)
      by_command (inr e) = search extends_rules
  boot_with-Keeps null k = search extends_rules

  try_entries-Keeps :
      {P : Trace → Type 0} (entries : List BootEntry)
      → ((e : Event) (h : Trace) → P h → P (e ∷ h))
      → All (HasBooter os flags) entries
      → Keeps P (try_entries os flags entries)
  unfolding try_entries
  try_entries-Keeps {P = P} [] k has = Keeps-pure P tt
  try_entries-Keeps {P = P} (entry ∷ entries) k ((b, e), has) =
      Keeps-bind P _ _ (rw e (boot_with-Keeps b k))
        (λ _. Keeps-bind P _ _ (Keeps-note P _ (k _)) (λ _. try_entries-Keeps entries k has))

  boot_with-RunSince :
      (b : Booter) (h : Trace)
      → command_of b ≡ inl cmd
      → Extends start h
      → RunSince cmd start (boot_with os flags (some b) h).1
  unfolding boot_entry handle call pure raise
  boot_with-RunSince (net nb) h e x = elim (Answer-cases (os.unit h (run_command cmd))) [
    | inl (_, a) ↦ rw (e, a) (ran x)
    | inr (_, a) ↦ rw (e, a) (ran x)
  ]
  boot_with-RunSince (local lb) h e x = elim (Answer-cases (os.unit h (run_command cmd))) [
    | inl (_, a) ↦ rw (e, a) (ran x)
    | inr (_, a) ↦ rw (e, a) (ran x)
  ]
  boot_with-RunSince null h e x = cc

  boot_with-Returns : (b : Booter) → Returns (boot_with os flags (some b))
  boot_with-Returns b =
      Returns-handle _ _ _ (boot_entry-NoPanic os flags b) Returns-pure (λ _. Returns-pure tt)

  -- One entry is tried, and then the others.
  try_entries-step :
      (b : Booter) (entry : BootEntry) (entries : List BootEntry) (h : Trace)
      → entry.booter ≡ some b
      → try_entries os flags (entry ∷ entries) h
        ≡ try_entries os flags entries (sleep flags.interval ∷ (boot_with os flags (some b) h).1)
  unfolding try_entries note
  try_entries-step b entry entries h e = rw e (
      bind-Returns (boot_with os flags (some b))
        (λ _. note (sleep flags.interval) >> try_entries os flags entries) h (boot_with-Returns b)
      ∙ bind-Returns (note (sleep flags.interval)) (λ _. try_entries os flags entries)
          (boot_with os flags (some b) h).1 (Returns-note _))

  -- The command of an entry of the list is run.
  try_entries-RunSince :
      (b : Booter) (entry : BootEntry) (entries : List BootEntry) (h : Trace)
      → entry.booter ≡ some b
      → command_of b ≡ inl cmd
      → All (HasBooter os flags) entries
      → Memᴰ entry entries
      → Extends start h
      → RunSince cmd start (try_entries os flags entries h).1
  try_entries-RunSince b entry [] h eb ec has m x = elim m [ ]
  try_entries-RunSince b entry (other ∷ entries) h eb ec ((b', e'), has) (head e) x =
      rw (try_entries-step b other entries h (ap (λ z. z.booter) (sym e) ∙ eb)) (
        (try_entries-Keeps {P = RunSince cmd start} entries (λ e _. since e) has).at _
          (since _ (boot_with-RunSince b h ec x)))
  try_entries-RunSince b entry (other ∷ entries) h eb ec ((b', e'), has) (tail m) x =
      rw (try_entries-step b' other entries h e') (
        try_entries-RunSince b entry entries _ eb ec has m
          (later _ ((boot_with-Keeps {P = Extends start} b' (λ e _. later e)).at h x)))

  try_default-Keeps :
      (cs : List (List Bytes)) → Keeps (RunSince cmd start) (try_default os flags cs)
  unfolding try_default
  try_default-Keeps [] = Keeps-pure _ tt
  try_default-Keeps (c ∷ cs) =
      Keeps-bind (RunSince cmd start) _ _ (Keeps-note _ _ (λ _. since _))
        (λ _. try_default-Keeps cs)

  default_rounds-Keeps : (n : ℕ) → Keeps (RunSince cmd start) (default_rounds os flags n)
  unfolding default_rounds
  default_rounds-Keeps zero = Keeps-pure _ tt
  default_rounds-Keeps (suc n) =
      Keeps-bind (RunSince cmd start) _ _ (try_default-Keeps default_bootsequence) (λ _.
        Keeps-bind (RunSince cmd start) _ _ (Keeps-note _ _ (λ _. since _))
          (λ _. default_rounds-Keeps n))

  -- What follows the choice of the entries.
  pub entries_and_rounds-RunSince :
      (b : Booter) (entry : BootEntry) (entries : List BootEntry) (n : ℕ) (h : Trace)
      → entry.booter ≡ some b
      → command_of b ≡ inl cmd
      → All (HasBooter os flags) entries
      → Memᴰ entry entries
      → Extends start h
      → RunSince cmd start
          ((try_entries os flags entries
              >> (if not flags.no_default_boot then default_rounds os flags n else pure tt))
            h).1
  entries_and_rounds-RunSince b entry entries n h eb ec has m x =
      rw
        (bind-Returns (try_entries os flags entries)
          (λ _. if not flags.no_default_boot then default_rounds os flags n else pure tt) h
          (try_entries-Returns os flags entries has))
        ((Keeps-if (RunSince cmd start) _ _ _ (default_rounds-Keeps n) (Keeps-pure _ tt)).at _
          (try_entries-RunSince b entry entries h eb ec has m x))

module _ (os : Platform) (vpd_dir : Bytes) (start : Trace) where
  measure-Extends :
      (pcr : ℕ) (content : Bytes) → Keeps (Extends start) (try_measure_data os pcr content)
  measure-Extends =
      try_measure_data-Keeps os (Extends start) (λ _. later _) (λ _ _ _. later _) (λ _. later _)
        (λ _ _. later _)

  entry_round-Extends :
      (idx : ℕ) (entries : List BootEntry)
      → Keeps (Extends start) (entry_round os vpd_dir idx entries)
  unfolding entry_round found get
  entry_round-Extends idx entries = search (extends_rules, measure-Extends) depth 8

  entries_loop-Extends :
      (rounds idx : ℕ) (entries : List BootEntry)
      → Keeps (Extends start) (entries_loop os vpd_dir rounds idx entries)
  unfolding entries_loop
  entries_loop-Extends zero idx entries = Keeps-pure _ entries
  entries_loop-Extends (suc rounds) idx entries =
      Keeps-bind (Extends start) _ _ (entry_round-Extends idx entries)
        (λ es. entries_loop-Extends rounds (idx + 1) es)

  pub get_boot_entries-Extends :
      (json : Json) → Keeps (Extends start) (get_boot_entries os vpd_dir json)
  unfolding get_boot_entries
  get_boot_entries-Extends json =
      Keeps-bind (Extends start) _ _ (entries_loop-Extends 9999 0 []) (λ es. Keeps-pure _ _)
