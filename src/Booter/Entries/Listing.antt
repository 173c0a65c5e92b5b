-- ===== src/Booter/Entries/Listing.antt =====
-- Which entries `GetBootEntries` returns, over a file store.
use systemboot.Base.{
  ℕ, zero, suc, ◌+◌, ◌≡◌, ◌≢◌, refl, ◌∙◌, ap, sym, List, [], ◌∷◌, ◌++◌, append-nil, append_assoc,
  Option, none, some, inl, inr, true, false, Bytes, Outcome, ok, Fault,
}
use systemboot.Platform.{
  Platform, Trace, Event, Answer, done, failed, read_file, write_file, tpm_open, tpm_close,
  tpm_measure,
}
use systemboot.Platform.Monad.{M, pure, handle, ◌>>=◌, Answer-cases, call_text}
use systemboot.Platform.Rules.{Keeps, bind-Returns}
use systemboot.Crypto.Measure.{
  nvram_vars_pcr, try_measure_data, try_measure_data-Returns, try_measure_data-Keeps,
}
use systemboot.Vpd.{get, file_of}
use systemboot.Vpd.Store.{IsFileStore}
use systemboot.VpdBootManager.Add.{boot_key}
use systemboot.Booter.{Booter, Json}
use systemboot.Booter.Select.{Selected, get_booter_for-Selected}
use systemboot.Booter.Entries.{
  BootEntry, set_booters, found, entry_round, entries_loop, get_boot_entries,
}

abbrev or_else : Answer Bytes → Answer Bytes → Option Bytes
or_else (done v) other = some v
or_else (failed e) (done v) = some v
or_else (failed e) (failed _) = none

abbrev pub cons_entry : Bytes → Option Bytes → List BootEntry → List BootEntry
cons_entry key none entries = entries
cons_entry key (some v) entries = record { name = key; config = v; booter = none } ∷ entries

cons_entry-append :
    (key : Bytes) (o : Option Bytes) (seen rest : List BootEntry)
    → (seen ++ cons_entry key o []) ++ rest ≡ seen ++ cons_entry key o rest
cons_entry-append key none seen rest = rw append-nil
cons_entry-append key (some v) seen rest = rw append_assoc

-- The entries of the second list are those of the first, each with the booter of its value.
pub data Booted (json : Json) : List BootEntry → List BootEntry → Type 0 where
  no_entry : Booted json [] []
  next_entry :
      {entry : BootEntry} {b : Booter} {entries booted : List BootEntry}
      → Selected json entry.config b
      → Booted json entries booted
      → Booted json (entry ∷ entries) (record entry { booter = some b } ∷ booted)

set_booters-Booted :
    (json : Json) (entries : List BootEntry) → Booted json entries (set_booters json entries)
unfolding set_booters
set_booters-Booted json [] = no_entry
set_booters-Booted json (entry ∷ entries) =
    next_entry (get_booter_for-Selected json entry) (set_booters-Booted json entries)

module _ (os : Platform) (vpd_dir : Bytes) where
  abbrev rw_file : ℕ → Bytes
  rw_file idx = file_of os vpd_dir (boot_key idx) false

  abbrev ro_file : ℕ → Bytes
  ro_file idx = file_of os vpd_dir (boot_key idx) true

  -- The value of an entry: that of the read-write variable if there is one, else the read-only one.
  abbrev pub value_at : Trace → ℕ → Option Bytes
  value_at h idx =
      or_else (os.text h (read_file (rw_file idx))) (os.text h (read_file (ro_file idx)))

  -- The entries that have a value, in the order of their numbers.
  unfoldable pub listing : Trace → ℕ → ℕ → List BootEntry
  listing h zero idx = []
  listing h (suc rounds) idx =
      cons_entry (boot_key idx) (value_at h idx) (listing h rounds (idx + 1))

  -- Every file reads in the trace `t` as it does in `h`.
  pub record SameReads (h t : Trace) : Type 0 where
    pub reads : (path : Bytes) → os.text t (read_file path) ≡ os.text h (read_file path)

  module _ (idx : ℕ) (entries : List BootEntry) (t : Trace) where
    round_rw :
        (v : Bytes)
        → os.text t (read_file (rw_file idx)) ≡ done v
        → entry_round os vpd_dir idx entries t
          ≡ found os vpd_dir (boot_key idx) entries v (read_file (rw_file idx) ∷ t)
    unfolding entry_round get handle call_text
    round_rw v a = rw a

    round_ro :
        (e : Fault) (v : Bytes)
        → os.text t (read_file (rw_file idx)) ≡ failed e
        → os.text (read_file (rw_file idx) ∷ t) (read_file (ro_file idx)) ≡ done v
        → entry_round os vpd_dir idx entries t
          ≡ found os vpd_dir
              (boot_key idx)
              entries
              v
              (read_file (ro_file idx) ∷ read_file (rw_file idx) ∷ t)
    unfolding entry_round get handle call_text
    round_ro e v a b = rw (a, b)

    round_none :
        (e f : Fault)
        → os.text t (read_file (rw_file idx)) ≡ failed e
        → os.text (read_file (rw_file idx) ∷ t) (read_file (ro_file idx)) ≡ failed f
        → entry_round os vpd_dir idx entries t
          ≡ (ok entries, read_file (ro_file idx) ∷ read_file (rw_file idx) ∷ t)
    unfolding entry_round get handle call_text pure
    round_none e f a b = rw (a, b)

  module _ (store : IsFileStore os) (h : Trace) where
    SameReads-later :
        (t : Trace) (e : Event)
        → ((path content : Bytes) → e ≢ write_file path content)
        → SameReads h t
        → SameReads h (e ∷ t)
    SameReads-later t e n s = record {
      reads = λ path. store.read_other t e path (n path) ∙ s.reads path;
    }

    SameReads-read : (t : Trace) (file : Bytes) → SameReads h t → SameReads h (read_file file ∷ t)
    SameReads-read t file = SameReads-later t (read_file file) (λ _ _ e. cc)

    measure-SameReads :
        (pcr : ℕ) (content : Bytes) → Keeps (SameReads h) (try_measure_data os pcr content)
    measure-SameReads =
        try_measure_data-Keeps os (SameReads h) (λ t. SameReads-later t tpm_open (λ _ _ e. cc))
          (λ pcr c t. SameReads-later t (tpm_measure pcr c) (λ _ _ e. cc))
          (λ t. SameReads-later t tpm_close (λ _ _ e. cc)) (λ file t. SameReads-read t file)

    -- A round ends with these entries, and leaves the files as they were.
    abbrev RoundIs : List BootEntry → Outcome (List BootEntry) × Trace → Type 0
    RoundIs entries r = (r.0 ≡ ok entries) × SameReads h r.1

    found-RoundIs :
        (key value : Bytes) (entries : List BootEntry) (t : Trace)
        → SameReads h t
        → RoundIs (entries ++ cons_entry key (some value) []) (found os vpd_dir key entries value t)
    unfolding found pure
    found-RoundIs key value entries t s =
        rw
          (bind-Returns (try_measure_data os nvram_vars_pcr value)
            (λ _. pure (entries ++ cons_entry key (some value) [])) t
            (try_measure_data-Returns os nvram_vars_pcr value))
          (refl, (measure-SameReads nvram_vars_pcr value).at t s)

    entry_round-RoundIs :
        (idx : ℕ) (entries : List BootEntry) (t : Trace)
        → SameReads h t
        → RoundIs
            (entries ++ cons_entry (boot_key idx) (value_at h idx) [])
            (entry_round os vpd_dir idx entries t)
    entry_round-RoundIs idx entries t s =
        let s' = SameReads-read t (rw_file idx) s in
        let s'' = SameReads-read (read_file (rw_file idx) ∷ t) (ro_file idx) s' in
        elim (Answer-cases (os.text h (read_file (rw_file idx)))) [
          | inl (v, a) ↦
              rw (a, round_rw idx entries t v (s.reads (rw_file idx) ∙ a))
                (found-RoundIs (boot_key idx) v entries _ s')
          | inr (e, a) ↦ elim (Answer-cases (os.text h (read_file (ro_file idx)))) [
            | inl (v, b) ↦
                rw
                  (
                    a,
                    b,
                    round_ro idx entries t e v (s.reads (rw_file idx) ∙ a)
                        (s'.reads (ro_file idx) ∙ b),
                  )
                  (found-RoundIs (boot_key idx) v entries _ s'')
            | inr (f, b) ↦
                rw
                  (
                    a,
                    b,
                    round_none idx entries t e f (s.reads (rw_file idx) ∙ a)
                        (s'.reads (ro_file idx) ∙ b),
                  )
                  (ap ok (sym (append-nil entries)), s'')
          ]
        ]

    bind-RoundIs :
        (m : M (List BootEntry)) (f : List BootEntry → M (List BootEntry)) (t : Trace)
        {entries : List BootEntry}
        → (m t).0 ≡ ok entries
        → (m >>= f) t ≡ f entries (m t).1
    unfolding ◌>>=◌ handle
    bind-RoundIs m f t e = rw e

    entries_loop-RoundIs :
        (rounds idx : ℕ) (entries : List BootEntry) (t : Trace)
        → SameReads h t
        → RoundIs (entries ++ listing h rounds idx) (entries_loop os vpd_dir rounds idx entries t)
    unfolding entries_loop listing pure
    entries_loop-RoundIs zero idx entries t s = (ap ok (sym (append-nil entries)), s)
    entries_loop-RoundIs (suc rounds) idx entries t s =
        let (e, s') = entry_round-RoundIs idx entries t s in
        let rest =
          entries_loop-RoundIs rounds (idx + 1)
            (entries ++ cons_entry (boot_key idx) (value_at h idx) []) _ s' in
        rw
          (
            bind-RoundIs (entry_round os vpd_dir idx entries)
                (λ x. entries_loop os vpd_dir rounds (idx + 1) x) t e,
            sym (
                cons_entry-append (boot_key idx) (value_at h idx) entries
                  (listing h rounds (idx + 1))),
          )
          rest

    pub get_boot_entries-set_booters :
        (json : Json)
        → (get_boot_entries os vpd_dir json h).0 ≡ ok (set_booters json (listing h 9999 0))
    unfolding get_boot_entries pure
    get_boot_entries-set_booters json =
        let (e, s) = entries_loop-RoundIs 9999 0 [] h (record { reads = λ path. refl }) in
        rw
          (bind-RoundIs (entries_loop os vpd_dir 9999 0 [])
            (λ entries. pure (set_booters json entries)) h e)
          refl

    -- Over a file store, `GetBootEntries` returns the entries `Boot0000` to `Boot9998` that have a
    -- value, in that order, each with the value of its read-write variable, or else of its
    -- read-only variable, and with the booter that its value selects: a network booter where it
    -- reads as one, else a local booter where it reads as one, else the null booter.
    pub get_boot_entries-listing :
        (json : Json)
        → (entries : List BootEntry) × ((get_boot_entries os vpd_dir json h).0 ≡ ok entries)
          × Booted json (listing h 9999 0) entries
    get_boot_entries-listing json = (
      set_booters json (listing h 9999 0),
      get_boot_entries-set_booters json,
      set_booters-Booted json (listing h 9999 0),
    )
