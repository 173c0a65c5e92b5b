-- ===== src/VpdBootManager/Add/Free.antt =====
-- Where `addBootEntry` writes.
use systemboot.Base.{
  ℕ, zero, suc, ◌+◌, ◌-◌, ◌<◌, ◌≡◌, inl, inr, refl, subst, ◌∷◌, Bytes, Outcome, err, external,
  not_exist, fault, false, no_free_entry, arith,
}
use systemboot.Platform.{Platform, Trace, done, failed, read_file, write_file}
use systemboot.Platform.Monad.{handle, raise, call, call_text, from_answer, Answer-cases}
use systemboot.Vpd.{get, set, file_of, max_boot_entry}
use systemboot.VpdBootManager.Add.{boot_key, add_loop, add_boot_entry}

module _ (os : Platform) (vpd_dir : Bytes) where
  abbrev pub entry_file : ℕ → Bytes
  entry_file i = file_of os vpd_dir (boot_key i) false

  -- The calls that read the entries from `i` up to `j`, each of which has a value.
  pub data Taken (h : Trace) (i : ℕ) : ℕ → Trace → Type 0 where
    none_yet : Taken h i i h
    one_more :
        {j : ℕ} {t : Trace} (value : Bytes)
        → Taken h i j t
        → os.text t (read_file (entry_file j)) ≡ done value
        → Taken h i (j + 1) (read_file (entry_file j) ∷ t)

  -- How `addBootEntry` ends, in the trace `t` and with the outcome `r`: it has written the first
  -- entry that does not exist; or the read of an entry failed in another way; or none was free.
  pub data Ending (h : Trace) (content : Bytes) : Outcome (Unit {0}) → Trace → Type 0 where
    wrote :
        {j : ℕ} {t : Trace} {r : Outcome (Unit {0})} {u : Trace}
        → Taken h 1 j t
        → j < max_boot_entry
        → os.text t (read_file (entry_file j)) ≡ failed not_exist
        → u ≡ write_file (entry_file j) content ∷ read_file (entry_file j) ∷ t
        → r
          ≡ from_answer (os.unit (read_file (entry_file j) ∷ t) (write_file (entry_file j) content))
        → Ending h content r u
    unreadable :
        {j : ℕ} {t : Trace} {r : Outcome (Unit {0})} {u : Trace} (n : ℕ)
        → Taken h 1 j t
        → j < max_boot_entry
        → os.text t (read_file (entry_file j)) ≡ failed (fault n)
        → u ≡ read_file (entry_file j) ∷ t
        → r ≡ err (external (fault n))
        → Ending h content r u
    full :
        {r : Outcome (Unit {0})} {u : Trace}
        → Taken h 1 max_boot_entry u
        → r ≡ err no_free_entry
        → Ending h content r u

  module _ (content : Bytes) (rounds j : ℕ) (t : Trace) where
    add_loop-taken :
        (value : Bytes)
        → os.text t (read_file (entry_file j)) ≡ done value
        → add_loop os vpd_dir (suc rounds) j content t
          ≡ add_loop os vpd_dir rounds (j + 1) content (read_file (entry_file j) ∷ t)
    unfolding add_loop get handle call_text
    add_loop-taken value a = rw a

    add_loop-free :
        os.text t (read_file (entry_file j)) ≡ failed not_exist
        → add_loop os vpd_dir (suc rounds) j content t
          ≡ call os (write_file (entry_file j) content) (read_file (entry_file j) ∷ t)
    unfolding add_loop get set handle call_text
    add_loop-free a = rw a

    add_loop-fault :
        (n : ℕ)
        → os.text t (read_file (entry_file j)) ≡ failed (fault n)
        → add_loop os vpd_dir (suc rounds) j content t
          ≡ (err (external (fault n)), read_file (entry_file j) ∷ t)
    unfolding add_loop get handle call_text raise
    add_loop-fault n a = rw a

  add_loop-Ending :
      (h : Trace) (content : Bytes) (rounds j : ℕ) (t : Trace)
      → Taken h 1 j t
      → j + rounds ≡ max_boot_entry
      → Ending h content
          (add_loop os vpd_dir rounds j content t).0
          (add_loop os vpd_dir rounds j content t).1
  add_loop-Ending h content zero j t k e =
      unfold add_loop raise in full (subst (λ m. Taken h 1 m t) (omega arith) k) refl
  add_loop-Ending h content (suc rounds) j t k e =
      elim (Answer-cases (os.text t (read_file (entry_file j)))) [
        | inl (value, a) ↦ rw (add_loop-taken content rounds j t value a) (
            add_loop-Ending h content rounds (j + 1) (read_file (entry_file j) ∷ t)
              (one_more value k a) (omega arith))
        | inr (not_exist, a) ↦
            rw (add_loop-free content rounds j t a)
              (unfold call in wrote k (omega arith) a refl refl)
        | inr (fault n, a) ↦
            rw (add_loop-fault content rounds j t n a) (unreadable n k (omega arith) a refl refl)
      ]

  -- `addBootEntry` looks at the read-write entries from 1 on, and all those that it passes have a
  -- value. It writes the entry, as its last call, to the first one that does not exist, and ends as
  -- that write ends; it stops with the error of a read that fails otherwise; it reports that there
  -- is no room only where the entries up to 9998 all have a value.
  pub add_boot_entry-Ending :
      (h : Trace) (content : Bytes)
      → Ending h content
          (add_boot_entry os vpd_dir content h).0
          (add_boot_entry os vpd_dir content h).1
  unfolding add_boot_entry
  add_boot_entry-Ending h content =
      add_loop-Ending h content (max_boot_entry - 1) 1 h none_yet (omega arith)
