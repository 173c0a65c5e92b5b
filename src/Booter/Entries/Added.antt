-- ===== src/Booter/Entries/Added.antt =====
-- What `addBootEntry` adds is what `GetBootEntries` finds.
use systemboot.Base.{
  ℕ, zero, suc, ◌+◌, ◌<◌, ◌≡◌, refl, ap, sym, ◌∙◌, List, [], ◌∷◌, Option, none, some, Bytes,
  Outcome, ok, arith, ◌≤◌, ◌⊎◌, inl, inr,
}
use mathlib.Core.List.{Memᴰ}
use mathlib.Core.List.Memᴰ.{head, tail}
use systemboot.Platform.{Platform, Trace, Answer, done, failed, write_file}
use systemboot.Platform.Monad.{from_answer}
use systemboot.Vpd.Store.{IsFileStore}
use systemboot.VpdBootManager.Add.{boot_key, add_boot_entry}
use systemboot.VpdBootManager.Add.Free.{
  entry_file, Ending, wrote, unreadable, full, add_boot_entry-Ending,
}
use systemboot.Booter.{Json}
use systemboot.Booter.Entries.{BootEntry, set_booters, get_booter_for, get_boot_entries}
use systemboot.Booter.Entries.Listing.{listing, value_at, cons_entry, get_boot_entries-set_booters}

-- An entry as it is listed, before its booter is set.
abbrev pub entry_of : Bytes → Bytes → BootEntry
entry_of key content = record { name = key; config = content; booter = none }

cons_entry-tail :
    (key : Bytes) (o : Option Bytes) {x : BootEntry} {xs : List BootEntry}
    → Memᴰ x xs
    → Memᴰ x (cons_entry key o xs)
cons_entry-tail key none m = m
cons_entry-tail key (some v) m = tail m

cons_entry-head :
    (key : Bytes) (o : Option Bytes) {k content : Bytes} (xs : List BootEntry)
    → k ≡ key
    → o ≡ some content
    → Memᴰ (entry_of k content) (cons_entry key o xs)
cons_entry-head key none xs ek e = cc
cons_entry-head key (some v) {content = content} xs ek e = head (cc)

eq_or_later : {idx i : ℕ} → idx ≤ i → (i ≡ idx) ⊎ (idx + 1 ≤ i)
eq_or_later {idx = idx} {i = i} le = ground arith

Mem-set_booters :
    (json : Json) (x : BootEntry) (xs : List BootEntry)
    → Memᴰ x xs
    → Memᴰ (record x { booter = some (get_booter_for json x) }) (set_booters json xs)
unfolding set_booters
Mem-set_booters json x [] m = elim m [ ]
Mem-set_booters json x (y ∷ ys) (head e) =
    head (
      ap {A = BootEntry} {B = BootEntry} (λ z. record z { booter = some (get_booter_for json z) })
        e)
Mem-set_booters json x (y ∷ ys) (tail m) = tail (Mem-set_booters json x ys m)

module _ (os : Platform) (vpd_dir : Bytes) where
  Mem-listing :
      (h : Trace) (content : Bytes) (rounds idx i : ℕ)
      → idx ≤ i
      → i < idx + rounds
      → value_at os vpd_dir h i ≡ some content
      → Memᴰ (entry_of (boot_key i) content) (listing os vpd_dir h rounds idx)
  unfolding listing
  Mem-listing h content zero idx i le lt e = absurd (omega arith)
  Mem-listing h content (suc rounds) idx i le lt e = elim (eq_or_later le) [
    | inl eq ↦
        cons_entry-head (boot_key idx) (value_at os vpd_dir h idx) _ (ap boot_key eq)
          (ap (value_at os vpd_dir h) (sym eq) ∙ e)
    | inr later ↦
        cons_entry-tail (boot_key idx) (value_at os vpd_dir h idx)
          (Mem-listing h content rounds (idx + 1) i later (omega arith) e)
  ]

  -- The value of one of the entries that `GetBootEntries` reads.
  abbrev pub HasValue : Bytes → Trace → Type 0
  HasValue content u = (k : ℕ) × (k < 9999) × (value_at os vpd_dir u k ≡ some content)

  -- An entry with this text and the booter for it is in the list.
  abbrev pub IsIn : Bytes → Json → List BootEntry → Type 0
  IsIn content json entries =
      (k : ℕ) × Memᴰ
        (record {
          name = boot_key k;
          config = content;
          booter = some (get_booter_for json (entry_of (boot_key k) content));
        })
        entries

  pub HasValue-IsIn :
      (json : Json) (content : Bytes) (u : Trace)
      → HasValue content u
      → IsIn content json (set_booters json (listing os vpd_dir u 9999 0))
  HasValue-IsIn json content u (k, lt, e) = (
    k,
    Mem-set_booters json (entry_of (boot_key k) content) _
        (Mem-listing u content 9999 0 k (omega arith) (omega arith) e),
  )

  from_answer-eq-ok : (a : Answer (Unit {0})) → from_answer a ≡ ok tt → a ≡ done tt
  from_answer-eq-ok (done x) e = refl
  from_answer-eq-ok (failed f) e = cc

  module _ (store : IsFileStore os) (h : Trace) (content : Bytes) where
    -- The write of the entry `k` has made its value `content`.
    written :
        (k : ℕ) (t : Trace)
        → os.unit t (write_file (entry_file os vpd_dir k) content) ≡ done tt
        → value_at os vpd_dir (write_file (entry_file os vpd_dir k) content ∷ t) k ≡ some content
    written k t e = rw (store.read_written t (entry_file os vpd_dir k) content e) refl

    Ending-HasValue :
        (r : Outcome (Unit {0})) (u : Trace)
        → r ≡ ok tt
        → Ending os vpd_dir h content r u
        → HasValue content u
    Ending-HasValue r u e (wrote {j = j} {t = t} taken lt a eu er) =
        rw eu (j, omega arith, written j _ (from_answer-eq-ok _ (sym er ∙ e)))
    Ending-HasValue r u e (unreadable n taken lt a eu er) = cc
    Ending-HasValue r u e (full taken er) = cc

    pub add_boot_entry-HasValue :
        (add_boot_entry os vpd_dir content h).0 ≡ ok tt
        → HasValue content (add_boot_entry os vpd_dir content h).1
    add_boot_entry-HasValue e = Ending-HasValue _ _ e (add_boot_entry-Ending os vpd_dir h content)

    -- The entry that a successful `addBootEntry` added is in the list of `GetBootEntries`.
    abbrev IsListed : Json → Trace → Type 0
    IsListed json u =
        (entries : List BootEntry) × ((get_boot_entries os vpd_dir json u).0 ≡ ok entries)
        × IsIn content json entries

    -- Over a file store, the entry that `addBootEntry` added with success is one of those that
    -- `GetBootEntries` returns next, with its text and the booter for that text.
    pub add_boot_entry-IsListed :
        (json : Json)
        → (add_boot_entry os vpd_dir content h).0 ≡ ok tt
        → IsListed json (add_boot_entry os vpd_dir content h).1
    add_boot_entry-IsListed json e =
        let u : Trace = (add_boot_entry os vpd_dir content h).1 in
        (
          set_booters json (listing os vpd_dir u 9999 0),
          get_boot_entries-set_booters os vpd_dir store u json,
          HasValue-IsIn json content u (add_boot_entry-HasValue e),
        )
