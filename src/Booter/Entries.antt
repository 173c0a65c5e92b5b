-- ===== src/Booter/Entries.antt =====
-- pkg/booter/bootentry.go: the boot entries of the VPD.
pub mod Added
pub mod Listing
use systemboot.Base.{
  ℕ, zero, suc, ◌+◌, List, [], ◌∷◌, ◌++◌, Option, none, some, ◌⊎◌, inl, inr, Bool, true, false,
  Bytes, Error,
}
use systemboot.Platform.{Platform}
use systemboot.Platform.Monad.{M, pure, handle, ◌>>=◌, ◌>>◌}
use systemboot.Crypto.Measure.{nvram_vars_pcr, try_measure_data}
use systemboot.Vpd.{get}
use systemboot.VpdBootManager.Add.{boot_key}
use systemboot.Booter.{Booter, null, Json, new_net_booter, new_local_booter}

pub record BootEntry : Type 0 where
  pub name : Bytes
  pub config : Bytes
  pub booter : Option Booter

abbrev pub supported_booter_parsers : Json → List (Bytes → Booter ⊎ Error)
supported_booter_parsers json = new_net_booter json ∷ new_local_booter json ∷ []

-- The loop of `GetBooterFor`: `booter` is nil behind a parser that fails.
unfoldable pub booter_loop : List (Bytes → Booter ⊎ Error) → Option Booter → Bytes → Option Booter
booter_loop [] booter config = booter
booter_loop (parser ∷ parsers) booter config =
    let rest = booter_loop parsers none config in
    elim (parser config) [ inl b ↦ some b | inr e ↦ rest ]

abbrev pub or_null : Option Booter → Booter
or_null none = null
or_null (some b) = b

unfoldable pub get_booter_for : Json → BootEntry → Booter
unfolding booter_loop new_net_booter new_local_booter
get_booter_for json entry = or_null (booter_loop (supported_booter_parsers json) none entry.config)

-- The last loop of `GetBootEntries`: it sets the booter of each entry.
unfoldable pub set_booters : Json → List BootEntry → List BootEntry
unfolding get_booter_for
set_booters json [] = []
set_booters json (entry ∷ entries) =
    record entry { booter = some (get_booter_for json entry) } ∷ set_booters json entries

module _ (os : Platform) (vpd_dir : Bytes) where
  -- Measure the variable that was found, and append its entry.
  unfoldable pub found : Bytes → List BootEntry → Bytes → M (List BootEntry)
  found key entries value =
      try_measure_data os nvram_vars_pcr value
      >> pure (entries ++ (record { name = key; config = value; booter = none } ∷ []))

  -- One round of the loop over the indices: the read-write variable, or else the read-only one.
  unfoldable pub entry_round : ℕ → List BootEntry → M (List BootEntry)
  unfolding found
  entry_round idx entries =
      let key = boot_key idx in
      handle (get os vpd_dir key false) (found key entries)
        (λ _. handle (get os vpd_dir key true) (found key entries) (λ _. pure entries))

  unfoldable pub entries_loop : ℕ → ℕ → List BootEntry → M (List BootEntry)
  entries_loop zero idx entries = pure entries
  entries_loop (suc rounds) idx entries =
      entry_round idx entries >>= λ entries'. entries_loop rounds (idx + 1) entries'

  unfoldable pub get_boot_entries : Json → M (List BootEntry)
  unfolding set_booters
  get_boot_entries json = entries_loop 9999 0 [] >>= λ entries. pure (set_booters json entries)
