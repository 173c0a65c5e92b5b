-- ===== src/Storage/Gpt/Searched.antt =====
-- What `PartitionsByGUID` finds.
use systemboot.Base.{
  ◌≡◌, refl, sym, ap, ◌∙◌, List, [], ◌∷◌, ◌++◌, append-nil, append_assoc, Bool, not, ◌&&◌,
  Bool-cases, inl, inr, ◌⊎◌, map, filter, equal, Bytes, Error, Outcome, ok, err, panic,
}
use systemboot.Platform.{Platform, Trace}
use systemboot.Platform.Devices.{Partition}
use systemboot.Platform.Monad.{handle, pure}
use systemboot.Platform.Rules.{NoPanic, NoPanic-finally, returns_rules, IsNoPanic}
use systemboot.Storage.Device.{BlockDev}
use systemboot.Storage.Gpt.{matching, get_gpt_table, partitions_by_guid_loop, partitions_by_guid}

abbrev pub has_guid : Bytes → Partition → Bool
has_guid guid part = not part.is_empty_part && equal part.type_guid guid

-- The device, once for each partition of the table with the GUID.
abbrev pub copies : BlockDev → Bytes → List Partition → List BlockDev
copies device guid table = map (λ _. device) (filter (has_guid guid) table)

matching-copies :
    (device : BlockDev) (guid : Bytes) (table : List Partition) (found : List BlockDev)
    → matching device guid table found ≡ found ++ copies device guid table
unfolding matching
matching-copies device guid [] found = sym (append-nil found)
matching-copies device guid (part ∷ table) found = elim (Bool-cases part.is_empty_part) [
  | inl e ↦ rw e (matching-copies device guid table found)
  | inr e ↦ elim (Bool-cases (equal part.type_guid guid)) [
    | inl q ↦
        rw (e, q)
          (matching-copies device guid table (found ++ (device ∷ []))
            ∙ append_assoc found (device ∷ []) (copies device guid table))
    | inr q ↦ rw (e, q) (matching-copies device guid table found)
  ]
]

NoPanic-cases :
    {A : Type 0} (r : Outcome A)
    → IsNoPanic r
    → ((a : A) × (r ≡ ok a)) ⊎ ((e : Error) × (r ≡ err e))
NoPanic-cases (ok a) n = inl (a, refl)
NoPanic-cases (err e) n = inr (e, refl)
NoPanic-cases panic n = absurd n

module _ (os : Platform) (guid : Bytes) where
  -- What the search of the devices finds, from the calls so far on, and the calls at its end.
  pub data Searched : List BlockDev → Trace → List BlockDev → Trace → Type 0 where
    all_searched : {h : Trace} → Searched [] h [] h
    with_table :
        {device : BlockDev} {devices found : List BlockDev} {h t : Trace} {table : List Partition}
        → (get_gpt_table os device h).0 ≡ ok table
        → Searched devices (get_gpt_table os device h).1 found t
        → Searched (device ∷ devices) h (copies device guid table ++ found) t
    without_table :
        {device : BlockDev} {devices found : List BlockDev} {h t : Trace} (e : Error)
        → (get_gpt_table os device h).0 ≡ err e
        → Searched devices (get_gpt_table os device h).1 found t
        → Searched (device ∷ devices) h found t

  -- The loop returns what it had found and what the search of the other devices finds.
  abbrev Adds : List BlockDev → List BlockDev → Trace → Outcome (List BlockDev) × Trace → Type 0
  Adds found devices h r =
      (more : List BlockDev) × (r.0 ≡ ok (found ++ more)) × Searched devices h more r.1

  get_gpt_table-NoPanic : (device : BlockDev) → NoPanic (get_gpt_table os device)
  unfolding get_gpt_table
  get_gpt_table-NoPanic device = search (returns_rules, NoPanic-finally) depth 8

  loop-Adds :
      (devices found : List BlockDev) (h : Trace)
      → Adds found devices h (partitions_by_guid_loop os found devices guid h)
  unfolding partitions_by_guid_loop handle pure
  loop-Adds [] found h = ([], ap ok (sym (append-nil found)), all_searched)
  loop-Adds (device ∷ devices) found h =
      elim (NoPanic-cases _ ((get_gpt_table-NoPanic device).at h)) [
        | inl (table, e) ↦
            let more = copies device guid table in
            let (rest, er, sr) =
              loop-Adds devices (matching device guid table found) (get_gpt_table os device h).1 in
            rw e (
              more ++ rest,
              er
                  ∙ ap ok (
                      ap (λ fs. fs ++ rest) (matching-copies device guid table found)
                      ∙ append_assoc found more rest),
              with_table e sr,
            )
        | inr (x, e) ↦
            let (rest, er, sr) = loop-Adds devices found (get_gpt_table os device h).1 in
            rw e (rest, er, without_table x e sr)
      ]

  -- `PartitionsByGUID` always returns, with no error: each device once for each partition of its
  -- table that is in use and has the GUID, in the order of the devices; a device whose table cannot
  -- be read is skipped.
  pub partitions_by_guid-Searched :
      (devices : List BlockDev) (h : Trace)
      → (found : List BlockDev) × ((partitions_by_guid os devices guid h).0 ≡ ok found)
        × Searched devices h found (partitions_by_guid os devices guid h).1
  unfolding partitions_by_guid
  partitions_by_guid-Searched devices h = loop-Adds devices [] h
