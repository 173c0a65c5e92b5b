-- ===== src/Crypto/Keys/Blocks.antt =====
-- How the search for a PEM block ends.
use systemboot.Base.{
  ℕ, zero, suc, ◌<◌, ◌≡◌, Bool-cases, some, Option-cases, inl, inr, Bytes, equal, equal_iff, length,
  bad_pem, Outcome, ok, err, arith,
}
use systemboot.Crypto.Keys.{PemBlock, Keys, find_block, first_block}

module _ (keys : Keys) where
  -- The block that a search found is of the type that is wanted.
  pub data Search (wanted : Bytes) : Outcome PemBlock → Type 0 where
    found : (b : PemBlock) → b.type ≡ wanted → Search wanted (ok b)
    missing : Search wanted (err bad_pem)

  module _
      (shrinks : (text : Bytes) (b : PemBlock) (rest : Bytes)
        → keys.decode text ≡ some (b, rest)
        → length rest < length text)
      (wanted : Bytes) where
    find_block-Search :
        (rounds : ℕ) (text : Bytes)
        → length text < rounds
        → Search wanted (find_block keys rounds wanted text)
    unfolding find_block
    find_block-Search zero text lt = absurd (omega arith)
    find_block-Search (suc rounds) text lt = elim (Option-cases (keys.decode text)) [
      | inl e ↦ rw (find_block, e) missing
      | inr ((b, rest), e) ↦ elim (Bool-cases (equal b.type wanted)) [
        | inl f ↦ rw (find_block, e, f) (found b ((equal_iff _ _).0 f))
        | inr f ↦
            rw (find_block, e, f)
              (find_block-Search rounds rest (let l = shrinks text b rest e in omega (arith, l)))
      ]
    ]

    -- Where the rest that `pem.Decode` returns is shorter than its argument, the loop over the
    -- blocks of a key file ends for every file: with a block of the type that is wanted, or with
    -- the error that the file cannot be decoded.
    pub first_block-Search : (text : Bytes) → Search wanted (first_block keys wanted text)
    unfolding first_block
    first_block-Search text = find_block-Search (suc (length text)) text (omega arith)
