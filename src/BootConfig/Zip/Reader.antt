-- ===== src/BootConfig/Zip/Reader.antt =====
-- The contract of `io.ReaderAt` for `memoryZipReader`.
use systemboot.Base.{
  ℕ, ◌+◌, ◌-◌, ◌≤◌, ◌<◌, sym, length-drop, take-all, Bool-cases, inl, inr, none, some, [], Bytes,
  length, take, drop, ltb, leb, arith, Outcome, ok, end_of_file,
}
use systemboot.Base.Int.{pos}
use systemboot.BootConfig.Zip.{ReadResult, read_at}

-- What `ReadAt` returns for a buffer of `size` bytes at an offset.
pub data ReadsAt (content : Bytes) (size offset : ℕ) : Outcome ReadResult → Type 0 where
  whole :
      offset + size ≤ length content
      → ReadsAt content size offset
          (ok (record { copied = take size (drop offset content); error = none }))
  partly :
      length content < offset + size
      → ReadsAt content size offset
          (ok (record { copied = take size (drop offset content); error = some end_of_file }))
  behind :
      length content < offset
      → ReadsAt content size offset (ok (record { copied = []; error = some end_of_file }))

-- `ReadAt` at an offset that is not negative keeps the contract of `io.ReaderAt`: it copies the
-- bytes from the offset on, as many as the buffer takes, with no error where they fill it and with
-- end of file where they do not; behind the end it copies none and reports end of file.
pub read_at-ReadsAt :
    (content : Bytes) (size offset : ℕ)
    → ReadsAt content size offset (read_at content size (pos offset))
unfolding read_at
read_at-ReadsAt content size offset = elim (Bool-cases (ltb (length content) offset)) [
  | inl e ↦ rw e (behind (ground (arith, e)))
  | inr e ↦ elim (Bool-cases (leb size (length content - offset))) [
    | inl f ↦ rw (e, f) (whole (ground (arith, e, f)))
    | inr f ↦
        rw (e, f, sym (take-all size (drop offset content) (rw length-drop (ground (arith, e, f)))))
          (partly (ground (arith, e, f)))
  ]
]
