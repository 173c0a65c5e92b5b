-- ===== src/Text/Hex/Digits.antt =====
-- Hexadecimal text decodes to the bytes that it was printed from, and has no dash.
use systemboot.Base.{
  ℕ, ◌≡◌, refl, ◌<◌, ◌/◌, ◌%◌, true, false, List, [], ◌∷◌, arith, All, Bytes, some, ◌==◌, ◌∙◌, ap,
}
use systemboot.Text.Split.{Lacks, split_on, join, split_on-Lacks, split_on-append}
use systemboot.Text.Hex.{
  is_hex, hex_value, hex_digit, hex_bytes, hex_groups, decode_hex, decode_pair,
}

hex_digit-is_hex : (n : ℕ) → n < 16 → is_hex (hex_digit n) ≡ true
unfolding is_hex hex_digit
hex_digit-is_hex n h = ground arith

hex_value-hex_digit : (n : ℕ) → n < 16 → hex_value (hex_digit n) ≡ n
unfolding hex_value hex_digit
hex_value-hex_digit n h = ground arith

hex_digit-dash : (n : ℕ) → n < 16 → (hex_digit n == b'-') ≡ false
unfolding hex_digit
hex_digit-dash n h = ground arith

decode_pair-hex :
    (b : ℕ) (r : Bytes)
    → b < 256
    → decode_pair (hex_digit (b / 16)) (hex_digit (b % 16)) (some r) ≡ some (b ∷ r)
unfolding decode_pair
decode_pair-hex b r h =
    rw
      (
        hex_digit-is_hex (b / 16) (omega arith),
        hex_digit-is_hex (b % 16) (omega arith),
        hex_value-hex_digit (b / 16) (omega arith),
        hex_value-hex_digit (b % 16) (omega arith),
      )
      (ap (λ t. some (t ∷ r)) (omega arith))

pub decode_hex-hex_bytes :
    (bs : Bytes) → All (λ b. b < 256) bs → decode_hex (hex_bytes bs) ≡ some bs
unfolding decode_hex
decode_hex-hex_bytes [] h = refl
decode_hex-hex_bytes (b ∷ bs) h = rw (decode_hex-hex_bytes bs h.1) (decode_pair-hex b bs h.0)

hex_bytes-Lacks : (bs : Bytes) → All (λ b. b < 256) bs → Lacks b'-' (hex_bytes bs)
hex_bytes-Lacks [] h = tt
hex_bytes-Lacks (b ∷ bs) h = (
  hex_digit-dash (b / 16) (omega arith),
  (hex_digit-dash (b % 16) (omega arith), hex_bytes-Lacks bs h.1),
)

abbrev pub IsByte : ℕ → Type 0
IsByte b = b < 256

-- The groups between the dashes decode to the bytes that they were printed from.
pub split_on-join-hex :
    (g : Bytes) (gs : List Bytes)
    → All (All IsByte) (g ∷ gs)
    → split_on b'-' (join (b'-' ∷ []) (hex_groups (g ∷ gs))) ≡ hex_groups (g ∷ gs)
unfolding join
split_on-join-hex g [] h = split_on-Lacks b'-' (hex_bytes g) (hex_bytes-Lacks g h.0)
split_on-join-hex g (k ∷ gs) h =
    split_on-append b'-' (hex_bytes g) (join (b'-' ∷ []) (hex_groups (k ∷ gs)))
      (hex_bytes-Lacks g h.0)
    ∙ ap (λ r. hex_bytes g ∷ r) (split_on-join-hex k gs h.1)
