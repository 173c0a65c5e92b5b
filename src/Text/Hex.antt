-- ===== src/Text/Hex.antt =====
-- `hex.DecodeString` and the verb `%02x` of `fmt`.
pub mod Digits
use systemboot.Base.{
  List, ℕ, ◌+◌, ◌-◌, ◌*◌, ◌/◌, ◌%◌, Bool, ◌&&◌, ◌||◌, [], ◌∷◌, leb, ltb, if◌then◌else◌, Bytes,
  Option, none, some,
}

unfoldable pub is_hex : ℕ → Bool
is_hex c = (leb b'0' c && leb c b'9') || (leb b'a' c && leb c b'f') || (leb b'A' c && leb c b'F')

-- The value of a hexadecimal digit.
unfoldable pub hex_value : ℕ → ℕ
hex_value c = if leb c b'9' then c - b'0' else if leb c b'F' then c - b'A' + 10 else c - b'a' + 10

-- Two digits in front of what was decoded of the rest.
unfoldable pub decode_pair : ℕ → ℕ → Option Bytes → Option Bytes
unfolding is_hex hex_value
decode_pair c d none = none
decode_pair c d (some r) =
    if is_hex c && is_hex d then some ((hex_value c * 16 + hex_value d) ∷ r) else none

-- `hex.DecodeString`: an odd length or another byte is an error.
unfoldable pub decode_hex : Bytes → Option Bytes
unfolding decode_pair
decode_hex [] = some []
decode_hex (c ∷ []) = none
decode_hex (c ∷ d ∷ s) = decode_pair c d (decode_hex s)

-- A lower case hexadecimal digit.
unfoldable pub hex_digit : ℕ → ℕ
hex_digit n = if ltb n 10 then b'0' + n else b'a' + (n - 10)

-- `%02x` of each byte.
abbrev pub hex_bytes : Bytes → Bytes
hex_bytes [] = []
hex_bytes (b ∷ bs) = hex_digit (b / 16) ∷ hex_digit (b % 16) ∷ hex_bytes bs

abbrev pub hex_groups : List Bytes → List Bytes
hex_groups [] = []
hex_groups (g ∷ gs) = hex_bytes g ∷ hex_groups gs
