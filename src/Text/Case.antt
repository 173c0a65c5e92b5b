-- ===== src/Text/Case.antt =====
-- `strings.ToLower`, for ASCII letters.
use systemboot.Base.{ℕ, ◌+◌, map, leb, ◌&&◌, if◌then◌else◌, Bytes}

abbrev lower : ℕ → ℕ
lower c = if leb b'A' c && leb c b'Z' then c + 32 else c

unfoldable pub to_lower : Bytes → Bytes
to_lower s = map lower s
