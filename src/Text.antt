-- ===== src/Text.antt =====
-- What the source uses of Go's standard packages `strings`, `strconv`, `encoding/hex`, `path` and
-- `fmt`, over byte strings. White space is ASCII white space.
pub mod Case
pub mod Split
pub mod Lines
pub mod Fields
pub mod Decimal
pub mod Hex
pub mod FilePath
