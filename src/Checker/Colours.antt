-- ===== src/Checker/Colours.antt =====
-- pkg/checker/colours.go, on the text that the format and its arguments make.
use systemboot.Base.{◌∷◌, ◌++◌, Bytes, bytes}

abbrev pub color_black : Bytes
color_black = 0x1B ∷ bytes "[0;30m"

abbrev pub color_red : Bytes
color_red = 0x1B ∷ bytes "[0;31m"

abbrev pub color_green : Bytes
color_green = 0x1B ∷ bytes "[0;32m"

abbrev pub color_yellow : Bytes
color_yellow = 0x1B ∷ bytes "[0;33m"

abbrev pub color_blue : Bytes
color_blue = 0x1B ∷ bytes "[0;34m"

abbrev pub color_magenta : Bytes
color_magenta = 0x1B ∷ bytes "[0;35m"

abbrev pub color_grey : Bytes
color_grey = 0x1B ∷ bytes "[0;36m"

abbrev pub color_none : Bytes
color_none = 0x1B ∷ bytes "[0m"

unfoldable pub colorize : Bytes → Bytes → Bytes
colorize col text = col ++ (text ++ color_none)

unfoldable pub red : Bytes → Bytes
red text = colorize color_red text

unfoldable pub green : Bytes → Bytes
green text = colorize color_green text

unfoldable pub yellow : Bytes → Bytes
yellow text = colorize color_yellow text

unfoldable pub blue : Bytes → Bytes
blue text = colorize color_blue text

unfoldable pub magenta : Bytes → Bytes
magenta text = colorize color_magenta text

unfoldable pub grey : Bytes → Bytes
grey text = colorize color_grey text
