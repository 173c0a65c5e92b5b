-- ===== src/Text/Lines.antt =====
-- `bufio.Scanner`, which reads a text line by line.
use systemboot.Base.{List, [], ◌∷◌, map, Bytes}
use systemboot.Text.Split.{split_on, trim_suffix}

-- The text behind the last newline is a line only if it is not empty.
abbrev pub without_last_empty : List Bytes → List Bytes
without_last_empty [] = []
without_last_empty ([] ∷ []) = []
without_last_empty ([] ∷ w ∷ ws) = [] ∷ without_last_empty (w ∷ ws)
without_last_empty ((c ∷ s) ∷ ws) = (c ∷ s) ∷ without_last_empty ws

-- The lines, each without a carriage return at its end.
unfoldable pub lines : Bytes → List Bytes
unfolding split_on trim_suffix
lines text = map (trim_suffix 13) (without_last_empty (split_on b'\n' text))
