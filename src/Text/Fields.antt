-- ===== src/Text/Fields.antt =====
-- `strings.Fields`: the words of a text.
pub mod Join
use systemboot.Base.{
  ℕ, ◌≡◌, Bool, false, ◌||◌, ◌&&◌, List, [], ◌∷◌, ◌++◌, ◌==◌, leb, if◌then◌else◌, All, Bytes,
  Bool-cases, inl, inr,
}

-- The ASCII bytes that `unicode.IsSpace` accepts.
unfoldable pub is_space : ℕ → Bool
is_space c = (leb 9 c && leb c 13) || c == 32

-- The word read so far, if there is one.
abbrev pub flush : Bytes → List Bytes → List Bytes
flush [] ws = ws
flush (c ∷ w) ws = (c ∷ w) ∷ ws

unfoldable pub fields_from : Bytes → Bytes → List Bytes
unfolding is_space
fields_from word [] = flush word []
fields_from word (c ∷ s) =
    let rest = fields_from (if is_space c then [] else word ++ (c ∷ [])) s in
    if is_space c then flush word rest else rest

unfoldable pub fields : Bytes → List Bytes
unfolding fields_from
fields s = fields_from [] s

-- A word: it has a byte, and no white space.
abbrev pub NoSpace : Bytes → Type 0
NoSpace [] = Unit
NoSpace (c ∷ w) = (is_space c ≡ false) × NoSpace w

abbrev pub IsWord : Bytes → Type 0
IsWord [] = ⊥
IsWord (c ∷ w) = NoSpace (c ∷ w)

pub NoSpace-concat : (w : Bytes) (c : ℕ) → NoSpace w → is_space c ≡ false → NoSpace (w ++ (c ∷ []))
NoSpace-concat [] c h e = (e, tt)
NoSpace-concat (x ∷ w) c h e = (h.0, NoSpace-concat w c h.1 e)

flush-IsWord : (w : Bytes) (ws : List Bytes) → NoSpace w → All IsWord ws → All IsWord (flush w ws)
flush-IsWord [] ws h hs = hs
flush-IsWord (c ∷ w) ws h hs = (h, hs)

fields_from-IsWord : (w s : Bytes) → NoSpace w → All IsWord (fields_from w s)
unfolding fields_from
fields_from-IsWord w [] h = flush-IsWord w [] h tt
fields_from-IsWord w (c ∷ s) h = elim (Bool-cases (is_space c)) [
  | inl e ↦ rw e (flush-IsWord w _ h (fields_from-IsWord [] s tt))
  | inr e ↦ rw e (fields_from-IsWord (w ++ (c ∷ [])) s (NoSpace-concat w c h e))
]

pub fields-IsWord : (s : Bytes) → All IsWord (fields s)
unfolding fields
fields-IsWord s = fields_from-IsWord [] s tt
