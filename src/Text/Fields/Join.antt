-- ===== src/Text/Fields/Join.antt =====
-- `strings.Fields` gives back the words that were joined with spaces.
use systemboot.Base.{
  ℕ, ◌≡◌, refl, sym, ◌∙◌, ap, false, List, [], ◌∷◌, ◌++◌, append-nil, append_assoc, All, Bytes,
}
use systemboot.Text.Split.{join}
use systemboot.Text.Fields.{is_space, flush, fields_from, fields, NoSpace, IsWord}

fields_from-nil : (w : Bytes) → fields_from w [] ≡ flush w []
unfolding fields_from
fields_from-nil w = refl

fields_from-byte :
    (w : Bytes) (c : ℕ) (s : Bytes)
    → is_space c ≡ false
    → fields_from w (c ∷ s) ≡ fields_from (w ++ (c ∷ [])) s
unfolding fields_from
fields_from-byte w c s h = rw h

fields_from-space : (w s : Bytes) → fields_from w (b' ' ∷ s) ≡ flush w (fields_from [] s)
unfolding fields_from
fields_from-space w s = refl

-- The bytes of a word are added to the word read so far.
fields_from-NoSpace :
    (w v rest : Bytes) → NoSpace v → fields_from w (v ++ rest) ≡ fields_from (w ++ v) rest
fields_from-NoSpace w [] rest h = rw append-nil
fields_from-NoSpace w (c ∷ v) rest h =
    fields_from-byte w c (v ++ rest) h.0
    ∙ fields_from-NoSpace (w ++ (c ∷ [])) v rest h.1
    ∙ ap (λ t. fields_from t rest) (append_assoc w (c ∷ []) v)

flush-IsWord : (w : Bytes) (ws : List Bytes) → IsWord w → flush w ws ≡ w ∷ ws
flush-IsWord [] ws h = absurd h
flush-IsWord (c ∷ w) ws h = refl

NoSpace-of_IsWord : (w : Bytes) → IsWord w → NoSpace w
NoSpace-of_IsWord [] h = absurd h
NoSpace-of_IsWord (c ∷ w) h = h

fields_from-join : (ws : List Bytes) → All IsWord ws → fields_from [] (join (b' ' ∷ []) ws) ≡ ws
unfolding join
fields_from-join [] h = fields_from-nil []
fields_from-join (w ∷ []) h =
    ap (fields_from []) (sym (append-nil w))
    ∙ fields_from-NoSpace [] w [] (NoSpace-of_IsWord w h.0)
    ∙ fields_from-nil w
    ∙ flush-IsWord w [] h.0
fields_from-join (w ∷ v ∷ ws) h =
    fields_from-NoSpace [] w (b' ' ∷ join (b' ' ∷ []) (v ∷ ws)) (NoSpace-of_IsWord w h.0)
    ∙ fields_from-space w (join (b' ' ∷ []) (v ∷ ws))
    ∙ flush-IsWord w (fields_from [] (join (b' ' ∷ []) (v ∷ ws))) h.0
    ∙ ap (λ r. w ∷ r) (fields_from-join (v ∷ ws) h.1)

pub fields-join : (ws : List Bytes) → All IsWord ws → fields (join (b' ' ∷ []) ws) ≡ ws
unfolding fields
fields-join ws h = fields_from-join ws h
