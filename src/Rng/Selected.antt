-- ===== src/Rng/Selected.antt =====
-- Which generator `setAvailableTRNG` selects.
use systemboot.Base.{
  ◌≡◌, ◌≢◌, refl, sym, ap, ◌∙◌, List, [], ◌∷◌, ◌++◌, Bool-cases, true, false, inl, inr, filter,
  Bytes, bytes, equal, equal_iff, is_empty, one_of, Fault, external, message, Outcome, ok, err,
}
use systemboot.Text.Split.{split_on}
use systemboot.Platform.{Platform, Trace, done, failed, read_file, write_file}
use systemboot.Platform.Monad.{Answer-cases, handle, call, call_text, raise, pure, ◌>>=◌}
use systemboot.Rng.{
  select_trng, set_available_trng, trng_list, hw_random_available_file, hw_random_current_file,
}

-- The last text of a list, if there is one.
abbrev pub last_or : Bytes → List Bytes → Bytes
last_or x [] = x
last_or x (y ∷ ys) = last_or y ys

module _ (available_rngs : List Bytes) where
  -- The loops of `setAvailableTRNG` select, of the known generators that are available, the one that
  -- stands last in the list, which holds those of the highest priority first.
  pub select_trng-filter :
      (selected : Bytes) (trngs : List Bytes)
      → select_trng available_rngs selected trngs
        ≡ last_or selected (filter (λ trng. one_of trng available_rngs) trngs)
  unfolding select_trng
  select_trng-filter selected [] = refl
  select_trng-filter selected (trng ∷ trngs) = elim (Bool-cases (one_of trng available_rngs)) [
    | inl e ↦ rw e (select_trng-filter trng trngs)
    | inr e ↦ rw e (select_trng-filter selected trngs)
  ]

-- The generator that is selected from the text of the available ones: none is the empty text.
abbrev pub choice : Bytes → Bytes
choice text = last_or [] (filter (λ trng. one_of trng (split_on b' ' text)) trng_list)

unequal : {left right : Bytes} → equal left right ≡ false → left ≢ right
unequal q e = let wrong : true ≡ false = sym ((equal_iff _ _).1 e) ∙ q in cc

module _ (os : Platform) (h : Trace) where
  abbrev listed : Trace
  listed = read_file hw_random_available_file ∷ h

  abbrev written : Bytes → Trace
  written text = write_file hw_random_current_file (choice text) ∷ listed

  abbrev checked : Bytes → Trace
  checked text = read_file hw_random_current_file ∷ written text

  -- How `setAvailableTRNG` ends, with its outcome and the calls so far.
  pub data TrngEnding : Outcome (Unit {0}) → Trace → Type 0 where
    no_list :
        {e : Fault}
        → os.text h (read_file hw_random_available_file) ≡ failed e
        → TrngEnding (err (external e)) listed
    none_known :
        {text : Bytes}
        → os.text h (read_file hw_random_available_file) ≡ done text
        → is_empty (choice text) ≡ true
        → TrngEnding (err (message (bytes "No TRNG found on platform"))) listed
    not_written :
        {text : Bytes} {e : Fault}
        → os.text h (read_file hw_random_available_file) ≡ done text
        → is_empty (choice text) ≡ false
        → os.unit listed (write_file hw_random_current_file (choice text)) ≡ failed e
        → TrngEnding (err (external e)) (written text)
    not_read :
        {text : Bytes} {e : Fault}
        → os.text h (read_file hw_random_available_file) ≡ done text
        → is_empty (choice text) ≡ false
        → os.unit listed (write_file hw_random_current_file (choice text)) ≡ done tt
        → os.text (written text) (read_file hw_random_current_file) ≡ failed e
        → TrngEnding (err (external e)) (checked text)
    other_current :
        {text current : Bytes}
        → os.text h (read_file hw_random_available_file) ≡ done text
        → is_empty (choice text) ≡ false
        → os.unit listed (write_file hw_random_current_file (choice text)) ≡ done tt
        → os.text (written text) (read_file hw_random_current_file) ≡ done current
        → current ≢ choice text
        → TrngEnding (err (message (bytes "Couldn't select TRNG: " ++ current))) (checked text)
    selected :
        {text : Bytes}
        → os.text h (read_file hw_random_available_file) ≡ done text
        → is_empty (choice text) ≡ false
        → os.unit listed (write_file hw_random_current_file (choice text)) ≡ done tt
        → os.text (written text) (read_file hw_random_current_file) ≡ done (choice text)
        → TrngEnding (ok tt) (checked text)

  chosen : (text : Bytes) → select_trng (split_on b' ' text) [] trng_list ≡ choice text
  chosen text = select_trng-filter (split_on b' ' text) [] trng_list

  -- `setAvailableTRNG` ends in one of these ways: it selects, of the known generators that are
  -- available, the one that stands last in its list, writes its name, and succeeds only where the
  -- name reads back without any change, not even a newline behind it.
  pub set_available_trng-TrngEnding :
      TrngEnding (set_available_trng os h).0 (set_available_trng os h).1
  unfolding set_available_trng ◌>>=◌ handle call call_text raise pure
  set_available_trng-TrngEnding =
      elim (Answer-cases (os.text h (read_file hw_random_available_file))) [
        | inr (e, a) ↦ rw a (no_list a)
        | inl (text, a) ↦ elim (Bool-cases (is_empty (choice text))) [
          | inl b ↦ rw (a, chosen text, b) (none_known a b)
          | inr b ↦
              elim (Answer-cases
                (os.unit listed (write_file hw_random_current_file (choice text)))) [
                  | inr (e, c) ↦ rw (a, chosen text, b, c) (not_written a b c)
                  | inl (_, c) ↦
                      elim (Answer-cases
                        (os.text (written text) (read_file hw_random_current_file))) [
                          | inr (e, d) ↦ rw (a, chosen text, b, c, d) (not_read a b c d)
                          | inl (current, d) ↦ elim (Bool-cases (equal current (choice text))) [
                            | inl q ↦
                                rw (a, chosen text, b, c, d, q)
                                  (selected a b c (d ∙ ap done ((equal_iff _ _).0 q)))
                            | inr q ↦
                                rw (a, chosen text, b, c, d, q) (other_current a b c d (unequal q))
                          ]
                        ]
                ]
        ]
      ]
