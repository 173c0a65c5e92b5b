-- ===== src/LocalBoot/Grub/Blocks.antt =====
-- The meaning of a GRUB configuration with no state: its menu entries, each read by itself.
use systemboot.Base.{
  ◌≡◌, refl, ap, Bool, true, false, Option, none, some, List, [], ◌∷◌, ◌++◌, map, append-nil,
  append_assoc, if◌then◌else◌, filter, filter-append, Bytes, bytes, equal, Bool-cases, inl, inr,
  Outcome, ok, err, panic, ◌>>=◌,
}
use systemboot.Text.Split.{split_on}
use systemboot.BootConfig.{BootConfig, empty_config, is_valid}
use systemboot.Storage.Device.{BlockDev}
use systemboot.LocalBoot.Grub.{
  GrubVersion, is_known, Parser, entry_name, search_line, directive, assign, save, finish_entry,
  start_entry, entry_line, step, line_words, run, save_last, parse_grub_cfg,
}

-- A line as its words.
abbrev pub Line : Type 0
Line = List Bytes

-- A menu entry: the words behind `menuentry`, and the lines up to the next entry.
pub record Block : Type 0 where
  pub title : List Bytes
  pub body : List Line

abbrev pub is_entry : Line → Bool
is_entry [] = false
is_entry (w ∷ _) = equal w (bytes "menuentry")

abbrev title_words : Line → List Bytes
title_words [] = []
title_words (_ ∷ args) = args

-- The lines in front of the first entry, and the entries.
unfoldable pub blocks_from : List Line → List Line × List Block
blocks_from [] = ([], [])
blocks_from (l ∷ ls) =
    let rest = blocks_from ls in
    if is_entry l
    then ([], record { title = title_words l; body = rest.0 } ∷ rest.1)
    else (l ∷ rest.0, rest.1)

abbrev pub blocks : Bytes → List Block
blocks grubcfg = (blocks_from (map line_words (split_on b'\n' grubcfg))).1

abbrev apply_change : Option (BootConfig → BootConfig) → BootConfig → BootConfig
apply_change none c = c
apply_change (some f) c = f c

unfoldable pub read_body : GrubVersion → List BlockDev → Bytes → BootConfig → List Line → BootConfig
read_body ver devices dir c [] = c
read_body ver devices dir c (l ∷ ls) =
    let dir' = search_line devices dir l in
    read_body ver devices dir' (apply_change (directive ver dir' l) c) ls

abbrev named : GrubVersion → List Bytes → BootConfig
named ver title = record empty_config { name = entry_name ver title }

-- An entry is read from the base directory, whatever stands around it.
unfoldable pub read_block : GrubVersion → List BlockDev → Bytes → Block → BootConfig
unfolding read_body
read_block ver devices basedir b = read_body ver devices basedir (named ver b.title) b.body

run_words : GrubVersion → List BlockDev → Bytes → Parser → List Line → Outcome Parser
run_words ver devices basedir p [] = ok p
run_words ver devices basedir p (l ∷ ls) =
    step ver devices basedir p l >>= λ q. run_words ver devices basedir q ls

abbrev finish : Parser → Outcome (List BootConfig)
finish p = save_last p.in_menu_entry p.bootconfigs p.cfg

module _ (ver : GrubVersion) (devices : List BlockDev) (basedir : Bytes) where
  run-run_words :
      (p : Parser) (lines : List Bytes)
      → run ver devices basedir p lines ≡ run_words ver devices basedir p (map line_words lines)
  unfolding run run_words
  run-run_words p [] = refl
  run-run_words p (line ∷ lines) =
      go (step ver devices basedir p (line_words line)) (λ q. run-run_words q lines)
    where
      go :
          (m : Outcome Parser)
          → ((q : Parser)
              → run ver devices basedir q lines
                ≡ run_words ver devices basedir q (map line_words lines))
          → (m >>= λ q. run ver devices basedir q lines)
            ≡ (m >>= λ q. run_words ver devices basedir q (map line_words lines))
      go (ok q) ih = ih q
      go (err e) ih = refl
      go panic ih = refl

  save-filter : (bs : List BootConfig) (c : BootConfig) → save bs c ≡ bs ++ filter is_valid (c ∷ [])
  unfolding save
  save-filter bs c = elim (Bool-cases (is_valid c)) [ inl e ↦ rw e | inr e ↦ rw (e, append-nil) ]

  assign-some :
      (f : Option (BootConfig → BootConfig)) (c : BootConfig)
      → assign f (some c) ≡ ok (some (apply_change f c))
  unfolding assign
  assign-some none c = refl
  assign-some (some f) c = refl

  -- The parser inside an entry.
  abbrev inside : Bytes → List BootConfig → BootConfig → Parser
  inside dir bs c = record {
    kernel_basedir = dir;
    bootconfigs = bs;
    in_menu_entry = true;
    cfg = some c;
  }

  abbrev outside : Parser
  outside = record { kernel_basedir = basedir; bootconfigs = []; in_menu_entry = false; cfg = none }

  step-inside :
      (dir : Bytes) (bs : List BootConfig) (c : BootConfig) (l : Line)
      → is_entry l ≡ false
      → step ver devices basedir (inside dir bs c) l
        ≡ ok (
            inside
              (search_line devices dir l)
              bs
              (apply_change (directive ver (search_line devices dir l) l) c))
  unfolding step entry_line
  step-inside dir bs c [] h = unfold search_line directive in refl
  step-inside dir bs c (w ∷ args) h = rw h (rw assign-some)

  read_tail : Bytes → BootConfig → List Line → List BootConfig
  read_tail dir c ls =
      read_body ver devices dir c (blocks_from ls).0
      ∷ map (read_block ver devices basedir) (blocks_from ls).1

  step-entry :
      (dir : Bytes) (bs : List BootConfig) (c : BootConfig) (w : Bytes) (args : List Bytes)
      → equal w (bytes "menuentry") ≡ true
      → step ver devices basedir (inside dir bs c) (w ∷ args)
        ≡ ok (inside basedir (bs ++ filter is_valid (c ∷ [])) (named ver args))
  unfolding step start_entry finish_entry
  step-entry dir bs c w args h = rw (h, save-filter)

  filter-regroup :
      (bs : List BootConfig) (c : BootConfig) (cs : List BootConfig)
      → (bs ++ filter is_valid (c ∷ [])) ++ filter is_valid cs ≡ bs ++ filter is_valid (c ∷ cs)
  filter-regroup bs c cs = rw (append_assoc, ← filter-append)

  run-inside :
      (ls : List Line) (dir : Bytes) (bs : List BootConfig) (c : BootConfig)
      → (run_words ver devices basedir (inside dir bs c) ls >>= finish)
        ≡ ok (bs ++ filter is_valid (read_tail dir c ls))
  unfolding run_words read_tail blocks_from read_body read_block save_last
  run-inside [] dir bs c = ap ok (save-filter bs c)
  run-inside ([] ∷ ls) dir bs c = rw (step-inside dir bs c [] refl) (run-inside ls _ bs _)
  run-inside ((w ∷ args) ∷ ls) dir bs c = elim (Bool-cases (equal w (bytes "menuentry"))) [
    | inl e ↦
        rw
          (
            step-entry dir bs c w args e,
            e,
            run-inside ls basedir (bs ++ filter is_valid (c ∷ [])) (named ver args),
          )
          (ap ok (filter-regroup bs c (read_tail basedir (named ver args) ls)))
    | inr e ↦ rw (step-inside dir bs c (w ∷ args) e, e) (run-inside ls _ bs _)
  ]

  step-outside :
      (w : Bytes) (args : List Bytes)
      → step ver devices basedir outside (w ∷ args) ≡ (
          if equal w (bytes "menuentry")
          then ok (inside basedir [] (named ver args))
          else ok outside)
  unfolding step start_entry finish_entry
  step-outside w args = refl

  run-outside :
      (ls : List Line)
      → (run_words ver devices basedir outside ls >>= finish)
        ≡ ok (filter is_valid (map (read_block ver devices basedir) (blocks_from ls).1))
  unfolding run_words blocks_from read_tail read_block save_last step
  run-outside [] = refl
  run-outside ([] ∷ ls) = run-outside ls
  run-outside ((w ∷ args) ∷ ls) = elim (Bool-cases (equal w (bytes "menuentry"))) [
    | inl e ↦ rw (step-outside w args, e) (run-inside ls basedir [] (named ver args))
    | inr e ↦ rw (step-outside w args, e) (run-outside ls)
  ]

  -- For a known GRUB version `ParseGrubCfg` returns, and what it returns is the list of the valid
  -- configurations among the menu entries, in the order of the file, each read from the base
  -- directory and from its own lines only.
  pub parse_grub_cfg-blocks :
      (grubcfg : Bytes)
      → is_known ver ≡ true
      → parse_grub_cfg ver devices grubcfg basedir
        ≡ ok (filter is_valid (map (read_block ver devices basedir) (blocks grubcfg)))
  unfolding parse_grub_cfg
  parse_grub_cfg-blocks grubcfg h =
      rw (h, run-run_words outside (split_on b'\n' grubcfg))
        (run-outside (map line_words (split_on b'\n' grubcfg)))
