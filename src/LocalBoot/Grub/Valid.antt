-- ===== src/LocalBoot/Grub/Valid.antt =====
-- What every configuration that `ParseGrubCfg` returns has, for every version.
use systemboot.Base.{
  ℕ, suc, ◌≤◌, ◌≡◌, refl, true, List, [], ◌∷◌, map, All, All-filter, filter, length, length-filter,
  arith, Bytes, Bool-cases, inl, inr, ok, if◌then◌else◌,
}
use systemboot.Text.Split.{split_on}
use systemboot.BootConfig.{BootConfig, is_valid}
use systemboot.Storage.Device.{BlockDev}
use systemboot.LocalBoot.Grub.{GrubVersion, is_known, line_words, parse_grub_cfg}
use systemboot.LocalBoot.Grub.Blocks.{
  Line, is_entry, blocks_from, blocks, read_block, parse_grub_cfg-blocks,
}

length-map {ℓ κ} :
    {A : Type ℓ} {B : Type κ} (f : A → B) (xs : List A) → length (map f xs) ≡ length xs
length-map f [] = refl
length-map f (x ∷ xs) = omega (arith, length-map f xs)

-- How many lines of the file start with the word `menuentry`.
abbrev pub count_entries : List Line → ℕ
count_entries [] = 0
count_entries (l ∷ ls) = let rest = count_entries ls in if is_entry l then suc rest else rest

length-blocks : (ls : List Line) → length (blocks_from ls).1 ≡ count_entries ls
unfolding blocks_from
length-blocks [] = refl
length-blocks (l ∷ ls) = elim (Bool-cases (is_entry l)) [
  | inl e ↦ rw e (omega (arith, length-blocks ls))
  | inr e ↦ rw e (length-blocks ls)
]

-- For every version `ParseGrubCfg` returns, with no panic: each configuration that it returns is
-- valid, and there are at most as many as the file has lines that start a menu entry.
pub parse_grub_cfg-valid :
    (ver : GrubVersion) (devices : List BlockDev) (grubcfg basedir : Bytes)
    → (cs : List BootConfig) × (parse_grub_cfg ver devices grubcfg basedir ≡ ok cs)
      × All (λ c. is_valid c ≡ true) cs
      × (length cs ≤ count_entries (map line_words (split_on b'\n' grubcfg)))
parse_grub_cfg-valid ver devices grubcfg basedir = elim (Bool-cases (is_known ver)) [
  | inr e ↦ ([], unfold parse_grub_cfg in rw e, tt, omega arith)
  | inl e ↦
      let found = map (read_block ver devices basedir) (blocks grubcfg) in
      (
        filter is_valid found,
        parse_grub_cfg-blocks ver devices basedir grubcfg e,
        All-filter is_valid found,
        omega (
          arith,
          length-filter is_valid found,
          length-map (read_block ver devices basedir) (blocks grubcfg),
          length-blocks (map line_words (split_on b'\n' grubcfg)),
        ),
      )
]
