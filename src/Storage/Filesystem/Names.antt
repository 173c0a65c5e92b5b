-- ===== src/Storage/Filesystem/Names.antt =====
-- pkg/storage/filesystem.go: the lines of /proc/filesystems.
use systemboot.Base.{
  ◌≡◌, refl, sym, ap, ◌∙◌, [], ◌∷◌, ◌++◌, append-nil, append_assoc, List, map, All, Bool,
  Bool-cases, inl, inr, if◌then◌else◌, Bytes, bytes, is_empty, Outcome, ok, panic, ◌>>=◌,
}
use systemboot.Text.Split.{split_on, Lacks, split_on-Lacks, split_on-append}

-- A line whose first field is empty names a file system of block devices in its second; a line
-- with one empty field only is out of range.
unfoldable pub line_filesystem : List Bytes → List Bytes → Outcome (List Bytes)
line_filesystem filesystems [] = panic
line_filesystem filesystems (f ∷ []) = if is_empty f then panic else ok filesystems
line_filesystem filesystems (f ∷ g ∷ fields) =
    if is_empty f then ok (filesystems ++ (g ∷ [])) else ok filesystems

-- The loop over the lines of /proc/filesystems.
unfoldable pub scan_filesystems : List Bytes → List Bytes → Outcome (List Bytes)
unfolding line_filesystem split_on
scan_filesystems filesystems [] = ok filesystems
scan_filesystems filesystems (line ∷ rest) =
    line_filesystem filesystems (split_on b'\t' line) >>= λ filesystems'.
    scan_filesystems filesystems' rest

-- A line of the file: the name of a file system, and whether it has no block device.
pub record Listed : Type 0 where
  pub nodev : Bool
  pub name : Bytes

abbrev pub print_line : Listed → Bytes
print_line l = (if l.nodev then bytes "nodev" else []) ++ (b'\t' ∷ l.name)

abbrev pub names : List Listed → List Bytes
names [] = []
names (l ∷ ls) = if l.nodev then names ls else l.name ∷ names ls

line_filesystem-print :
    (filesystems : List Bytes) (l : Listed)
    → Lacks b'\t' l.name
    → line_filesystem filesystems (split_on b'\t' (print_line l))
      ≡ ok (filesystems ++ names (l ∷ []))
unfolding line_filesystem
line_filesystem-print filesystems l h = elim (Bool-cases l.nodev) [
  | inl e ↦
      rw
        (
          e,
          split_on-append b'\t' (bytes "nodev") l.name (refl, (refl, (refl, (refl, (refl, tt))))),
          split_on-Lacks b'\t' l.name h,
        )
        (ap ok (sym (append-nil filesystems)))
  | inr e ↦ rw (e, split_on-append b'\t' [] l.name tt, split_on-Lacks b'\t' l.name h) refl
]

names-cons : (l : Listed) (ls : List Listed) → names (l ∷ ls) ≡ names (l ∷ []) ++ names ls
names-cons l ls = elim (Bool-cases l.nodev) [ inl e ↦ rw e refl | inr e ↦ rw e refl ]

scan_filesystems-append :
    (filesystems : List Bytes) (ls : List Listed)
    → All (λ l. Lacks b'\t' l.name) ls
    → scan_filesystems filesystems (map print_line ls) ≡ ok (filesystems ++ names ls)
unfolding scan_filesystems
scan_filesystems-append filesystems [] h = ap ok (sym (append-nil filesystems))
scan_filesystems-append filesystems (l ∷ ls) h =
    rw (line_filesystem-print filesystems l h.0, names-cons l ls)
      (scan_filesystems-append (filesystems ++ names (l ∷ [])) ls h.1
        ∙ ap ok (append_assoc filesystems (names (l ∷ [])) (names ls)))

-- From the lines of a file in the kernel's format `GetSupportedFilesystems` takes the names of the
-- file systems that are not marked `nodev`, in the order of the file.
pub scan_filesystems-names :
    (ls : List Listed)
    → All (λ l. Lacks b'\t' l.name) ls
    → scan_filesystems [] (map print_line ls) ≡ ok (names ls)
scan_filesystems-names ls h = scan_filesystems-append [] ls h
