-- ===== src/Storage/Mounts.antt =====
-- pkg/storage/blockdev.go: `GetMountpointByDevice`.
use systemboot.Base.{
  ◌≡◌, refl, List, [], ◌∷◌, map, All, if◌then◌else◌, Bytes, bytes, equal, Outcome, ok, err, panic,
  message,
}
use systemboot.Text.Split.{join}
use systemboot.Text.Fields.{fields, IsWord}
use systemboot.Text.Fields.Join.{fields-join}
use systemboot.Text.Lines.{lines}
use systemboot.Platform.{Platform, open_file, close_file, read_handle}
use systemboot.Platform.Monad.{M, handle, finally, lift, ◌>>=◌, call_number, call_text}

abbrev pub mountpoint_not_found : Outcome Bytes
mountpoint_not_found = err (message (bytes "Mountpoint not found"))

-- The first two fields of a line, where they are used; a line without them is out of range.
unfoldable pub find_mountpoint : Bytes → List (List Bytes) → Outcome Bytes
find_mountpoint device [] = mountpoint_not_found
find_mountpoint device ([] ∷ rest) = panic
find_mountpoint device ((d ∷ []) ∷ rest) =
    let next = find_mountpoint device rest in if equal d device then panic else next
find_mountpoint device ((d ∷ m ∷ info) ∷ rest) =
    let next = find_mountpoint device rest in if equal d device then ok m else next

module _ (os : Platform) where
  -- The scanner's own error is not looked at.
  unfoldable pub get_mountpoint_by_device : Bytes → M Bytes
  unfolding find_mountpoint lines fields
  get_mountpoint_by_device device = call_number os (open_file (bytes "/proc/mounts")) >>= λ fd.
      finally
        (handle (call_text os (read_handle fd))
          (λ text. lift (find_mountpoint device (map fields (lines text))))
          (λ _. lift mountpoint_not_found))
        (λ h. close_file fd ∷ h)

-- A line of the file: the device, the directory and the other words.
pub record Mounted : Type 0 where
  pub device : Bytes
  pub directory : Bytes
  pub options : List Bytes

abbrev pub words : Mounted → List Bytes
words m = m.device ∷ m.directory ∷ m.options

abbrev pub print_mount : Mounted → Bytes
print_mount m = join (b' ' ∷ []) (words m)

-- The directory that the first line of a device names.
abbrev pub first_directory : Bytes → List Mounted → Outcome Bytes
first_directory device [] = mountpoint_not_found
first_directory device (m ∷ ms) =
    let rest = first_directory device ms in if equal m.device device then ok m.directory else rest

-- On lines in the kernel's format, words with spaces between them, `GetMountpointByDevice` finds
-- the directory of the first line of the device, and an error where no line names it.
pub find_mountpoint-print :
    (device : Bytes) (ms : List Mounted)
    → All (λ m. All IsWord (words m)) ms
    → find_mountpoint device (map fields (map print_mount ms)) ≡ first_directory device ms
unfolding find_mountpoint
find_mountpoint-print device [] h = refl
find_mountpoint-print device (m ∷ ms) h =
    rw (fields-join (words m) h.0, find_mountpoint-print device ms h.1) refl
