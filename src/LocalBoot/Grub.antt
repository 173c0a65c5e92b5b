-- ===== src/LocalBoot/Grub.antt =====
-- localboot/grub.go: the reader of GRUB configurations.
pub mod Blocks
pub mod Valid
pub mod FsUuid
mod Tests
use systemboot.Base.{
  ℕ, zero, suc, Bool, true, false, not, ◌&&◌, ◌||◌, Option, none, some, List, [], ◌∷◌, ◌++◌, ◌==◌,
  if◌then◌else◌, Bytes, bytes, equal, is_empty, one_of, Outcome, ok, err, panic, ◌>>=◌,
}
use systemboot.Text.Split.{split_on, before, replace, replace_from, join, trim_left}
use systemboot.Text.Fields.{fields}
use systemboot.Text.Hex.{decode_hex}
use systemboot.Text.FilePath.{path_join, path_dir}
use systemboot.BootConfig.{BootConfig, empty_config, is_valid}
use systemboot.Storage.Device.{BlockDev, partitions_by_fs_uuid}

-- The type `grubVersion` is an `int` whose two known values have names.
pub data GrubVersion : Type 0 where
  grub_v1 grub_v2 : GrubVersion
  other : ℕ → GrubVersion

abbrev pub is_known : GrubVersion → Bool
is_known grub_v1 = true
is_known grub_v2 = true
is_known (other _) = false

unfoldable pub unquote : GrubVersion → Bytes → Bytes
unfolding replace_from
unquote grub_v2 text = replace text (bytes "\\$") (bytes "$")
unquote _ text = text

-- The loop of `isValidFsUUID` over the pieces between the dashes.
unfoldable pub all_hex : List Bytes → Bool
unfolding decode_hex
all_hex [] = true
all_hex (h ∷ hs) = let rest = all_hex hs in elim (decode_hex h) [ none ↦ false | some _ ↦ rest ]

unfoldable pub is_valid_fs_uuid : Bytes → Bool
unfolding split_on all_hex
is_valid_fs_uuid uuid = all_hex (split_on b'-' uuid)

-- The variables of `ParseGrubCfg` that the loop over the lines changes.
pub record Parser : Type 0 where
  pub kernel_basedir : Bytes
  pub bootconfigs : List BootConfig
  pub in_menu_entry : Bool
  pub cfg : Option BootConfig

-- The name of a menu entry, from the words behind `menuentry`.
unfoldable pub entry_name : GrubVersion → List Bytes → Bytes
unfolding join unquote before
entry_name ver [] = []
entry_name ver (w ∷ ws) = before (bytes "--") (unquote ver (join (bytes " ") (w ∷ ws)))

-- `kernelBasedir` after the first of the partitions found, if there is one.
unfoldable pub move_to : Bytes → List BlockDev → Bytes
unfolding path_join path_dir
move_to dir [] = dir
move_to dir (dev ∷ _) = path_join (path_dir dir ∷ dev.name ∷ [])

-- The loop over `str2`: each word that reads as a UUID may move `kernelBasedir`.
unfoldable pub search_words : List BlockDev → Bytes → List Bytes → Bytes
search_words devices dir [] = dir
search_words devices dir (str2 ∷ rest) =
    search_words devices
      (if is_valid_fs_uuid str2 then move_to dir (partitions_by_fs_uuid devices str2) else dir) rest

-- The loop over `str1`: the search is done once for each word `--set=root`.
unfoldable pub search_root : List BlockDev → List Bytes → Bytes → List Bytes → Bytes
search_root devices sline dir [] = dir
search_root devices sline dir (str1 ∷ rest) =
    search_root devices sline
      (if equal str1 (bytes "--set=root") then search_words devices dir sline else dir) rest

-- `kernelBasedir` behind the `search` part of a line.
unfoldable pub search_line : List BlockDev → Bytes → List Bytes → Bytes
search_line devices dir [] = dir
search_line devices dir (w ∷ ws) =
    if equal w (bytes "search") then search_root devices (w ∷ ws) dir (w ∷ ws) else dir

-- The change that the directive of a line makes to the configuration; `none` is no assignment.
unfoldable pub directive : GrubVersion → Bytes → List Bytes → Option (BootConfig → BootConfig)
unfolding join unquote path_join
directive ver dir (w ∷ a ∷ args) =
    let cmdline = unquote ver (join (bytes " ") args) in
    let file = path_join (dir ∷ a ∷ []) in
    if one_of w (bytes "linux" ∷ bytes "linux16" ∷ bytes "linuxefi" ∷ [])
    then some (λ c. record c { kernel = file; kernel_args = cmdline })
    else if one_of w (bytes "initrd" ∷ bytes "initrd16" ∷ bytes "initrdefi" ∷ [])
    then some (λ c. record c { initramfs = file })
    else if one_of w (bytes "multiboot" ∷ bytes "multiboot2" ∷ [])
    then some (λ c. record c { multiboot = file; multiboot_args = cmdline })
    else if one_of w (bytes "module" ∷ bytes "module2" ∷ [])
    then some (λ c. record c {
      modules = c.modules ++ ((if is_empty cmdline then file else file ++ (b' ' ∷ cmdline)) ∷ []);
    })
    else none
directive ver dir _ = none

-- An assignment through the pointer `cfg`: it panics where the pointer is nil.
unfoldable pub assign :
    Option (BootConfig → BootConfig) → Option BootConfig → Outcome (Option BootConfig)
assign none cfg = ok cfg
assign (some f) none = panic
assign (some f) (some c) = ok (some (f c))

-- The configuration is kept if it is valid.
unfoldable pub save : List BootConfig → BootConfig → List BootConfig
unfolding is_valid
save bootconfigs c = if is_valid c then bootconfigs ++ (c ∷ []) else bootconfigs

-- The previous configuration, if any, is saved, and the directory is reset.
unfoldable pub finish_entry : Bytes → Parser → Option BootConfig → Parser
unfolding save
finish_entry basedir p none = p
finish_entry basedir p (some c) = record p {
  bootconfigs = save p.bootconfigs c;
  kernel_basedir = basedir;
}

unfoldable pub start_entry : GrubVersion → Bytes → Parser → List Bytes → Parser
unfolding finish_entry entry_name
start_entry ver basedir p args = record (finish_entry basedir p p.cfg) {
  in_menu_entry = true;
  cfg = some (record empty_config { name = entry_name ver args });
}

-- The branch `else if inMenuEntry`.
unfoldable pub entry_line : GrubVersion → List BlockDev → Parser → List Bytes → Outcome Parser
unfolding search_line directive assign
entry_line ver devices p sline = do
  let dir = search_line devices p.kernel_basedir sline
  cfg ← assign (directive ver dir sline) p.cfg
  ok (record p { kernel_basedir = dir; cfg = cfg })

-- The body of the loop, on the words of the line.
unfoldable pub step : GrubVersion → List BlockDev → Bytes → Parser → List Bytes → Outcome Parser
unfolding start_entry entry_line
step ver devices basedir p [] = ok p
step ver devices basedir p (w ∷ args) =
    if equal w (bytes "menuentry")
    then ok (start_entry ver basedir p args)
    else if p.in_menu_entry
    then entry_line ver devices p (w ∷ args)
    else ok p

-- The words of a line.
abbrev pub line_words : Bytes → List Bytes
line_words line = fields (trim_left b' ' line)

unfoldable pub run : GrubVersion → List BlockDev → Bytes → Parser → List Bytes → Outcome Parser
unfolding step fields trim_left
run ver devices basedir p [] = ok p
run ver devices basedir p (line ∷ lines) = do
  q ← step ver devices basedir p (line_words line)
  run ver devices basedir q lines

-- The last configuration: `cfg.IsValid()` panics where `cfg` is nil.
unfoldable pub save_last : Bool → List BootConfig → Option BootConfig → Outcome (List BootConfig)
unfolding save
save_last false bootconfigs cfg = ok bootconfigs
save_last true bootconfigs none = panic
save_last true bootconfigs (some c) = ok (save bootconfigs c)

unfoldable pub parse_grub_cfg :
    GrubVersion → List BlockDev → Bytes → Bytes → Outcome (List BootConfig)
unfolding run save_last split_on
parse_grub_cfg ver devices grubcfg basedir =
    if not (is_known ver)
    then ok []
    else run ver devices basedir
        (record { kernel_basedir = basedir; bootconfigs = []; in_menu_entry = false; cfg = none })
        (split_on b'\n' grubcfg)
      >>= λ p. save_last p.in_menu_entry p.bootconfigs p.cfg
