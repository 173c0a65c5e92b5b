-- ===== src/Uinit/Tests.antt =====
-- Runs of the init command.
use systemboot.Base.{
  ◌≡◌, ◌≤◌, refl, [], ◌∷◌, List, none, some, true, false, inl, inr, Bytes, bytes, equal, not_exist,
  ok,
}
use systemboot.Platform.{Trace, done, failed}
use systemboot.Platform.Monad.{handle, call, call_text, lift, pure, ◌>>=◌}
use systemboot.Vpd.{get, set}
use systemboot.Vpd.Store.Memory.{stored, memory, memory-IsFileStore}
use systemboot.VpdBootManager.Add.{add_boot_entry, add_loop, write_if_missing}
use systemboot.VpdBootManager.Command.{
  Tools, Parsed, parse_entry, parse_localboot_flags, write_entry, add,
}
use systemboot.Booter.{Json, LocalBooter, local}
use systemboot.Uinit.{Flags, uinit}
use systemboot.Uinit.Rounds.{runs, uinit-runs}
use systemboot.Uinit.Booted.{command_of, RunSince}
use systemboot.Uinit.Added.{add-RunSince}

abbrev flags : Flags
flags = record { allow_interactive = true; do_quiet = false; interval = 1; no_default_boot = false }

abbrev json : Json
json = record { decode_net = λ config. failed not_exist; decode_local = λ config. failed not_exist }

uinit-runs_example : 7 ≤ runs (bytes "localboot") (uinit memory flags json (bytes "/vpd") 7 []).1
uinit-runs_example =
    uinit-runs memory flags json (bytes "/vpd") (bytes "localboot") 7 [] memory-IsFileStore
      (inr refl) refl

-- The tool has written this entry.
abbrev grub : LocalBooter
grub = record {
  type = bytes "localboot";
  method = bytes "grub";
  device_guid = [];
  kernel = [];
  kernel_args = bytes "quiet";
  initramfs = [];
}

abbrev tools : Tools
tools = record {
  parse_local = λ dir args.
      some (record { kernel_args = bytes "quiet"; ramfs = []; vpd_dir = dir; dry_run = false });
  parse_net = λ dir args. none;
  parse_mac = λ mac. done tt;
  marshal = λ b. done (bytes "{}");
}

abbrev decoder : Json
decoder = record { decode_net = λ config. failed not_exist; decode_local = λ config. done grub }

abbrev dir : Bytes
dir = bytes "/vpd"

abbrev parsed : Parsed
parsed = record { entry = local grub; vpd_dir = dir; dry_run = false }

abbrev arguments : List Bytes
arguments = bytes "grub" ∷ []

is_parsed : (parse_entry tools dir (bytes "localboot") arguments []).0 ≡ ok parsed
unfolding parse_entry parse_localboot_flags pure equal
is_parsed = refl

is_added : (add tools dir memory (bytes "localboot") arguments []).0 ≡ ok tt
unfolding add parse_entry parse_localboot_flags write_entry pure lift handle ◌>>=◌ add_boot_entry
    add_loop write_if_missing get set call call_text stored
is_added = refl

abbrev after_add : Trace
after_add = (add tools dir memory (bytes "localboot") arguments []).1

add-RunSince_example :
    (cmd : List Bytes) × (command_of (local grub) ≡ inl cmd)
    × RunSince cmd after_add (uinit memory flags decoder dir 7 after_add).1
add-RunSince_example =
    add-RunSince tools dir memory flags decoder (bytes "localboot") arguments parsed 7 []
      memory-IsFileStore is_parsed refl (λ _ _. (refl, λ nb e. cc)) is_added
