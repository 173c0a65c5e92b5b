-- ===== src/Booter/Tests.antt =====
-- Runs of the boot entries.
use systemboot.Base.{ℕ, ◌≡◌, refl, true, List, [], none, some, Bytes, bytes, ok}
use mathlib.Core.List.{Memᴰ}
use systemboot.Platform.{done}
use systemboot.Vpd.Store.Memory.{stored, memory, memory-IsFileStore}
use systemboot.VpdBootManager.Add.{boot_key, add_boot_entry, add_loop, write_if_missing}
use systemboot.Vpd.{get, set}
use systemboot.Platform.Monad.{handle, call, call_text}
use systemboot.Booter.{NetBooter, LocalBooter, Json}
use systemboot.Booter.Entries.{BootEntry, get_booter_for, get_boot_entries}
use systemboot.Booter.Entries.Listing.{Booted, listing, get_boot_entries-listing}
use systemboot.Booter.Entries.Added.{entry_of, add_boot_entry-IsListed}
use systemboot.Booter.Select.{Selected, get_booter_for-Selected}

abbrev dhcp : NetBooter
dhcp = record {
  type = bytes "netboot";
  method = bytes "dhcpv6";
  mac = [];
  override_url = none;
  retries = none;
  debug_on_failure = true;
}

abbrev grub : LocalBooter
grub = record {
  type = bytes "localboot";
  method = bytes "grub";
  device_guid = [];
  kernel = [];
  kernel_args = [];
  initramfs = [];
}

abbrev json : Json
json = record { decode_net = λ text. done dhcp; decode_local = λ text. done grub }

abbrev dir : Bytes
dir = bytes "/vpd"

get_boot_entries-listing_example :
    (entries : List BootEntry) × ((get_boot_entries memory dir json []).0 ≡ ok entries)
    × Booted json (listing memory dir [] 9999 0) entries
get_boot_entries-listing_example = get_boot_entries-listing memory dir memory-IsFileStore [] json

get_booter_for-Selected_example :
    Selected json (bytes "{}") (get_booter_for json (entry_of (bytes "Boot0000") (bytes "{}")))
get_booter_for-Selected_example =
    get_booter_for-Selected json (entry_of (bytes "Boot0000") (bytes "{}"))

added : (add_boot_entry memory dir (bytes "{}") []).0 ≡ ok tt
unfolding add_boot_entry add_loop write_if_missing get set handle call call_text stored
added = refl

add_boot_entry-IsListed_example :
    (entries : List BootEntry) × ((get_boot_entries memory dir json
        (add_boot_entry memory dir (bytes "{}") []).1).0
      ≡ ok entries)
    × ((k : ℕ) × Memᴰ
          (record {
            name = boot_key k;
            config = bytes "{}";
            booter = some (get_booter_for json (entry_of (boot_key k) (bytes "{}")));
          })
          entries)
add_boot_entry-IsListed_example =
    add_boot_entry-IsListed memory dir memory-IsFileStore [] (bytes "{}") json added
