-- ===== src/Vpd/All/Tests.antt =====
-- A run of `GetAll`.
use systemboot.Base.{
  [], ◌≡◌, refl, false, List, none, if◌then◌else◌, Bytes, bytes, equal, one_of, ok, not_exist,
}
use systemboot.Platform.{Platform, Event, Answer, done, failed, read_file}
use systemboot.Platform.Devices.{file, directory, no_tree, tree_and}
use systemboot.Vpd.{file_of}
use systemboot.Vpd.Store.Memory.{memory}
use systemboot.Vpd.All.{get_all}
use systemboot.Vpd.All.Map.{lookup}
use systemboot.Vpd.All.Found.{variables_at, get_all-lookup}
use systemboot.Vpd.All.Order.{readable, first_error, value}

abbrev dir : Bytes
dir = bytes "/vpd"

-- One of the files cannot be read.
abbrev content : Bytes → Answer Bytes
content path = if equal path (bytes "/vpd/rw/Boot0001") then failed not_exist else done (bytes "{}")

abbrev answer : Event → Answer Bytes
answer (read_file path) = content path
answer _ = failed not_exist

-- A directory with three variables.
abbrev variables : Platform
variables = record memory {
  tree = λ h e. directory (bytes "rw") (
      tree_and (file (bytes "Boot0000"))
        (tree_and (file (bytes "Boot0001")) (tree_and (file (bytes "Boot0002")) no_tree)));
  text = λ h e. answer e;
}

abbrev reads : Bytes → Answer Bytes
reads key = content (file_of variables dir key false)

get_all-lookup_example :
    (m : List (Bytes × Bytes)) × ((get_all variables dir false []).0
      ≡ ok (m, first_error reads (variables_at variables dir false [])))
    × ((key : Bytes)
        → lookup key m ≡ (
            if one_of key (readable reads (variables_at variables dir false []))
            then value (reads key)
            else none))
get_all-lookup_example = get_all-lookup variables dir false reads (λ key t. refl) []
