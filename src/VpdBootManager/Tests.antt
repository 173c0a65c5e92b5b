-- ===== src/VpdBootManager/Tests.antt =====
-- Runs of the tool.
use systemboot.Base.{[], bytes}
use systemboot.Vpd.Store.Memory.{memory}
use systemboot.VpdBootManager.Add.{add_boot_entry}
use systemboot.VpdBootManager.Add.Free.{Ending, add_boot_entry-Ending}

add_boot_entry-Ending_example :
    Ending memory
      (bytes "/vpd")
      []
      (bytes "{}")
      (add_boot_entry memory (bytes "/vpd") (bytes "{}") []).0
      (add_boot_entry memory (bytes "/vpd") (bytes "{}") []).1
add_boot_entry-Ending_example = add_boot_entry-Ending memory (bytes "/vpd") [] (bytes "{}")
