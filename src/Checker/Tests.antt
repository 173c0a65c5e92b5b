-- ===== src/Checker/Tests.antt =====
-- A run of a list of checks.
use systemboot.Base.{List, [], ◌∷◌, none, some, true, bytes, no_free_entry}
use systemboot.Platform.Monad.{pure, raise}
use systemboot.Checker.{Check, run_checks}
use systemboot.Checker.Run.{Ending, run_checks-Ending}

abbrev checklist : List Check
checklist =
    record {
      name = bytes "eth0";
      run = raise no_free_entry;
      remediate = some (pure tt);
      stop_on_error = true;
    }
    ∷ record {
      name = bytes "dhcp";
      run = raise no_free_entry;
      remediate = none;
      stop_on_error = true;
    }
    ∷ []

run_checks-Ending_example : Ending [] checklist (run_checks checklist [])
run_checks-Ending_example = run_checks-Ending checklist []
