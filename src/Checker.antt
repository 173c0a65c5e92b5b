-- ===== src/Checker.antt =====
-- pkg/checker/checker.go: a list of checks, with remediations.
pub mod Colours
pub mod Interfaces
pub mod Mandatory
pub mod Run
mod Tests
use systemboot.Base.{List, [], ◌∷◌, Option, none, some, Bool, if◌then◌else◌, Bytes, Error}
use systemboot.Platform.Monad.{M, pure, raise, handle}

pub record Check : Type 0 where
  pub name : Bytes
  pub run : M (Unit {0})
  pub remediate : Option (M (Unit {0}))
  pub stop_on_error : Bool

-- Behind a check that failed: its remediation, if there is one.
abbrev pub after_failure : Bool → Option (M (Unit {0})) → M (Unit {0}) → Error → M (Unit {0})
after_failure stop none rest check_err = if stop then raise check_err else rest
after_failure stop (some remediate) rest check_err =
    handle remediate (λ _. rest) (λ rem_err. if stop then raise rem_err else rest)

-- `Run`
unfoldable pub run_checks : List Check → M (Unit {0})
run_checks [] = pure tt
run_checks (check ∷ checklist) =
    let rest = run_checks checklist in
    handle check.run (λ _. rest)
      (λ check_err. after_failure check.stop_on_error check.remediate rest check_err)
