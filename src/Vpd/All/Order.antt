-- ===== src/Vpd/All/Order.antt =====
-- The variables of a list of paths, and which of them `GetAll` reads.
use systemboot.Base.{
  List, [], ◌∷◌, Option, none, some, ◌||◌, if◌then◌else◌, Bytes, bytes, equal, Error, external,
}
use systemboot.Text.FilePath.{path_base}
use systemboot.Platform.{Answer, done, failed}

-- The paths that name a variable: not the directory of the variables, and no path of dots or slashes
-- only.
abbrev pub keys : Bytes → List Bytes → List Bytes
keys base [] = []
keys base (p ∷ ps) =
    let rest = keys base ps in
    if equal (path_base p) (bytes ".") || equal (path_base p) (bytes "/") || equal p base
    then rest
    else path_base p ∷ rest

abbrev pub value : Answer Bytes → Option Bytes
value (done v) = some v
value (failed e) = none

module _ (reads : Bytes → Answer Bytes) where
  -- The variables in front of the first that cannot be read.
  unfoldable pub readable : List Bytes → List Bytes
  readable [] = []
  readable (key ∷ rest) =
      let more = readable rest in elim (reads key) [ done v ↦ key ∷ more | failed e ↦ [] ]

  unfoldable pub first_error : List Bytes → Option Error
  first_error [] = none
  first_error (key ∷ rest) =
      let more = first_error rest in
      elim (reads key) [ done v ↦ more | failed e ↦ some (external e) ]
