-- ===== src/Vpd/All.antt =====
-- pkg/vpd/vpd.go: `GetAll`.
pub mod Map
pub mod Order
pub mod Picked
pub mod Found
mod Tests
use systemboot.Base.{List, [], ◌∷◌, Bool, ◌||◌, if◌then◌else◌, Option, Bytes, bytes, equal, Error}
use systemboot.Text.FilePath.{path_base}
use systemboot.Platform.{Platform}
use systemboot.Platform.Monad.{M, pure, handle, ◌>>=◌}
use systemboot.Walk.{Entry, Signal, go_on, stop, walk, look_at}
use systemboot.Vpd.{get_base_dir, get}

-- `vpdMap[key] = value`
unfoldable pub put : Bytes → Bytes → List (Bytes × Bytes) → List (Bytes × Bytes)
put key value [] = (key, value) ∷ []
put key value ((k, v) ∷ rest) =
    let rest' = put key value rest in if equal k key then (key, value) ∷ rest else (k, v) ∷ rest'

module _ (os : Platform) (vpd_dir : Bytes) (read_only : Bool) where
  -- The walk function; it does not look at the error that it is given.
  unfoldable pub visit_variable :
      List (Bytes × Bytes) → Bytes → Entry → M (List (Bytes × Bytes) × Signal)
  unfolding put
  visit_variable vpd_map fpath entry =
      let key = path_base fpath in
      if equal key (bytes ".")
        || equal key (bytes "/")
        || equal fpath (get_base_dir os vpd_dir read_only)
      then pure (vpd_map, go_on)
      else handle (get os vpd_dir key read_only) (λ value. pure (put key value vpd_map, go_on))
          (λ e. pure (vpd_map, stop e))

  -- The variables found so far come with the error of the walk.
  unfoldable pub get_all : M (List (Bytes × Bytes) × Option Error)
  unfolding visit_variable
  get_all = look_at os (get_base_dir os vpd_dir read_only) >>= λ tree.
      walk visit_variable tree (get_base_dir os vpd_dir read_only) []
