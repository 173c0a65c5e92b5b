-- ===== src/Vpd/All/Found.antt =====
-- Which variables `GetAll` finds, where the files do not change while they are read.
use systemboot.Base.{
  ◌≡◌, refl, ◌∙◌, ap, List, [], ◌∷◌, none, Bool, Bool-cases, inl, inr, if◌then◌else◌, Bytes, one_of,
  ok,
}
use systemboot.Text.FilePath.{path_base}
use systemboot.Platform.{Platform, Trace, Answer, read_file, walk_dir}
use systemboot.Platform.Monad.{pure, handle, ◌>>=◌, call_text, Answer-cases}
use systemboot.Walk.{Entry, look_at}
use systemboot.Walk.Order.{tree_paths, signalled, walk-visit_all}
use systemboot.Vpd.{get, get_base_dir, file_of}
use systemboot.Vpd.All.Map.{lookup}
use systemboot.Vpd.All.{visit_variable, get_all}
use systemboot.Vpd.All.Order.{keys, value, readable, first_error}
use systemboot.Vpd.All.Picked.{pick, skips, after, after-first_error, after-now}

-- The names of the variables in the tree of the files, in the order of the walk.
abbrev pub variables_at : Platform → Bytes → Bool → Trace → List Bytes
variables_at os vpd_dir read_only h =
    let root = get_base_dir os vpd_dir read_only in
    keys root (tree_paths (os.tree h (walk_dir root)) root)

module _ (os : Platform) (vpd_dir : Bytes) (read_only : Bool) (reads : Bytes → Answer Bytes)
    (still : (key : Bytes) (t : Trace)
      → os.text t (read_file (file_of os vpd_dir key read_only)) ≡ reads key) where
  abbrev root : Bytes
  root = get_base_dir os vpd_dir read_only

  visit_variable-pick :
      (m : List (Bytes × Bytes)) (path : Bytes) (entry : Entry) (t : Trace)
      → (visit_variable os vpd_dir read_only m path entry t).0
        ≡ ok (signalled (pick reads root) (pick reads root m path))
  unfolding visit_variable pick get call_text handle pure
  visit_variable-pick m path entry t = elim (Bool-cases (skips reads root path)) [
    | inl b ↦ rw b refl
    | inr b ↦ elim (Answer-cases (reads (path_base path))) [
      | inl (v, a) ↦ rw (b, still (path_base path) t, a) refl
      | inr (e, a) ↦ rw (b, still (path_base path) t, a) refl
    ]
  ]

  -- Where each file reads the same throughout, `GetAll` returns a map and the error of the first
  -- variable of the tree that cannot be read, if there is one. The map has the variables in front of
  -- that one, each with what its file reads as, and no other.
  pub get_all-lookup :
      (h : Trace)
      → (m : List (Bytes × Bytes)) × ((get_all os vpd_dir read_only h).0
          ≡ ok (m, first_error reads (variables_at os vpd_dir read_only h)))
        × ((key : Bytes)
            → lookup key m ≡ (
                if one_of key (readable reads (variables_at os vpd_dir read_only h))
                then value (reads key)
                else none))
  unfolding get_all look_at lookup ◌>>=◌ handle
  get_all-lookup h =
      let paths = tree_paths (os.tree h (walk_dir root)) root in
      (
        (after reads root paths []).0,
        walk-visit_all (pick reads root) (visit_variable os vpd_dir read_only) visit_variable-pick
              (os.tree h (walk_dir root)) root [] (walk_dir root ∷ h)
            ∙ ap (λ e. ok ((after reads root paths []).0, e))
                (after-first_error reads root paths []),
        λ key. after-now reads root key paths [],
      )
