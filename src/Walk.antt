-- ===== src/Walk.antt =====
-- `filepath.Walk` and `filepath.Rel`, as their documentation has them. The file tree does not change
-- while it is walked.
pub mod Rules
pub mod Order
use systemboot.Base.{
  ℕ, List, [], ◌∷◌, ◌++◌, Option, none, some, Bool, Bytes, bytes, equal, if◌then◌else◌, length,
  drop, Error, Outcome, ok, Fault,
}
use systemboot.Text.Split.{has_prefix, ends_with}
use systemboot.Text.FilePath.{clean, path_join}
use systemboot.Platform.{Platform, Trace, walk_dir}
use systemboot.Platform.Devices.{
  Tree, Forest, file, directory, unreadable, unknown, no_tree, tree_and,
}
use systemboot.Platform.Monad.{M, pure, ◌>>=◌}

-- What the walk function is called with, besides the path.
pub data Entry : Type 0 where
  plain_file : Bytes → Entry
  plain_dir : Bytes → Entry
  dir_error : Bytes → Fault → Entry
  lstat_error : Fault → Entry

-- What it returns: nil, `SkipDir` or another error.
pub data Signal : Type 0 where
  go_on : Signal
  skip_dir : Signal
  stop : Error → Signal

abbrev pub name_of : Tree → Bytes
name_of (file name) = name
name_of (directory name forest) = name
name_of (unreadable name e) = name
name_of (unknown name e) = name

-- `filepath.Rel`, for a path below the base.
unfoldable pub rel : Bytes → Bytes → Option Bytes
unfolding clean has_prefix ends_with
rel base path =
    let b = clean base in
    let p = clean path in
    let prefix = if ends_with b'/' b then b else b ++ (b'/' ∷ []) in
    if equal b p
    then some (bytes ".")
    else if equal b (bytes ".")
    then some p
    else if has_prefix prefix p
    then some (drop (length prefix) p)
    else none

module _ {S : Type 0} (visit : S → Bytes → Entry → M (S × Signal)) where
  -- Behind the call for a directory.
  abbrev pub after_dir : (S → M (S × Signal)) → S × Signal → M (S × Signal)
  after_dir entries (s, go_on) = entries s
  after_dir entries (s, skip_dir) = pure (s, skip_dir)
  after_dir entries (s, stop e) = pure (s, stop e)

  -- Behind an entry of a directory: `SkipDir` for a file skips the rest of the directory.
  abbrev pub after_entry : Tree → (S → M (S × Signal)) → S × Signal → M (S × Signal)
  after_entry t rest (s, go_on) = rest s
  after_entry t rest (s, stop e) = pure (s, stop e)
  after_entry (file name) rest (s, skip_dir) = pure (s, skip_dir)
  after_entry (directory name forest) rest (s, skip_dir) = rest s
  after_entry (unreadable name e) rest (s, skip_dir) = rest s
  after_entry (unknown name e) rest (s, skip_dir) = rest s

  unfoldable mutual
    pub walk_tree : Tree → Bytes → S → M (S × Signal)
    walk_tree (file name) path s = visit s path (plain_file name)
    walk_tree (directory name forest) path s =
        visit s path (plain_dir name) >>= after_dir (walk_forest forest path)
    walk_tree (unreadable name e) path s = visit s path (dir_error name e)
    walk_tree (unknown name e) path s = visit s path (lstat_error e)

    pub walk_forest : Forest → Bytes → S → M (S × Signal)
    walk_forest no_tree path s = pure (s, go_on)
    walk_forest (tree_and t forest) path s =
        walk_tree t (path_join (path ∷ name_of t ∷ [])) s
        >>= after_entry t (walk_forest forest path)

  -- The error of the whole walk; `SkipDir` is none.
  abbrev pub walk_end : S × Signal → M (S × Option Error)
  walk_end (s, go_on) = pure (s, none)
  walk_end (s, skip_dir) = pure (s, none)
  walk_end (s, stop e) = pure (s, some e)

  unfoldable pub walk : Tree → Bytes → S → M (S × Option Error)
  unfolding walk_tree walk_forest
  walk t root s = walk_tree t root s >>= walk_end

-- The tree at a path.
unfoldable pub look_at : Platform → Bytes → M Tree
look_at os root h = (ok (os.tree h (walk_dir root)), walk_dir root ∷ h)
