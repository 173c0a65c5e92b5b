-- ===== src/Walk/Rules.antt =====
-- What a walk keeps of its state and of the calls made so far.
use systemboot.Base.{[], ◌∷◌, Bytes}
use systemboot.Text.FilePath.{path_join}
use systemboot.Platform.{Trace, Platform, walk_dir}
use systemboot.Platform.Devices.{
  Tree, Forest, file, directory, unreadable, unknown, no_tree, tree_and,
}
use systemboot.Platform.Monad.{M}
use systemboot.Platform.Rules.{
  Yields, Yields-bind, Yields-pure, Keeps, Keeps-bind, Keeps-pure, NoPanic,
}
use systemboot.Walk.{
  Entry, plain_file, plain_dir, dir_error, lstat_error, Signal, go_on, skip_dir, stop, name_of,
  after_dir, after_entry, walk_end, walk_tree, walk_forest, walk, look_at,
}

pub Yields-look_at : (os : Platform) (root : Bytes) → Yields (λ _. Unit {0}) (look_at os root)
unfolding look_at
Yields-look_at os root = record { at = λ h. tt }

pub Keeps-look_at {κ} :
    (P : Trace → Type κ) (os : Platform) (root : Bytes)
    → ((h : Trace) → P h → P (walk_dir root ∷ h))
    → Keeps P (look_at os root)
unfolding look_at
Keeps-look_at P os root k = record { at = k }

pub NoPanic-look_at : (os : Platform) (root : Bytes) → NoPanic (look_at os root)
unfolding look_at
NoPanic-look_at os root = record { at = λ h. tt }

module _ {S : Type 0} (visit : S → Bytes → Entry → M (S × Signal)) where
  -- A property of the state that each call of the walk function keeps, which always returns.
  module _ (P : S → Type 0)
      (step : (s : S) (path : Bytes) (e : Entry) → P s → Yields (λ r. P r.0) (visit s path e)) where
    after_dir-Yields :
        (entries : S → M (S × Signal)) (r : S × Signal)
        → P r.0
        → ((s : S) → P s → Yields (λ q. P q.0) (entries s))
        → Yields (λ q. P q.0) (after_dir visit entries r)
    after_dir-Yields entries (s, go_on) p k = k s p
    after_dir-Yields entries (s, skip_dir) p k = Yields-pure _ _ p
    after_dir-Yields entries (s, stop e) p k = Yields-pure _ _ p

    after_entry-Yields :
        (t : Tree) (rest : S → M (S × Signal)) (r : S × Signal)
        → P r.0
        → ((s : S) → P s → Yields (λ q. P q.0) (rest s))
        → Yields (λ q. P q.0) (after_entry visit t rest r)
    after_entry-Yields t rest (s, go_on) p k = k s p
    after_entry-Yields t rest (s, stop e) p k = Yields-pure _ _ p
    after_entry-Yields (file name) rest (s, skip_dir) p k = Yields-pure _ _ p
    after_entry-Yields (directory name forest) rest (s, skip_dir) p k = k s p
    after_entry-Yields (unreadable name e) rest (s, skip_dir) p k = k s p
    after_entry-Yields (unknown name e) rest (s, skip_dir) p k = k s p

    mutual
      unfolding walk_tree walk_forest

      walk_tree-Yields :
          (t : Tree) (path : Bytes) (s : S) → P s → Yields (λ r. P r.0) (walk_tree visit t path s)
      walk_tree-Yields (file name) path s p = step s path (plain_file name) p
      walk_tree-Yields (directory name forest) path s p =
          Yields-bind (λ r. P r.0) (λ r. P r.0) (visit s path (plain_dir name))
            (after_dir visit (walk_forest visit forest path)) (step s path (plain_dir name) p)
            (λ r q.
              after_dir-Yields (walk_forest visit forest path) r q (walk_forest-Yields forest path))
      walk_tree-Yields (unreadable name e) path s p = step s path (dir_error name e) p
      walk_tree-Yields (unknown name e) path s p = step s path (lstat_error e) p

      walk_forest-Yields :
          (f : Forest) (path : Bytes) (s : S)
          → P s
          → Yields (λ r. P r.0) (walk_forest visit f path s)
      walk_forest-Yields no_tree path s p = Yields-pure _ _ p
      walk_forest-Yields (tree_and t f) path s p =
          Yields-bind (λ r. P r.0) (λ r. P r.0)
            (walk_tree visit t (path_join (path ∷ name_of t ∷ [])) s)
            (after_entry visit t (walk_forest visit f path))
            (walk_tree-Yields t (path_join (path ∷ name_of t ∷ [])) s p)
            (λ r q. after_entry-Yields t (walk_forest visit f path) r q (walk_forest-Yields f path))

    walk_end-Yields : (r : S × Signal) → P r.0 → Yields (λ q. P q.0) (walk_end visit r)
    walk_end-Yields (s, go_on) p = Yields-pure _ _ p
    walk_end-Yields (s, skip_dir) p = Yields-pure _ _ p
    walk_end-Yields (s, stop e) p = Yields-pure _ _ p

    pub walk-Yields :
        (t : Tree) (root : Bytes) (s : S) → P s → Yields (λ r. P r.0) (walk visit t root s)
    unfolding walk
    walk-Yields t root s p =
        Yields-bind (λ r. P r.0) _ (walk_tree visit t root s) _ (walk_tree-Yields t root s p)
          walk_end-Yields

  -- A property of the calls made so far that each call of the walk function keeps.
  module _ {κ} (P : Trace → Type κ)
      (step : (s : S) (path : Bytes) (e : Entry) → Keeps P (visit s path e)) where
    after_dir-Keeps :
        (entries : S → M (S × Signal)) (r : S × Signal)
        → ((s : S) → Keeps P (entries s))
        → Keeps P (after_dir visit entries r)
    after_dir-Keeps entries (s, go_on) k = k s
    after_dir-Keeps entries (s, skip_dir) k = Keeps-pure P _
    after_dir-Keeps entries (s, stop e) k = Keeps-pure P _

    after_entry-Keeps :
        (t : Tree) (rest : S → M (S × Signal)) (r : S × Signal)
        → ((s : S) → Keeps P (rest s))
        → Keeps P (after_entry visit t rest r)
    after_entry-Keeps t rest (s, go_on) k = k s
    after_entry-Keeps t rest (s, stop e) k = Keeps-pure P _
    after_entry-Keeps (file name) rest (s, skip_dir) k = Keeps-pure P _
    after_entry-Keeps (directory name forest) rest (s, skip_dir) k = k s
    after_entry-Keeps (unreadable name e) rest (s, skip_dir) k = k s
    after_entry-Keeps (unknown name e) rest (s, skip_dir) k = k s

    mutual
      unfolding walk_tree walk_forest

      walk_tree-Keeps : (t : Tree) (path : Bytes) (s : S) → Keeps P (walk_tree visit t path s)
      walk_tree-Keeps (file name) path s = step s path (plain_file name)
      walk_tree-Keeps (directory name forest) path s =
          Keeps-bind P _ _ (step s path (plain_dir name))
            (λ r. after_dir-Keeps (walk_forest visit forest path) r (walk_forest-Keeps forest path))
      walk_tree-Keeps (unreadable name e) path s = step s path (dir_error name e)
      walk_tree-Keeps (unknown name e) path s = step s path (lstat_error e)

      walk_forest-Keeps : (f : Forest) (path : Bytes) (s : S) → Keeps P (walk_forest visit f path s)
      walk_forest-Keeps no_tree path s = Keeps-pure P _
      walk_forest-Keeps (tree_and t f) path s =
          Keeps-bind P _ _ (walk_tree-Keeps t (path_join (path ∷ name_of t ∷ [])) s)
            (λ r. after_entry-Keeps t (walk_forest visit f path) r (walk_forest-Keeps f path))

    walk_end-Keeps : (r : S × Signal) → Keeps P (walk_end visit r)
    walk_end-Keeps (s, go_on) = Keeps-pure P _
    walk_end-Keeps (s, skip_dir) = Keeps-pure P _
    walk_end-Keeps (s, stop e) = Keeps-pure P _

    pub walk-Keeps : (t : Tree) (root : Bytes) (s : S) → Keeps P (walk visit t root s)
    unfolding walk
    walk-Keeps t root s = Keeps-bind P _ _ (walk_tree-Keeps t root s) walk_end-Keeps
