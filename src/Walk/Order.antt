-- ===== src/Walk/Order.antt =====
-- The order in which `filepath.Walk` calls its function, and what the calls add up to.
use systemboot.Base.{◌≡◌, refl, sym, List, [], ◌∷◌, ◌++◌, Option, none, some, Bytes, Error, ok}
use systemboot.Text.FilePath.{path_join}
use systemboot.Platform.{Trace}
use systemboot.Platform.Devices.{
  Tree, Forest, file, directory, unreadable, unknown, no_tree, tree_and,
}
use systemboot.Platform.Monad.{M, pure, handle, ◌>>=◌}
use systemboot.Walk.{
  Entry, plain_file, plain_dir, dir_error, lstat_error, Signal, go_on, stop, name_of, after_dir,
  after_entry, walk_end, walk_tree, walk_forest, walk,
}

unfoldable mutual
  -- The paths of a tree: that of a directory comes before those of its entries.
  pub tree_paths : Tree → Bytes → List Bytes
  tree_paths (file name) path = path ∷ []
  tree_paths (directory name forest) path = path ∷ forest_paths forest path
  tree_paths (unreadable name e) path = path ∷ []
  tree_paths (unknown name e) path = path ∷ []

  pub forest_paths : Forest → Bytes → List Bytes
  forest_paths no_tree path = []
  forest_paths (tree_and t forest) path =
      tree_paths t (path_join (path ∷ name_of t ∷ [])) ++ forest_paths forest path

bind-value :
    {A B : Type 0} (m : M A) (f : A → M B) (h : Trace) (a : A)
    → (m h).0 ≡ ok a
    → (m >>= f) h ≡ f a (m h).1
unfolding ◌>>=◌ handle
bind-value m f h a e = rw e refl

module _ {S : Type 0} (f : S → Bytes → S × Option Error) where
  -- The state behind the paths, up to the first of them with an error.
  unfoldable pub visit_all : List Bytes → S × Option Error → S × Option Error
  visit_all [] r = r
  visit_all (p ∷ ps) (s, none) = visit_all ps (f s p)
  visit_all (p ∷ ps) (s, some e) = (s, some e)

  pub visit_all-stopped :
      (ps : List Bytes) (s : S) (e : Error) → visit_all ps (s, some e) ≡ (s, some e)
  unfolding visit_all
  visit_all-stopped [] s e = refl
  visit_all-stopped (p ∷ ps) s e = refl

  visit_all-append :
      (ps qs : List Bytes) (r : S × Option Error)
      → visit_all (ps ++ qs) r ≡ visit_all qs (visit_all ps r)
  unfolding visit_all
  visit_all-append [] qs r = refl
  visit_all-append (p ∷ ps) qs (s, none) = visit_all-append ps qs (f s p)
  visit_all-append (p ∷ ps) qs (s, some e) = sym (visit_all-stopped qs s e)

  abbrev pub signalled : S × Option Error → S × Signal
  signalled (s, none) = (s, go_on)
  signalled (s, some e) = (s, stop e)

  -- A walk function that never skips, and whose result depends on the state and the path only.
  module _ (visit : S → Bytes → Entry → M (S × Signal))
      (step : (s : S) (path : Bytes) (e : Entry) (h : Trace)
        → (visit s path e h).0 ≡ ok (signalled (f s path))) where
    after_dir-visit_all :
        (ps : List Bytes) (entries : S → M (S × Signal)) (r : S × Option Error) (h : Trace)
        → ((s : S) (t : Trace) → (entries s t).0 ≡ ok (signalled (visit_all ps (s, none))))
        → (after_dir visit entries (signalled r) h).0 ≡ ok (signalled (visit_all ps r))
    unfolding pure
    after_dir-visit_all ps entries (s, none) h k = k s h
    after_dir-visit_all ps entries (s, some e) h k = rw (visit_all-stopped ps s e)

    after_entry-visit_all :
        (t : Tree) (ps : List Bytes) (rest : S → M (S × Signal)) (r : S × Option Error) (h : Trace)
        → ((s : S) (u : Trace) → (rest s u).0 ≡ ok (signalled (visit_all ps (s, none))))
        → (after_entry visit t rest (signalled r) h).0 ≡ ok (signalled (visit_all ps r))
    unfolding pure
    after_entry-visit_all t ps rest (s, none) h k = k s h
    after_entry-visit_all t ps rest (s, some e) h k = rw (visit_all-stopped ps s e)

    mutual
      unfolding walk_tree walk_forest tree_paths forest_paths visit_all pure

      walk_tree-visit_all :
          (t : Tree) (path : Bytes) (s : S) (h : Trace)
          → (walk_tree visit t path s h).0
            ≡ ok (signalled (visit_all (tree_paths t path) (s, none)))
      walk_tree-visit_all (file name) path s h = step s path (plain_file name) h
      walk_tree-visit_all (directory name forest) path s h =
          rw
            (bind-value (visit s path (plain_dir name))
              (after_dir visit (walk_forest visit forest path)) h (signalled (f s path))
              (step s path (plain_dir name) h))
            (after_dir-visit_all (forest_paths forest path) (walk_forest visit forest path)
              (f s path) _ (walk_forest-visit_all forest path))
      walk_tree-visit_all (unreadable name e) path s h = step s path (dir_error name e) h
      walk_tree-visit_all (unknown name e) path s h = step s path (lstat_error e) h

      walk_forest-visit_all :
          (forest : Forest) (path : Bytes) (s : S) (h : Trace)
          → (walk_forest visit forest path s h).0
            ≡ ok (signalled (visit_all (forest_paths forest path) (s, none)))
      walk_forest-visit_all no_tree path s h = refl
      walk_forest-visit_all (tree_and t forest) path s h =
          let below = path_join (path ∷ name_of t ∷ []) in
          rw
            (
              bind-value (walk_tree visit t below s)
                  (after_entry visit t (walk_forest visit forest path)) h
                  (signalled (visit_all (tree_paths t below) (s, none)))
                  (walk_tree-visit_all t below s h),
              visit_all-append (tree_paths t below) (forest_paths forest path) (s, none),
            )
            (after_entry-visit_all t (forest_paths forest path) (walk_forest visit forest path)
              (visit_all (tree_paths t below) (s, none)) _ (walk_forest-visit_all forest path))

    walk_end-visit_all :
        (r : S × Option Error) (h : Trace) → (walk_end visit (signalled r) h).0 ≡ ok r
    unfolding pure
    walk_end-visit_all (s, none) h = refl
    walk_end-visit_all (s, some e) h = refl

    pub walk-visit_all :
        (t : Tree) (root : Bytes) (s : S) (h : Trace)
        → (walk visit t root s h).0 ≡ ok (visit_all (tree_paths t root) (s, none))
    unfolding walk
    walk-visit_all t root s h =
        rw
          (bind-value (walk_tree visit t root s) (walk_end visit) h _
            (walk_tree-visit_all t root s h))
          (walk_end-visit_all (visit_all (tree_paths t root) (s, none)) _)
