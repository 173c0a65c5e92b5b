-- ===== src/Storage/Stats/Listed.antt =====
-- The devices that `GetBlockStats` returns.
use systemboot.Base.{
  ℕ, bytes, ◌≡◌, refl, sym, ◌∙◌, List, [], ◌∷◌, ◌++◌, map, map-append, append_assoc, append-nil,
  true, All, All-append, Option, none, some, Bytes, Error, Outcome, ok, err, panic,
}
use systemboot.Text.FilePath.{path_join}
use systemboot.Platform.{Platform}
use systemboot.Platform.Monad.{lift}
use systemboot.Platform.Rules.{
  May, May-pure, May-raise, May-bind, May-lift, May-finally, May-weaken, May-of_NoPanic,
  May-of_Yields, IfOk, Yields, Yields-pure, NoPanic-call_number, NoPanic-call_text,
}
use systemboot.Walk.{Entry, plain_file, plain_dir, dir_error, lstat_error}
use systemboot.Walk.Rules.{walk-Yields, Yields-look_at}
use systemboot.Storage.Device.{BlockDev, BlockStat}
use systemboot.Storage.Stat.{block_stat_from_bytes}
use systemboot.Storage.Stat.RoundTrip.{StatIsU64, StatOutcome, block_stat_from_bytes-StatOutcome}
use systemboot.Storage.Uuid.{get_uuid}
use systemboot.LocalBoot.Grub.{is_valid_fs_uuid}
use systemboot.LocalBoot.Grub.FsUuid.{get_uuid-is_valid_fs_uuid}
use systemboot.Storage.Stats.{block_root, visit_block, stats_loop, devices_of, get_block_stats}

-- A device as it is listed: its UUID is valid, and each of its statistics is a `uint64`.
abbrev pub IsListable : BlockDev → Type 0
IsListable d = (is_valid_fs_uuid d.fs_uuid ≡ true) × StatIsU64 d.stat

StatOutcome-IfOk : (n : ℕ) (r : Outcome BlockStat) → StatOutcome n r → IfOk StatIsU64 r
StatOutcome-IfOk n (ok bs) o = o.0
StatOutcome-IfOk n (err e) o = tt
StatOutcome-IfOk n panic o = o

module _ (os : Platform) where
  get_uuid-May : (devpath : Bytes) → May (λ u. is_valid_fs_uuid u ≡ true) (get_uuid os devpath)
  get_uuid-May devpath = May-of_Yields _ _ (record { at = get_uuid-is_valid_fs_uuid os devpath })

  stat-May : (buf : Bytes) → May StatIsU64 (lift (block_stat_from_bytes buf))
  stat-May buf = May-lift _ _ (StatOutcome-IfOk _ _ (block_stat_from_bytes-StatOutcome buf))

  -- The devices found so far, and those of these names.
  abbrev pub Listed : List BlockDev → List Bytes → List BlockDev → Type 0
  Listed found devnames bs =
      (map (λ d. d.name) bs ≡ map (λ d. d.name) found ++ devnames) × All IsListable bs

  Listed-next :
      (found : List BlockDev) (devnames : List Bytes) (d : BlockDev) (bs : List BlockDev)
      → Listed (found ++ (d ∷ [])) devnames bs
      → Listed found (d.name ∷ devnames) bs
  Listed-next found devnames d bs (e, v) = (e ∙ rw map-append (rw append_assoc refl), v)

  -- The loop of `GetBlockStats` never panics. It returns an error, or one device for each name, in
  -- the order of the names, whose UUID is one that `isValidFsUUID` accepts and whose statistics are
  -- each a `uint64`.
  pub stats_loop-Listed :
      (found : List BlockDev) (devnames : List Bytes)
      → All IsListable found
      → May (Listed found devnames) (stats_loop os found devnames)
  unfolding stats_loop
  stats_loop-Listed found [] v = May-pure _ found (sym (append-nil _), v)
  stats_loop-Listed found (devname ∷ devnames) v =
      May-bind (λ _. Unit {0}) _ _ _ (May-of_NoPanic _ (NoPanic-call_number os _))
        (λ fd _. May-finally _ _ _ (
          May-bind (λ _. Unit {0}) _ _ _ (May-of_NoPanic _ (NoPanic-call_text os _))
            (λ buf _. May-bind StatIsU64 _ _ _ (stat-May buf) (λ bstat u.
              May-bind (λ u. is_valid_fs_uuid u ≡ true) _ _ _
                (get_uuid-May (path_join (bytes "/dev/" ∷ devname ∷ [])))
                (λ uuid valid.
                  let d : BlockDev = record { name = devname; stat = bstat; fs_uuid = uuid } in
                  May-weaken _ _ _ (λ bs. Listed-next found devnames d bs)
                    (stats_loop-Listed (found ++ (d ∷ [])) devnames
                      (All-append IsListable found _ v ((valid, u), tt))))))))

  -- The names that the walk finds.
  visit_block-Yields :
      (names : List Bytes) (path : Bytes) (e : Entry)
      → Unit {0}
      → Yields (λ _. Unit {0}) (visit_block names path e)
  unfolding visit_block
  visit_block-Yields names path (plain_file name) u = Yields-pure _ _ tt
  visit_block-Yields names path (plain_dir name) u = Yields-pure _ _ tt
  visit_block-Yields names path (dir_error name e) u = Yields-pure _ _ tt
  visit_block-Yields names path (lstat_error e) u = Yields-pure _ _ tt

  devices_of-May : (r : List Bytes × Option Error) → May (All IsListable) (devices_of os r)
  devices_of-May (names, some e) = May-raise _ e
  devices_of-May (names, none) = May-weaken _ _ _ (λ bs l. l.1) (stats_loop-Listed [] names tt)

  -- `GetBlockStats` never panics, whatever the machine answers: it returns an error, or devices
  -- whose UUIDs are ones that `isValidFsUUID` accepts and whose statistics are each a `uint64`.
  pub get_block_stats-May : May (All IsListable) (get_block_stats os)
  unfolding get_block_stats
  get_block_stats-May =
      May-bind (λ _. Unit {0}) _ _ _ (May-of_Yields _ _ (Yields-look_at os block_root))
        (λ tree _.
          May-bind (λ _. Unit {0}) _ _ _
            (May-of_Yields _ _
              (walk-Yields visit_block (λ _. Unit {0}) visit_block-Yields tree block_root [] tt))
            (λ r _. devices_of-May r))
