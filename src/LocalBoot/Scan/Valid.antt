-- ===== src/LocalBoot/Scan/Valid.antt =====
-- The configurations that `ScanGrubConfigs` returns.
use systemboot.Base.{◌≡◌, List, [], All, All-append, true, Option, none, some, Bytes}
use systemboot.Platform.{Platform, read_file}
use systemboot.Platform.Monad.{lift, call_text}
use systemboot.Platform.Rules.{
  Yields, Yields-pure, Yields-bind, Yields-lift, Yields-handle, OkWith, May-of_NoPanic,
  NoPanic-call_text,
}
use systemboot.Walk.{Entry, plain_file, plain_dir, dir_error, lstat_error, Signal, walk, look_at}
use systemboot.Walk.Rules.{walk-Yields, Yields-look_at}
use systemboot.BootConfig.{BootConfig, is_valid}
use systemboot.Storage.Device.{BlockDev}
use systemboot.LocalBoot.Grub.{GrubVersion, parse_grub_cfg}
use systemboot.LocalBoot.Grub.Valid.{parse_grub_cfg-valid}
use systemboot.LocalBoot.Scan.{version_of, read_cfg, visit_grub, scan_grub_configs}

abbrev pub AllValid : List BootConfig → Type 0
AllValid cs = All (λ c. is_valid c ≡ true) cs

parse_grub_cfg-OkWith :
    (ver : GrubVersion) (devices : List BlockDev) (content basedir : Bytes)
    → OkWith AllValid (parse_grub_cfg ver devices content basedir)
parse_grub_cfg-OkWith ver devices content basedir =
    let (ds, f, v, l) = parse_grub_cfg-valid ver devices content basedir in rw f v

module _ (os : Platform) (normalize : Bytes → Bytes) (devices : List BlockDev)
    (basedir : Bytes) where
  abbrev Valid : List BootConfig × Signal → Type 0
  Valid r = AllValid r.0

  read_cfg-Yields :
      (ver : Option GrubVersion) (path : Bytes) (cs : List BootConfig)
      → AllValid cs
      → Yields Valid (read_cfg os normalize devices basedir ver path cs)
  read_cfg-Yields none path cs v = Yields-pure _ _ v
  read_cfg-Yields (some ver) path cs v =
      Yields-handle (λ _. Unit {0}) Valid (call_text os (read_file path)) _ _
        (May-of_NoPanic _ (NoPanic-call_text os _))
        (λ content _.
          Yields-bind AllValid Valid (lift (parse_grub_cfg ver devices content basedir)) _
            (Yields-lift _ _ (parse_grub_cfg-OkWith ver devices content basedir))
            (λ ds w. Yields-pure _ _ (All-append (λ c. is_valid c ≡ true) cs ds v w)))
        (λ e. Yields-pure _ _ v)

  visit_grub-Yields :
      (cs : List BootConfig) (path : Bytes) (e : Entry)
      → AllValid cs
      → Yields Valid (visit_grub os normalize devices basedir cs path e)
  unfolding visit_grub
  visit_grub-Yields cs path (dir_error name e) v = Yields-pure _ _ v
  visit_grub-Yields cs path (lstat_error e) v = Yields-pure _ _ v
  visit_grub-Yields cs path (plain_dir name) v = Yields-pure _ _ v
  visit_grub-Yields cs path (plain_file name) v =
      read_cfg-Yields (version_of name) (normalize path) cs v

  -- Whatever file tree it meets, and also where the walk stops with an error, `ScanGrubConfigs`
  -- returns, with no error and no panic, and what it returns are valid configurations only.
  pub scan_grub_configs-Yields : Yields AllValid (scan_grub_configs os normalize devices basedir)
  unfolding scan_grub_configs
  scan_grub_configs-Yields =
      Yields-bind (λ _. Unit {0}) AllValid (look_at os basedir) _ (Yields-look_at os basedir)
        (λ tree _.
          Yields-bind (λ r. AllValid r.0) AllValid
            (walk (visit_grub os normalize devices basedir) tree basedir []) _
            (walk-Yields (visit_grub os normalize devices basedir) AllValid visit_grub-Yields tree
              basedir [] tt)
            (λ r v. Yields-pure _ _ v))
