-- ===== src/LocalBoot/Grub/FsUuid.antt =====
-- `isValidFsUUID`, the UUIDs that package storage finds, and the `search` lines that name one.
use systemboot.Base.{
  ℕ, suc, ◌≡◌, refl, ap, ◌∙◌, Option, none, filter, List, [], ◌∷◌, ◌++◌, map, All, arith, Bytes,
  bytes, some, true, false, equal, if◌then◌else◌, Outcome, ok, err, panic, Bool-cases, inl, inr,
}
use systemboot.Text.Hex.{decode_hex}
use systemboot.Platform.{Platform, Trace}
use systemboot.Platform.Rules.{OkWith}
use systemboot.Storage.Device.{BlockDev, partitions_by_fs_uuid, partitions_by_fs_uuid-filter}
use systemboot.Text.FilePath.{path_join, path_dir}
use systemboot.Storage.Uuid.{get_uuid, ext4_groups, vfat_groups}
use systemboot.Storage.Uuid.Text.{
  IsUuid, missing, ext4, vfat, ext4_groups-IsByte, vfat_groups-IsByte, decode-print_uuid,
  get_uuid-Yields,
}
use systemboot.LocalBoot.Grub.{
  is_valid_fs_uuid, all_hex, move_to, search_words, search_root, search_line,
}

all_hex-some : (ps gs : List Bytes) → map decode_hex ps ≡ map some gs → all_hex ps ≡ true
unfolding all_hex
all_hex-some [] gs e = refl
all_hex-some (p ∷ ps) [] e = cc
all_hex-some (p ∷ ps) (g ∷ gs) e = ground (arith, all_hex-some ps gs)

IsUuid-is_valid_fs_uuid : (u : Bytes) → IsUuid u → is_valid_fs_uuid u ≡ true
unfolding is_valid_fs_uuid
IsUuid-is_valid_fs_uuid _ missing = refl
IsUuid-is_valid_fs_uuid _ (ext4 b h) =
    all_hex-some _ (ext4_groups b) (decode-print_uuid _ _ (ext4_groups-IsByte b h))
IsUuid-is_valid_fs_uuid _ (vfat b h) =
    all_hex-some _ (vfat_groups b) (decode-print_uuid _ _ (vfat_groups-IsByte b h))

OkWith-map : (r : Outcome Bytes) → OkWith IsUuid r → OkWith (λ u. is_valid_fs_uuid u ≡ true) r
OkWith-map (ok u) h = IsUuid-is_valid_fs_uuid u h
OkWith-map (err e) h = h
OkWith-map panic h = h

-- Whatever a device holds, `getUUID` returns a text that `isValidFsUUID` accepts.
pub get_uuid-is_valid_fs_uuid :
    (os : Platform) (devpath : Bytes) (h : Trace)
    → OkWith (λ u. is_valid_fs_uuid u ≡ true) (get_uuid os devpath h).0
get_uuid-is_valid_fs_uuid os devpath h =
    OkWith-map (get_uuid os devpath h).0 ((get_uuid-Yields os devpath).at h)

search_invalid : is_valid_fs_uuid (bytes "search") ≡ false
unfolding is_valid_fs_uuid
search_invalid = refl

-- No word of the list reads as a UUID.
abbrev pub NoUuids : List Bytes → Type 0
NoUuids = All (λ w. is_valid_fs_uuid w ≡ false)

-- The first device of the list whose file system has the UUID.
abbrev pub first_with : Bytes → List BlockDev → Option BlockDev
first_with u [] = none
first_with u (d ∷ ds) = let rest = first_with u ds in if equal d.fs_uuid u then some d else rest

-- The directory of the device, beside `dir`.
abbrev pub beside : Bytes → Option BlockDev → Bytes
beside dir none = dir
beside dir (some d) = path_join (path_dir dir ∷ d.name ∷ [])

move_to-filter :
    (dir u : Bytes) (devices : List BlockDev)
    → move_to dir (filter (λ d. equal d.fs_uuid u) devices) ≡ beside dir (first_with u devices)
unfolding move_to
move_to-filter dir u [] = refl
move_to-filter dir u (d ∷ ds) = elim (Bool-cases (equal d.fs_uuid u)) [
  | inl e ↦ rw e refl
  | inr e ↦ rw e (move_to-filter dir u ds)
]

move_to-first :
    (dir u : Bytes) (devices : List BlockDev)
    → move_to dir (partitions_by_fs_uuid devices u) ≡ beside dir (first_with u devices)
move_to-first dir u devices =
    ap (move_to dir) (partitions_by_fs_uuid-filter devices u) ∙ move_to-filter dir u devices

module _ (devices : List BlockDev) where
  search_words-NoUuids :
      (dir : Bytes) (ws : List Bytes) → NoUuids ws → search_words devices dir ws ≡ dir
  unfolding search_words
  search_words-NoUuids dir [] h = refl
  search_words-NoUuids dir (w ∷ ws) h = rw (h.0, search_words) (search_words-NoUuids dir ws h.1)

  search_words-one :
      (dir u : Bytes) (before after : List Bytes)
      → NoUuids before
      → NoUuids after
      → is_valid_fs_uuid u ≡ true
      → search_words devices dir (before ++ (u ∷ after))
        ≡ move_to dir (partitions_by_fs_uuid devices u)
  unfolding search_words
  search_words-one dir u [] after h k v =
      rw (v, search_words)
        (search_words-NoUuids (move_to dir (partitions_by_fs_uuid devices u)) after k)
  search_words-one dir u (w ∷ ws) after h k v =
      rw (h.0, search_words) (search_words-one dir u ws after h.1 k v)

  abbrev pub count_root : List Bytes → ℕ
  count_root [] = 0
  count_root (w ∷ ws) =
      let rest = count_root ws in if equal w (bytes "--set=root") then suc rest else rest

  search_root-none :
      (line : List Bytes) (dir : Bytes) (ws : List Bytes)
      → count_root ws ≡ 0
      → search_root devices line dir ws ≡ dir
  unfolding search_root
  search_root-none line dir [] h = refl
  search_root-none line dir (w ∷ ws) h = elim (Bool-cases (equal w (bytes "--set=root"))) [
    | inl e ↦ absurd (omega (arith, rw e at h))
    | inr e ↦ rw e (search_root-none line dir ws (rw e at h))
  ]

  search_root-one :
      (line : List Bytes) (dir : Bytes) (ws : List Bytes)
      → count_root ws ≡ 1
      → search_root devices line dir ws ≡ search_words devices dir line
  unfolding search_root
  search_root-one line dir [] h = absurd (omega arith)
  search_root-one line dir (w ∷ ws) h = elim (Bool-cases (equal w (bytes "--set=root"))) [
    | inl e ↦ rw e (search_root-none line _ ws (omega (arith, rw e at h)))
    | inr e ↦ rw e (search_root-one line dir ws (rw e at h))
  ]

  search_count : (ws : List Bytes) → count_root (bytes "search" ∷ ws) ≡ count_root ws
  unfolding equal
  search_count ws = refl

  search_line-search :
      (dir : Bytes) (ws : List Bytes)
      → search_line devices dir (bytes "search" ∷ ws)
        ≡ search_root devices (bytes "search" ∷ ws) dir (bytes "search" ∷ ws)
  unfolding search_line equal
  search_line-search dir ws = refl

  -- A `search` line with one word `--set=root` and one word that reads as a UUID moves the
  -- directory of the kernel to the directory named for the first device with that UUID, beside the
  -- one it was in; with no such device it stays.
  pub search_line-one :
      (dir u : Bytes) (before after : List Bytes)
      → NoUuids before
      → NoUuids after
      → is_valid_fs_uuid u ≡ true
      → count_root (before ++ (u ∷ after)) ≡ 1
      → search_line devices dir (bytes "search" ∷ (before ++ (u ∷ after)))
        ≡ beside dir (first_with u devices)
  search_line-one dir u before after h k v n =
      search_line-search dir (before ++ (u ∷ after))
      ∙ search_root-one (bytes "search" ∷ (before ++ (u ∷ after))) dir
          (bytes "search" ∷ (before ++ (u ∷ after))) (search_count (before ++ (u ∷ after)) ∙ n)
      ∙ search_words-one dir u (bytes "search" ∷ before) after (search_invalid, h) k v
      ∙ move_to-first dir u devices
