-- ===== src/Storage/Uuid/Text.antt =====
-- The text of a UUID.
use systemboot.Base.{
  ℕ, zero, suc, ◌≡◌, ◌≢◌, refl, sym, ap, ◌∙◌, List, [], ◌∷◌, ◌++◌, reverse, map, All, length, arith,
  Bytes, some,
}
use systemboot.Text.Split.{split_on}
use systemboot.Text.Hex.{decode_hex, hex_groups}
use systemboot.Text.Hex.Digits.{IsByte, decode_hex-hex_bytes, split_on-join-hex}
use systemboot.Platform.{Platform}
use systemboot.Platform.Rules.{
  May, Yields, May-bind, May-pure, May-of_NoPanic, NoPanic-call_text, NoPanic-call_number,
  Yields-handle, Yields-if, Yields-pure, Yields-finally, Yields-bind,
}
use systemboot.Storage.Uuid.{
  fill, cell, ext4_groups, vfat_groups, print_uuid, read_buffer, ext4_uuid, try_ext4, vfat_uuid,
  try_vfat, get_uuid,
}

fill-IsByte : (n : ℕ) (read : Bytes) → All IsByte (fill n read)
unfolding fill
fill-IsByte zero read = tt
fill-IsByte (suc n) [] = (omega arith, fill-IsByte n [])
fill-IsByte (suc n) (c ∷ read) = (omega arith, fill-IsByte n read)

cell-IsByte : (b : Bytes) (i : ℕ) → All IsByte b → IsByte (cell b i)
cell-IsByte [] i h = omega arith
cell-IsByte (c ∷ b) zero h = h.0
cell-IsByte (c ∷ b) (suc i) h = cell-IsByte b i h.1

decode_groups :
    (gs : List Bytes) → All (All IsByte) gs → map decode_hex (hex_groups gs) ≡ map some gs
decode_groups [] h = refl
decode_groups (g ∷ gs) h = rw (decode_hex-hex_bytes g h.0, decode_groups gs h.1)

-- The text of a UUID, split at its dashes and decoded from hexadecimal, gives back the groups of
-- bytes that it was printed from.
pub decode-print_uuid :
    (g : Bytes) (gs : List Bytes)
    → All (All IsByte) (g ∷ gs)
    → map decode_hex (split_on b'-' (print_uuid (g ∷ gs))) ≡ map some (g ∷ gs)
unfolding print_uuid
decode-print_uuid g gs h = rw (split_on-join-hex g gs h) (decode_groups (g ∷ gs) h)

-- The texts that `getUUID` may return.
pub data IsUuid : Bytes → Type 0 where
  missing : IsUuid []
  ext4 : (b : Bytes) → All IsByte b → IsUuid (print_uuid (ext4_groups b))
  vfat : (b : Bytes) → All IsByte b → IsUuid (print_uuid (vfat_groups b))

pub ext4_groups-IsByte : (b : Bytes) → All IsByte b → All (All IsByte) (ext4_groups b)
ext4_groups-IsByte b h =
    let at = λ (i : ℕ). cell-IsByte b i h in
    (
      (at 0, (at 1, (at 2, (at 3, tt)))),
      (
        (at 4, (at 5, tt)),
        (
          (at 6, (at 7, tt)),
          ((at 8, (at 9, tt)), ((at 10, (at 11, (at 12, (at 13, (at 14, (at 15, tt)))))), tt)),
        ),
      ),
    )

pub vfat_groups-IsByte : (b : Bytes) → All IsByte b → All (All IsByte) (vfat_groups b)
vfat_groups-IsByte b h =
    let at = λ (i : ℕ). cell-IsByte b i h in ((at 3, (at 2, tt)), ((at 1, (at 0, tt)), tt))

-- A file system with the bytes of its UUID, as they stand on the device.
pub data Volume : Type 0 where
  ext4_volume : (b : Bytes) → All IsByte b → length b ≡ 16 → Volume
  vfat_volume : (b : Bytes) → All IsByte b → length b ≡ 4 → Volume

abbrev pub volume_uuid : Volume → Bytes
volume_uuid (ext4_volume b h l) = b
volume_uuid (vfat_volume b h l) = b

-- The text that `tryEXT4` or `tryVFAT` prints for these bytes.
abbrev pub volume_text : Volume → Bytes
volume_text (ext4_volume b h l) = print_uuid (ext4_groups b)
volume_text (vfat_volume b h l) = print_uuid (vfat_groups b)

flatten : List Bytes → Bytes
flatten [] = []
flatten (g ∷ gs) = g ++ flatten gs

map-some-injective : (xs ys : List Bytes) → map some xs ≡ map some ys → xs ≡ ys
map-some-injective [] [] e = refl
map-some-injective [] (y ∷ ys) e = absurd cc
map-some-injective (x ∷ xs) [] e = absurd cc
map-some-injective (x ∷ xs) (y ∷ ys) e = let rest = map-some-injective xs ys cc in cc

print_uuid_injective :
    (g : Bytes) (gs : List Bytes) (k : Bytes) (ks : List Bytes)
    → All (All IsByte) (g ∷ gs)
    → All (All IsByte) (k ∷ ks)
    → print_uuid (g ∷ gs) ≡ print_uuid (k ∷ ks)
    → g ∷ gs ≡ k ∷ ks
print_uuid_injective g gs k ks h m e = map-some-injective (g ∷ gs) (k ∷ ks) (
    sym (decode-print_uuid g gs h)
    ∙ ap (λ t. map decode_hex (split_on b'-' t)) e
    ∙ decode-print_uuid k ks m)

ext4_groups-flatten : (b : Bytes) → length b ≡ 16 → b ≡ flatten (ext4_groups b)
unfolding flatten
ext4_groups-flatten
      (b0 ∷ b1 ∷ b2 ∷ b3 ∷ b4 ∷ b5 ∷ b6 ∷ b7 ∷ b8 ∷ b9 ∷ b10 ∷ b11 ∷ b12 ∷ b13 ∷ b14 ∷ b15 ∷ []) l =
    refl
ext4_groups-flatten _ l = absurd (omega arith)

vfat_groups-flatten : (b : Bytes) → length b ≡ 4 → b ≡ reverse (flatten (vfat_groups b))
unfolding flatten
vfat_groups-flatten (b0 ∷ b1 ∷ b2 ∷ b3 ∷ []) l = refl
vfat_groups-flatten _ l = absurd (omega arith)

volume_text-same : (v w : Volume) → volume_text v ≡ volume_text w → volume_uuid v ≡ volume_uuid w
volume_text-same (ext4_volume b h l) (ext4_volume c m n) e =
    ext4_groups-flatten b l
    ∙ ap flatten (print_uuid_injective _ _ _ _ (ext4_groups-IsByte b h) (ext4_groups-IsByte c m) e)
    ∙ sym (ext4_groups-flatten c n)
volume_text-same (vfat_volume b h l) (vfat_volume c m n) e =
    vfat_groups-flatten b l
    ∙ ap (λ gs. reverse (flatten gs))
        (print_uuid_injective _ _ _ _ (vfat_groups-IsByte b h) (vfat_groups-IsByte c m) e)
    ∙ sym (vfat_groups-flatten c n)
volume_text-same (ext4_volume b h l) (vfat_volume c m n) e =
    let groups = print_uuid_injective _ _ _ _ (ext4_groups-IsByte b h) (vfat_groups-IsByte c m) e in
    absurd cc
volume_text-same (vfat_volume b h l) (ext4_volume c m n) e =
    let groups = print_uuid_injective _ _ _ _ (vfat_groups-IsByte b h) (ext4_groups-IsByte c m) e in
    absurd cc

-- Two file systems whose UUIDs differ, each ext4 with its sixteen bytes or FAT32 with its four,
-- have different texts.
pub volume_text_injective :
    (v w : Volume) → volume_uuid v ≢ volume_uuid w → volume_text v ≢ volume_text w
volume_text_injective v w n e = n (volume_text-same v w e)

module _ (os : Platform) where
  read_buffer-May : (file n off : ℕ) → May (All IsByte) (read_buffer os file n off)
  unfolding read_buffer
  read_buffer-May file n off =
      May-bind (λ _. Unit {0}) _ _ _ (May-of_NoPanic _ (NoPanic-call_text os _))
        (λ read _. May-pure _ _ (fill-IsByte n read))

  ext4_uuid-Yields : (file : ℕ) → Yields IsUuid (ext4_uuid os file)
  unfolding ext4_uuid
  ext4_uuid-Yields file =
      Yields-handle (λ _. Unit {0}) _ _ _ _ (May-of_NoPanic _ (NoPanic-call_number os _))
        (λ _ _.
          Yields-handle (All IsByte) _ _ _ _ (read_buffer-May _ _ _)
            (λ b _. Yields-if _ _ _ _ (Yields-pure _ _ missing) (
              Yields-handle (All IsByte) _ _ _ _ (read_buffer-May _ _ _)
                (λ u h. Yields-pure _ _ (ext4 u h)) (λ _. Yields-pure _ _ missing)))
            (λ _. Yields-pure _ _ missing))
        (λ _. Yields-pure _ _ missing)

  vfat_uuid-Yields : (file : ℕ) → Yields IsUuid (vfat_uuid os file)
  unfolding vfat_uuid
  vfat_uuid-Yields file =
      Yields-handle (λ _. Unit {0}) _ _ _ _ (May-of_NoPanic _ (NoPanic-call_number os _))
        (λ _ _.
          Yields-handle (All IsByte) _ _ _ _ (read_buffer-May _ _ _)
            (λ b _. Yields-if _ _ _ _ (Yields-pure _ _ missing) (
              Yields-handle (All IsByte) _ _ _ _ (read_buffer-May _ _ _)
                (λ u h. Yields-pure _ _ (vfat u h)) (λ _. Yields-pure _ _ missing)))
            (λ _. Yields-pure _ _ missing))
        (λ _. Yields-pure _ _ missing)

  try_ext4-Yields : (devname : Bytes) → Yields IsUuid (try_ext4 os devname)
  unfolding try_ext4
  try_ext4-Yields devname =
      Yields-handle (λ _. Unit {0}) _ _ _ _ (May-of_NoPanic _ (NoPanic-call_number os _))
        (λ file _. Yields-finally _ _ _ (ext4_uuid-Yields file)) (λ _. Yields-pure _ _ missing)

  try_vfat-Yields : (devname : Bytes) → Yields IsUuid (try_vfat os devname)
  unfolding try_vfat
  try_vfat-Yields devname =
      Yields-handle (λ _. Unit {0}) _ _ _ _ (May-of_NoPanic _ (NoPanic-call_number os _))
        (λ file _. Yields-finally _ _ _ (vfat_uuid-Yields file)) (λ _. Yields-pure _ _ missing)

  -- `getUUID` always returns: the empty text, or the printed UUID of an ext4 or a FAT32 file system.
  pub get_uuid-Yields : (devpath : Bytes) → Yields IsUuid (get_uuid os devpath)
  unfolding get_uuid
  get_uuid-Yields devpath =
      Yields-bind IsUuid _ _ _ (try_vfat-Yields devpath)
        (λ u h. Yields-if _ _ _ _ (Yields-pure _ _ h) (try_ext4-Yields devpath))
