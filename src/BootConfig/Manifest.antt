-- ===== src/BootConfig/Manifest.antt =====
-- pkg/bootconfig/manifest.go
use systemboot.Base.{
  ℕ, zero, suc, ◌≤◌, ◌<◌, ◌≡◌, refl, none, some, inl, inr, List, [], ◌∷◌, ltb, length, get_elem?,
  if◌then◌else◌, Outcome, ok, err, panic, invalid_index, Bool-cases, arith,
}
use systemboot.Base.Int.{ℤ, pos, negsuc}
use systemboot.BootConfig.{BootConfig}

abbrev pub current_manifest_version : ℤ
current_manifest_version = pos 1

pub record Manifest : Type 0 where
  pub version : ℤ
  pub configs : List BootConfig

abbrev pub new_manifest : Manifest
new_manifest = record { version = current_manifest_version; configs = [] }

-- Go's element of a slice: out of range it panics.
unfoldable pub element {ℓ} : {A : Type ℓ} → List A → ℕ → Outcome A
element xs i = elim (get_elem? xs i) [ none ↦ panic | some x ↦ ok x ]

unfoldable pub get_boot_config : Manifest → ℤ → Outcome BootConfig
get_boot_config mc (negsuc n) = err invalid_index
get_boot_config mc (pos i) =
    if ltb i (length mc.configs) then element mc.configs i else err invalid_index

-- What `GetBootConfig` returns for an index: the configuration that stands there, or the error
-- where none does.
pub data Indexed (mc : Manifest) : ℤ → Outcome BootConfig → Type 0 where
  inside :
      (i : ℕ) (config : BootConfig)
      → i < length mc.configs
      → get_elem? mc.configs i ≡ some config
      → Indexed mc (pos i) (ok config)
  above : (i : ℕ) → length mc.configs ≤ i → Indexed mc (pos i) (err invalid_index)
  below : (n : ℕ) → Indexed mc (negsuc n) (err invalid_index)

get_elem?-inside {ℓ} :
    {A : Type ℓ} (xs : List A) (i : ℕ) → i < length xs → (x : A) × (get_elem? xs i ≡ some x)
get_elem?-inside [] i lt = absurd (omega arith)
get_elem?-inside (x ∷ xs) zero lt = (x, refl)
get_elem?-inside (x ∷ xs) (suc i) lt = get_elem?-inside xs i (omega arith)

element-eq-ok {ℓ} :
    {A : Type ℓ} (xs : List A) (i : ℕ) {x : A} → get_elem? xs i ≡ some x → element xs i ≡ ok x
unfolding element
element-eq-ok xs i e = rw (element, e) refl

-- `GetBootConfig` returns the configuration at an index that is in range, and the error
-- `invalid_index` at every other index, negative ones included; it never panics.
pub get_boot_config-Indexed : (mc : Manifest) (idx : ℤ) → Indexed mc idx (get_boot_config mc idx)
unfolding get_boot_config
get_boot_config-Indexed mc (negsuc n) = below n
get_boot_config-Indexed mc (pos i) = elim (Bool-cases (ltb i (length mc.configs))) [
  | inl e ↦
      let lt : i < length mc.configs = ground (arith, e) in
      let (x, g) = get_elem?-inside mc.configs i lt in
      rw (e, element-eq-ok mc.configs i g) (inside i x lt g)
  | inr e ↦ rw e (above i (ground (arith, e)))
]
