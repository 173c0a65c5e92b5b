-- ===== src/Vpd/All/Map.antt =====
-- The map of `GetAll`: what an assignment to a key does to its lookups.
use systemboot.Base.{
  ◌≡◌, ◌∙◌, ap, List, [], ◌∷◌, Option, none, some, false, Bool-cases, inl, inr, if◌then◌else◌,
  Bytes, equal, equal_iff, equal_refl,
}
use systemboot.Vpd.All.{put}

-- `vpdMap[key]`, where it is there.
unfoldable pub lookup : Bytes → List (Bytes × Bytes) → Option Bytes
lookup key [] = none
lookup key ((k, v) ∷ rest) = let found = lookup key rest in if equal k key then some v else found

pub lookup-put : (key v : Bytes) (m : List (Bytes × Bytes)) → lookup key (put key v m) ≡ some v
unfolding lookup put
lookup-put key v [] = rw (equal_refl key)
lookup-put key v ((k, w) ∷ rest) = elim (Bool-cases (equal k key)) [
  | inl e ↦ rw (e, equal_refl key)
  | inr e ↦ rw (e, e) (lookup-put key v rest)
]

pub lookup-put_other :
    (key k v : Bytes) (m : List (Bytes × Bytes))
    → equal k key ≡ false
    → lookup key (put k v m) ≡ lookup key m
unfolding lookup put
lookup-put_other key k v [] n = rw n
lookup-put_other key k v ((x, w) ∷ rest) n = elim (Bool-cases (equal x k)) [
  | inl e ↦
      let same : equal x key ≡ false = ap (λ y. equal y key) ((equal_iff x k).0 e) ∙ n in
      rw (e, n, same)
  | inr e ↦ rw (e, lookup-put_other key k v rest n)
]
