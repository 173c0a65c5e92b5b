-- ===== src/Vpd/All/Picked.antt =====
-- What the walk function of `GetAll` does, where each file reads the same throughout.
use systemboot.Base.{
  ◌≡◌, refl, ◌∙◌, ap, sym, List, [], ◌∷◌, Option, none, some, Bool, true, false, Bool-cases, ◌||◌,
  inl, inr, if◌then◌else◌, Bytes, bytes, equal, equal_iff, one_of, Error, external, Fault,
}
use systemboot.Text.FilePath.{path_base}
use systemboot.Platform.{Answer, done, failed}
use systemboot.Platform.Monad.{Answer-cases}
use systemboot.Walk.Order.{visit_all, visit_all-stopped}
use systemboot.Vpd.All.Map.{lookup, lookup-put, lookup-put_other}
use systemboot.Vpd.All.{put}
use systemboot.Vpd.All.Order.{keys, value, readable, first_error}

equal-sym : (a b : Bytes) → equal a b ≡ false → equal b a ≡ false
equal-sym a b e = elim (Bool-cases (equal b a)) [
  | inr q ↦ q
  | inl q ↦
      let same : equal a b ≡ true = (equal_iff a b).1 (sym ((equal_iff b a).0 q)) in
      let wrong : true ≡ false = sym same ∙ e in cc
]

module _ (reads : Bytes → Answer Bytes) where
  first_error-read :
      (key v : Bytes) (rest : List Bytes)
      → reads key ≡ done v
      → first_error reads (key ∷ rest) ≡ first_error reads rest
  unfolding first_error
  first_error-read key v rest a = rw (a, first_error) refl

  first_error-refused :
      (key : Bytes) (e : Fault) (rest : List Bytes)
      → reads key ≡ failed e
      → first_error reads (key ∷ rest) ≡ some (external e)
  unfolding first_error
  first_error-refused key e rest a = rw (a, first_error) refl

  readable-read :
      (key v : Bytes) (rest : List Bytes)
      → reads key ≡ done v
      → readable reads (key ∷ rest) ≡ key ∷ readable reads rest
  unfolding readable
  readable-read key v rest a = rw (a, readable) refl

  readable-refused :
      (key : Bytes) (e : Fault) (rest : List Bytes)
      → reads key ≡ failed e
      → readable reads (key ∷ rest) ≡ []
  unfolding readable
  readable-refused key e rest a = rw (a, readable) refl

  -- What the walk function does with the map.
  unfoldable pub pick : Bytes → List (Bytes × Bytes) → Bytes → List (Bytes × Bytes) × Option Error
  pick base m path =
      if equal (path_base path) (bytes ".") || equal (path_base path) (bytes "/") || equal path base
      then (m, none)
      else elim (reads (path_base path)) [
        | done v ↦ (put (path_base path) v m, none)
        | failed e ↦ (m, some (external e))
      ]

  module _ (base : Bytes) where
    abbrev pub skips : Bytes → Bool
    skips p = equal (path_base p) (bytes ".") || equal (path_base p) (bytes "/") || equal p base

    abbrev pub after : List Bytes → List (Bytes × Bytes) → List (Bytes × Bytes) × Option Error
    after ps m = visit_all (pick base) ps (m, none)

    -- A path with the map `m`: it is skipped, it is read, or it cannot be read.
    data Visited (m : List (Bytes × Bytes)) (p : Bytes) : Type 0 where
      skipped :
          pick base m p ≡ (m, none)
          → ((ps : List Bytes) → keys base (p ∷ ps) ≡ keys base ps)
          → Visited m p
      read :
          (v : Bytes)
          → reads (path_base p) ≡ done v
          → pick base m p ≡ (put (path_base p) v m, none)
          → ((ps : List Bytes) → keys base (p ∷ ps) ≡ path_base p ∷ keys base ps)
          → Visited m p
      refused :
          (e : Fault)
          → reads (path_base p) ≡ failed e
          → pick base m p ≡ (m, some (external e))
          → ((ps : List Bytes) → keys base (p ∷ ps) ≡ path_base p ∷ keys base ps)
          → Visited m p

    pick-Visited : (m : List (Bytes × Bytes)) (p : Bytes) → Visited m p
    unfolding pick
    pick-Visited m p = elim (Bool-cases (skips p)) [
      | inl b ↦ skipped (rw b refl) (λ ps. rw b refl)
      | inr b ↦ elim (Answer-cases (reads (path_base p))) [
        | inl (v, a) ↦ read v a (rw (b, a) refl) (λ ps. rw b refl)
        | inr (e, a) ↦ refused e a (rw (b, a) refl) (λ ps. rw b refl)
      ]
    ]

    after-pick :
        (ps : List Bytes) (m : List (Bytes × Bytes)) (p : Bytes)
        {r : List (Bytes × Bytes) × Option Error}
        → pick base m p ≡ r
        → after (p ∷ ps) m ≡ visit_all (pick base) ps r
    unfolding visit_all
    after-pick ps m p e = ap (visit_all (pick base) ps) e

    pub after-first_error :
        (ps : List Bytes) (m : List (Bytes × Bytes))
        → (after ps m).1 ≡ first_error reads (keys base ps)
    unfolding visit_all first_error
    after-first_error [] m = refl
    after-first_error (p ∷ ps) m = elim (pick-Visited m p) [
      | skipped q k ↦
          ap (λ r. r.1) (after-pick ps m p q)
          ∙ after-first_error ps m
          ∙ ap (first_error reads) (sym (k ps))
      | read v a q k ↦
          ap (λ r. r.1) (after-pick ps m p q)
          ∙ after-first_error ps (put (path_base p) v m)
          ∙ sym (first_error-read (path_base p) v (keys base ps) a)
          ∙ ap (first_error reads) (sym (k ps))
      | refused e a q k ↦
          ap (λ r. r.1) (after-pick ps m p q ∙ visit_all-stopped (pick base) ps m (external e))
          ∙ sym (first_error-refused (path_base p) e (keys base ps) a)
          ∙ ap (first_error reads) (sym (k ps))
    ]

    -- The value of a key: what it reads as, where it is among the keys, or else what it was.
    abbrev pub now : Bytes → List (Bytes × Bytes) → List Bytes → Option Bytes
    now key m ks = if one_of key ks then value (reads key) else lookup key m

    -- The same for one key more; `b` says whether it is that key.
    abbrev if_seen : Bytes → List (Bytes × Bytes) → List Bytes → Bool → Option Bytes
    if_seen key m ks b =
        if (elim b [ true ↦ true | false ↦ one_of key ks ]) then value (reads key) else lookup key m

    now-put :
        (key k v : Bytes) (m : List (Bytes × Bytes)) (ks : List Bytes)
        → reads k ≡ done v
        → now key (put k v m) ks ≡ now key m (k ∷ ks)
    now-put key k v m ks a = elim (Bool-cases (equal key k)) [
      | inr n ↦
          ap (λ o. if one_of key ks then value (reads key) else o)
            (lookup-put_other key k v m (equal-sym key k n))
          ∙ ap (if_seen key m ks) (sym n)
      | inl y ↦
          let same = (equal_iff key k).0 y in
          overwritten key v (lookup key (put k v m)) (ap reads same ∙ a)
            (ap (λ x. lookup key (put x v m)) (sym same) ∙ lookup-put key v m)
          ∙ ap (if_seen key m ks) (sym y)
    ]
      where
        overwritten :
            (key v : Bytes) (found : Option Bytes)
            → reads key ≡ done v
            → found ≡ some v
            → (if one_of key ks then value (reads key) else found) ≡ value (reads key)
        overwritten key v found a e = elim (Bool-cases (one_of key ks)) [
          | inl b ↦ rw b refl
          | inr b ↦ rw (b, a) e
        ]

    pub after-now :
        (key : Bytes) (ps : List Bytes) (m : List (Bytes × Bytes))
        → lookup key (after ps m).0 ≡ now key m (readable reads (keys base ps))
    unfolding visit_all readable
    after-now key [] m = refl
    after-now key (p ∷ ps) m = elim (pick-Visited m p) [
      | skipped q k ↦
          ap (λ r. lookup key r.0) (after-pick ps m p q)
          ∙ after-now key ps m
          ∙ ap (λ ks. now key m (readable reads ks)) (sym (k ps))
      | refused e a q k ↦
          ap (λ r. lookup key r.0)
            (after-pick ps m p q ∙ visit_all-stopped (pick base) ps m (external e))
          ∙ ap (now key m) (sym (readable-refused (path_base p) e (keys base ps) a))
          ∙ ap (λ ks. now key m (readable reads ks)) (sym (k ps))
      | read v a q k ↦
          ap (λ r. lookup key r.0) (after-pick ps m p q)
          ∙ after-now key ps (put (path_base p) v m)
          ∙ now-put key (path_base p) v m (readable reads (keys base ps)) a
          ∙ ap (now key m) (sym (readable-read (path_base p) v (keys base ps) a))
          ∙ ap (λ ks. now key m (readable reads ks)) (sym (k ps))
    ]
