-- ===== src/Booter/Select.antt =====
-- Which booter `GetBooterFor` selects.
use systemboot.Base.{
  ◌≡◌, sym, ◌∙◌, true, false, Bool-cases, none, some, ◌⊎◌, inl, inr, Bytes, bytes, equal, equal_iff,
  Error,
}
use systemboot.Platform.{Answer, done}
use systemboot.Platform.Monad.{Answer-cases}
use systemboot.Booter.{
  NetBooter, LocalBooter, Booter, net, local, null, Json, new_net_booter, new_local_booter,
}
use systemboot.Booter.Entries.{BootEntry, or_null, booter_loop, get_booter_for}

module _ (json : Json) (config : Bytes) where
  -- The text is JSON for this network booter, and says so in its type.
  unfoldable pub IsNet : NetBooter → Type 0
  IsNet nb = (json.decode_net config ≡ done nb) × (nb.type ≡ bytes "netboot")

  unfoldable pub IsLocal : LocalBooter → Type 0
  IsLocal lb = (json.decode_local config ≡ done lb) × (lb.type ≡ bytes "localboot")

  pub data Selected : Booter → Type 0 where
    netboot : (nb : NetBooter) → IsNet nb → Selected (net nb)
    localboot :
        (lb : LocalBooter) → IsLocal lb → ((nb : NetBooter) → ¬ IsNet nb) → Selected (local lb)
    nothing : ((lb : LocalBooter) → ¬ IsLocal lb) → ((nb : NetBooter) → ¬ IsNet nb) → Selected null

-- How a parser of `supportedBooterParsers` ends.
data Parsed {A : Type 0} (con : A → Booter) (Is : A → Type 0) : Booter ⊎ Error → Type 0 where
  parsed : (a : A) → Is a → Parsed con Is (inl (con a))
  refused : (e : Error) → ((a : A) → ¬ Is a) → Parsed con Is (inr e)

-- A text that decodes to `a`, whose type is another one, is not of the type that is wanted.
wrong_type-lem :
    {A : Type 0} (type_of : A → Bytes) (wanted : Bytes) {x : Answer A} (a : A)
    → x ≡ done a
    → equal (type_of a) wanted ≡ false
    → (b : A) → ¬ ((x ≡ done b) × (type_of b ≡ wanted))
wrong_type-lem {A = A} type_of wanted {x = x} a e f b (eb, tb) =
    let same : type_of a ≡ wanted = ap_type (sym e ∙ eb) ∙ tb in
    let wrong : true ≡ false = sym ((equal_iff (type_of a) wanted).1 same) ∙ f in cc
  where
    ap_type : {a b : A} → done a ≡ done b → type_of a ≡ type_of b
    ap_type h = cc

module _ (json : Json) (config : Bytes) where
  new_net_booter-Parsed : Parsed net (IsNet json config) (new_net_booter json config)
  unfolding new_net_booter IsNet
  new_net_booter-Parsed = elim (Answer-cases (json.decode_net config)) [
    | inl (nb, a) ↦ elim (Bool-cases (equal nb.type (bytes "netboot"))) [
      | inl e ↦ rw (a, e) (parsed nb (a, (equal_iff _ _).0 e))
      | inr e ↦ rw (a, e) (refused _ (wrong_type-lem (λ b. b.type) (bytes "netboot") nb a e))
    ]
    | inr (f, a) ↦ rw a (refused _ (λ nb h. cc))
  ]

  new_local_booter-Parsed : Parsed local (IsLocal json config) (new_local_booter json config)
  unfolding new_local_booter IsLocal
  new_local_booter-Parsed = elim (Answer-cases (json.decode_local config)) [
    | inl (lb, a) ↦ elim (Bool-cases (equal lb.type (bytes "localboot"))) [
      | inl e ↦ rw (a, e) (parsed lb (a, (equal_iff _ _).0 e))
      | inr e ↦ rw (a, e) (refused _ (wrong_type-lem (λ b. b.type) (bytes "localboot") lb a e))
    ]
    | inr (f, a) ↦ rw a (refused _ (λ lb h. cc))
  ]

  first_parser-Selected :
      (x y : Booter ⊎ Error)
      → Parsed net (IsNet json config) x
      → Parsed local (IsLocal json config) y
      → Selected json config
          (or_null (elim x [ inl b ↦ some b | inr e ↦ elim y [ inl b ↦ some b | inr f ↦ none ] ]))
  first_parser-Selected x y (parsed nb is) q = netboot nb is
  first_parser-Selected x y (refused e n) (parsed lb is) = localboot lb is n
  first_parser-Selected x y (refused e n) (refused f m) = nothing m n

-- `GetBooterFor` selects the network booter where the text of the entry decodes to one whose type
-- is `netboot`; else the local booter where it decodes to one whose type is `localboot`; and the
-- null booter only where neither does.
pub get_booter_for-Selected :
    (json : Json) (entry : BootEntry) → Selected json entry.config (get_booter_for json entry)
unfolding get_booter_for booter_loop
get_booter_for-Selected json entry =
    first_parser-Selected json entry.config _ _ (new_net_booter-Parsed json entry.config)
      (new_local_booter-Parsed json entry.config)
