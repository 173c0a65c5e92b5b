-- ===== src/Text/Decimal/Digits.antt =====
-- Reading back what was printed.
use systemboot.Base.{
  ℕ, suc, zero, ◌+◌, ◌-◌, ◌*◌, ◌/◌, ◌%◌, ◌<◌, ◌≡◌, ◌≢◌, refl, ◌∙◌, ap, [], ◌∷◌, ltb, Bytes, ok,
  panic, panic, arith, Bool-cases, inl, inr, ltb→lt,
}
use systemboot.Text.Decimal.{parse_digits, parse_uint, digits_onto, format_uint}
use systemboot.Text.Fields.{is_space, NoSpace, IsWord}

-- A value that was read is below the bound.
parse_digits-lt :
    (whole : Bytes) (bound n : ℕ) (s : Bytes) (v : ℕ)
    → n < bound
    → parse_digits whole bound n s ≡ ok v
    → v < bound
unfolding parse_digits
parse_digits-lt whole bound n [] v h e = ground arith
parse_digits-lt whole bound n (c ∷ s) v h e =
    ground (arith, parse_digits-lt whole bound (n * 10 + (c - b'0')) s v)

pub parse_uint-lt :
    (bound : ℕ) (s : Bytes) {v : ℕ} → 0 < bound → parse_uint bound s ≡ ok v → v < bound
unfolding parse_uint
parse_uint-lt bound [] h e = cc
parse_uint-lt bound (c ∷ s) {v} h e = parse_digits-lt (c ∷ s) bound 0 (c ∷ s) v h e

-- A digit in front of what is left to read.
parse_digits-digit :
    (whole : Bytes) (bound n d : ℕ) (s : Bytes)
    → d < 10
    → n * 10 + d < bound
    → parse_digits whole bound n ((b'0' + d) ∷ s) ≡ parse_digits whole bound (n * 10 + d) s
unfolding parse_digits
parse_digits-digit whole bound n d s h k = ground arith

parse_digits-digits_onto :
    (whole : Bytes) (bound fuel n : ℕ) (rest : Bytes)
    → n < fuel
    → n < bound
    → parse_digits whole bound 0 (digits_onto fuel n rest) ≡ parse_digits whole bound n rest
unfolding digits_onto
parse_digits-digits_onto whole bound zero n rest h k = absurd (omega arith)
parse_digits-digits_onto whole bound (suc fuel) n rest h k = elim (Bool-cases (ltb n 10)) [
  | inl e ↦ rw e (
      parse_digits-digit whole bound 0 n rest (ltb→lt n 10 e) (omega arith)
      ∙ ap (λ t. parse_digits whole bound t rest) (omega arith))
  | inr e ↦ rw e (
      parse_digits-digits_onto whole bound fuel (n / 10) ((b'0' + n % 10) ∷ rest) (ground arith)
        (omega arith)
      ∙ parse_digits-digit whole bound (n / 10) (n % 10) rest (omega arith) (omega arith)
      ∙ ap (λ t. parse_digits whole bound t rest) (omega arith))
]

digits_onto-cons :
    (fuel n c : ℕ) (s : Bytes) → (d : ℕ) × (r : Bytes) × (digits_onto fuel n (c ∷ s) ≡ d ∷ r)
unfolding digits_onto
digits_onto-cons zero n c s = (c, s, refl)
digits_onto-cons (suc fuel) n c s = elim (Bool-cases (ltb n 10)) [
  | inl e ↦ rw e (b'0' + n, c ∷ s, refl)
  | inr e ↦ rw e (digits_onto-cons fuel (n / 10) (b'0' + n % 10) (c ∷ s))
]

pub format_uint-cons : (n : ℕ) → (d : ℕ) × (r : Bytes) × (format_uint n ≡ d ∷ r)
unfolding format_uint
format_uint-cons n = elim (Bool-cases (ltb n 10)) [
  | inl e ↦ rw e (b'0' + n, [], refl)
  | inr e ↦ rw e (digits_onto-cons n (n / 10) (b'0' + n % 10) [])
]

parse_uint-cons :
    (bound : ℕ) (t : Bytes)
    → (d : ℕ) × (r : Bytes) × (t ≡ d ∷ r)
    → parse_uint bound t ≡ parse_digits t bound 0 t
unfolding parse_uint
parse_uint-cons bound [] (d, r, e) = cc
parse_uint-cons bound (c ∷ t) x = refl

-- `ParseUint` reads back what `FormatUint` prints, below the bound.
pub parse_uint-format_uint : (bound n : ℕ) → n < bound → parse_uint bound (format_uint n) ≡ ok n
parse_uint-format_uint bound n h =
    parse_uint-cons bound (format_uint n) (format_uint-cons n)
    ∙ (unfold format_uint parse_digits in
        parse_digits-digits_onto (format_uint n) bound (suc n) n [] (omega arith) h)

-- The digits of a number are a word.
digits_onto-NoSpace : (fuel n : ℕ) (rest : Bytes) → NoSpace rest → NoSpace (digits_onto fuel n rest)
unfolding digits_onto is_space
digits_onto-NoSpace zero n rest h = h
digits_onto-NoSpace (suc fuel) n rest h = elim (Bool-cases (ltb n 10)) [
  | inl e ↦ rw e (ground arith, h)
  | inr e ↦ rw e (digits_onto-NoSpace fuel (n / 10) ((b'0' + n % 10) ∷ rest) (ground arith, h))
]

IsWord-of_NoSpace : (t : Bytes) → (d : ℕ) × (r : Bytes) × (t ≡ d ∷ r) → NoSpace t → IsWord t
IsWord-of_NoSpace [] (d, r, e) h = cc
IsWord-of_NoSpace (c ∷ t) x h = h

pub format_uint-IsWord : (n : ℕ) → IsWord (format_uint n)
format_uint-IsWord n =
    IsWord-of_NoSpace (format_uint n) (format_uint-cons n)
      (unfold format_uint in digits_onto-NoSpace (suc n) n [] tt)

parse_digits-ne-panic :
    (whole : Bytes) (bound n : ℕ) (s : Bytes) → parse_digits whole bound n s ≢ panic
unfolding parse_digits
parse_digits-ne-panic whole bound n [] e = cc
parse_digits-ne-panic whole bound n (c ∷ s) e =
    ground (arith, parse_digits-ne-panic whole bound (n * 10 + (c - b'0')) s)

pub parse_uint-ne-panic : (bound : ℕ) (s : Bytes) → parse_uint bound s ≢ panic
unfolding parse_uint
parse_uint-ne-panic bound [] e = cc
parse_uint-ne-panic bound (c ∷ s) e = parse_digits-ne-panic (c ∷ s) bound 0 (c ∷ s) e
