-- ===== src/Storage/Stat/RoundTrip.antt =====
-- What `BlockStatFromBytes` returns.
use systemboot.Base.{
  ℕ, ◌+◌, ◌<◌, ◌≤◌, ◌≡◌, refl, ◌∙◌, ap, List, [], ◌∷◌, ◌++◌, map, append-nil, append_assoc, All,
  length, ltb, arith, Bytes, Outcome, ok, err, panic, Error, ◌⊎◌, length-append, ◌>>=◌,
  too_few_fields, Bool-cases, false, inl, inr,
}
use systemboot.Text.Split.{join}
use systemboot.Text.Fields.{fields, IsWord}
use systemboot.Text.Fields.Join.{fields-join}
use systemboot.Text.Decimal.{parse_uint, format_uint}
use systemboot.Text.Decimal.Digits.{
  parse_uint-ne-panic, parse_uint-format_uint, parse_uint-lt, format_uint-IsWord,
}
use systemboot.Storage.Device.{BlockStat}
use systemboot.Storage.Stat.{u64_bound, parse_fields, stat_of, block_stat_from_bytes}

abbrev pub IsU64 : ℕ → Type 0
IsU64 n = n < u64_bound

-- The text of the numbers, as the kernel writes them.
abbrev pub print_fields : List ℕ → Bytes
print_fields vs = join (b' ' ∷ []) (map format_uint vs)

words-IsWord : (vs : List ℕ) → All IsWord (map format_uint vs)
words-IsWord [] = tt
words-IsWord (v ∷ vs) = (format_uint-IsWord v, words-IsWord vs)

length-words : (vs : List ℕ) → length (map format_uint vs) ≡ length vs
length-words [] = refl
length-words (v ∷ vs) = omega (arith, length-words vs)

parse_fields-words :
    (seen vs : List ℕ) → All IsU64 vs → parse_fields seen (map format_uint vs) ≡ ok (seen ++ vs)
unfolding parse_fields
parse_fields-words seen [] h = rw append-nil
parse_fields-words seen (v ∷ vs) h =
    rw (parse_uint-format_uint u64_bound v h.0)
      (parse_fields-words (seen ++ (v ∷ [])) vs h.1 ∙ ap ok (append_assoc seen (v ∷ []) vs))

block_stat_from_bytes-stat_of :
    (vs : List ℕ)
    → All IsU64 vs
    → 11 ≤ length vs
    → block_stat_from_bytes (print_fields vs) ≡ stat_of vs
unfolding block_stat_from_bytes
block_stat_from_bytes-stat_of vs h k =
    rw (fields-join (map format_uint vs) (words-IsWord vs), length-words vs)
      (let long : ltb (length vs) 11 ≡ false = ground arith in
        rw (long, parse_fields-words [] vs h))

-- Every field of the statistics is a `uint64`.
pub record StatIsU64 (bs : BlockStat) : Type 0 where
  pub read_ios : IsU64 bs.read_ios
  pub read_merges : IsU64 bs.read_merges
  pub read_sectors : IsU64 bs.read_sectors
  pub read_ticks : IsU64 bs.read_ticks
  pub write_ios : IsU64 bs.write_ios
  pub write_merges : IsU64 bs.write_merges
  pub write_sectors : IsU64 bs.write_sectors
  pub write_ticks : IsU64 bs.write_ticks
  pub in_flight : IsU64 bs.in_flight
  pub io_ticks : IsU64 bs.io_ticks
  pub time_in_queue : IsU64 bs.time_in_queue
  pub discard_ios : IsU64 bs.discard_ios
  pub discard_merges : IsU64 bs.discard_merges
  pub discard_sectors : IsU64 bs.discard_sectors
  pub discard_ticks : IsU64 bs.discard_ticks

-- The counters in the order in which the kernel writes them: the first eleven of every kernel, and
-- the discards of the newer ones.
abbrev pub first_counters : BlockStat → List ℕ
first_counters bs =
    bs.read_ios ∷ bs.read_merges ∷ bs.read_sectors ∷ bs.read_ticks ∷ bs.write_ios ∷ bs.write_merges
    ∷ bs.write_sectors ∷ bs.write_ticks ∷ bs.in_flight ∷ bs.io_ticks ∷ bs.time_in_queue ∷ []

abbrev pub discard_counters : BlockStat → List ℕ
discard_counters bs =
    bs.discard_ios ∷ bs.discard_merges ∷ bs.discard_sectors ∷ bs.discard_ticks ∷ []

abbrev pub without_discards : BlockStat → BlockStat
without_discards bs = record bs {
  discard_ios = 0;
  discard_merges = 0;
  discard_sectors = 0;
  discard_ticks = 0;
}

stat_of-eleven :
    (bs : BlockStat) (few : List ℕ)
    → length few < 4
    → stat_of (first_counters bs ++ few) ≡ ok (without_discards bs)
unfolding stat_of
stat_of-eleven bs [] h = refl
stat_of-eleven bs (a ∷ []) h = refl
stat_of-eleven bs (a ∷ b ∷ []) h = refl
stat_of-eleven bs (a ∷ b ∷ c ∷ []) h = refl
stat_of-eleven bs (a ∷ b ∷ c ∷ d ∷ few) h = absurd (omega arith)

stat_of-fifteen :
    (bs : BlockStat) (more : List ℕ)
    → stat_of (first_counters bs ++ (discard_counters bs ++ more)) ≡ ok bs
unfolding stat_of
stat_of-fifteen bs more = refl

-- Statistics of `uint64` counters, printed in decimal in the kernel's order with spaces between
-- them, are read back as they were: with the four discards, whatever numbers below 2 ^ 64 follow
-- them; and with fewer than four numbers behind the first eleven, with zeros for the discards.
pub block_stat_from_bytes-print :
    (bs : BlockStat) (more few : List ℕ)
    → StatIsU64 bs
    → All IsU64 more
    → All IsU64 few
    → length few < 4
    → (block_stat_from_bytes (print_fields (first_counters bs ++ (discard_counters bs ++ more)))
        ≡ ok bs)
      × (block_stat_from_bytes (print_fields (first_counters bs ++ few)) ≡ ok (without_discards bs))
block_stat_from_bytes-print bs more few u hm hf l = (
  block_stat_from_bytes-stat_of (first_counters bs ++ (discard_counters bs ++ more)) (ground arith)
        (omega arith)
      ∙ stat_of-fifteen bs more,
  block_stat_from_bytes-stat_of (first_counters bs ++ few) (ground arith) (omega arith)
      ∙ stat_of-eleven bs few l,
)

All-concat : (vs : List ℕ) (v : ℕ) → All IsU64 vs → IsU64 v → All IsU64 (vs ++ (v ∷ []))
All-concat [] v h k = (k, tt)
All-concat (x ∷ vs) v h k = (h.0, All-concat vs v h.1 k)

-- What the loop over the fields returns.
abbrev ReadAll : List ℕ → List Bytes → Outcome (List ℕ) → Type 0
ReadAll seen fs (ok vs) = All IsU64 vs × (length vs ≡ length seen + length fs)
ReadAll seen fs (err e) = Unit
ReadAll seen fs panic = ⊥

parse_uint-cases :
    (s : Bytes)
    → ((v : ℕ) × (parse_uint u64_bound s ≡ ok v) × IsU64 v)
      ⊎ ((e : Error) × (parse_uint u64_bound s ≡ err e))
parse_uint-cases s = go (parse_uint u64_bound s) refl
  where
    go :
        (r : Outcome ℕ)
        → parse_uint u64_bound s ≡ r
        → ((v : ℕ) × (parse_uint u64_bound s ≡ ok v) × IsU64 v)
          ⊎ ((e : Error) × (parse_uint u64_bound s ≡ err e))
    go (ok v) e = inl (v, e, parse_uint-lt u64_bound s (omega arith) e)
    go (err x) e = inr (x, e)
    go panic e = absurd (parse_uint-ne-panic u64_bound s e)

parse_fields-ReadAll :
    (seen : List ℕ) (fs : List Bytes) → All IsU64 seen → ReadAll seen fs (parse_fields seen fs)
unfolding parse_fields
parse_fields-ReadAll seen [] h = (h, omega arith)
parse_fields-ReadAll seen (f ∷ fs) h = elim (parse_uint-cases f) [
  | inr (e, p) ↦ rw p tt
  | inl (v, p, k) ↦ rw p (
      shift v (parse_fields (seen ++ (v ∷ [])) fs)
        (parse_fields-ReadAll (seen ++ (v ∷ [])) fs (All-concat seen v h k)))
]
  where
    shift :
        (v : ℕ) (r : Outcome (List ℕ)) → ReadAll (seen ++ (v ∷ [])) fs r → ReadAll seen (f ∷ fs) r
    shift v (ok vs) (a, b) = (a, omega (arith, b, length-append seen (v ∷ [])))
    shift v (err e) x = tt
    shift v panic x = x

-- What `BlockStatFromBytes` may return for a text of `n` fields.
abbrev pub StatOutcome : ℕ → Outcome BlockStat → Type 0
StatOutcome n (ok bs) = StatIsU64 bs × (11 ≤ n)
StatOutcome n (err e) = n < 11 → e ≡ too_few_fields n
StatOutcome n panic = ⊥

stat_of-StatOutcome :
    (n : ℕ) (vs : List ℕ) → All IsU64 vs → length vs ≡ n → 11 ≤ n → StatOutcome n (stat_of vs)
unfolding stat_of
stat_of-StatOutcome n (a ∷ b ∷ c ∷ d ∷ e ∷ f ∷ g ∷ h ∷ i ∷ j ∷ k ∷ w ∷ x ∷ y ∷ z ∷ rest) u l m =
    (omega arith, m)
stat_of-StatOutcome n (a ∷ b ∷ c ∷ d ∷ e ∷ f ∷ g ∷ h ∷ i ∷ j ∷ k ∷ rest) u l m = (omega arith, m)
stat_of-StatOutcome n _ u l m = absurd (omega arith)

bind-StatOutcome :
    (fs : List Bytes) (r : Outcome (List ℕ))
    → ReadAll [] fs r
    → 11 ≤ length fs
    → StatOutcome (length fs) (r >>= λ vs. stat_of vs)
bind-StatOutcome fs (ok vs) (u, l) m = stat_of-StatOutcome (length fs) vs u (omega arith) m
bind-StatOutcome fs (err e) u m = λ short. absurd (omega arith)
bind-StatOutcome fs panic u m = u

-- `BlockStatFromBytes` never panics. It reads a text of fewer than eleven fields as an error that
-- names their number; the statistics that it returns are of eleven fields or more, each a `uint64`.
pub block_stat_from_bytes-StatOutcome :
    (buf : Bytes) → StatOutcome (length (fields buf)) (block_stat_from_bytes buf)
unfolding block_stat_from_bytes
block_stat_from_bytes-StatOutcome buf = elim (Bool-cases (ltb (length (fields buf)) 11)) [
  | inl e ↦ rw e (λ _. refl)
  | inr e ↦ rw e (
      bind-StatOutcome (fields buf) (parse_fields [] (fields buf))
        (parse_fields-ReadAll [] (fields buf) tt) (ground arith))
]
