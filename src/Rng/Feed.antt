-- ===== src/Rng/Feed.antt =====
-- The feeding of the entropy pool.
use systemboot.Base.{
  ◌≢◌, if◌then◌else◌, ℕ, zero, suc, ◌^◌, refl, Bool, true, false, Bytes, Outcome, ok, err, panic,
}
use systemboot.Text.Split.{trim_suffix}
use systemboot.Text.Decimal.Digits.{parse_uint-ne-panic}
use systemboot.Platform.{Platform}
use systemboot.Platform.Monad.{M, lift}
use systemboot.Platform.Rules.{
  Returns, NoPanic, Returns-handle, Returns-bind, Returns-pure, Returns-note, IsNoPanic,
  returns_rules,
}
use systemboot.Recovery.{Recoverer}
use systemboot.Rng.{recovering, or_recover, feed_block, feed_round, feed_rounds}

module _ (os : Platform) (recoverer : Recoverer)
    (recovers : (text : Bytes) → NoPanic (recoverer.recover text)) where
  recovering-Returns : (text : Bytes) → Returns (recovering os recoverer text)
  recovering-Returns text = search (returns_rules, recovers)

  or_recover-Returns {ℓ} :
      {A : Type ℓ} (text : Bytes) (a : A) (m : M A)
      → NoPanic m
      → Returns (or_recover os recoverer text a m)
  or_recover-Returns text a m n =
      Returns-handle _ _ _ n Returns-pure
        (λ _. Returns-bind _ _ (recovering-Returns text) (λ _. Returns-pure a))

  outcome-IsNoPanic : (r : Outcome ℕ) → r ≢ panic → IsNoPanic r
  outcome-IsNoPanic (ok n) d = tt
  outcome-IsNoPanic (err e) d = tt
  outcome-IsNoPanic panic d = d refl

  NoPanic-lift : (r : Outcome ℕ) → r ≢ panic → NoPanic (lift r)
  unfolding lift
  NoPanic-lift r d = record { at = λ h. outcome-IsNoPanic r d }

  feed_block-Returns : (hw_rng rng : ℕ) → Returns (feed_block os recoverer hw_rng rng)
  unfolding feed_block
  feed_block-Returns hw_rng rng =
      Returns-bind _ _ (or_recover-Returns _ _ _ (search returns_rules))
        (λ random. or_recover-Returns _ _ _ (search returns_rules))

  Returns-if {ℓ} :
      {A : Type ℓ} (b : Bool) (m n : M A) → Returns m → Returns n → Returns (if b then m else n)
  Returns-if true m n hm hn = hm
  Returns-if false m n hm hn = hn

  feed_round-Returns : (hw_rng rng : ℕ) → Returns (feed_round os recoverer hw_rng rng)
  unfolding feed_round
  feed_round-Returns hw_rng rng = Returns-bind _ _ (Returns-note _) (λ _.
      Returns-bind _ _ (or_recover-Returns _ _ _ (search returns_rules)) (λ text.
        Returns-bind _ _
          (or_recover-Returns _ _ _
            (NoPanic-lift _ (parse_uint-ne-panic (2 ^ 32) (trim_suffix b'\n' text))))
          (λ available. Returns-if _ _ _ (Returns-pure tt) (feed_block-Returns hw_rng rng))))

  rounds-Returns : (n hw_rng rng : ℕ) → Returns (feed_rounds os recoverer n hw_rng rng)
  unfolding feed_rounds
  rounds-Returns zero hw_rng rng = Returns-pure tt
  rounds-Returns (suc n) hw_rng rng =
      Returns-bind _ _ (feed_round-Returns hw_rng rng) (λ _. rounds-Returns n hw_rng rng)

-- Feeding never ends: whatever the files and the devices answer, each round of the loop is followed
-- by the next, where the recoverer itself does not panic.
pub feed_rounds-Returns :
    (os : Platform) (recoverer : Recoverer) (n hw_rng rng : ℕ)
    → ((text : Bytes) → NoPanic (recoverer.recover text))
    → Returns (feed_rounds os recoverer n hw_rng rng)
feed_rounds-Returns os recoverer n hw_rng rng recovers =
    rounds-Returns os recoverer recovers n hw_rng rng
