-- ===== src/Rng.antt =====
-- pkg/rng/entropy.go: the choice of the hardware random number generator, and the feeding of the
-- kernel's entropy pool.
pub mod Selected
pub mod Feed
mod Tests
use systemboot.Base.{
  ℕ, zero, suc, List, [], ◌∷◌, Bool, not, leb, ◌^◌, if◌then◌else◌, Bytes, bytes, equal, one_of,
  is_empty, Error, parse_uint_range, parse_uint_syntax, message, Outcome, ok, err, panic, ◌++◌,
}
use systemboot.Text.Split.{split_on, trim_suffix}
use systemboot.Text.Decimal.{parse_uint}
use systemboot.Platform.{
  Platform, read_file, write_file, open_file, read_device, write_handle, sleep,
}
use systemboot.Platform.Monad.{
  M, pure, raise, handle, lift, ◌>>=◌, ◌>>◌, call, call_number, call_text, note,
}
use systemboot.Recovery.{Recoverer}

abbrev pub hw_random_current_file : Bytes
hw_random_current_file = bytes "/sys/class/misc/hw_random/rng_current"

abbrev pub hw_random_available_file : Bytes
hw_random_available_file = bytes "/sys/class/misc/hw_random/rng_available"

abbrev pub random_entropy_available_file : Bytes
random_entropy_available_file = bytes "/proc/sys/kernel/random/entropy_avail"

-- `EntropyFeedTime`, in seconds.
abbrev pub entropy_feed_time : ℕ
entropy_feed_time = 2

abbrev pub entropy_block_size : ℕ
entropy_block_size = 128

abbrev pub entropy_threshold : ℕ
entropy_threshold = 3000

abbrev pub random_device : Bytes
random_device = bytes "/dev/random"

abbrev pub hw_random_device : Bytes
hw_random_device = bytes "/dev/hwrng"

abbrev pub trng_list : List Bytes
trng_list = bytes "tpm-rng" ∷ bytes "intel-rng" ∷ bytes "amd-rng" ∷ bytes "timeriomem-rng" ∷ []

-- The loops over the known and the available generators.
unfoldable pub select_trng : List Bytes → Bytes → List Bytes → Bytes
select_trng available_rngs selected_rng [] = selected_rng
select_trng available_rngs selected_rng (trng ∷ trngs) =
    select_trng available_rngs (if one_of trng available_rngs then trng else selected_rng) trngs

-- The value of `ParseUint(s, 10, 32)` beside its error.
abbrev pub value_of : Outcome ℕ → ℕ
value_of (ok n) = n
value_of (err (parse_uint_range s)) = 4294967295
value_of (err e) = 0
value_of panic = 0

module _ (os : Platform) where
  unfoldable pub set_available_trng : M (Unit {0})
  unfolding select_trng split_on
  set_available_trng = call_text os (read_file hw_random_available_file) >>= λ text.
      let selected = select_trng (split_on b' ' text) [] trng_list in
      if is_empty selected
      then raise (message (bytes "No TRNG found on platform"))
      else (call os (write_file hw_random_current_file selected)
          >> (call_text os (read_file hw_random_current_file) >>= λ current.
              if not (equal current selected)
              then raise (message (bytes "Couldn't select TRNG: " ++ current))
              else pure tt))

  module _ (recoverer : Recoverer) where
    -- A recovery, whose result is not looked at.
    abbrev pub recovering : Bytes → M (Unit {0})
    recovering text = handle (recoverer.recover text) pure (λ _. pure tt)

    -- The value, or what is used in its place behind a recovery.
    abbrev pub or_recover {ℓ} : {A : Type ℓ} → Bytes → A → M A → M A
    or_recover text a m = handle m pure (λ _. recovering text >> pure a)

    abbrev pub parsed : Outcome ℕ → M ℕ
    parsed r = or_recover (bytes "Can't parse entropy pool size") (value_of r) (lift r)

    -- From the hardware random device to the random device.
    unfoldable pub feed_block : ℕ → ℕ → M (Unit {0})
    feed_block hw_rng rng =
        or_recover (bytes "Can't open the hardware random device") []
          (call_text os (read_device hw_rng entropy_block_size))
        >>= λ random.
            or_recover (bytes "Can't open the random device") tt (call os (write_handle rng random))

    -- One round of the endless loop.
    unfoldable pub feed_round : ℕ → ℕ → M (Unit {0})
    unfolding feed_block trim_suffix parse_uint
    feed_round hw_rng rng =
        note (sleep entropy_feed_time)
        >> (or_recover (bytes "Can't read entropy pool size") []
              (call_text os (read_file random_entropy_available_file))
            >>= λ text. parsed (parse_uint (2 ^ 32) (trim_suffix b'\n' text)) >>= λ available.
                if leb entropy_threshold available then pure tt else feed_block hw_rng rng)

    -- The first `n` rounds.
    unfoldable pub feed_rounds : ℕ → ℕ → ℕ → M (Unit {0})
    feed_rounds zero hw_rng rng = pure tt
    feed_rounds (suc n) hw_rng rng = feed_round hw_rng rng >> feed_rounds n hw_rng rng

    -- `UpdateLinuxRandomness`, with the first `n` rounds of the goroutine that it starts.
    unfoldable pub update_linux_randomness : ℕ → M (Unit {0})
    unfolding set_available_trng feed_rounds
    update_linux_randomness n =
        set_available_trng
        >> (call_number os (open_file hw_random_device) >>= λ hw_rng.
            call_number os (open_file random_device) >>= λ rng. feed_rounds n hw_rng rng)
