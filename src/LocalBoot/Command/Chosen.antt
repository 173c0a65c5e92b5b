-- ===== src/LocalBoot/Command/Chosen.antt =====
-- Which configurations the GRUB mode starts.
use systemboot.Base.{
  ℕ, zero, suc, ◌+◌, ◌≡◌, ◌≢◌, refl, true, ◌∙◌, ◌<◌, List, [], ◌∷◌, Option, none, some, false, ◌==◌,
  Bytes, ok, err, panic, Outcome, arith, get_elem?,
}
use systemboot.Base.Int.{ℤ, pos, negsuc}
use systemboot.Platform.{Platform, Trace}
use systemboot.Platform.Monad.{M, pure, handle, proceed, ◌>>◌, ◌>>=◌}
use systemboot.Platform.Rules.{IsErr}
use systemboot.BootConfig.{BootConfig}
use systemboot.BootConfig.Boot.{boot}
use systemboot.BootConfig.Boot.Ends.{boot-IsErr}
use systemboot.LocalBoot.Command.{or_log, boot_index, boot_every, choose}

-- The calls that start one configuration, if there is one.
abbrev pub start_one : Platform → Option BootConfig → Trace → Trace
start_one os none h = h
start_one os (some cfg) h = (boot os cfg h).1

-- The calls that start one configuration behind the other.
abbrev pub start_all : Platform → List BootConfig → Trace → Trace
start_all os [] h = h
start_all os (cfg ∷ cs) h = start_all os cs (boot os cfg h).1

-- What `-config` asks for: a negative number stands for all.
abbrev pub started : Platform → ℤ → List BootConfig → Trace → Trace
started os (pos idx) cs h = start_one os (get_elem? cs idx) h
started os (negsuc n) cs h = start_all os cs h

module _ (os : Platform) (normalize : Bytes → Bytes) where
  -- `boot` returns an error in any case, which is only logged.
  or_log-eq :
      (r : Outcome (Unit {0})) (t : Trace) → IsErr r → proceed pure (λ _. pure tt) r t ≡ (ok tt, t)
  unfolding pure
  or_log-eq (ok a) t f = absurd f
  or_log-eq (err e) t f = refl
  or_log-eq panic t f = absurd f

  or_log-boot : (cfg : BootConfig) (h : Trace) → or_log (boot os cfg) h ≡ (ok tt, (boot os cfg h).1)
  unfolding handle
  or_log-boot cfg h = or_log-eq (boot os cfg h).0 (boot os cfg h).1 (boot-IsErr os cfg h)

  bind_logged :
      (cfg : BootConfig) (k : M (Unit {0})) (h : Trace)
      → (or_log (boot os cfg) >> k) h ≡ k (boot os cfg h).1
  unfolding ◌>>=◌ handle
  bind_logged cfg k h = rw (or_log-boot cfg h) refl

  boot_every-start_all :
      (cs : List BootConfig) (h : Trace) → boot_every os normalize cs h ≡ (ok tt, start_all os cs h)
  unfolding boot_every
  boot_every-start_all [] h = unfold pure in refl
  boot_every-start_all (cfg ∷ cs) h =
      bind_logged cfg _ h ∙ boot_every-start_all cs (boot os cfg h).1

  differ : (a b : ℕ) → a ≢ b → (a == b) ≡ false
  differ a b d = ground arith

  agree : (a b : ℕ) → a ≡ b → (a == b) ≡ true
  agree a b e = ground arith

  -- The loop has passed the index.
  boot_index-passed :
      (idx n : ℕ) (cs : List BootConfig) (h : Trace)
      → idx < n
      → boot_index os normalize false idx n cs h ≡ (ok tt, h)
  unfolding boot_index
  boot_index-passed idx n [] h p = unfold pure in refl
  boot_index-passed idx n (cfg ∷ cs) h p =
      rw (differ idx n (omega arith)) (boot_index-passed idx (n + 1) cs h (omega arith))

  boot_index-start_one :
      (j idx n : ℕ) (cs : List BootConfig) (h : Trace)
      → idx ≡ j + n
      → boot_index os normalize false idx n cs h ≡ (ok tt, start_one os (get_elem? cs j) h)
  unfolding boot_index
  boot_index-start_one j idx n [] h e = unfold pure in refl
  boot_index-start_one zero idx n (cfg ∷ cs) h e =
      rw (agree idx n (omega arith))
        (bind_logged cfg _ h ∙ boot_index-passed idx (n + 1) cs _ (omega arith))
  boot_index-start_one (suc j) idx n (cfg ∷ cs) h e =
      rw (differ idx n (omega arith)) (boot_index-start_one j idx (n + 1) cs h (omega arith))

  -- What the GRUB mode does with the configurations that it has found, without `-dryrun`. With an
  -- index it starts the configuration at that index and no other, and none where the index is out of
  -- range; with a negative one it starts each, in their order. A configuration that does not start
  -- is passed over, and in the end there is no error.
  pub choose-started :
      (idx : ℤ) (cfg : BootConfig) (cs : List BootConfig) (h : Trace)
      → choose os normalize false idx (cfg ∷ cs) h ≡ (ok tt, started os idx (cfg ∷ cs) h)
  choose-started (pos idx) cfg cs h = boot_index-start_one idx idx 0 (cfg ∷ cs) h (omega arith)
  choose-started (negsuc n) cfg cs h = boot_every-start_all (cfg ∷ cs) h
