-- ===== src/Checker/Mandatory.antt =====
-- The checks that must succeed for a list to pass.
use systemboot.Base.{
  ℕ, zero, suc, get_elem?, subst, ◌≡◌, refl, List, [], ◌∷◌, Option, none, some, true, false, Bool,
  Error, Outcome, ok, err, panic, if◌then◌else◌,
}
use systemboot.Platform.{Trace}
use systemboot.Platform.Monad.{M, raise, proceed, handle}
use systemboot.Checker.{Check, run_checks, after_failure}

-- The code has succeeded, after some calls.
abbrev pub Succeeded : M (Unit {0}) → Type 0
Succeeded m = (t : Trace) × ((m t).0 ≡ ok tt)

module _ (cs : List Check) where
  -- Where a list passes, so does what follows its first check.
  after-Succeeded :
      (stop : Bool) (remediate : Option (M (Unit {0}))) (e : Error) (t : Trace)
      → (after_failure stop remediate (run_checks cs) e t).0 ≡ ok tt
      → Succeeded (run_checks cs)
  unfolding handle raise
  after-Succeeded true none e t q = cc
  after-Succeeded false none e t q = (t, q)
  after-Succeeded stop (some r) e t q = remedied (r t).0 (r t).1 stop q
    where
      remedied :
          (o : Outcome (Unit {0})) (s : Trace) (b : Bool)
          → (proceed (λ _. run_checks cs) (λ f. if b then raise f else run_checks cs) o s).0 ≡ ok tt
          → Succeeded (run_checks cs)
      remedied (ok x) s b k = (s, k)
      remedied (err f) s true k = cc
      remedied (err f) s false k = (s, k)
      remedied panic s b k = cc

  proceed-Succeeded :
      (c : Check) (o : Outcome (Unit {0})) (t : Trace)
      → (proceed
          (λ _. run_checks cs)
          (λ e. after_failure c.stop_on_error c.remediate (run_checks cs) e)
          o
          t).0
        ≡ ok tt
      → Succeeded (run_checks cs)
  proceed-Succeeded c (ok x) t q = (t, q)
  proceed-Succeeded c (err e) t q = after-Succeeded c.stop_on_error c.remediate e t q
  proceed-Succeeded c panic t q = cc

  pub rest-Succeeded : (c : Check) → Succeeded (run_checks (c ∷ cs)) → Succeeded (run_checks cs)
  unfolding run_checks handle
  rest-Succeeded c (h, q) = proceed-Succeeded c (c.run h).0 (c.run h).1 q

  -- A check that stops the list and has no remediation succeeds itself.
  mandatory-ok :
      (o : Outcome (Unit {0})) (t : Trace)
      → (proceed (λ _. run_checks cs) (λ e. after_failure true none (run_checks cs) e) o t).0
        ≡ ok tt
      → o ≡ ok tt
  unfolding raise
  mandatory-ok (ok tt) t q = refl
  mandatory-ok (err e) t q = cc
  mandatory-ok panic t q = cc

  pub first-Succeeded :
      (c : Check)
      → c.stop_on_error ≡ true
      → c.remediate ≡ none
      → Succeeded (run_checks (c ∷ cs))
      → Succeeded c.run
  unfolding run_checks handle
  first-Succeeded c s r (h, q) =
      (h, mandatory-ok (c.run h).0 (c.run h).1 (rewritten c.stop_on_error c.remediate s r q))
    where
      rewritten :
          (b : Bool) (o : Option (M (Unit {0})))
          → b ≡ true
          → o ≡ none
          → (proceed
              (λ _. run_checks cs)
              (λ e. after_failure b o (run_checks cs) e)
              (c.run h).0
              (c.run h).1).0
            ≡ ok tt
          → (proceed
              (λ _. run_checks cs)
              (λ e. after_failure true none (run_checks cs) e)
              (c.run h).0
              (c.run h).1).0
            ≡ ok tt
      rewritten true none s r q = q
      rewritten false o s r q = cc
      rewritten true (some m) s r q = cc

-- Where a list of checks passes, each check of it that stops the list and has no remediation has
-- succeeded.
pub mandatory-Succeeded :
    (cs : List Check) (i : ℕ) (c : Check)
    → get_elem? cs i ≡ some c
    → c.stop_on_error ≡ true
    → c.remediate ≡ none
    → Succeeded (run_checks cs)
    → Succeeded c.run
mandatory-Succeeded [] i c e s r p = cc
mandatory-Succeeded (d ∷ cs) zero c e s r p =
    first-Succeeded cs c s r (subst (λ x. Succeeded (run_checks (x ∷ cs))) (some-injective e) p)
  where
    some-injective : {x y : Check} → some x ≡ some y → x ≡ y
    some-injective e = cc
mandatory-Succeeded (d ∷ cs) (suc i) c e s r p =
    mandatory-Succeeded cs i c e s r (rest-Succeeded cs d p)
