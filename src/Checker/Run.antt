-- ===== src/Checker/Run.antt =====
-- What `Run` does with the checks of a list.
use systemboot.Base.{
  ◌≡◌, refl, List, [], ◌∷◌, ◌++◌, none, some, Option-cases, inl, inr, true, false, Bool-cases,
  Error, Outcome, ok, err, panic,
}
use systemboot.Platform.{Trace}
use systemboot.Platform.Monad.{M, pure, raise, handle}
use systemboot.Checker.{Check, run_checks}

-- From the calls `h` to the calls `t`, the check succeeded, or it was remediated, or its failure
-- does not count.
pub data Passes (c : Check) (h : Trace) : Trace → Type 0 where
  succeeded : {t : Trace} → c.run h ≡ (ok tt, t) → Passes c h t
  remediated :
      {e : Error} {s t : Trace} (r : M (Unit {0}))
      → c.run h ≡ (err e, s)
      → c.remediate ≡ some r
      → r s ≡ (ok tt, t)
      → Passes c h t
  not_remediated :
      {e f : Error} {s t : Trace} (r : M (Unit {0}))
      → c.stop_on_error ≡ false
      → c.run h ≡ (err e, s)
      → c.remediate ≡ some r
      → r s ≡ (err f, t)
      → Passes c h t
  skipped :
      {e : Error} {t : Trace}
      → c.stop_on_error ≡ false
      → c.run h ≡ (err e, t)
      → c.remediate ≡ none
      → Passes c h t

-- The check stops the list with an error: that of its remediation, or its own where it has none.
pub data Stops (c : Check) (h : Trace) : Error → Trace → Type 0 where
  remediation_failed :
      {e f : Error} {s t : Trace} (r : M (Unit {0}))
      → c.stop_on_error ≡ true
      → c.run h ≡ (err e, s)
      → c.remediate ≡ some r
      → r s ≡ (err f, t)
      → Stops c h f t
  no_remediation :
      {e : Error} {t : Trace}
      → c.stop_on_error ≡ true
      → c.run h ≡ (err e, t)
      → c.remediate ≡ none
      → Stops c h e t

-- The check or its remediation panicked.
pub data Panics (c : Check) (h : Trace) : Trace → Type 0 where
  check_panicked : {t : Trace} → c.run h ≡ (panic, t) → Panics c h t
  remediation_panicked :
      {e : Error} {s t : Trace} (r : M (Unit {0}))
      → c.run h ≡ (err e, s)
      → c.remediate ≡ some r
      → r s ≡ (panic, t)
      → Panics c h t

-- All the checks pass, one behind the other.
pub data Passed : Trace → List Check → Trace → Type 0 where
  no_check : {h : Trace} → Passed h [] h
  and_then :
      {c : Check} {cs : List Check} {h t u : Trace}
      → Passes c h t
      → Passed t cs u
      → Passed h (c ∷ cs) u

pub data Ending (h : Trace) : List Check → Outcome (Unit {0}) × Trace → Type 0 where
  finished : {cs : List Check} {t : Trace} → Passed h cs t → Ending h cs (ok tt, t)
  stopped :
      {before : List Check} {c : Check} {t u : Trace} {e : Error} (after : List Check)
      → Passed h before t
      → Stops c t e u
      → Ending h (before ++ (c ∷ after)) (err e, u)
  panicked :
      {before : List Check} {c : Check} {t u : Trace} (after : List Check)
      → Passed h before t
      → Panics c t u
      → Ending h (before ++ (c ∷ after)) (panic, u)

module _ (c : Check) (cs : List Check) (h t : Trace) where
  run_checks-Passes : Passes c h t → run_checks (c ∷ cs) h ≡ run_checks cs t
  unfolding run_checks handle
  run_checks-Passes (succeeded a) = rw a refl
  run_checks-Passes (remediated r a m b) = rw (a, m, b) refl
  run_checks-Passes (not_remediated r n a m b) = rw (a, m, b, n) refl
  run_checks-Passes (skipped n a m) = rw (a, m, n) refl

  run_checks-Stops : {e : Error} → Stops c h e t → run_checks (c ∷ cs) h ≡ (err e, t)
  unfolding run_checks handle raise
  run_checks-Stops (remediation_failed r n a m b) = rw (a, m, b, n) refl
  run_checks-Stops (no_remediation n a m) = rw (a, m, n) refl

  run_checks-Panics : Panics c h t → run_checks (c ∷ cs) h ≡ (panic, t)
  unfolding run_checks handle
  run_checks-Panics (check_panicked a) = rw a refl
  run_checks-Panics (remediation_panicked r a m b) = rw (a, m, b) refl

-- What a check does.
data Verdict (c : Check) (h : Trace) : Type 0 where
  passes : (t : Trace) → Passes c h t → Verdict c h
  stops : (e : Error) (t : Trace) → Stops c h e t → Verdict c h
  panics : (t : Trace) → Panics c h t → Verdict c h

module _ (c : Check) (h : Trace) where
  after_remediation :
      (e : Error) (s : Trace) (r : M (Unit {0})) (x : Outcome (Unit {0}) × Trace)
      → c.run h ≡ (err e, s)
      → c.remediate ≡ some r
      → r s ≡ x
      → Verdict c h
  after_remediation e s r (ok tt, t) a m b = passes t (remediated r a m b)
  after_remediation e s r (err f, t) a m b = elim (Bool-cases c.stop_on_error) [
    | inl n ↦ stops f t (remediation_failed r n a m b)
    | inr n ↦ passes t (not_remediated r n a m b)
  ]
  after_remediation e s r (panic, t) a m b = panics t (remediation_panicked r a m b)

  after_run : (x : Outcome (Unit {0}) × Trace) → c.run h ≡ x → Verdict c h
  after_run (ok tt, t) a = passes t (succeeded a)
  after_run (err e, t) a = elim (Option-cases c.remediate) [
    | inl m ↦ elim (Bool-cases c.stop_on_error) [
      | inl n ↦ stops e t (no_remediation n a m)
      | inr n ↦ passes t (skipped n a m)
    ]
    | inr (r, m) ↦ after_remediation e t r (r t) a m refl
  ]
  after_run (panic, t) a = panics t (check_panicked a)

Ending-and_then :
    {h t : Trace} {c : Check} {cs : List Check} {x : Outcome (Unit {0}) × Trace}
    → Passes c h t
    → Ending t cs x
    → Ending h (c ∷ cs) x
Ending-and_then p (finished q) = finished (and_then p q)
Ending-and_then p (stopped after q s) = stopped after (and_then p q) s
Ending-and_then p (panicked after q s) = panicked after (and_then p q) s

-- `Run` runs the checks in the order of the list. It returns no error where each of them passes:
-- succeeds, or is remediated, or fails with no `StopOnError`. Else it stops at the first check that
-- does not pass, runs none of those behind it, and returns the error of that check's remediation,
-- or of the check itself where it has none; it panics only where a check or a remediation does.
pub run_checks-Ending :
    (checklist : List Check) (h : Trace) → Ending h checklist (run_checks checklist h)
run_checks-Ending [] h = unfold run_checks pure in finished no_check
run_checks-Ending (c ∷ cs) h = elim (after_run c h (c.run h) refl) [
  | passes t p ↦ rw (run_checks-Passes c cs h t p) (Ending-and_then p (run_checks-Ending cs t))
  | stops e t s ↦ rw (run_checks-Stops c cs h t s) (stopped cs no_check s)
  | panics t p ↦ rw (run_checks-Panics c cs h t p) (panicked cs no_check p)
]
