-- ===== src/Platform/Monad.antt =====
-- Code that makes calls: it takes the calls so far, and returns its outcome and the calls behind it.
use systemboot.Base.{
  ℕ, List, ◌∷◌, ◌≡◌, ◌⊎◌, inl, inr, Fault, refl, Bytes, Error, external, Outcome, ok, err, panic,
}
use systemboot.Platform.{Platform, Event, Trace, Answer, done, failed}

abbrev pub M {ℓ} : Type ℓ → Type ℓ
M A = Trace → Outcome A × Trace

module _ {ℓ} {A : Type ℓ} where
  -- `return a, nil`
  unfoldable pub pure : A → M A
  pure a h = (ok a, h)

  -- `return err`
  unfoldable pub raise : Error → M A
  raise e h = (err e, h)

  -- A run-time panic.
  unfoldable pub crash : M A
  crash h = (panic, h)

  -- A pure computation.
  unfoldable pub lift : Outcome A → M A
  lift r h = (r, h)

  abbrev pub from_answer : Answer A → Outcome A
  from_answer (done a) = ok a
  from_answer (failed f) = err (external f)

module _ {ℓ κ} {A : Type ℓ} {B : Type κ} where
  -- What follows a call: `on_ok` where it returned, `on_err` where it returned an error.
  abbrev pub proceed : (A → M B) → (Error → M B) → Outcome A → M B
  proceed on_ok on_err (ok a) h = on_ok a h
  proceed on_ok on_err (err e) h = on_err e h
  proceed on_ok on_err panic h = (panic, h)

  -- `if a, err := m; err == nil { on_ok } else { on_err }`
  unfoldable pub handle : M A → (A → M B) → (Error → M B) → M B
  handle m on_ok on_err h = proceed on_ok on_err (m h).0 (m h).1

  -- `if a, err := m; err != nil { return err }`
  infixr 5 ◌>>=◌
  unfoldable pub ◌>>=◌ : M A → (A → M B) → M B
  unfolding handle raise
  m >>= f = handle m f raise

infixr 5 ◌>>◌
abbrev pub ◌>>◌ {κ} : {B : Type κ} → M (Unit {0}) → M B → M B
m >> k = m >>= λ _. k

-- `defer cleanup`: it runs last, whatever the outcome.
unfoldable pub finally {ℓ} : {A : Type ℓ} → M A → (Trace → Trace) → M A
finally m cleanup h = ((m h).0, cleanup (m h).1)

module _ (os : Platform) where
  unfoldable pub call : Event → M (Unit {0})
  call e h = (from_answer (os.unit h e), e ∷ h)

  unfoldable pub call_number : Event → M ℕ
  call_number e h = (from_answer (os.number h e), e ∷ h)

  unfoldable pub call_text : Event → M Bytes
  call_text e h = (from_answer (os.text h e), e ∷ h)

  unfoldable pub call_texts : Event → M (List Bytes)
  call_texts e h = (from_answer (os.texts h e), e ∷ h)

-- A call whose result is not looked at.
unfoldable pub note : Event → M (Unit {0})
note e h = (ok tt, e ∷ h)

-- A call whose result is of another kind, `reply`.
unfoldable pub call_for {ℓ} : {A : Type ℓ} → (Trace → Event → Answer A) → Event → M A
call_for reply e h = (from_answer (reply h e), e ∷ h)

-- To split on what a call returned.
pub Answer-cases {ℓ} :
    {A : Type ℓ} (a : Answer A) → ((x : A) × (a ≡ done x)) ⊎ ((e : Fault) × (a ≡ failed e))
Answer-cases (done x) = inl (x, refl)
Answer-cases (failed e) = inr (e, refl)
