-- ===== src/Platform/Rules/Values.antt =====
-- What the value that code returns satisfies.
use systemboot.Base.{◌≡◌, refl, Bool, true, false, if◌then◌else◌, Error, Outcome, ok, err, panic}
use systemboot.Platform.{Trace}
use systemboot.Platform.Monad.{M, lift, finally, pure, raise, proceed, handle, ◌>>=◌}
use systemboot.Platform.Rules.Ends.{NoPanic, IsNoPanic}

abbrev pub OkWith {ℓ} : {A : Type ℓ} → (A → Type 0) → Outcome A → Type 0
OkWith P (ok a) = P a
OkWith P (err e) = ⊥
OkWith P panic = ⊥

abbrev pub IfOk {ℓ} : {A : Type ℓ} → (A → Type 0) → Outcome A → Type 0
IfOk P (ok a) = P a
IfOk P (err e) = Unit
IfOk P panic = ⊥

-- The code returns a value with the property, whatever the calls answer.
pub record Yields {ℓ} {A : Type ℓ} (P : A → Type 0) (m : M A) : Type ℓ where
  pub at : (h : Trace) → OkWith P (m h).0

-- The code returns a value with the property, or an error.
pub record May {ℓ} {A : Type ℓ} (P : A → Type 0) (m : M A) : Type ℓ where
  pub at : (h : Trace) → IfOk P (m h).0

module _ {ℓ} {A : Type ℓ} (P : A → Type 0) where
  pub Yields-pure : (a : A) → P a → Yields P (pure a)
  unfolding pure
  Yields-pure a p = record { at = λ h. p }

  pub Yields-lift : (r : Outcome A) → OkWith P r → Yields P (lift r)
  unfolding lift
  Yields-lift r p = record { at = λ h. p }

  pub May-lift : (r : Outcome A) → IfOk P r → May P (lift r)
  unfolding lift
  May-lift r p = record { at = λ h. p }

  pub May-finally : (m : M A) (c : Trace → Trace) → May P m → May P (finally m c)
  unfolding finally
  May-finally m c y = record { at = λ h. y.at h }

  pub May-pure : (a : A) → P a → May P (pure a)
  unfolding pure
  May-pure a p = record { at = λ h. p }

  pub May-raise : (e : Error) → May P (raise e)
  unfolding raise
  May-raise e = record { at = λ h. tt }

  OkWith-IfOk : (r : Outcome A) → OkWith P r → IfOk P r
  OkWith-IfOk (ok a) p = p
  OkWith-IfOk (err e) p = tt
  OkWith-IfOk panic p = absurd p

  pub May-of_Yields : (m : M A) → Yields P m → May P m
  May-of_Yields m y = record { at = λ h. OkWith-IfOk (m h).0 (y.at h) }

  pub Yields-finally : (m : M A) (c : Trace → Trace) → Yields P m → Yields P (finally m c)
  unfolding finally
  Yields-finally m c y = record { at = λ h. y.at h }

  pub Yields-if : (b : Bool) (m n : M A) → Yields P m → Yields P n → Yields P (if b then m else n)
  Yields-if true m n hm hn = hm
  Yields-if false m n hm hn = hn

  pub May-if : (b : Bool) (m n : M A) → May P m → May P n → May P (if b then m else n)
  May-if true m n hm hn = hm
  May-if false m n hm hn = hn

module _ {ℓ} {A : Type ℓ} where
  IfOk-of_IsNoPanic : (r : Outcome A) → IsNoPanic r → IfOk (λ _. Unit {0}) r
  IfOk-of_IsNoPanic (ok a) n = tt
  IfOk-of_IsNoPanic (err e) n = tt
  IfOk-of_IsNoPanic panic n = n

  pub May-of_NoPanic : (m : M A) → NoPanic m → May (λ _. Unit {0}) m
  May-of_NoPanic m n = record { at = λ h. IfOk-of_IsNoPanic (m h).0 (n.at h) }

IfOk-weaken {ℓ} :
    {A : Type ℓ} (P Q : A → Type 0) (r : Outcome A) → ((a : A) → P a → Q a) → IfOk P r → IfOk Q r
IfOk-weaken P Q (ok a) w p = w a p
IfOk-weaken P Q (err e) w p = tt
IfOk-weaken P Q panic w p = p

pub May-weaken {ℓ} :
    {A : Type ℓ} (P Q : A → Type 0) (m : M A) → ((a : A) → P a → Q a) → May P m → May Q m
May-weaken P Q m w y = record { at = λ h. IfOk-weaken P Q (m h).0 w (y.at h) }

module _ {ℓ κ} {A : Type ℓ} {B : Type κ} (Q : A → Type 0) (P : B → Type 0) where
  proceed-OkWith :
      (f : A → M B) (g : Error → M B) (r : Outcome A) (t : Trace)
      → IfOk Q r
      → ((a : A) → Q a → Yields P (f a))
      → ((e : Error) → Yields P (g e))
      → OkWith P (proceed f g r t).0
  proceed-OkWith f g (ok a) t q hf hg = (hf a q).at t
  proceed-OkWith f g (err e) t q hf hg = (hg e).at t
  proceed-OkWith f g panic t q hf hg = absurd q

  pub Yields-handle :
      (m : M A) (f : A → M B) (g : Error → M B)
      → May Q m
      → ((a : A) → Q a → Yields P (f a))
      → ((e : Error) → Yields P (g e))
      → Yields P (handle m f g)
  unfolding handle
  Yields-handle m f g q hf hg = record {
    at = λ h. proceed-OkWith f g (m h).0 (m h).1 (q.at h) hf hg;
  }

  bind-OkWith :
      (f : A → M B) (r : Outcome A) (t : Trace)
      → OkWith Q r
      → ((a : A) → Q a → Yields P (f a))
      → OkWith P (proceed f raise r t).0
  bind-OkWith f (ok a) t q hf = (hf a q).at t
  bind-OkWith f (err e) t q hf = absurd q
  bind-OkWith f panic t q hf = absurd q

  pub Yields-bind :
      (m : M A) (f : A → M B) → Yields Q m → ((a : A) → Q a → Yields P (f a)) → Yields P (m >>= f)
  unfolding ◌>>=◌ handle
  Yields-bind m f q hf = record { at = λ h. bind-OkWith f (m h).0 (m h).1 (q.at h) hf }

  bind-IfOk :
      (f : A → M B) (r : Outcome A) (t : Trace)
      → IfOk Q r
      → ((a : A) → Q a → May P (f a))
      → IfOk P (proceed f raise r t).0
  unfolding raise
  bind-IfOk f (ok a) t q hf = (hf a q).at t
  bind-IfOk f (err e) t q hf = tt
  bind-IfOk f panic t q hf = absurd q

  pub May-bind : (m : M A) (f : A → M B) → May Q m → ((a : A) → Q a → May P (f a)) → May P (m >>= f)
  unfolding ◌>>=◌ handle
  May-bind m f q hf = record { at = λ h. bind-IfOk f (m h).0 (m h).1 (q.at h) hf }

module _ {ℓ κ} {A : Type ℓ} {B : Type κ} where
  proceed-eq-ok :
      (f : A → M B) (r : Outcome A) (t : Trace) {b : B}
      → (proceed f raise r t).0 ≡ ok b
      → (a : A) × (r ≡ ok a) × (proceed f raise r t ≡ f a t)
  unfolding raise
  proceed-eq-ok f (ok a) t e = (a, refl, refl)
  proceed-eq-ok f (err x) t e = cc
  proceed-eq-ok f panic t e = cc

  -- Code that returned a value did so in each of its parts.
  pub bind-eq-ok :
      (m : M A) (f : A → M B) (h : Trace) {b : B}
      → ((m >>= f) h).0 ≡ ok b
      → (a : A) × ((m h).0 ≡ ok a) × ((m >>= f) h ≡ f a (m h).1)
  unfolding ◌>>=◌ handle
  bind-eq-ok m f h e = proceed-eq-ok f (m h).0 (m h).1 e
