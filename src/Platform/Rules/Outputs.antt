-- ===== src/Platform/Rules/Outputs.antt =====
-- What every value that code returns satisfies, where it may also fail or panic.
use systemboot.Base.{
  ◌≡◌, refl, sym, ap, subst, ◌∙◌, Bool, true, false, if◌then◌else◌, Error, Outcome, ok, err, panic,
}
use systemboot.Platform.{Trace}
use systemboot.Platform.Monad.{M, lift, finally, pure, raise, proceed, handle, ◌>>=◌}
use systemboot.Platform.Rules.Invariants.{Keeps}
use systemboot.Platform.Rules.Values.{OkWith, Yields, bind-eq-ok}

-- A value that the code returns has the property; it may also fail or panic.
pub record Only {ℓ κ} {A : Type ℓ} (P : A → Type κ) (m : M A) : Type (ℓ ⊔ κ) where
  pub at : (h : Trace) (a : A) → (m h).0 ≡ ok a → P a

ok-eq {ℓ} : {A : Type ℓ} {a b : A} → ok a ≡ ok b → a ≡ b
ok-eq e = cc

module _ {ℓ κ} {A : Type ℓ} (P : A → Type κ) where
  pub Only-pure : (a : A) → P a → Only P (pure a)
  unfolding pure
  Only-pure a p = record { at = λ h b e. subst P (ok-eq e) p }

  pub Only-raise : (e : Error) → Only P (raise e)
  unfolding raise
  Only-raise x = record { at = λ h b e. cc }

  pub Only-lift : (r : Outcome A) → ((a : A) → r ≡ ok a → P a) → Only P (lift r)
  unfolding lift
  Only-lift r p = record { at = λ h b e. p b e }

  pub Only-if :
      (b : Bool) (m n : M A)
      → (b ≡ true → Only P m)
      → (b ≡ false → Only P n)
      → Only P (if b then m else n)
  Only-if true m n hm hn = hm refl
  Only-if false m n hm hn = hn refl

pub Only-any {ℓ} : {A : Type ℓ} (m : M A) → Only (λ _. Unit {0}) m
Only-any m = record { at = λ h a e. tt }

pub Only-bind {ℓ κ μ ν} :
    {A : Type ℓ} {B : Type κ} (Q : A → Type μ) (P : B → Type ν) (m : M A) (f : A → M B)
    → Only Q m
    → ((a : A) → Q a → Only P (f a))
    → Only P (m >>= f)
Only-bind Q P m f hm hf = record {
  at = λ h b e.
      let (a, ea, eq) = bind-eq-ok m f h e in
      (hf a (hm.at h a ea)).at (m h).1 b (ap (λ r. r.0) (sym eq) ∙ e);
}

pub Only-finally {ℓ κ} :
    {A : Type ℓ} (P : A → Type κ) (m : M A) (c : Trace → Trace) → Only P m → Only P (finally m c)
unfolding finally
Only-finally P m c o = record { at = λ h a e. o.at h a e }

pub Only-weaken {ℓ κ μ} :
    {A : Type ℓ} (P : A → Type κ) (Q : A → Type μ) (m : M A)
    → ((a : A) → P a → Q a)
    → Only P m
    → Only Q m
Only-weaken P Q m w o = record { at = λ h a e. w a (o.at h a e) }

module _ {ℓ κ μ ν} {A : Type ℓ} {B : Type κ} (Q : A → Type μ) (P : B → Type ν) where
  proceed-Only :
      (f : A → M B) (g : Error → M B) (r : Outcome A) (t : Trace) (b : B)
      → ((a : A) → r ≡ ok a → Q a)
      → ((a : A) → Q a → Only P (f a))
      → ((e : Error) → Only P (g e))
      → (proceed f g r t).0 ≡ ok b
      → P b
  proceed-Only f g (ok a) t b q hf hg e = (hf a (q a refl)).at t b e
  proceed-Only f g (err x) t b q hf hg e = (hg x).at t b e
  proceed-Only f g panic t b q hf hg e = cc

  pub Only-handle :
      (m : M A) (f : A → M B) (g : Error → M B)
      → Only Q m
      → ((a : A) → Q a → Only P (f a))
      → ((e : Error) → Only P (g e))
      → Only P (handle m f g)
  unfolding handle
  Only-handle m f g q hf hg = record {
    at = λ h b e. proceed-Only f g (m h).0 (m h).1 b (λ a k. q.at h a k) hf hg e;
  }

module _ {ℓ κ μ ν} {A : Type ℓ} {B : Type κ} (P : Trace → Type μ) (Q : A → Type ν) where
  proceed-Keeping :
      (f : A → M B) (r : Outcome A) (t : Trace)
      → P t
      → ((a : A) → r ≡ ok a → Q a)
      → ((a : A) → Q a → Keeps P (f a))
      → P (proceed f raise r t).1
  unfolding raise
  proceed-Keeping f (ok a) t p q k = (k a (q a refl)).at t p
  proceed-Keeping f (err e) t p q k = p
  proceed-Keeping f panic t p q k = p

  -- What follows keeps the property where it is given a value of this kind.
  pub Keeps-bind_Only :
      (m : M A) (f : A → M B)
      → Keeps P m
      → Only Q m
      → ((a : A) → Q a → Keeps P (f a))
      → Keeps P (m >>= f)
  unfolding ◌>>=◌ handle
  Keeps-bind_Only m f hm q k = record {
    at = λ h p. proceed-Keeping f (m h).0 (m h).1 (hm.at h p) (λ a e. q.at h a e) k;
  }

pub Only-of_Yields {ℓ} : {A : Type ℓ} (P : A → Type 0) (m : M A) → Yields P m → Only P m
Only-of_Yields {A = A} P m y = record { at = λ h a e. returned (m h).0 (y.at h) a e }
  where
    returned : (r : Outcome A) → OkWith P r → (a : A) → r ≡ ok a → P a
    returned (ok b) p a e = subst P (ok-eq e) p
    returned (err x) p a e = absurd p
    returned panic p a e = absurd p
