-- ===== src/Platform/Rules/Postconditions.antt =====
-- What a value that code returns says of the calls made so far.
use systemboot.Base.{Error, ℕ, Bytes, ◌≡◌, ◌∷◌, inl, inr, Outcome, ok, err, panic}
use systemboot.Platform.{Platform, Trace, Event, done}
use systemboot.Platform.Monad.{
  M, pure, raise, proceed, handle, ◌>>=◌, call, call_text, call_number, Answer-cases,
}
use systemboot.Platform.Rules.Invariants.{Keeps, Leads}

abbrev pub After {ℓ κ} :
    {A : Type ℓ} → (Trace → Type κ) → (A → Trace → Type κ) → Outcome A → Trace → Type κ
After P Q (ok a) t = Q a t
After P Q (err e) t = P t
After P Q panic t = P t

-- The code keeps `P`, and where it returns a value `a`, it leads to `Q a`.
pub record Gives {ℓ κ} {A : Type ℓ} (P : Trace → Type κ) (Q : A → Trace → Type κ) (m : M A)
    : Type (ℓ ⊔ κ) where
  pub at : (h : Trace) → P h → After P Q (m h).0 (m h).1

module _ {κ} (P : Trace → Type κ) where
  pub Gives-pure {ℓ} :
      {A : Type ℓ} (Q : A → Trace → Type κ) (a : A)
      → ((h : Trace) → P h → Q a h)
      → Gives P Q (pure a)
  unfolding pure
  Gives-pure Q a k = record { at = k }

  pub Gives-call_number :
      (Q : ℕ → Trace → Type κ) (os : Platform) (e : Event)
      → ((n : ℕ) (h : Trace) → os.number h e ≡ done n → P h → Q n (e ∷ h))
      → ((h : Trace) → P h → P (e ∷ h))
      → Gives P Q (call_number os e)
  unfolding call_number
  Gives-call_number Q os e k w = record {
    at = λ h p. elim (Answer-cases (os.number h e)) [
      | inl (n, a) ↦ rw a (k n h a p)
      | inr (f, a) ↦ rw a (w h p)
    ];
  }

  pub Gives-call_text :
      (Q : Bytes → Trace → Type κ) (os : Platform) (e : Event)
      → ((b : Bytes) (h : Trace) → os.text h e ≡ done b → P h → Q b (e ∷ h))
      → ((h : Trace) → P h → P (e ∷ h))
      → Gives P Q (call_text os e)
  unfolding call_text
  Gives-call_text Q os e k w = record {
    at = λ h p. elim (Answer-cases (os.text h e)) [
      | inl (b, a) ↦ rw a (k b h a p)
      | inr (f, a) ↦ rw a (w h p)
    ];
  }

  pub Gives-call :
      (Q : Unit {0} → Trace → Type κ) (os : Platform) (e : Event)
      → ((h : Trace) → os.unit h e ≡ done tt → P h → Q tt (e ∷ h))
      → ((h : Trace) → P h → P (e ∷ h))
      → Gives P Q (call os e)
  unfolding call
  Gives-call Q os e k w = record {
    at = λ h p. elim (Answer-cases (os.unit h e)) [
      | inl (tt, a) ↦ rw a (k h a p)
      | inr (f, a) ↦ rw a (w h p)
    ];
  }

  -- With the error replaced by another one.
  pub Gives-handle {ℓ} :
      {A : Type ℓ} (Q : A → Trace → Type κ) (m : M A) (g : Error → Error)
      → Gives P Q m
      → Gives P Q (handle m pure (λ e. raise (g e)))
  unfolding handle pure raise
  Gives-handle {A = A} Q m g k = record { at = λ h p. handled (m h).0 (m h).1 (k.at h p) }
    where
      handled :
          (r : Outcome A) (t : Trace)
          → After P Q r t
          → After P Q
              (proceed pure (λ e. raise (g e)) r t).0
              (proceed pure (λ e. raise (g e)) r t).1
      handled (ok a) t q = q
      handled (err e) t q = q
      handled panic t q = q

  module _ {ℓ μ} {A : Type ℓ} {B : Type μ} (Q : A → Trace → Type κ) where
    proceed-Gives :
        (R : B → Trace → Type κ) (f : A → M B) (r : Outcome A) (t : Trace)
        → After P Q r t
        → ((a : A) (h : Trace) → Q a h → After P R (f a h).0 (f a h).1)
        → After P R (proceed f raise r t).0 (proceed f raise r t).1
    unfolding raise
    proceed-Gives R f (ok a) t q k = k a t q
    proceed-Gives R f (err e) t q k = q
    proceed-Gives R f panic t q k = q

    pub Gives-bind :
        (R : B → Trace → Type κ) (m : M A) (f : A → M B)
        → Gives P Q m
        → ((a : A) (h : Trace) → Q a h → After P R (f a h).0 (f a h).1)
        → Gives P R (m >>= f)
    unfolding ◌>>=◌ handle
    Gives-bind R m f g k = record { at = λ h p. proceed-Gives R f (m h).0 (m h).1 (g.at h p) k }

    proceed-Leads_Gives {ν} :
        (R : Trace → Type ν) (f : A → M B) (r : Outcome A) (t : Trace)
        → After P Q r t
        → ((h : Trace) → P h → R h)
        → ((a : A) → Leads (Q a) R (f a))
        → R (proceed f raise r t).1
    unfolding raise
    proceed-Leads_Gives R f (ok a) t q w k = (k a).at t q
    proceed-Leads_Gives R f (err e) t q w k = w t q
    proceed-Leads_Gives R f panic t q w k = w t q

    -- What follows uses what the value says.
    pub Leads-bind_Gives {ν} :
        (R : Trace → Type ν) (m : M A) (f : A → M B)
        → Gives P Q m
        → ((h : Trace) → P h → R h)
        → ((a : A) → Leads (Q a) R (f a))
        → Leads P R (m >>= f)
    unfolding ◌>>=◌ handle
    Leads-bind_Gives R m f g w k = record {
      at = λ h p. proceed-Leads_Gives R f (m h).0 (m h).1 (g.at h p) w k;
    }

    pub Keeps-bind_Gives :
        (m : M A) (f : A → M B) → Gives P Q m → ((a : A) → Leads (Q a) P (f a)) → Keeps P (m >>= f)
    Keeps-bind_Gives m f g k = record { at = λ h p. (Leads-bind_Gives P m f g (λ _ q. q) k).at h p }
