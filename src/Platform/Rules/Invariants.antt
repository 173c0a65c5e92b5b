-- ===== src/Platform/Rules/Invariants.antt =====
-- What code that makes calls keeps of the calls made so far.
use systemboot.Base.{◌∷◌, Bool, true, false, if◌then◌else◌, Error, Outcome, ok, err, panic}
use systemboot.Platform.{Platform, Event, Trace, Answer}
use systemboot.Platform.Monad.{
  M, crash, lift, finally, pure, raise, proceed, handle, ◌>>=◌, call, call_number, call_text,
  call_texts, call_for, note,
}

-- A property of the calls so far that the code keeps, whatever its outcome.
pub record Keeps {ℓ κ} {A : Type ℓ} (P : Trace → Type κ) (m : M A) : Type (ℓ ⊔ κ) where
  pub at : (h : Trace) → P h → P (m h).1

-- A property of the calls so far is kept by calls that keep it one by one.
module _ {κ} (P : Trace → Type κ) (os : Platform) where
  pub Keeps-call : (e : Event) → ((h : Trace) → P h → P (e ∷ h)) → Keeps P (call os e)
  unfolding call
  Keeps-call e k = record { at = k }

  pub Keeps-call_text : (e : Event) → ((h : Trace) → P h → P (e ∷ h)) → Keeps P (call_text os e)
  unfolding call_text
  Keeps-call_text e k = record { at = k }

  pub Keeps-call_number : (e : Event) → ((h : Trace) → P h → P (e ∷ h)) → Keeps P (call_number os e)
  unfolding call_number
  Keeps-call_number e k = record { at = k }

  pub Keeps-call_texts : (e : Event) → ((h : Trace) → P h → P (e ∷ h)) → Keeps P (call_texts os e)
  unfolding call_texts
  Keeps-call_texts e k = record { at = k }

pub Keeps-call_for {ℓ κ} :
    {A : Type ℓ} (P : Trace → Type κ) (reply : Trace → Event → Answer A) (e : Event)
    → ((h : Trace) → P h → P (e ∷ h))
    → Keeps P (call_for reply e)
unfolding call_for
Keeps-call_for P reply e k = record { at = k }

pub Keeps-note {κ} :
    (P : Trace → Type κ) (e : Event) → ((h : Trace) → P h → P (e ∷ h)) → Keeps P (note e)
unfolding note
Keeps-note P e k = record { at = k }

module _ {ℓ κ} {A : Type ℓ} (P : Trace → Type κ) where
  pub Keeps-pure : (a : A) → Keeps P (pure a)
  unfolding pure
  Keeps-pure a = record { at = λ h p. p }

  pub Keeps-lift : (r : Outcome A) → Keeps P (lift r)
  unfolding lift
  Keeps-lift r = record { at = λ h p. p }

  pub Keeps-crash : Keeps P (crash {A = A})
  unfolding crash
  Keeps-crash = record { at = λ h p. p }

  pub Keeps-raise : (e : Error) → Keeps P (raise {A = A} e)
  unfolding raise
  Keeps-raise e = record { at = λ h p. p }

module _ {ℓ κ μ} {A : Type ℓ} {B : Type κ} (P : Trace → Type μ) where
  proceed-Keeps :
      (f : A → M B) (g : Error → M B) (r : Outcome A) (t : Trace)
      → P t
      → ((a : A) → Keeps P (f a))
      → ((e : Error) → Keeps P (g e))
      → P (proceed f g r t).1
  proceed-Keeps f g (ok a) t p hf hg = (hf a).at t p
  proceed-Keeps f g (err e) t p hf hg = (hg e).at t p
  proceed-Keeps f g panic t p hf hg = p

  pub Keeps-handle :
      (m : M A) (f : A → M B) (g : Error → M B)
      → Keeps P m
      → ((a : A) → Keeps P (f a))
      → ((e : Error) → Keeps P (g e))
      → Keeps P (handle m f g)
  unfolding handle
  Keeps-handle m f g hm hf hg = record {
    at = λ h p. proceed-Keeps f g (m h).0 (m h).1 (hm.at h p) hf hg;
  }

  pub Keeps-bind :
      (m : M A) (f : A → M B) → Keeps P m → ((a : A) → Keeps P (f a)) → Keeps P (m >>= f)
  unfolding ◌>>=◌ handle
  Keeps-bind m f hm hf = record {
    at = λ h p. proceed-Keeps f raise (m h).0 (m h).1 (hm.at h p) hf (λ e. Keeps-raise P e);
  }

pub ruleset keeps_rules = (
  Keeps-pure, Keeps-raise, Keeps-handle, Keeps-bind, Keeps-call, Keeps-call_text, Keeps-call_number,
  Keeps-call_texts, Keeps-call_for, Keeps-lift, Keeps-note, Keeps-crash,
)

module _ {ℓ κ} {A : Type ℓ} (P : Trace → Type κ) where
  pub Keeps-finally :
      (m : M A) (c : Trace → Trace)
      → Keeps P m
      → ((h : Trace) → P h → P (c h))
      → Keeps P (finally m c)
  unfolding finally
  Keeps-finally m c hm hc = record { at = λ h p. hc _ (hm.at h p) }

  pub Keeps-if : (b : Bool) (m n : M A) → Keeps P m → Keeps P n → Keeps P (if b then m else n)
  Keeps-if true m n hm hn = hm
  Keeps-if false m n hm hn = hn

-- The calls of `end` are those of `start` and later ones.
pub data Extends (start : Trace) : Trace → Type 0 where
  same : Extends start start
  later : {end : Trace} (e : Event) → Extends start end → Extends start (e ∷ end)

pub Extends-trans : {a b c : Trace} → Extends a b → Extends b c → Extends a c
Extends-trans p same = p
Extends-trans p (later e q) = later e (Extends-trans p q)

pub ruleset extends_rules = (keeps_rules, Keeps-finally, Keeps-if, later)

-- Code that leads from one property of the calls so far to another, whatever its outcome.
pub record Leads {ℓ κ μ} {A : Type ℓ} (P : Trace → Type κ) (Q : Trace → Type μ) (m : M A)
    : Type (ℓ ⊔ κ ⊔ μ) where
  pub at : (h : Trace) → P h → Q (m h).1

module _ {ℓ κ μ ν} {A : Type ℓ} {B : Type κ} {Q : Trace → Type μ} {R : Trace → Type ν} where
  proceed-Leads :
      (f : A → M B) (r : Outcome A) (t : Trace)
      → Q t
      → ((h : Trace) → Q h → R h)
      → ((a : A) → Leads Q R (f a))
      → R (proceed f raise r t).1
  unfolding raise
  proceed-Leads f (ok a) t q w k = (k a).at t q
  proceed-Leads f (err e) t q w k = w t q
  proceed-Leads f panic t q w k = w t q

  pub Leads-bind {ξ} :
      {P : Trace → Type ξ} (m : M A) (f : A → M B)
      → Leads P Q m
      → ((h : Trace) → Q h → R h)
      → ((a : A) → Leads Q R (f a))
      → Leads P R (m >>= f)
  unfolding ◌>>=◌ handle
  Leads-bind m f k w l = record { at = λ h p. proceed-Leads f (m h).0 (m h).1 (k.at h p) w l }

pub Leads-of_Keeps {ℓ κ μ} :
    {A : Type ℓ} {P : Trace → Type κ} {Q : Trace → Type μ} (m : M A)
    → Keeps P m
    → ((h : Trace) → P h → Q h)
    → Leads P Q m
Leads-of_Keeps m k w = record { at = λ h p. w _ (k.at h p) }

pub Leads-if {ℓ κ μ} :
    {A : Type ℓ} {P : Trace → Type κ} {Q : Trace → Type μ} (b : Bool) (m n : M A)
    → Leads P Q m
    → Leads P Q n
    → Leads P Q (if b then m else n)
Leads-if true m n hm hn = hm
Leads-if false m n hm hn = hn
