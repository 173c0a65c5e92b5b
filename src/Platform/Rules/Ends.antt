-- ===== src/Platform/Rules/Ends.antt =====
-- When code that makes calls returns, fails, or cannot panic.
use systemboot.Base.{◌≡◌, refl, Bool, true, false, if◌then◌else◌, Error, Outcome, ok, err, panic}
use systemboot.Platform.{Platform, Event, Trace, Answer, done, failed}
use systemboot.Platform.Monad.{
  M, finally, pure, raise, from_answer, proceed, handle, ◌>>=◌, call, call_number, call_text,
  call_texts, call_for, note,
}

abbrev pub IsNoPanic {ℓ} : {A : Type ℓ} → Outcome A → Type 0
IsNoPanic (ok a) = Unit {0}
IsNoPanic (err e) = Unit {0}
IsNoPanic panic = ⊥

abbrev pub IsOk {ℓ} : {A : Type ℓ} → Outcome A → Type 0
IsOk (ok a) = Unit {0}
IsOk (err e) = ⊥
IsOk panic = ⊥

-- The code does not panic, whatever the calls answer.
pub record NoPanic {ℓ} {A : Type ℓ} (m : M A) : Type ℓ where
  pub at : (h : Trace) → IsNoPanic (m h).0

-- The code returns with no error, whatever the calls answer.
pub record Returns {ℓ} {A : Type ℓ} (m : M A) : Type ℓ where
  pub at : (h : Trace) → IsOk (m h).0

answer-IsNoPanic {ℓ} : {A : Type ℓ} (a : Answer A) → IsNoPanic (from_answer a)
answer-IsNoPanic (done x) = tt
answer-IsNoPanic (failed e) = tt

module _ (os : Platform) where
  pub NoPanic-call : (e : Event) → NoPanic (call os e)
  unfolding call
  NoPanic-call e = record { at = λ h. answer-IsNoPanic (os.unit h e) }

  pub NoPanic-call_text : (e : Event) → NoPanic (call_text os e)
  unfolding call_text
  NoPanic-call_text e = record { at = λ h. answer-IsNoPanic (os.text h e) }

  pub NoPanic-call_number : (e : Event) → NoPanic (call_number os e)
  unfolding call_number
  NoPanic-call_number e = record { at = λ h. answer-IsNoPanic (os.number h e) }

  pub NoPanic-call_texts : (e : Event) → NoPanic (call_texts os e)
  unfolding call_texts
  NoPanic-call_texts e = record { at = λ h. answer-IsNoPanic (os.texts h e) }

pub NoPanic-call_for {ℓ} :
    {A : Type ℓ} (reply : Trace → Event → Answer A) (e : Event) → NoPanic (call_for reply e)
unfolding call_for
NoPanic-call_for reply e = record { at = λ h. answer-IsNoPanic (reply h e) }

pub Returns-note : (e : Event) → Returns (note e)
unfolding note
Returns-note e = record { at = λ h. tt }

pub NoPanic-note : (e : Event) → NoPanic (note e)
unfolding note
NoPanic-note e = record { at = λ h. tt }

module _ {ℓ} {A : Type ℓ} where
  pub Returns-pure : (a : A) → Returns (pure a)
  unfolding pure
  Returns-pure a = record { at = λ h. tt }

  pub NoPanic-pure : (a : A) → NoPanic (pure a)
  unfolding pure
  NoPanic-pure a = record { at = λ h. tt }

  pub NoPanic-raise : (e : Error) → NoPanic (raise {A = A} e)
  unfolding raise
  NoPanic-raise e = record { at = λ h. tt }

module _ {ℓ κ} {A : Type ℓ} {B : Type κ} where
  proceed-IsOk :
      (f : A → M B) (g : Error → M B) (r : Outcome A) (t : Trace)
      → IsNoPanic r
      → ((a : A) → Returns (f a))
      → ((e : Error) → Returns (g e))
      → IsOk (proceed f g r t).0
  proceed-IsOk f g (ok a) t n hf hg = (hf a).at t
  proceed-IsOk f g (err e) t n hf hg = (hg e).at t
  proceed-IsOk f g panic t n hf hg = absurd n

  pub Returns-handle :
      (m : M A) (f : A → M B) (g : Error → M B)
      → NoPanic m
      → ((a : A) → Returns (f a))
      → ((e : Error) → Returns (g e))
      → Returns (handle m f g)
  unfolding handle
  Returns-handle m f g n hf hg = record {
    at = λ h. proceed-IsOk f g (m h).0 (m h).1 (n.at h) hf hg;
  }

  bind-IsOk :
      (f : A → M B) (r : Outcome A) (t : Trace)
      → IsOk r
      → ((a : A) → Returns (f a))
      → IsOk (proceed f raise r t).0
  unfolding raise
  bind-IsOk f (ok a) t n hf = (hf a).at t
  bind-IsOk f (err e) t n hf = absurd n
  bind-IsOk f panic t n hf = absurd n

  pub Returns-bind :
      (m : M A) (f : A → M B) → Returns m → ((a : A) → Returns (f a)) → Returns (m >>= f)
  unfolding ◌>>=◌
  Returns-bind m f hm hf = record { at = λ h. bind-IsOk f (m h).0 (m h).1 (hm.at h) hf }

  proceed-IsNoPanic :
      (f : A → M B) (g : Error → M B) (r : Outcome A) (t : Trace)
      → IsNoPanic r
      → ((a : A) → NoPanic (f a))
      → ((e : Error) → NoPanic (g e))
      → IsNoPanic (proceed f g r t).0
  proceed-IsNoPanic f g (ok a) t n hf hg = (hf a).at t
  proceed-IsNoPanic f g (err e) t n hf hg = (hg e).at t
  proceed-IsNoPanic f g panic t n hf hg = absurd n

  pub NoPanic-handle :
      (m : M A) (f : A → M B) (g : Error → M B)
      → NoPanic m
      → ((a : A) → NoPanic (f a))
      → ((e : Error) → NoPanic (g e))
      → NoPanic (handle m f g)
  unfolding handle
  NoPanic-handle m f g n hf hg = record {
    at = λ h. proceed-IsNoPanic f g (m h).0 (m h).1 (n.at h) hf hg;
  }

module _ {ℓ κ} {A : Type ℓ} {B : Type κ} where
  pub NoPanic-bind :
      (m : M A) (f : A → M B) → NoPanic m → ((a : A) → NoPanic (f a)) → NoPanic (m >>= f)
  unfolding ◌>>=◌ handle
  NoPanic-bind m f hm hf = record {
    at = λ h. proceed-IsNoPanic f raise (m h).0 (m h).1 (hm.at h) hf (λ e. NoPanic-raise e);
  }

pub ruleset returns_rules = (
  NoPanic-bind, Returns-pure, Returns-bind, Returns-handle, NoPanic-pure, NoPanic-raise,
  NoPanic-handle, NoPanic-call, NoPanic-call_text, NoPanic-call_number, NoPanic-call_texts,
  NoPanic-call_for, NoPanic-note, Returns-note,
)

module _ {κ} {B : Type κ} where
  proceed_unit :
      (k : Unit {0} → M B) (g : Error → M B) (r : Outcome (Unit {0})) (t : Trace)
      → IsOk r
      → proceed k g r t ≡ k tt t
  proceed_unit k g (ok a) t n = refl
  proceed_unit k g (err e) t n = absurd n
  proceed_unit k g panic t n = absurd n

  -- Code that returns leaves the trace to what follows it.
  pub bind-Returns :
      (m : M (Unit {0})) (f : Unit {0} → M B) (h : Trace) → Returns m → (m >>= f) h ≡ f tt (m h).1
  unfolding ◌>>=◌ handle
  bind-Returns m f h n = proceed_unit f raise (m h).0 (m h).1 (n.at h)

abbrev pub IsErr {ℓ} : {A : Type ℓ} → Outcome A → Type 0
IsErr (ok a) = ⊥
IsErr (err e) = Unit {0}
IsErr panic = ⊥

-- The code returns an error, whatever the calls answer.
pub record Fails {ℓ} {A : Type ℓ} (m : M A) : Type ℓ where
  pub at : (h : Trace) → IsErr (m h).0

module _ {ℓ} {A : Type ℓ} where
  pub Fails-raise : (e : Error) → Fails (raise {A = A} e)
  unfolding raise
  Fails-raise e = record { at = λ h. tt }

  pub Fails-finally : (m : M A) (c : Trace → Trace) → Fails m → Fails (finally m c)
  unfolding finally
  Fails-finally m c hm = record { at = λ h. hm.at h }

  pub Fails-if : (b : Bool) (m n : M A) → Fails m → Fails n → Fails (if b then m else n)
  Fails-if true m n hm hn = hm
  Fails-if false m n hm hn = hn

module _ {ℓ κ} {A : Type ℓ} {B : Type κ} where
  proceed-IsErr :
      (f : A → M B) (g : Error → M B) (r : Outcome A) (t : Trace)
      → IsNoPanic r
      → ((a : A) → Fails (f a))
      → ((e : Error) → Fails (g e))
      → IsErr (proceed f g r t).0
  proceed-IsErr f g (ok a) t n hf hg = (hf a).at t
  proceed-IsErr f g (err e) t n hf hg = (hg e).at t
  proceed-IsErr f g panic t n hf hg = absurd n

  pub Fails-handle :
      (m : M A) (f : A → M B) (g : Error → M B)
      → NoPanic m
      → ((a : A) → Fails (f a))
      → ((e : Error) → Fails (g e))
      → Fails (handle m f g)
  unfolding handle
  Fails-handle m f g n hf hg = record { at = λ h. proceed-IsErr f g (m h).0 (m h).1 (n.at h) hf hg }

  pub Fails-bind : (m : M A) (f : A → M B) → NoPanic m → ((a : A) → Fails (f a)) → Fails (m >>= f)
  unfolding ◌>>=◌ handle
  Fails-bind m f n hf = record {
    at = λ h. proceed-IsErr f raise (m h).0 (m h).1 (n.at h) hf (λ e. Fails-raise e);
  }

module _ {ℓ} {A : Type ℓ} where
  Returns-IsNoPanic : (r : Outcome A) → IsOk r → IsNoPanic r
  Returns-IsNoPanic (ok a) n = tt
  Returns-IsNoPanic (err e) n = tt
  Returns-IsNoPanic panic n = n

  pub NoPanic-of_Returns : (m : M A) → Returns m → NoPanic m
  NoPanic-of_Returns m h = record { at = λ t. Returns-IsNoPanic (m t).0 (h.at t) }

  pub NoPanic-finally : (m : M A) (c : Trace → Trace) → NoPanic m → NoPanic (finally m c)
  unfolding finally
  NoPanic-finally m c n = record { at = λ h. n.at h }

  pub NoPanic-if : (b : Bool) (m n : M A) → NoPanic m → NoPanic n → NoPanic (if b then m else n)
  NoPanic-if true m n hm hn = hm
  NoPanic-if false m n hm hn = hn

pub ruleset fails_rules =
    (Fails-raise, Fails-finally, Fails-if, Fails-handle, Fails-bind, NoPanic-if, returns_rules)
