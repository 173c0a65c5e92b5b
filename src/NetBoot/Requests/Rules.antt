-- ===== src/NetBoot/Requests/Rules.antt =====
-- Rules for how many requests code makes for boot files, one for each way to build it.
use systemboot.Base.{
  ℕ, suc, ◌+◌, ◌≤◌, [], ◌∷◌, Option, Bool, true, false, if◌then◌else◌, Error, Outcome, ok, err,
  panic, arith,
}
use systemboot.Platform.{Trace, http_get, sleep}
use systemboot.Platform.Monad.{M, handle, pure, raise, proceed, ◌>>=◌, ◌>>◌, note}
use systemboot.Platform.Rules.{Keeps}

-- The calls so far that request a boot file.
abbrev pub requests : Trace → ℕ
requests [] = 0
requests (http_get client url ∷ h) = suc (requests h)
requests (_ ∷ h) = requests h

-- The code makes at most `n` requests, whatever the calls answer.
pub record Requests {ℓ} {A : Type ℓ} (n : ℕ) (m : M A) : Type ℓ where
  pub at : (h : Trace) → requests (m h).1 ≤ requests h + n

module _ {ℓ} {A : Type ℓ} where
  pub Requests-pure : (n : ℕ) (a : A) → Requests n (pure a)
  unfolding pure
  Requests-pure n a = record { at = λ h. omega arith }

  pub Requests-raise : (n : ℕ) (e : Error) → Requests n (raise {A = A} e)
  unfolding raise
  Requests-raise n e = record { at = λ h. omega arith }

  -- Code that makes no request.
  pub Requests-of_Keeps : (m : M A) → ((k : ℕ) → Keeps (λ t. requests t ≤ k) m) → Requests 0 m
  Requests-of_Keeps m k = record { at = λ h. (k (requests h + 0)).at h (omega arith) }

  pub Requests-weaken : (n k : ℕ) (m : M A) → n ≤ k → Requests n m → Requests k m
  Requests-weaken n k m le r = record { at = λ h. omega (arith, le, r.at h) }

  pub Requests-if :
      (n : ℕ) (b : Bool) (m m2 : M A)
      → Requests n m
      → Requests n m2
      → Requests n (if b then m else m2)
  Requests-if n true m m2 hm hn = hm
  Requests-if n false m m2 hm hn = hn

module _ {ℓ κ} {A : Type ℓ} {B : Type κ} (k : ℕ) where
  proceed-requests :
      (f : A → M B) (g : Error → M B) (r : Outcome A) (t : Trace)
      → ((a : A) → Requests k (f a))
      → ((e : Error) → Requests k (g e))
      → requests (proceed f g r t).1 ≤ requests t + k
  proceed-requests f g (ok a) t hf hg = (hf a).at t
  proceed-requests f g (err e) t hf hg = (hg e).at t
  proceed-requests f g panic t hf hg = omega arith

module _ {ℓ κ} {A : Type ℓ} {B : Type κ} (n k : ℕ) {total : ℕ} (fits : n + k ≤ total) where
  pub Requests-handle :
      (m : M A) (f : A → M B) (g : Error → M B)
      → Requests n m
      → ((a : A) → Requests k (f a))
      → ((e : Error) → Requests k (g e))
      → Requests total (handle m f g)
  unfolding handle
  Requests-handle m f g hm hf hg = record {
    at = λ h. omega (arith, fits, hm.at h, proceed-requests k f g (m h).0 (m h).1 hf hg);
  }

  pub Requests-bind :
      (m : M A) (f : A → M B)
      → Requests n m
      → ((a : A) → Requests k (f a))
      → Requests total (m >>= f)
  unfolding ◌>>=◌
  Requests-bind m f hm hf = Requests-handle m f raise hm hf (λ e. Requests-raise k e)

-- An early return makes no request.
pub guarded :
    (b : Bool) (m : M (Unit {0})) (x : Error) (h : Trace) {n : ℕ}
    → requests h ≤ n
    → requests (m h).1 ≤ n
    → requests ((if b then raise x else m) h).1 ≤ n
unfolding raise
guarded true m x h le k = le
guarded false m x h le k = k

pub last_raise :
    (m : M (Unit {0})) (x : Error) (h : Trace) {n : ℕ}
    → requests (m h).1 ≤ n
    → requests ((m >> raise {A = Unit {0}} x) h).1 ≤ n
unfolding ◌>>=◌ handle raise
last_raise m x h le = raised (m h).0 (m h).1 le
  where
    raised :
        (r : Outcome (Unit {0})) (t : Trace) {n : ℕ}
        → requests t ≤ n
        → requests
            (proceed {A = Unit {0}} {B = Unit {0}} (λ _ h. (err x, h)) (λ e h. (err e, h)) r t).1
          ≤ n
    raised (ok a) t le = le
    raised (err e) t le = le
    raised panic t le = le

pub pause : (n : ℕ) (m : M (Option ℕ)) → Requests n m → Requests n (note (sleep 1) >> m)
unfolding note
pause n m k = Requests-bind 0 n (omega arith) _ _ (record { at = λ h. omega arith }) (λ _. k)
