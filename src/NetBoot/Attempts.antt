-- ===== src/NetBoot/Attempts.antt =====
-- The attempts to fetch the boot file.
use systemboot.Base.{
  ℕ, zero, suc, ◌≡◌, ◌≢◌, ◌⊎◌, arith, refl, ◌∷◌, Option, none, some, true, false, Bool-cases, inl,
  inr, Bytes, Fault, Error, external, Outcome, ok, err, panic,
}
use systemboot.Platform.{Platform, Trace, done, failed, sleep, http_get}
use systemboot.Platform.Devices.{Client}
use systemboot.Platform.Monad.{
  Answer-cases, handle, lift, pure, raise, note, call_number, crash, ◌>>=◌,
}
use systemboot.NetBoot.{Flags, Net}
use systemboot.NetBoot.Boot.{retryable_http_error, fetch_loop, use_response, max_http_attempts}

retryable-cases :
    (status : ℕ) → retryable_http_error status ≡ true → (status ≡ 500) ⊎ (status ≡ 502)
unfolding retryable_http_error
retryable-cases status e = ground arith

retryable-ne-500 : (status : ℕ) → retryable_http_error status ≡ false → status ≢ 500
unfolding retryable_http_error
retryable-ne-500 status e k = ground arith

retryable-ne-502 : (status : ℕ) → retryable_http_error status ≡ false → status ≢ 502
unfolding retryable_http_error
retryable-ne-502 status e k = ground arith

module _ (net : Net) (os : Platform) (client : Client) (bootfile : Bytes) where
  -- How `n` attempts end, from the latest response and the calls so far.
  pub data Fetched : ℕ → Option ℕ → Trace → Outcome (Option ℕ) → Trace → Type 0 where
    used_up : {resp : Option ℕ} {h : Trace} → Fetched 0 resp h (ok resp) h
    no_request :
        {n : ℕ} {resp : Option ℕ} {h : Trace} {e : Fault} (x : Error)
        → net.new_request bootfile ≡ failed e
        → Fetched (suc n) resp h (err x) h
    answered :
        {n status : ℕ} {resp : Option ℕ} {h : Trace}
        → net.new_request bootfile ≡ done tt
        → os.number h (http_get client bootfile) ≡ done status
        → status ≢ 500
        → status ≢ 502
        → Fetched (suc n) resp h (ok (some status)) (http_get client bootfile ∷ h)
    unavailable :
        {n status : ℕ} {resp : Option ℕ} {h t : Trace} {r : Outcome (Option ℕ)}
        → net.new_request bootfile ≡ done tt
        → os.number h (http_get client bootfile) ≡ done status
        → (status ≡ 500) ⊎ (status ≡ 502)
        → Fetched n (some status) (sleep 1 ∷ http_get client bootfile ∷ h) r t
        → Fetched (suc n) resp h r t
    refused :
        {n : ℕ} {resp : Option ℕ} {h : Trace} {e : Fault} (x : Error)
        → net.new_request bootfile ≡ done tt
        → os.number h (http_get client bootfile) ≡ failed e
        → net.is_timeout (external e) ≡ false
        → Fetched (suc n) resp h (err x) (http_get client bootfile ∷ h)
    timed_out :
        {n : ℕ} {resp : Option ℕ} {h t : Trace} {e : Fault} {r : Outcome (Option ℕ)}
        → net.new_request bootfile ≡ done tt
        → os.number h (http_get client bootfile) ≡ failed e
        → net.is_timeout (external e) ≡ true
        → Fetched n none (sleep 1 ∷ http_get client bootfile ∷ h) r t
        → Fetched (suc n) resp h r t

  module _ (flags : Flags) where
    -- The attempts of `boot` to fetch the boot file. An answer other than 500 and 502 ends them, and
    -- so does an error that is no timeout; otherwise the next attempt follows a pause, until none is
    -- left, and the latest response is the result: none, where the last attempt timed out.
    pub fetch_loop-Fetched :
        (n : ℕ) (resp : Option ℕ) (h : Trace)
        → Fetched n resp h
            (fetch_loop net os flags n client bootfile resp h).0
            (fetch_loop net os flags n client bootfile resp h).1
    unfolding fetch_loop handle lift pure raise note call_number ◌>>=◌
    fetch_loop-Fetched zero resp h = used_up
    fetch_loop-Fetched (suc n) resp h = elim (Answer-cases (net.new_request bootfile)) [
      | inr (e, q) ↦ rw q (no_request _ q)
      | inl (tt, q) ↦ elim (Answer-cases (os.number h (http_get client bootfile))) [
        | inl (status, a) ↦ elim (Bool-cases (retryable_http_error status)) [
          | inl b ↦
              rw (q, a, b)
                (unavailable q a (retryable-cases status b)
                  (fetch_loop-Fetched n (some status) (sleep 1 ∷ http_get client bootfile ∷ h)))
          | inr b ↦
              rw (q, a, b) (answered q a (retryable-ne-500 status b) (retryable-ne-502 status b))
        ]
        | inr (e, a) ↦ elim (Bool-cases (net.is_timeout (external e))) [
          | inl b ↦
              rw (q, a, b)
                (timed_out q a b
                  (fetch_loop-Fetched n none (sleep 1 ∷ http_get client bootfile ∷ h)))
          | inr b ↦ rw (q, a, b) (refused _ q a b)
        ]
      ]
    ]

    -- Where no attempt is answered in time, there is no response.
    fetch_loop-none :
        (n : ℕ) (h : Trace)
        → net.new_request bootfile ≡ done tt
        → ((t : Trace)
            → (e : Fault) × (os.number t (http_get client bootfile) ≡ failed e)
              × (net.is_timeout (external e) ≡ true))
        → (fetch_loop net os flags n client bootfile none h).0 ≡ ok none
    unfolding fetch_loop handle lift pure note call_number ◌>>=◌
    fetch_loop-none zero h q late = refl
    fetch_loop-none (suc n) h q late =
        let (e, a, b) = late h in
        rw (q, a, b) (fetch_loop-none n (sleep 1 ∷ http_get client bootfile ∷ h) q late)

    -- Where each attempt to fetch the boot file times out, `boot` panics behind the attempts.
    pub fetch-panic :
        (h : Trace)
        → net.new_request bootfile ≡ done tt
        → ((t : Trace)
            → (e : Fault) × (os.number t (http_get client bootfile) ≡ failed e)
              × (net.is_timeout (external e) ≡ true))
        → ((fetch_loop net os flags max_http_attempts client bootfile none
              >>= use_response net os flags bootfile)
            h).0
          ≡ panic
    unfolding ◌>>=◌ handle use_response crash
    fetch-panic h q late = rw (fetch_loop-none max_http_attempts h q late) refl
