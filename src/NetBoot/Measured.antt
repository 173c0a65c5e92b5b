-- ===== src/NetBoot/Measured.antt =====
-- The boot file is measured before it is started.
use systemboot.Base.{
  ℕ, ◌≡◌, refl, [], ◌∷◌, Option, none, some, Bool, true, false, inl, inr, Bytes, Fault,
}
use systemboot.Platform.{
  Platform, Trace, Event, done, failed, tpm_open, tpm_measure, tpm_close, read_body,
  kexec_file_load,
}
use systemboot.Platform.Monad.{M, Answer-cases, raise, handle, pure, call, call_text, ◌>>=◌, ◌>>◌}
use systemboot.Platform.Rules.{
  Keeps, Keeps-bind, Keeps-call, Keeps-handle, Keeps-if, Keeps-pure, Keeps-raise, Keeps-crash,
  Keeps-finally, bind-Returns,
}
use systemboot.Crypto.Measure.{boot_config_pcr, ignore, try_measure_data, try_measure_data-Returns}
use systemboot.NetBoot.{Flags, Net}
use systemboot.NetBoot.Boot.{in_context, save_and_start, use_response, boot_from, max_http_attempts}
use systemboot.NetBoot.Calls.{
  is_setup, is_saving, in_context-Keeps, get_scheme-Keeps, get_client-Keeps, fetch_loop-Keeps,
  save_and_start-Keeps,
}

abbrev pub is_body : Event → Bool
is_body read_body = true
is_body e = false

module _ (os : Platform) where
  -- The latest body that was read has been measured into the register for boot configurations, or
  -- the TPM could not be opened for it.
  pub data BodyMeasured : Trace → Type 0 where
    no_tpm :
        {body : Bytes} {e : Fault} {h : Trace}
        → os.text h read_body ≡ done body
        → os.unit (read_body ∷ h) tpm_open ≡ failed e
        → BodyMeasured (tpm_open ∷ read_body ∷ h)
    by_tpm :
        {body : Bytes} {h : Trace}
        → os.text h read_body ≡ done body
        → BodyMeasured (tpm_measure boot_config_pcr body ∷ tpm_open ∷ read_body ∷ h)
    later : {h : Trace} (e : Event) → is_body e ≡ false → BodyMeasured h → BodyMeasured (e ∷ h)

  -- Each kernel so far was loaded behind such a measurement.
  abbrev pub InOrder : Trace → Type 0
  InOrder [] = Unit {0}
  InOrder (kexec_file_load kernel initramfs args ∷ h) = BodyMeasured h × InOrder h
  InOrder (_ ∷ h) = InOrder h

  -- With the measurement done.
  abbrev Ready : Trace → Type 0
  Ready h = BodyMeasured h × InOrder h

  setup : (e : Event) → is_setup e ≡ true → (h : Trace) → InOrder h → InOrder (e ∷ h)
  setup (kexec_file_load kernel initramfs args) r h o = cc
  setup e r h o = o

  saving_quiet : (e : Event) → is_saving e ≡ true → is_body e ≡ false
  saving_quiet read_body r = cc
  saving_quiet e r = refl

  saving_order : (e : Event) → is_saving e ≡ true → (h : Trace) → InOrder h → InOrder (e ∷ h)
  saving_order (kexec_file_load kernel initramfs args) r h o = cc
  saving_order e r h o = o

  saving : (e : Event) → is_saving e ≡ true → (h : Trace) → Ready h → Ready (e ∷ h)
  saving e r h (m, o) = (later e (saving_quiet e r) m, saving_order e r h o)

  closing-Keeps : Keeps Ready (ignore os (call os tpm_close))
  closing-Keeps =
      Keeps-handle Ready _ _ _ (Keeps-call Ready os _ (λ h (m, o). (later tpm_close refl m, o)))
        (Keeps-pure Ready) (λ _. Keeps-pure Ready _)

  -- What the body is used for follows its measurement.
  measure-Ready :
      (body : Bytes) (h : Trace)
      → os.text h read_body ≡ done body
      → InOrder h
      → Ready (try_measure_data os boot_config_pcr body (read_body ∷ h)).1
  unfolding try_measure_data handle ◌>>=◌ call pure
  measure-Ready body h b o = elim (Answer-cases (os.unit (read_body ∷ h) tpm_open)) [
    | inr (e, q) ↦ rw q (no_tpm b q, o)
    | inl (_, q) ↦
        rw q
          (elim (Answer-cases
            (os.unit (tpm_open ∷ read_body ∷ h) (tpm_measure boot_config_pcr body))) [
              | inl (_, a) ↦ rw a (closing-Keeps.at _ (by_tpm b, o))
              | inr (_, a) ↦ rw a (closing-Keeps.at _ (by_tpm b, o))
            ])
  ]

  module _ (net : Net) (flags : Flags) where
    abbrev measure_and_start : Bytes → Bytes → M (Unit {0})
    measure_and_start url body =
        try_measure_data os boot_config_pcr body >> save_and_start net os flags url body

    measure_and_start-InOrder :
        (url body : Bytes) (h : Trace)
        → os.text h read_body ≡ done body
        → InOrder h
        → InOrder (measure_and_start url body (read_body ∷ h)).1
    measure_and_start-InOrder url body h b o =
        rw
          (bind-Returns (try_measure_data os boot_config_pcr body)
            (λ _. save_and_start net os flags url body) (read_body ∷ h)
            (try_measure_data-Returns os boot_config_pcr body))
          (((save_and_start-Keeps Ready net os flags saving
              (λ fd h (m, o). (later (kexec_file_load fd none []) refl m, (m, o))) url body).at
            _ (measure-Ready body h b o)).1)

    fetched-InOrder :
        (text url : Bytes)
        → Keeps InOrder (in_context text (call_text os read_body) >>= measure_and_start url)
    unfolding ◌>>=◌ handle call_text pure raise
    fetched-InOrder text url = record {
      at = λ h o. elim (Answer-cases (os.text h read_body)) [
        | inl (body, b) ↦ rw b (measure_and_start-InOrder url body h b o)
        | inr (e, b) ↦ rw b o
      ];
    }

    use_response-InOrder :
        (url : Bytes) (resp : Option ℕ) → Keeps InOrder (use_response net os flags url resp)
    unfolding use_response
    use_response-InOrder url none = Keeps-crash InOrder
    use_response-InOrder url (some status) =
        Keeps-finally InOrder _ _
          (Keeps-if InOrder _ _ _ (Keeps-raise InOrder _) (fetched-InOrder _ url)) (λ h o. o)

    boot_from-Keeps : (url : Bytes) → Keeps InOrder (boot_from net os flags url)
    unfolding boot_from
    boot_from-Keeps url =
        Keeps-bind InOrder _ _ (in_context-Keeps InOrder _ _ (get_scheme-Keeps InOrder net url))
          (λ scheme. Keeps-if InOrder _ _ _ (Keeps-raise InOrder _) (
            Keeps-bind InOrder _ _
              (in_context-Keeps InOrder _ _ (get_client-Keeps InOrder net os flags setup url))
              (λ client.
                Keeps-bind InOrder _ _
                  (fetch_loop-Keeps InOrder net os flags setup max_http_attempts client url none
                    (λ h o. o))
                  (use_response-InOrder url))))

    -- What `boot` does with the URL of a boot file keeps the order: a kernel is loaded only behind
    -- the measurement of the latest body that was read, or behind the failure to open the TPM for it.
    pub boot_from-InOrder :
        (url : Bytes) (h : Trace) → InOrder h → InOrder (boot_from net os flags url h).1
    boot_from-InOrder url h o = (boot_from-Keeps url).at h o
