-- ===== src/NetBoot/Started.antt =====
-- Which kernels the command loads.
use systemboot.Base.{
  ℕ, ◌≡◌, [], ◌∷◌, Option, none, some, true, not, if◌then◌else◌, inl, inr, Bytes, bytes, Fault,
  wrapped,
}
use systemboot.Platform.{
  Platform, Trace, Event, done, failed, tpm_open, tpm_measure, tpm_close, read_body, write_file,
  open_file, kexec_file_load, kexec_reboot,
}
use systemboot.Platform.Monad.{pure, handle, call, call_text, ◌>>=◌, ◌>>◌, Answer-cases}
use systemboot.Platform.Rules.{
  Keeps, Keeps-bind, Keeps-finally, Keeps-if, Keeps-handle, Keeps-call, Keeps-pure, Keeps-raise,
  Keeps-lift, Keeps-crash, keeps_rules, Leads, Leads-of_Keeps, Leads-bind, Leads-if,
  Leads-bind_Gives, Keeps-bind_Gives, Gives-call, Gives-call_text, Gives-call_number, Gives-handle,
  Only-any,
}
use systemboot.Crypto.Measure.{boot_config_pcr, ignore, try_measure_data}
use systemboot.NetBoot.{Flags, Net, Url}
use systemboot.NetBoot.Boot.{in_context, boot_file_name, kexec_into, save_and_start, use_response}
use systemboot.NetBoot.Calls.{in_context-Keeps}
use systemboot.NetBoot.Keeping.{is_harmless, netboot-Keeps}
use systemboot.NetBoot.Command.{netboot}

module _ (os : Platform) where
  -- The steps that lead to a kernel, each behind the one before: the body of a response was read; it
  -- was measured, or the TPM could not be opened; it was written to a file with success; and this
  -- file was opened, with the handle `fd`.
  pub data BodyRead (body : Bytes) : Trace → Type 0 where
    read : {h : Trace} → os.text h read_body ≡ done body → BodyRead body (read_body ∷ h)
    read_before : {h : Trace} (e : Event) → BodyRead body h → BodyRead body (e ∷ h)

  pub data BodyRecorded (body : Bytes) : Trace → Type 0 where
    by_tpm :
        {h : Trace} → BodyRead body h → BodyRecorded body (tpm_measure boot_config_pcr body ∷ h)
    no_tpm :
        {e : Fault} {h : Trace}
        → os.unit h tpm_open ≡ failed e
        → BodyRead body h
        → BodyRecorded body (tpm_open ∷ h)
    recorded_before : {h : Trace} (e : Event) → BodyRecorded body h → BodyRecorded body (e ∷ h)

  pub data Saved (body filename : Bytes) : Trace → Type 0 where
    saved :
        {h : Trace}
        → os.unit h (write_file filename body) ≡ done tt
        → BodyRecorded body h
        → Saved body filename (write_file filename body ∷ h)
    saved_before : {h : Trace} (e : Event) → Saved body filename h → Saved body filename (e ∷ h)

  pub data Reopened (body filename : Bytes) (fd : ℕ) : Trace → Type 0 where
    opened :
        {h : Trace}
        → os.number h (open_file filename) ≡ done fd
        → Saved body filename h
        → Reopened body filename fd (open_file filename ∷ h)
    opened_before :
        {h : Trace} (e : Event) → Reopened body filename fd h → Reopened body filename fd (e ∷ h)

  -- Each kernel so far was loaded behind these steps.
  abbrev pub AllFetched : Trace → Type 0
  AllFetched [] = Unit {0}
  AllFetched (kexec_file_load kernel initramfs args ∷ h) =
      ((body : Bytes) × (filename : Bytes) × Reopened body filename kernel h) × AllFetched h
  AllFetched (_ ∷ h) = AllFetched h

  harmless-AllFetched :
      (e : Event) → is_harmless e ≡ true → (h : Trace) → AllFetched h → AllFetched (e ∷ h)
  harmless-AllFetched (kexec_file_load kernel initramfs args) r h p = cc
  harmless-AllFetched e r h p = p

  -- A step that stays, with the kernels so far.
  abbrev With : (Trace → Type 0) → Trace → Type 0
  With S h = S h × AllFetched h

  With-harmless :
      (S : Trace → Type 0)
      → ((e : Event) (h : Trace) → S h → S (e ∷ h))
      → (e : Event) → is_harmless e ≡ true
      → (h : Trace) → With S h
      → With S (e ∷ h)
  With-harmless S k e r h (s, f) = (k e h s, harmless-AllFetched e r h f)

  module _ (net : Net) (flags : Flags) where
    ruleset net_rules = (keeps_rules, Keeps-finally, Keeps-if)

    loads_and_reboots :
        (body filename : Bytes) (fd : ℕ)
        → Leads (With (Reopened body filename fd)) AllFetched (
            in_context (bytes "DHCP: kexec.FileLoad failed") (call os (kexec_file_load fd none []))
            >> in_context (bytes "DHCP: kexec.Reboot failed") (call os kexec_reboot))
    loads_and_reboots body filename fd =
        let S : Trace → Type 0 = Reopened body filename fd in
        Leads-of_Keeps _
          (Keeps-bind (With S) _ _
            (in_context-Keeps (With S) _ _ (
              Keeps-call (With S) os _ (λ h (s, f). (opened_before _ s, ((body, filename, s), f)))))
            (λ _.
              in_context-Keeps (With S) _ _
                (Keeps-call (With S) os _ (λ h (s, f). (opened_before _ s, f)))))
          (λ h k. k.1)

    kexec_into-Leads :
        (body filename : Bytes)
        → Leads (With (Saved body filename)) AllFetched (kexec_into net os flags filename)
    unfolding kexec_into
    kexec_into-Leads body filename =
        Leads-bind_Gives (With (Saved body filename)) (λ fd. With (Reopened body filename fd))
          AllFetched _ _
          (Gives-handle _ _ _ (wrapped _) (
            Gives-call_number _ _ os _ (λ fd h a (s, f). (opened a s, f))
              (λ h (s, f). (saved_before _ s, f))))
          (λ h k. k.1) (loads_and_reboots body filename)

    write_and_start-Leads :
        (body filename : Bytes)
        → Leads (With (BodyRecorded body)) AllFetched (
            in_context (bytes "DHCP: cannot write to file") (call os (write_file filename body))
            >> (if not flags.dry_run then kexec_into net os flags filename else pure tt))
    write_and_start-Leads body filename =
        Leads-bind_Gives (With (BodyRecorded body)) (λ _. With (Saved body filename)) AllFetched _ _
          (Gives-handle _ _ _ (wrapped _) (
            Gives-call _ _ os _ (λ h a (s, f). (saved a s, f))
              (λ h (s, f). (recorded_before _ s, f))))
          (λ h k. k.1)
          (λ _.
            Leads-if (not flags.dry_run) _ _ (kexec_into-Leads body filename)
              (Leads-of_Keeps _ (Keeps-pure (With (Saved body filename)) tt) (λ h k. k.1)))

    boot_file_name-Keeps : {P : Trace → Type 0} (u : Url) → Keeps P (boot_file_name net os flags u)
    unfolding boot_file_name
    boot_file_name-Keeps u = search net_rules

    save_and_start-Leads :
        (url body : Bytes)
        → Leads (With (BodyRecorded body)) AllFetched (save_and_start net os flags url body)
    unfolding save_and_start
    save_and_start-Leads url body =
        let S : Trace → Type 0 = With (BodyRecorded body) in
        Leads-bind {Q = S} {R = AllFetched} {P = S} _ _
          (Leads-of_Keeps _ (in_context-Keeps S _ _ (Keeps-lift S _)) (λ h k. k)) (λ h k. k.1)
          (λ u.
            Leads-bind {Q = S} {R = AllFetched} {P = S} _ _
              (Leads-of_Keeps _ (boot_file_name-Keeps {P = S} u) (λ h k. k)) (λ h k. k.1)
              (λ filename. write_and_start-Leads body filename))

    closing-Keeps :
        (body : Bytes) → Keeps (With (BodyRecorded body)) (ignore os (call os tpm_close))
    closing-Keeps body =
        let S : Trace → Type 0 = With (BodyRecorded body) in
        Keeps-handle S _ _ _ (Keeps-call S os _ (λ h (s, f). (recorded_before _ s, f)))
          (Keeps-pure S) (λ _. Keeps-pure S _)

    measure-Leads :
        (body : Bytes)
        → Leads
            (With (BodyRead body))
            (With (BodyRecorded body))
            (try_measure_data os boot_config_pcr body)
    unfolding try_measure_data handle ◌>>=◌ call pure
    measure-Leads body = record {
      at = λ h (s, f). elim (Answer-cases (os.unit h tpm_open)) [
        | inr (e, q) ↦ rw q (no_tpm q s, f)
        | inl (_, q) ↦
            rw q (elim (Answer-cases (os.unit (tpm_open ∷ h) (tpm_measure boot_config_pcr body))) [
              | inl (_, a) ↦ rw a ((closing-Keeps body).at _ (by_tpm (read_before tpm_open s), f))
              | inr (_, a) ↦ rw a ((closing-Keeps body).at _ (by_tpm (read_before tpm_open s), f))
            ])
      ];
    }

    read_and_start-Keeps :
        (url : Bytes)
        → Keeps AllFetched (
            in_context
              (bytes "DHCP: cannot read boot file from the network")
              (call_text os read_body)
            >>= λ body.
                try_measure_data os boot_config_pcr body >> save_and_start net os flags url body)
    read_and_start-Keeps url =
        Keeps-bind_Gives AllFetched (λ body. With (BodyRead body)) _ _
          (Gives-handle _ _ _ (wrapped _)
            (Gives-call_text _ _ os _ (λ body h a f. (read a, f)) (λ h f. f)))
          (λ body.
            Leads-bind {Q = With (BodyRecorded body)} {R = AllFetched} {P = With (BodyRead body)} _
              _ (measure-Leads body) (λ h k. k.1) (λ _. save_and_start-Leads url body))

    use_response-Keeps :
        (url : Bytes) (resp : Option ℕ) → Keeps AllFetched (use_response net os flags url resp)
    unfolding use_response
    use_response-Keeps url none = Keeps-crash AllFetched
    use_response-Keeps url (some status) =
        Keeps-finally AllFetched _ _
          (Keeps-if AllFetched _ _ _ (Keeps-raise AllFetched _) (read_and_start-Keeps url))
          (λ h f. f)

    -- Whatever the flags are and whatever the network and the machine answer, each kernel that the
    -- command loads comes from a file that it has opened, to which it has written, with success, a
    -- body that it had read from the network, behind the measurement of this body or behind the
    -- failure to open the TPM for it.
    pub netboot-AllFetched : (h : Trace) → AllFetched h → AllFetched (netboot net os flags h).1
    netboot-AllFetched h f =
        (netboot-Keeps AllFetched net os flags harmless-AllFetched (λ _ _ _ h f. f) (λ _. Unit {0})
            (λ c url h k f. f) (λ url. Only-any _) use_response-Keeps).at
          h f
