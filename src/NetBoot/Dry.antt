-- ===== src/NetBoot/Dry.antt =====
-- The dry run of the network boot.
use systemboot.Base.{ℕ, suc, ◌≡◌, refl, sym, [], ◌∷◌, Bool, true, false, if◌then◌else◌}
use systemboot.Platform.{
  Platform, Trace, Event, configure_interface, kexec_file_load, multiboot_load, kexec_reboot,
}
use systemboot.Platform.Rules.{Only-any}
use systemboot.NetBoot.{Flags, Net}
use systemboot.NetBoot.Keeping.{is_harmless, netboot-Keeps, use_response-Keeps}
use systemboot.NetBoot.Command.{netboot}

-- The calls that configure an interface, and those that load a kernel or start it.
abbrev pub is_effect : Event → Bool
is_effect (configure_interface ifname conf) = true
is_effect (kexec_file_load kernel initramfs args) = true
is_effect (multiboot_load path args modules) = true
is_effect kexec_reboot = true
is_effect e = false

abbrev pub effects : Trace → ℕ
effects [] = 0
effects (e ∷ h) = if is_effect e then suc (effects h) else effects h

harmless_no_effect : (e : Event) → is_harmless e ≡ true → is_effect e ≡ false
harmless_no_effect (configure_interface ifname conf) r = sym r
harmless_no_effect (kexec_file_load kernel initramfs args) r = sym r
harmless_no_effect (multiboot_load path args modules) r = sym r
harmless_no_effect kexec_reboot r = sym r
harmless_no_effect e r = refl

harmless-effects :
    (n : ℕ) (e : Event) → is_harmless e ≡ true → (h : Trace) → effects h ≡ n → effects (e ∷ h) ≡ n
harmless-effects n e r h p = rw (harmless_no_effect e r) p

-- With `-dryrun` the command configures no interface, loads no kernel and does not reboot, whatever
-- the other flags are and whatever the network and the machine answer.
pub netboot-effects :
    (net : Net) (os : Platform) (flags : Flags) (h : Trace)
    → flags.dry_run ≡ true
    → effects (netboot net os flags h).1 ≡ effects h
netboot-effects net os flags h dry =
    let P : Trace → Type 0 = λ t. effects t ≡ effects h in
    let harmless = harmless-effects (effects h) in
    (netboot-Keeps P net os flags harmless (λ d. cc) (λ _. Unit {0}) (λ c url t k p. p)
        (λ url. Only-any _) (use_response-Keeps P net os flags harmless (λ d. cc) (λ d. cc))).at
      h refl
