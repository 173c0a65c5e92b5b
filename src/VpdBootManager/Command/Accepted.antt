-- ===== src/VpdBootManager/Command/Accepted.antt =====
-- The entries that the tool accepts.
use systemboot.Base.{
  ◌≡◌, refl, List, [], ◌∷◌, Option, none, some, true, false, not, ◌&&◌, Bool-cases, ◌⊎◌, inl, inr,
  Bytes, bytes, equal, Error,
}
use systemboot.Platform.Monad.{lift, from_answer}
use systemboot.Platform.Rules.{Only, Only-pure, Only-raise, Only-if, Only-bind, Only-any}
use systemboot.Booter.{Booter, net, local, null, NetBooter, LocalBooter, net_command, local_command}
use systemboot.VpdBootManager.Command.{
  Tools, Parsed, NetFlags, LocalFlags, with_local_flags, with_net_flags, path_arguments,
  local_booter, parse_localboot_flags, parse_netboot_flags, netboot_entry, localboot_entry,
  parse_entry,
}

abbrev pub IsCommand : List Bytes ⊎ Error → Type 0
IsCommand (inl cmd) = Unit {0}
IsCommand (inr e) = ⊥

-- The booter of the entry has a command to run, and the type that its parser asks for.
abbrev pub IsBootable : Booter → Type 0
IsBootable (net nb) = (nb.type ≡ bytes "netboot") × IsCommand (net_command nb)
IsBootable (local lb) = (lb.type ≡ bytes "localboot") × IsCommand (local_command lb)
IsBootable null = ⊥

abbrev pub Accepts : Parsed → Type 0
Accepts p = IsBootable p.entry

net-IsCommand :
    (nb : NetBooter)
    → (not (equal nb.method (bytes "dhcpv4")) && not (equal nb.method (bytes "dhcpv6"))) ≡ false
    → IsCommand (net_command nb)
unfolding net_command
net-IsCommand nb e = elim (Bool-cases (equal nb.method (bytes "dhcpv6"))) [
  | inl q ↦ rw q tt
  | inr q ↦ elim (Bool-cases (equal nb.method (bytes "dhcpv4"))) [
    | inl r ↦ rw (q, r) tt
    | inr r ↦ cc
  ]
]

grub-IsCommand :
    (lb : LocalBooter) → equal lb.method (bytes "grub") ≡ true → IsCommand (local_command lb)
unfolding local_command
grub-IsCommand lb e = rw e tt

path-IsCommand :
    (lb : LocalBooter)
    → equal lb.method (bytes "grub") ≡ false
    → equal lb.method (bytes "path") ≡ true
    → IsCommand (local_command lb)
unfolding local_command
path-IsCommand lb e q = rw (e, q) tt

module _ (tools : Tools) (default_dir : Bytes) where
  with_net_flags-Accepts :
      (method mac : Bytes) (flags : Option NetFlags)
      → (not (equal method (bytes "dhcpv4")) && not (equal method (bytes "dhcpv6"))) ≡ false
      → Only Accepts (with_net_flags tools default_dir method mac flags)
  with_net_flags-Accepts method mac none e = Only-raise _ _
  with_net_flags-Accepts method mac (some flg) e = Only-pure _ _ (refl, net-IsCommand _ e)

  parse_netboot-Accepts :
      (method mac : Bytes) (args : List Bytes)
      → Only Accepts (parse_netboot_flags tools default_dir method mac args)
  unfolding parse_netboot_flags
  parse_netboot-Accepts method mac args =
      Only-if _ (not (equal method (bytes "dhcpv4")) && not (equal method (bytes "dhcpv6"))) _ _
        (λ _. Only-raise _ _)
        (λ e.
          Only-bind (λ _. Unit {0}) Accepts (lift (from_answer (tools.parse_mac mac))) _
            (Only-any _)
            (λ _ _. with_net_flags-Accepts method mac (tools.parse_net default_dir args) e))

  with_grub_flags-Accepts :
      (method guid kernel : Bytes) (flags : Option LocalFlags)
      → equal method (bytes "grub") ≡ true
      → Only Accepts (
          with_local_flags tools default_dir
            (local_booter tools default_dir method guid kernel)
            flags)
  with_grub_flags-Accepts method guid kernel none e = Only-raise _ _
  with_grub_flags-Accepts method guid kernel (some flg) e = Only-pure _ _ (refl, grub-IsCommand _ e)

  path_arguments-Accepts :
      (method : Bytes) (args : List Bytes)
      → equal method (bytes "grub") ≡ false
      → equal method (bytes "path") ≡ true
      → Only Accepts (path_arguments tools default_dir method args)
  path_arguments-Accepts method [] e q = Only-raise _ _
  path_arguments-Accepts method (guid ∷ []) e q = Only-raise _ _
  path_arguments-Accepts method (guid ∷ kernel ∷ args) e q =
      parsed (tools.parse_local default_dir args)
    where
      parsed :
          (flags : Option LocalFlags)
          → Only Accepts (
              with_local_flags tools default_dir
                (local_booter tools default_dir method guid kernel)
                flags)
      parsed none = Only-raise _ _
      parsed (some flg) = Only-pure _ _ (refl, path-IsCommand _ e q)

  parse_localboot-Accepts :
      (method : Bytes) (args : List Bytes)
      → Only Accepts (parse_localboot_flags tools default_dir method args)
  unfolding parse_localboot_flags
  parse_localboot-Accepts method args =
      Only-if _ (equal method (bytes "grub")) _ _
        (λ e. with_grub_flags-Accepts method [] [] (tools.parse_local default_dir args) e)
        (λ e.
          Only-if _ (equal method (bytes "path")) _ _ (λ q. path_arguments-Accepts method args e q)
            (λ _. Only-raise _ _))

  netboot_entry-Accepts : (args : List Bytes) → Only Accepts (netboot_entry tools default_dir args)
  netboot_entry-Accepts [] = Only-raise _ _
  netboot_entry-Accepts (method ∷ []) = Only-raise _ _
  netboot_entry-Accepts (method ∷ mac ∷ args) = parse_netboot-Accepts method mac args

  localboot_entry-Accepts :
      (args : List Bytes) → Only Accepts (localboot_entry tools default_dir args)
  localboot_entry-Accepts [] = Only-raise _ _
  localboot_entry-Accepts (method ∷ args) = parse_localboot-Accepts method args

  -- Each entry that `add` accepts, whatever its arguments, has the type that the parser for its kind
  -- of booter asks for, and a method for which the booter has a command to run.
  pub parse_entry-Accepts :
      (entrytype : Bytes) (args : List Bytes)
      → Only Accepts (parse_entry tools default_dir entrytype args)
  unfolding parse_entry
  parse_entry-Accepts entrytype args =
      Only-if _ (equal entrytype (bytes "netboot")) _ _ (λ _. netboot_entry-Accepts args)
        (λ _.
          Only-if _ (equal entrytype (bytes "localboot")) _ _ (λ _. localboot_entry-Accepts args)
            (λ _. Only-raise _ _))
