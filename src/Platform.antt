-- ===== src/Platform.antt =====
-- Calls that leave the program. What such a call returns is chosen by a `Platform` from all the
-- calls made before it, so a theorem about every platform covers every behaviour of the machine.
pub mod Devices
pub mod Monad
pub mod Rules
use systemboot.Base.{ℕ, List, Bool, Option, Bytes, Fault}
use systemboot.Platform.Devices.{Partition, Link, Address, Tree, Interface, DhcpRequest, Client}

-- The flags of `Mount` and `Unmount` in package syscall.
abbrev pub ms_rdonly : ℕ
ms_rdonly = 1

abbrev pub mnt_detach : ℕ
mnt_detach = 2

-- The calls, with their arguments. A file handle is a number.
pub data Event : Type 0 where
  tpm_open : Event
  tpm_measure : ℕ → Bytes → Event
  tpm_close : Event
  open_file : Bytes → Event
  close_file : ℕ → Event
  stat_file : ℕ → Event
  read_at : ℕ → ℕ → ℕ → Event
  read_handle : ℕ → Event
  read_device : ℕ → ℕ → Event
  write_handle : ℕ → Bytes → Event
  read_file : Bytes → Event
  write_file : Bytes → Bytes → Event
  make_dirs : Bytes → Event
  temp_dir : Event
  walk_dir : Bytes → Event
  kexec_file_load : ℕ → Option ℕ → Bytes → Event
  multiboot_probe : Bytes → Event
  multiboot_load : Bytes → Bytes → List Bytes → Event
  kexec_reboot : Event
  seek_file : ℕ → ℕ → Event
  read_gpt : ℕ → Event
  mount : Bytes → Bytes → Bytes → ℕ → Event
  unmount : Bytes → ℕ → Event
  run_command : List Bytes → Event
  sync_disks : Event
  machine_restart : Event
  machine_power_off : Event
  sleep : ℕ → Event
  read_dmesg : Event
  interface_by_name : Bytes → Event
  list_interfaces : Event
  interface_addrs : Bytes → Event
  ethtool_get : Bytes → Event
  interface_up : Bytes → Event
  nonloopback_interfaces : Event
  dhcp_request : Bytes → DhcpRequest → Event
  configure_interface : Bytes → Bytes → Event
  system_cert_pool : Event
  http_get : Client → Bytes → Event
  read_body : Event
  close_body : Event

-- A call returns a value, or an error that the program did not create.
pub data Answer {ℓ} (A : Type ℓ) : Type ℓ where
  done : A → Answer A
  failed : Fault → Answer A

-- The calls so far, the latest first.
abbrev pub Trace : Type 0
Trace = List Event

-- What a call returns, by the kind of its result.
pub record Platform : Type 0 where
  pub unit : Trace → Event → Answer (Unit {0})
  pub number : Trace → Event → Answer ℕ
  pub text : Trace → Event → Answer Bytes
  pub texts : Trace → Event → Answer (List Bytes)
  pub table : Trace → Event → Answer (List Partition)
  pub interfaces : Trace → Event → Answer (List Interface)
  pub link : Trace → Event → Answer Link
  pub addresses : Trace → Event → Answer (List Address)
  pub tree : Trace → Event → Tree
