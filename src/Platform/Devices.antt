-- ===== src/Platform/Devices.antt =====
-- What calls about files, disks and network interfaces report.
use systemboot.Base.{ℕ, Bool, Option, Bytes, Fault}
use systemboot.Base.Int.{ℤ}

-- A partition of a GPT table: `IsEmpty`, and the text of its type.
pub record Partition : Type 0 where
  pub is_empty_part : Bool
  pub type_guid : Bytes

-- What ethtool says of a link.
pub record Link : Type 0 where
  pub speed : ℕ
  pub autoneg : ℕ

-- An address of an interface: whether it is a `net.IPNet`, and what its predicates say.
pub record Address : Type 0 where
  pub is_ip_net : Bool
  pub is_link_local_unicast : Bool
  pub is_global_unicast : Bool

-- An interface: its name, and whether the flag `FlagLoopback` is set.
pub record Interface : Type 0 where
  pub name : Bytes
  pub is_loopback : Bool

-- A netboot request by DHCP: the version 6 or 4, the read timeout in seconds, the number of retries,
-- whether the architecture option is EFI_X86_64, and the option for the user class.
pub record DhcpRequest : Type 0 where
  pub v6 : Bool
  pub timeout : ℤ
  pub retries : ℤ
  pub efi_x86_64 : Bool
  pub user_class : Option Bytes

-- How an HTTPS client knows the certificate authorities: nil, `InsecureSkipVerify`, or `RootCAs`. A
-- pool of certificates is a text; no pool and the empty pool are the empty text.
pub data TlsConfig : Type 0 where
  default_config : TlsConfig
  insecure_skip_verify : TlsConfig
  root_cas : Bytes → TlsConfig

-- The HTTP clients.
pub data Client : Type 0 where
  http_client : Client
  https_client : TlsConfig → Client

-- A file tree, as `filepath.Walk` meets it: a file; a directory with its entries in order; a
-- directory whose entries cannot be read; a name that `Lstat` fails on.
mutual
  pub data Tree : Type 0 where
    file : Bytes → Tree
    directory : Bytes → Forest → Tree
    unreadable : Bytes → Fault → Tree
    unknown : Bytes → Fault → Tree

  pub data Forest : Type 0 where
    no_tree : Forest
    tree_and : Tree → Forest → Forest
