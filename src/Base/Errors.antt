-- ===== src/Base/Errors.antt =====
-- The error values that the code creates, one constructor for each message.
use Prim.Native.Nat.{ℕ}
use systemboot.Base.Strings.{Bytes}

-- The errors that a call outside the repository returns; `os.IsNotExist` knows the first.
pub data Fault : Type 0 where
  not_exist : Fault
  fault : ℕ → Fault

pub data Error : Type 0 where
  external : Fault → Error
  end_of_file : Error
  invalid_index : Error
  unexpected_return_from_reboot : Error
  multiboot_load_error : Error → Error
  too_few_fields : ℕ → Error
  parse_uint_syntax : Bytes → Error
  parse_uint_range : Bytes → Error
  no_free_entry : Error
  bad_pem : Error
  short_signature : Error
  bad_signature : Bytes → Error
  no_manifest : Error
  wrong_type : Bytes → Error
  unknown_method : Bytes → Error
  command_failed : Error → Error
  exited : ℕ → Error
  message : Bytes → Error
  wrapped : Bytes → Error → Error
