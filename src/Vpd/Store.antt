-- ===== src/Vpd/Store.antt =====
-- The contract of the file system that the variables are kept in.
pub mod Memory
use systemboot.Base.{ℕ, List, [], ◌∷◌, ◌≡◌, ◌≢◌, Bytes}
use systemboot.Platform.{Platform, Trace, Event, Answer, done, failed, read_file, write_file}

-- A file that was written reads back, and no other call changes what a file reads as.
pub record IsFileStore (os : Platform) : Type 0 where
  pub read_written :
      (h : Trace) (path content : Bytes)
      → os.unit h (write_file path content) ≡ done tt
      → os.text (write_file path content ∷ h) (read_file path) ≡ done content
  pub read_other :
      (h : Trace) (e : Event) (path : Bytes)
      → ((content : Bytes) → e ≢ write_file path content)
      → os.text (e ∷ h) (read_file path) ≡ os.text h (read_file path)
