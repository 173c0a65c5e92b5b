-- ===== src/Vpd/Store/Memory.antt =====
-- A store of files in memory, which keeps the contract of a file store.
use systemboot.Base.{
  ◌≡◌, ◌≢◌, refl, ap, [], ◌∷◌, Bool-cases, inl, inr, if◌then◌else◌, Bytes, equal, equal_iff,
  equal_refl, not_exist,
}
use systemboot.Platform.{Platform, Trace, Event, Answer, done, failed, read_file, write_file}
use systemboot.Platform.Devices.{unknown}
use systemboot.Vpd.Store.{IsFileStore}

-- What a file reads as, by the latest write to it.
unfoldable pub stored : Trace → Bytes → Answer Bytes
unfolding equal
stored [] path = failed not_exist
stored (write_file p content ∷ h) path =
    let rest = stored h path in if equal p path then done content else rest
stored (e ∷ h) path = stored h path

abbrev pub memory_text : Trace → Event → Answer Bytes
memory_text h (read_file path) = stored h path
memory_text h e = failed not_exist

-- Every other call succeeds.
abbrev pub memory : Platform
memory = record {
  unit = λ h e. done tt;
  number = λ h e. done 3;
  text = memory_text;
  texts = λ h e. done [];
  table = λ h e. done [];
  link = λ h e. failed not_exist;
  interfaces = λ h e. done [];
  addresses = λ h e. done [];
  tree = λ h e. unknown [] not_exist;
}

stored-other :
    (h : Trace) (e : Event) (path : Bytes)
    → ((content : Bytes) → e ≢ write_file path content)
    → stored (e ∷ h) path ≡ stored h path
unfolding stored
stored-other h (write_file p content) path n = elim (Bool-cases (equal p path)) [
  | inl e ↦ absurd (n content (ap (λ q. write_file q content) ((equal_iff p path).0 e)))
  | inr e ↦ rw e refl
]
stored-other h e path n = refl

stored-written :
    (h : Trace) (path content : Bytes) → stored (write_file path content ∷ h) path ≡ done content
unfolding stored
stored-written h path content = rw (equal_refl path) refl

pub memory-IsFileStore : IsFileStore memory
memory-IsFileStore = record {
  read_written = λ h path content e. stored-written h path content;
  read_other = stored-other;
}
