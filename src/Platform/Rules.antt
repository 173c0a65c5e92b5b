-- ===== src/Platform/Rules.antt =====
-- Rules for code that makes calls, one for each way to build such code.
mod Ends
mod Invariants
mod Outputs
mod Postconditions
mod Values
pub use Ends.*
pub use Postconditions.*
pub use Invariants.*
pub use Outputs.*
pub use Values.*
