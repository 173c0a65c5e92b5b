-- ===== src/VpdBootManager.antt =====
-- cmds/vpdbootmanager: the tool that writes boot entries.
pub mod Add
pub mod Command
mod Tests
