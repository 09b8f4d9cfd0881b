-- ===== src/Cmd.antt =====
-- cmd: the two programs. The parse of the flags, the environment, the file system and the standard
-- streams are arguments.
pub mod Fetch
pub mod Cells
pub mod Server
pub mod Layers
pub mod Tests
