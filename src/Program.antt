-- ===== src/Program.antt =====
-- Programs as pkg/stam/elf.c loads them and as pkg/sav/src/elf.c writes them.
pub mod Manifest
pub mod Note
pub mod Loader
pub mod Little
pub mod Enforced
pub mod Room
pub mod Segments
mod Tests
