-- ===== src/Archive.antt =====
-- Archives in the newc format: pkg/stam/cpio.c, which finds a file in one, and pkg/vcpio/vcpio.c, which
-- writes and extracts them.
pub mod Reader
pub mod Writer
pub mod Extract
pub mod Holds
pub mod Digits
pub mod Written
pub mod Find
pub mod Bounds
pub mod Components
mod Tests
