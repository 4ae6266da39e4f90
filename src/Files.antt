-- ===== src/Files.antt =====
-- pkg/stam/file.c, file objects and pipes.
pub mod State
pub mod Objects
pub mod Pipe
pub mod Transfer
pub mod Open
pub mod Getdents
pub mod Ring
pub mod Fifo
pub mod Talk
pub mod Memory
pub mod Stuck
pub mod EndOfFile
pub mod Directory
pub mod Reading
pub mod Entries
pub mod Descriptors
mod Tests
