-- ===== src/Memory.antt =====
-- pkg/stam/mmu.c and pkg/stam/vm.c, the pages of the machine and the address spaces of programs.
pub mod Frames
pub mod Tables
pub mod Spaces
pub mod Weight
pub mod Pool
pub mod Mapped
pub mod Owned
pub mod Copied
pub mod Fork
pub mod Fault
pub mod Access
pub mod Fresh
pub mod Reachable
pub mod Invariant
pub mod Isolation
mod Tests
