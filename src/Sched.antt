-- ===== src/Sched.antt =====
-- pkg/stam/sched.c, the threads of the kernel and who runs next.
pub mod State
pub mod Switch
pub mod Create
pub mod Block
pub mod Wait
pub mod Scan
pub mod Exclusive
pub mod Keep
pub mod Signals
pub mod Waking
pub mod Collect
pub mod Stale
mod Tests
