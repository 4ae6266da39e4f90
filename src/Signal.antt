-- ===== src/Signal.antt =====
-- pkg/stam/signal.c, running a signal handler in a program and coming back from it.
pub mod Frame
pub mod Calls
pub mod Resume
pub mod Kill
mod Tests
