-- ===== src/Tcp.antt =====
-- pkg/stam/tcp.c, the transport of the kernel: a table of connections, the segments that arrive
-- for them, and the calls above it.
pub mod State
pub mod Segment
pub mod Input
pub mod Calls
pub mod Transfer
pub mod Sequence
pub mod RoundTrip
pub mod Invariant
pub mod Delivery
pub mod Stream
pub mod Machine
pub mod Handshake
pub mod Isolation
pub mod Progress
mod Tests
