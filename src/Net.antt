-- ===== src/Net.antt =====
-- pkg/stam/net.c: byte order, checksums.
pub mod Wire
pub mod Checksum
pub mod Stack
pub mod Datagram
pub mod Ports
pub mod Delivered
pub mod Arp
pub mod Resolve
pub mod Config
pub mod Options
mod Tests
