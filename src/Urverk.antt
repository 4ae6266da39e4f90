-- ===== src/Urverk.antt =====
-- The supervision of services in pkg/urverk/urverk.c.
pub mod Service
pub mod Restarts
mod Tests
