-- ===== src/Session.antt =====
-- braid/src/service/.../service/ServiceSession: one connection of the service.
pub mod Framing
pub mod Connection
pub mod Stream
pub mod Broadcast
pub mod Tests
