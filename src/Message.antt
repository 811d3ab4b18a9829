-- ===== src/Message.antt =====
-- braid/src/service/.../message: headers, the table of handlers, and send buffers.
pub mod Header
pub mod Dispatcher
pub mod SendBuffer
pub mod Tests
