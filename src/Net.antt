-- ===== src/Net.antt =====
-- braid/src/service/.../net: what a connection keeps, and the io_uring operations over it.
pub mod Object
pub mod Uring
pub mod Tests
