-- ===== src/Session/Stream.antt =====
-- A connection over time: receives of a session, one after the other, from the bytes that the peer
-- has sent. Each asks for the free end of the buffer (IOOperationRecv.cc), and the kernel gives it
-- some of the next bytes; how many is its own choice.
pub mod Defs
pub mod Laws
pub mod Live
pub mod Stall
pub mod Cut
