-- ===== src/Memory.antt =====
-- braid/src/memory: chunks of raw memory, the cache of free slots that each thread keeps, and the
-- pool that hands slots out as objects.
pub mod Chunk
pub mod Cache
pub mod Pool
pub mod Threads
pub mod Tests
