-- ===== src/Memory/Chunk.antt =====
-- braid/src/memory/include/braid/memory/MemoryChunk.h: room for `count_` objects at an address.
-- `next_` is the place of the chunk in the pool's list.
use first_server.Common.{ℕ, ◌+◌, ◌*◌, Option, none, some, if◌then◌else◌, leb}

pub record MemoryChunk : Type 0 where
  pub count : ℕ
  pub memory : ℕ

-- `sizeof(T)` is a parameter.
unfoldable pub get_slot : ℕ → MemoryChunk → ℕ → Option ℕ
get_slot sizeof_t c index = if leb c.count index then none else some (c.memory + sizeof_t * index)
