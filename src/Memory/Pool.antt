-- ===== src/Memory/Pool.antt =====
-- braid/src/memory/include/braid/memory/ObjectPool.h: slots for objects of one type.
-- A slot is its address. A call runs on the shared part of the pool and on the calling thread's
-- cache. What the rest of the program does meanwhile is not part of a call, but the state in which
-- it starts is any: another thread may hold the `allocating_` flag.
-- What `operator new` gives is an argument (`none`: it throws), and so is whether the constructor
-- of the object returns. A write past the end of the local array `batch` is the result `none`.
pub mod Count
pub mod Overrun
pub mod Bounds
pub mod Client
use first_server.Common.{
  ℕ, zero, suc, ◌+◌, ◌-◌, ◌*◌, ◌%◌, ◌^◌, List, [], ◌∷◌, ◌++◌, Option, none, some, Bool, true, false,
  if◌then◌else◌, ltb, length,
}
use first_server.Lockfree.{LockfreeQueue}
use first_server.Memory.Chunk.{MemoryChunk, get_slot}
use first_server.Memory.Cache.{
  ThreadLocalCache, new_cache, try_acquire, try_release, should_batch_return, extract_batch,
  add_batch,
}

abbrev pub default_initial_count : ℕ
default_initial_count = 128

abbrev pub default_chunk_size : ℕ
default_chunk_size = 128

abbrev pub default_tls_cache_size : ℕ
default_tls_cache_size = 32

abbrev pub default_batch_size : ℕ
default_batch_size = 16

pub record Config : Type 0 where
  pub initial_count : ℕ
  pub chunk_size : ℕ
  pub tls_cache_size : ℕ
  pub batch_size : ℕ

module _ (Q : LockfreeQueue ℕ) (sizeof_t : ℕ) where
  open Q use {Queue, push, pop}

  pub record ObjectPool : Type 0 where
    pub chunk_size : ℕ
    pub tls_cache_size : ℕ
    pub batch_size : ℕ
    pub free_queue : Queue
    -- from `chunk_head_` on
    pub chunks : List MemoryChunk
    pub total_allocated : ℕ
    pub allocating : Bool
    -- the calling thread's `tls_cache`; `none` before its first use
    pub tls_cache : Option ThreadLocalCache

  unfoldable pub get_tls_cache : ObjectPool → ThreadLocalCache
  get_tls_cache p = elim p.tls_cache [ none ↦ new_cache p.tls_cache_size p.batch_size | some c ↦ c ]

  -- `n` slots from `index` on
  unfoldable pub push_slots : MemoryChunk → ℕ → ℕ → Queue → Queue
  push_slots chunk zero index q = q
  push_slots chunk (suc n) index q = elim (get_slot sizeof_t chunk index) [
    | none ↦ push_slots chunk n (index + 1) q
    | some slot ↦ push_slots chunk n (index + 1) (push slot q).1
  ]

  unfoldable pub allocate_chunk : ℕ → Option ℕ → ObjectPool → Bool × ObjectPool
  unfolding push_slots
  allocate_chunk count memory p = if p.allocating then (false, p) else elim memory [
    | none ↦ (false, record p { allocating = false })
    | some address ↦
        let chunk : MemoryChunk = record { count = count; memory = address } in
        (
          true,
          record p {
            free_queue = push_slots chunk count 0 p.free_queue;
            chunks = chunk ∷ p.chunks;
            total_allocated = (p.total_allocated + count) % 2 ^ 64;
            allocating = false;
          },
        )
  ]

  -- `rounds` more tries to fill `batch`; a slot that finds no place in the array is a fault
  unfoldable pub steal : ℕ → List ℕ → Queue → Option (List ℕ × Queue)
  steal zero batch q = some (batch, q)
  steal (suc rounds) batch q = elim (pop q) [
    | none ↦ some (batch, q)
    | some (obj, q') ↦
        let rest = steal rounds (batch ++ (obj ∷ [])) q' in
        if ltb (length batch) default_batch_size then rest else none
  ]

  unfoldable pub batch_steal_from_central : ObjectPool → Option (Option ℕ × ObjectPool)
  unfolding steal get_tls_cache
  batch_steal_from_central p = elim (steal p.batch_size [] p.free_queue) [
    | none ↦ none
    | some ([], q) ↦ some (none, record p { free_queue = q })
    | some (result ∷ more, q) ↦ some (
      some result,
      record p { free_queue = q; tls_cache = some (add_batch more (get_tls_cache p)) },
    )
  ]

  unfoldable pub push_all : List ℕ → Queue → Queue
  push_all [] q = q
  push_all (obj ∷ batch) q = push_all batch (push obj q).1

  unfoldable pub batch_return_to_central : ObjectPool → ObjectPool
  unfolding push_all get_tls_cache
  batch_return_to_central p =
      let (batch, c) = extract_batch default_batch_size (get_tls_cache p) in
      record p { free_queue = push_all batch p.free_queue; tls_cache = some c }

  -- `for (retry < 20) if (free_queue_.pop(obj)) break;`
  unfoldable pub retry_pop : ℕ → Queue → Option ℕ × Queue
  retry_pop zero q = (none, q)
  retry_pop (suc n) q = elim (pop q) [ none ↦ retry_pop n q | some (obj, q') ↦ (some obj, q') ]

  -- The cache, then the free queue, then a batch from it.
  unfoldable pub take_free : ObjectPool → Option (Option ℕ × ObjectPool)
  unfolding batch_steal_from_central get_tls_cache
  take_free p =
      let (cached, c) = try_acquire (get_tls_cache p) in
      let p' : ObjectPool = record p { tls_cache = some c } in
      elim cached [
        | some obj ↦ some (some obj, p')
        | none ↦ elim (pop p'.free_queue) [
          | some (obj, q) ↦ some (some obj, record p' { free_queue = q })
          | none ↦ batch_steal_from_central p'
        ]
      ]

  -- A new chunk and its first slot, or, where another thread allocates, twenty more tries.
  unfoldable pub take_new : Option ℕ → ObjectPool → Option ℕ × ObjectPool
  take_new memory p =
      let (allocated, p') = allocate_chunk p.chunk_size memory p in
      let (obj, q) = retry_pop (if allocated then 1 else 20) p'.free_queue in
      (obj, record p' { free_queue = q })

  unfoldable pub or_new : Option ℕ → Option ℕ → ObjectPool → Option ℕ × ObjectPool
  or_new memory obj p = elim obj [ some o ↦ (some o, p) | none ↦ take_new memory p ]

  unfoldable pub acquire : Option ℕ → Bool → ObjectPool → Option (Option ℕ × ObjectPool)
  acquire memory constructed p = elim (take_free p) [
    | none ↦ none
    | some (obj, p') ↦
        let (obj', p'') = or_new memory obj p' in
        elim obj' [
          | none ↦ some (none, p'')
          | some o ↦
              if constructed
              then some (some o, p'')
              else some (none, record p'' { free_queue = (push o p''.free_queue).1 })
        ]
  ]

  -- `obj` is `none` for a null pointer.
  unfoldable pub release : Option ℕ → ObjectPool → ObjectPool
  unfolding batch_return_to_central get_tls_cache
  release obj p = elim obj [
    | none ↦ p
    | some o ↦
        let (kept, c) = try_release o (get_tls_cache p) in
        let p' : ObjectPool = record p {
          free_queue = if kept then p.free_queue else (push o p.free_queue).1;
          tls_cache = some c;
        } in
        if should_batch_return c then batch_return_to_central p' else p'
  ]

  -- `ObjectPool(config)`, with an empty free queue
  unfoldable pub new_pool : Config → Queue → Option ℕ → ObjectPool
  unfolding allocate_chunk
  new_pool config empty_queue memory =
      (allocate_chunk config.initial_count memory (record {
        chunk_size = config.chunk_size;
        tls_cache_size = config.tls_cache_size;
        batch_size = config.batch_size;
        free_queue = empty_queue;
        chunks = [];
        total_allocated = 0;
        allocating = false;
        tls_cache = none;
      })).1
