-- ===== src/Memory/Threads.antt =====
-- braid/src/memory/include/braid/memory/ObjectPool.h, run by several threads at once.
-- A thread goes on by one operation on what the threads share: a `push` or a `pop` of the free
-- queue, a change of the `allocating_` flag, the exchange that puts a chunk into the list, or the
-- counter. Between two of them it only works on its own cache and its local variables, which no
-- other thread sees, so a schedule of such steps is any run of the threads. An exchange that fails
-- changes nothing, and is tried again: it is the step that succeeds that stands here.
-- What `operator new` gives and whether a constructor returns are chosen at each step.
pub mod Holdings
pub mod Balance
pub mod Conserved
pub mod Exclusion
use first_server.Common.{
  ℕ, zero, suc, ◌+◌, ◌%◌, ◌^◌, List, [], ◌∷◌, ◌++◌, Option, none, some, Bool, true, false,
  if◌then◌else◌, get_elem?, set, remove, ltb, length,
}
use first_server.Lockfree.{LockfreeQueue}
use first_server.Memory.Chunk.{MemoryChunk, get_slot}
use first_server.Memory.Cache.{
  ThreadLocalCache, try_acquire, try_release, should_batch_return, extract_batch, add_batch,
}
use first_server.Memory.Pool.{default_batch_size}

-- Where a thread is in `acquire` or `release`: what it does next, with its local variables.
pub data Point : Type 0 where
  idle : Point
  -- `free_queue_.pop(obj)` of `acquire`
  pops : Point
  -- `batch_steal_from_central`: the rounds left, and `batch`
  steals : ℕ → List ℕ → Point
  -- `allocate_chunk`: the flag, the chunk, its slots, the list of chunks, the counter, the flag
  sets_flag : Point
  makes_chunk : Point
  pushes_slots : MemoryChunk → ℕ → ℕ → Point
  links : MemoryChunk → Point
  counts : Point
  clears_flag : Bool → Point
  -- back in `acquire`: `free_queue_.pop(obj)` behind a new chunk, or up to 20 retries
  pops_new : Point
  retries : ℕ → Point
  -- the constructor, and `free_queue_.push(obj)` where it throws
  constructs : ℕ → Point
  puts_back : ℕ → Point
  -- `free_queue_.push(obj)` of `release`, and the test behind it
  pushes_released : ℕ → Point
  tests_cache : Point
  -- `batch_return_to_central`: what is left of `batch`
  pushes_batch : List ℕ → Point
  -- a write past the end of `batch`
  overruns : Point

abbrev pub is_idle : Point → Bool
is_idle idle = true
is_idle _ = false

pub record Worker : Type 0 where
  pub tls_cache : ThreadLocalCache
  pub point : Point

-- What a scheduled thread is to do: begin a call, where it is idle, or go on.
pub data Turn : Type 0 where
  begins_acquire : Turn
  begins_release : ℕ → Turn
  goes_on : Option ℕ → Bool → Turn

module _ (Q : LockfreeQueue ℕ) (sizeof_t chunk_size batch_size : ℕ) where
  open Q use {Queue, push, pop}

  -- What the threads share, with the objects that are out.
  pub record Shared : Type 0 where
    pub free_queue : Queue
    pub chunks : List MemoryChunk
    pub total_allocated : ℕ
    pub allocating : Bool
    pub lent : List ℕ

  abbrev at : Point → Worker → Worker
  at p w = record w { point = p }

  -- `try_acquire`, and the queue if the cache has nothing
  unfoldable pub begin_acquire : Worker → Worker
  begin_acquire w =
      let (obj, c) = try_acquire w.tls_cache in
      elim obj [
        | none ↦ record { tls_cache = c; point = pops }
        | some o ↦ record { tls_cache = c; point = constructs o }
      ]

  -- `try_release`
  unfoldable pub begin_release : ℕ → Worker → Worker
  begin_release o w =
      let (kept, c) = try_release o w.tls_cache in
      record { tls_cache = c; point = if kept then tests_cache else pushes_released o }

  -- The end of `batch_steal_from_central`: nothing, or the first object, with the others in the cache.
  unfoldable pub end_steal : List ℕ → Worker → Worker
  end_steal [] w = at sets_flag w
  end_steal (result ∷ more) w = record {
    tls_cache = add_batch more w.tls_cache;
    point = constructs result;
  }

  -- `should_batch_return`, and the batch that is taken from the cache
  unfoldable pub begin_return : Worker → Worker
  begin_return w =
      let (batch, c) = extract_batch default_batch_size w.tls_cache in
      if should_batch_return w.tls_cache
      then record { tls_cache = c; point = pushes_batch batch }
      else at idle w

  -- A pop, and where the thread goes with an object and without.
  unfoldable pub pop_step : (ℕ → Worker) → Worker → Shared → Worker × Shared
  pop_step found lost s = elim (pop s.free_queue) [
    | none ↦ (lost, s)
    | some (o, q) ↦ (found o, record s { free_queue = q })
  ]

  abbrev pushed : ℕ → Shared → Shared
  pushed o s = record s { free_queue = (push o s.free_queue).1 }

  -- A step of a thread that is in a call.
  unfoldable pub go_on : Option ℕ → Bool → Point → Worker → Shared → Worker × Shared
  unfolding end_steal begin_return pop_step
  go_on memory constructed idle w s = (w, s)
  go_on memory constructed pops w s =
      pop_step (λ o. at (constructs o) w) (at (steals batch_size []) w) s
  go_on memory constructed (steals zero batch) w s = (end_steal batch w, s)
  go_on memory constructed (steals (suc n) batch) w s =
      pop_step
        (λ o.
          at
            (if ltb (length batch) default_batch_size
              then steals n (batch ++ (o ∷ []))
              else overruns)
            w)
        (end_steal batch w) s
  go_on memory constructed sets_flag w s =
      if s.allocating
      then (at (retries 20) w, s)
      else (at makes_chunk w, record s { allocating = true })
  go_on none constructed makes_chunk w s = (at (clears_flag false) w, s)
  go_on (some address) constructed makes_chunk w s =
      (at (pushes_slots (record { count = chunk_size; memory = address }) 0 chunk_size) w, s)
  go_on memory constructed (pushes_slots chunk index zero) w s = (at (links chunk) w, s)
  go_on memory constructed (pushes_slots chunk index (suc n)) w s = (
    at (pushes_slots chunk (index + 1) n) w,
    elim (get_slot sizeof_t chunk index) [ none ↦ s | some slot ↦ pushed slot s ],
  )
  go_on memory constructed (links chunk) w s = (at counts w, record s { chunks = chunk ∷ s.chunks })
  go_on memory constructed counts w s = (
    at (clears_flag true) w,
    record s { total_allocated = (s.total_allocated + chunk_size) % 2 ^ 64 },
  )
  go_on memory constructed (clears_flag made) w s =
      (at (if made then pops_new else retries 20) w, record s { allocating = false })
  go_on memory constructed pops_new w s = pop_step (λ o. at (constructs o) w) (at idle w) s
  go_on memory constructed (retries zero) w s = (at idle w, s)
  go_on memory constructed (retries (suc n)) w s =
      pop_step (λ o. at (constructs o) w) (at (retries n) w) s
  go_on memory true (constructs o) w s = (at idle w, record s { lent = o ∷ s.lent })
  go_on memory false (constructs o) w s = (at (puts_back o) w, s)
  go_on memory constructed (puts_back o) w s = (at idle w, pushed o s)
  go_on memory constructed (pushes_released o) w s = (at tests_cache w, pushed o s)
  go_on memory constructed tests_cache w s = (begin_return w, s)
  go_on memory constructed overruns w s = (w, s)
  go_on memory constructed (pushes_batch []) w s = (at idle w, s)
  go_on memory constructed (pushes_batch (o ∷ batch)) w s = (at (pushes_batch batch) w, pushed o s)

  -- A call begins where the thread is idle; the object to release is a place of those that are out.
  unfoldable pub begin : Turn → Worker → Shared → Worker × Shared
  unfolding begin_acquire begin_release
  begin (goes_on memory constructed) w s = (w, s)
  begin begins_acquire w s = (begin_acquire w, s)
  begin (begins_release i) w s = elim (get_elem? s.lent i) [
    | none ↦ (w, s)
    | some o ↦ (begin_release o w, record s { lent = remove i s.lent })
  ]

  -- A thread that is in a call goes on with it.
  unfoldable pub turn_step : Turn → Point → Worker → Shared → Worker × Shared
  unfolding begin go_on
  turn_step (goes_on memory constructed) point w s = go_on memory constructed point w s
  turn_step begins_acquire point w s = if is_idle point then begin begins_acquire w s else (w, s)
  turn_step (begins_release i) point w s =
      if is_idle point then begin (begins_release i) w s else (w, s)

  pub record Threads : Type 0 where
    pub workers : List Worker
    pub shared : Shared

  unfoldable pub thread_step : ℕ → Turn → Threads → Threads
  unfolding turn_step
  thread_step i turn t = elim (get_elem? t.workers i) [
    | none ↦ t
    | some w ↦
        let (w', s) = turn_step turn w.point w t.shared in
        record { workers = set t.workers i w'; shared = s }
  ]

  -- A schedule: whose turn it is, and what it does.
  unfoldable pub run_threads : List (ℕ × Turn) → Threads → Threads
  run_threads [] t = t
  run_threads ((i, turn) ∷ schedule) t = run_threads schedule (thread_step i turn t)
