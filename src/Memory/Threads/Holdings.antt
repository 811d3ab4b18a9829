-- ===== src/Memory/Threads/Holdings.antt =====
-- Where the slots are while several threads run: in the queue, out, in a thread's cache, or in its
-- hand, that is among its local variables.
use first_server.Common.{ℕ, ◌+◌, ◌≤◌, ◌≡◌, List, [], ◌∷◌, length, count}
use first_server.Lockfree.{LockfreeQueue, NeverFails}
use first_server.Memory.Chunk.{MemoryChunk}
use first_server.Memory.Cache.{ThreadLocalCache}
use first_server.Memory.Pool.Count.{slots_from, owned_by, in_queue}
use first_server.Memory.Threads.{
  Point, idle, pops, steals, sets_flag, makes_chunk, pushes_slots, links, counts, clears_flag,
  pops_new, retries, constructs, puts_back, pushes_released, tests_cache, pushes_batch, overruns,
  Worker, Shared,
}

abbrev pub worker : ThreadLocalCache → Point → Worker
worker c p = record { tls_cache = c; point = p }

module _ (Q : LockfreeQueue ℕ) (never : NeverFails Q) (sizeof_t chunk_size batch_size : ℕ) where
  abbrev S : Type 0
  S = Shared Q sizeof_t chunk_size batch_size

  -- the slots in a thread's hand
  abbrev pub hand : Point → List ℕ
  hand idle = []
  hand pops = []
  hand (steals n batch) = batch
  hand sets_flag = []
  hand makes_chunk = []
  hand (pushes_slots chunk index n) = slots_from Q never sizeof_t chunk n index
  hand (links chunk) = []
  hand counts = []
  hand (clears_flag made) = []
  hand pops_new = []
  hand (retries n) = []
  hand (constructs o) = o ∷ []
  hand (puts_back o) = o ∷ []
  hand (pushes_released o) = o ∷ []
  hand tests_cache = []
  hand (pushes_batch batch) = batch
  hand overruns = []

  -- the chunk that a thread has made and not put into the list
  abbrev pub making : Point → List MemoryChunk
  making (pushes_slots chunk index n) = chunk ∷ []
  making (links chunk) = chunk ∷ []
  making idle = []
  making pops = []
  making (steals n batch) = []
  making sets_flag = []
  making makes_chunk = []
  making counts = []
  making (clears_flag made) = []
  making pops_new = []
  making (retries n) = []
  making (constructs o) = []
  making (puts_back o) = []
  making (pushes_released o) = []
  making tests_cache = []
  making (pushes_batch batch) = []
  making overruns = []

  abbrev pub worker_has : ℕ → Worker → ℕ
  worker_has a w = count a w.tls_cache.cache + count a (hand w.point)

  abbrev pub worker_made : ℕ → Worker → ℕ
  worker_made a w = owned_by Q never sizeof_t a (making w.point)

  abbrev pub shared_has : ℕ → S → ℕ
  shared_has a s = in_queue Q never sizeof_t a s.free_queue + count a s.lent

  abbrev pub shared_made : ℕ → S → ℕ
  shared_made a s = owned_by Q never sizeof_t a s.chunks

  -- The local variables of a thread are as the code leaves them.
  abbrev pub IsSound : Worker → Point → Type 0
  IsSound w (steals n batch) = (w.tls_cache.cache ≡ []) × (n + length batch ≤ batch_size)
  IsSound w (pushes_slots chunk index n) = index + n ≡ chunk.count
  IsSound w overruns = ⊥
  IsSound w pops = w.tls_cache.cache ≡ []
  IsSound w idle = Unit
  IsSound w sets_flag = Unit
  IsSound w makes_chunk = Unit
  IsSound w (links chunk) = Unit
  IsSound w counts = Unit
  IsSound w (clears_flag made) = Unit
  IsSound w pops_new = Unit
  IsSound w (retries n) = Unit
  IsSound w (constructs o) = Unit
  IsSound w (puts_back o) = Unit
  IsSound w (pushes_released o) = Unit
  IsSound w tests_cache = Unit
  IsSound w (pushes_batch batch) = Unit

  -- The cache has room for what a batch adds to it.
  abbrev pub IsGood : Worker → Type 0
  IsGood w = (batch_size ≤ w.tls_cache.max_cache_size) × IsSound w w.point

  -- A step moves slots and makes or loses none, and keeps the thread good.
  abbrev pub Moves : Worker → S → Worker × S → Type 0
  Moves w s r =
      ((a : ℕ)
        → shared_has a r.1 + worker_has a r.0 + (shared_made a s + worker_made a w)
          ≡ shared_has a s + worker_has a w + (shared_made a r.1 + worker_made a r.0))
      × IsGood r.0
