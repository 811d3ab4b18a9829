-- ===== src/Memory/Pool/Count.antt =====
-- Where the slots of a pool are: every operation moves them, and makes or loses none.
-- `held a p` counts the address `a` among the free slots, in the queue and in the cache, and
-- `owned a p` among the slots of all chunks.
use first_server.Common.{
  ℕ, zero, suc, ◌+◌, ◌*◌, ◌≡◌, refl, ap, List, [], ◌∷◌, Option, none, some, Bool, true, false,
  if◌then◌else◌, min, length, arith, one, count, count_option, count-append,
}
use first_server.Lockfree.{LockfreeQueue, NeverFails}
use first_server.Memory.Chunk.{MemoryChunk, get_slot}
use first_server.Memory.Cache.{ThreadLocalCache, try_acquire, try_release, extract_batch, pop_back}
use first_server.Memory.Pool.{
  ObjectPool, default_batch_size, get_tls_cache, push_slots, allocate_chunk, steal,
  batch_steal_from_central, push_all, batch_return_to_central, retry_pop, take_free, take_new,
  or_new, acquire, release,
}

module _ (Q : LockfreeQueue ℕ) (never_fails : NeverFails Q) (sizeof_t : ℕ) where
  open Q use {Queue, contents, push, pop, push_cases, pop_cases}

  abbrev pub in_queue : ℕ → Queue → ℕ
  in_queue a q = count a (contents q)

  pub in_queue-push : (a b : ℕ) (q : Queue) → in_queue a (push b q).1 ≡ in_queue a q + one a b
  in_queue-push a b q =
      ground (arith, push_cases b q, never_fails b q, count-append a (contents q) (b ∷ []))

  pub in_queue-pop :
      (a : ℕ) (q q' : Queue) (o : ℕ) → pop q ≡ some (o, q') → in_queue a q ≡ one a o + in_queue a q'
  in_queue-pop a q q' o e = ground (arith, pop_cases q)

  -- the slots of a chunk from `index` on
  abbrev pub slots_from : MemoryChunk → ℕ → ℕ → List ℕ
  slots_from chunk zero index = []
  slots_from chunk (suc n) index =
      (chunk.memory + sizeof_t * index) ∷ slots_from chunk n (index + 1)

  abbrev pub slots : MemoryChunk → List ℕ
  slots chunk = slots_from chunk chunk.count 0

  abbrev pub owned_by : ℕ → List MemoryChunk → ℕ
  owned_by a [] = 0
  owned_by a (c ∷ cs) = count a (slots c) + owned_by a cs

  abbrev pub owned : ℕ → ObjectPool Q sizeof_t → ℕ
  owned a p = owned_by a p.chunks

  abbrev pub held : ℕ → ObjectPool Q sizeof_t → ℕ
  held a p = in_queue a p.free_queue + count a (get_tls_cache Q sizeof_t p).cache

  abbrev cached : ℕ → ObjectPool Q sizeof_t → ℕ
  cached a p = count a (get_tls_cache Q sizeof_t p).cache

  push_slots_lem :
      (a : ℕ) (chunk : MemoryChunk) (n index : ℕ) (q : Queue)
      → index + n ≡ chunk.count
      → in_queue a (push_slots Q sizeof_t chunk n index q)
        ≡ in_queue a q + count a (slots_from chunk n index)
  unfolding push_slots get_slot
  push_slots_lem a chunk zero index q e = omega arith
  push_slots_lem a chunk (suc n) index q e =
      let slot = chunk.memory + sizeof_t * index in
      ground (
        arith,
        push_slots_lem a chunk n (index + 1) (push slot q).1 (omega arith),
        in_queue-push a slot q,
      )

  pub allocate_chunk_lem :
      (a count : ℕ) (memory : Option ℕ) (p : ObjectPool Q sizeof_t)
      → let p' = (allocate_chunk Q sizeof_t count memory p).1 in
        (owned a p' + in_queue a p.free_queue ≡ owned a p + in_queue a p'.free_queue)
        × (p'.tls_cache ≡ p.tls_cache)
        × (p'.tls_cache_size ≡ p.tls_cache_size)
        × (p'.batch_size ≡ p.batch_size)
  unfolding allocate_chunk
  allocate_chunk_lem a n (some address) p =
      let chunk : MemoryChunk = record { count = n; memory = address } in
      ground (arith, push_slots_lem a chunk n 0 p.free_queue (omega arith))
  allocate_chunk_lem a n none p = ground arith

  push_all_lem :
      (a : ℕ) (batch : List ℕ) (q : Queue)
      → in_queue a (push_all Q sizeof_t batch q) ≡ in_queue a q + count a batch
  unfolding push_all
  push_all_lem a [] q = omega arith
  push_all_lem a (obj ∷ batch) q =
      omega (arith, push_all_lem a batch (push obj q).1, in_queue-push a obj q)

  retry_pop_lem :
      (a n : ℕ) (q : Queue)
      → let (obj, q') = retry_pop Q sizeof_t n q in
        in_queue a q ≡ count_option a obj + in_queue a q'
  unfolding retry_pop
  retry_pop_lem a zero q = omega arith
  retry_pop_lem a (suc n) q = ground (arith, retry_pop_lem a n q, pop_cases q)

  steal_nothing :
      (rounds : ℕ) (q : Queue) → pop q ≡ none → steal Q sizeof_t rounds [] q ≡ some ([], q)
  unfolding steal
  steal_nothing zero q e = refl
  steal_nothing (suc rounds) q e = ground arith

  take_free_lem :
      (p : ObjectPool Q sizeof_t)
      → (obj : Option ℕ) × (p' : ObjectPool Q sizeof_t) × (take_free Q sizeof_t p ≡ some (obj, p'))
        × (p'.chunks ≡ p.chunks)
        × ((a : ℕ) → held a p ≡ count_option a obj + held a p')
  unfolding take_free try_acquire batch_steal_from_central
  take_free_lem p = by_cache c.cache refl
    where
      c : ThreadLocalCache
      c = get_tls_cache Q sizeof_t p

      Goal : Type 0
      Goal =
          (obj : Option ℕ) × (p' : ObjectPool Q sizeof_t) × (take_free Q sizeof_t p
            ≡ some (obj, p'))
          × (p'.chunks ≡ p.chunks)
          × ((a : ℕ) → held a p ≡ count_option a obj + held a p')

      by_queue : (r : Option (ℕ × Queue)) → pop p.free_queue ≡ r → c.cache ≡ [] → Goal
      by_queue none e none_cached = (
        none,
        record p { tls_cache = some c },
        ground (arith, e, none_cached, steal_nothing p.batch_size p.free_queue e),
        refl,
        λ a. omega arith,
      )
      by_queue (some (o, q)) e none_cached = (
        some o,
        record p { free_queue = q; tls_cache = some c },
        ground (arith, e, none_cached),
        refl,
        λ a. omega (arith, in_queue-pop a p.free_queue q o e),
      )

      by_cache : (l : List ℕ) → c.cache ≡ l → Goal
      by_cache [] e = by_queue (pop p.free_queue) refl e
      by_cache (o ∷ rest) e = (
        some o,
        record p { tls_cache = some (record c { cache = rest }) },
        ground (arith, e),
        refl,
        λ a. ground (arith, ap (count a) e),
      )

  take_new_lem :
      (a : ℕ) (memory : Option ℕ) (p : ObjectPool Q sizeof_t)
      → let (obj, p') = take_new Q sizeof_t memory p in
        owned a p' + held a p ≡ owned a p + held a p' + count_option a obj
  unfolding take_new get_tls_cache
  take_new_lem a memory p =
      let (allocated, p') = allocate_chunk Q sizeof_t p.chunk_size memory p in
      ground (
        arith,
        allocate_chunk_lem a p.chunk_size memory p,
        retry_pop_lem a (if allocated then 1 else 20) p'.free_queue,
      )

  or_new_lem :
      (a : ℕ) (memory : Option ℕ) (obj : Option ℕ) (p : ObjectPool Q sizeof_t)
      → let (obj', p') = or_new Q sizeof_t memory obj p in
        owned a p' + held a p + count_option a obj ≡ owned a p + held a p' + count_option a obj'
  unfolding or_new
  or_new_lem a memory none p = omega (arith, take_new_lem a memory p)
  or_new_lem a memory (some o) p = omega arith

  -- What `acquire` gives when it has found `obj`: the object, if its constructor returns.
  construct : Bool → Option ℕ → ObjectPool Q sizeof_t → Option ℕ × ObjectPool Q sizeof_t
  construct constructed none p = (none, p)
  construct true (some o) p = (some o, p)
  construct false (some o) p = (none, record p { free_queue = (push o p.free_queue).1 })

  construct_lem :
      (a : ℕ) (constructed : Bool) (obj : Option ℕ) (p : ObjectPool Q sizeof_t)
      → let (obj', p') = construct constructed obj p in
        (p'.chunks ≡ p.chunks) × (held a p + count_option a obj ≡ held a p' + count_option a obj')
  unfolding construct get_tls_cache
  construct_lem a constructed none p = (refl, refl)
  construct_lem a true (some o) p = (refl, refl)
  construct_lem a false (some o) p = (refl, ground (arith, in_queue-push a o p.free_queue))

  acquire-construct :
      (memory : Option ℕ) (constructed : Bool) (p p' : ObjectPool Q sizeof_t) (obj : Option ℕ)
      → take_free Q sizeof_t p ≡ some (obj, p')
      → acquire Q sizeof_t memory constructed p ≡ (
          let (obj', p'') = or_new Q sizeof_t memory obj p' in
          some (construct constructed obj' p''))
  unfolding acquire construct
  acquire-construct memory constructed p p' obj e = ground (arith, e)

  -- If the free queue's push never fails, `acquire` comes back from any state of the pool.
  -- Counting any address, the free slots and the object handed out afterwards are the free slots
  -- before and the slots of new chunks.
  pub acquire_lem :
      (memory : Option ℕ) (constructed : Bool) (p : ObjectPool Q sizeof_t)
      → (obj : Option ℕ) × (p' : ObjectPool Q sizeof_t) × (acquire Q sizeof_t memory constructed p
          ≡ some (obj, p'))
        × ((a : ℕ) → owned a p' + held a p ≡ owned a p + held a p' + count_option a obj)
  acquire_lem memory constructed p =
      let (obj, p', found, same_chunks, free) = take_free_lem p in
      let (obj', p'') = or_new Q sizeof_t memory obj p' in
      let (obj3, p3) = construct constructed obj' p'' in
      (
        obj3,
        p3,
        acquire-construct memory constructed p p' obj found,
        λ a. ground (
          arith,
          free a,
          ap (owned_by a) same_chunks,
          or_new_lem a memory obj p',
          construct_lem a constructed obj' p'',
          ap (owned_by a) (construct_lem a constructed obj' p'').0,
        ),
      )

  pub pop_back_lem :
      (a n : ℕ) (cache : List ℕ)
      → let (batch, rest) = pop_back n cache in count a batch + count a rest ≡ count a cache
  unfolding pop_back
  pop_back_lem a zero cache = omega arith
  pop_back_lem a (suc n) [] = omega arith
  pop_back_lem a (suc n) (obj ∷ cache) = omega (arith, pop_back_lem a n cache)

  batch_return_lem :
      (a : ℕ) (p : ObjectPool Q sizeof_t)
      → let p' = batch_return_to_central Q sizeof_t p in
        (p'.chunks ≡ p.chunks) × (held a p' ≡ held a p)
  unfolding batch_return_to_central extract_batch
  batch_return_lem a p =
      let c = get_tls_cache Q sizeof_t p in
      let n = min (min c.batch_size default_batch_size) (length c.cache) in
      (
        refl,
        omega (arith, push_all_lem a (pop_back n c.cache).0 p.free_queue, pop_back_lem a n c.cache),
      )

  -- If the free queue's push never fails, `release` keeps the chunks, and counting any address,
  -- the free slots afterwards are the free slots before and the released object, whether the cache
  -- has room or gives a batch back.
  pub release_lem :
      (a : ℕ) (obj : Option ℕ) (p : ObjectPool Q sizeof_t)
      → let p' = release Q sizeof_t obj p in
        (p'.chunks ≡ p.chunks) × (held a p' ≡ held a p + count_option a obj)
  unfolding release try_release
  release_lem a none p = (refl, omega arith)
  release_lem a (some o) p =
      let c = get_tls_cache Q sizeof_t p in
      let (kept, c') = try_release o c in
      let p' : ObjectPool Q sizeof_t = record p {
        free_queue = if kept then p.free_queue else (push o p.free_queue).1;
        tls_cache = some c';
      } in
      ground (arith, in_queue-push a o p.free_queue, batch_return_lem a p')
