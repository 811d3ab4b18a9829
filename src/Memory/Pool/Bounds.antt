-- ===== src/Memory/Pool/Bounds.antt =====
-- The cache of a thread stays at most three quarters full.
use first_server.Common.{
  ℕ, zero, suc, ◌+◌, ◌*◌, ◌/◌, ◌%◌, ◌^◌, ◌≤◌, ◌≡◌, List, [], ◌∷◌, Option, none, some, arith, length,
  min, if◌then◌else◌,
}
use first_server.Lockfree.{LockfreeQueue}
use first_server.Memory.Cache.{
  ThreadLocalCache, try_release, should_batch_return, extract_batch, pop_back,
}
use first_server.Memory.Pool.{
  ObjectPool, default_batch_size, get_tls_cache, batch_return_to_central, release,
}

length-pop_back :
    (n : ℕ) (cache : List ℕ) → n ≤ length cache → length (pop_back n cache).1 + n ≡ length cache
unfolding pop_back
length-pop_back zero cache h = omega arith
length-pop_back (suc n) [] h = absurd (omega arith)
length-pop_back (suc n) (o ∷ cache) h = omega (arith, length-pop_back n cache (omega arith))

abbrev pub threshold : ThreadLocalCache → ℕ
threshold c = c.max_cache_size * 3 % 2 ^ 64 / 4

module _ (Q : LockfreeQueue ℕ) (sizeof_t : ℕ) where
  -- The cache holds no more slots than it may keep without giving a batch back.
  abbrev pub IsTrim : ObjectPool Q sizeof_t → Type 0
  IsTrim p =
      let c = get_tls_cache Q sizeof_t p in (length c.cache ≤ threshold c) × (1 ≤ c.batch_size)

  batch_return-IsTrim :
      (p : ObjectPool Q sizeof_t)
      → (let c = get_tls_cache Q sizeof_t p in
          (length c.cache ≤ suc (threshold c)) × (1 ≤ c.batch_size))
      → IsTrim (batch_return_to_central Q sizeof_t p)
  unfolding batch_return_to_central extract_batch get_tls_cache
  batch_return-IsTrim p t =
      let c = get_tls_cache Q sizeof_t p in
      let n = min (min c.batch_size default_batch_size) (length c.cache) in
      omega (arith, length-pop_back n c.cache (omega arith))

  -- If the thread's cache is at most three quarters full, as `should_batch_return` counts, and its
  -- batches are not empty, it is so after a `release`.
  pub release-IsTrim :
      (obj : Option ℕ) (p : ObjectPool Q sizeof_t) → IsTrim p → IsTrim (release Q sizeof_t obj p)
  unfolding release try_release should_batch_return get_tls_cache
  release-IsTrim none p t = t
  release-IsTrim (some o) p t =
      let (kept, c') = try_release o (get_tls_cache Q sizeof_t p) in
      let p' : ObjectPool Q sizeof_t = record p {
        free_queue = if kept then p.free_queue else (Q.push o p.free_queue).1;
        tls_cache = some c';
      } in
      ground (arith, batch_return-IsTrim p')
