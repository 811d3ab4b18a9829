-- ===== src/Memory/Cache.antt =====
-- braid/src/memory/include/braid/memory/ThreadLocalCache.h: a bounded stack of free slots.
-- The head of the list is the back of the vector.
use first_server.Common.{
  ℕ, zero, suc, ◌*◌, ◌/◌, ◌%◌, ◌^◌, min, List, [], ◌∷◌, Option, none, some, Bool, true, false,
  if◌then◌else◌, ltb, length,
}

pub record ThreadLocalCache : Type 0 where
  pub max_cache_size : ℕ
  pub batch_size : ℕ
  pub cache : List ℕ

abbrev pub new_cache : ℕ → ℕ → ThreadLocalCache
new_cache max_cache_size batch_size = record {
  max_cache_size = max_cache_size;
  batch_size = batch_size;
  cache = [];
}

unfoldable pub try_acquire : ThreadLocalCache → Option ℕ × ThreadLocalCache
try_acquire c = elim c.cache [ [] ↦ (none, c) | obj ∷ rest ↦ (some obj, record c { cache = rest }) ]

unfoldable pub try_release : ℕ → ThreadLocalCache → Bool × ThreadLocalCache
try_release obj c =
    if ltb (length c.cache) c.max_cache_size
    then (true, record c { cache = obj ∷ c.cache })
    else (false, c)

-- The product is taken in `size_t`.
unfoldable pub should_batch_return : ThreadLocalCache → Bool
should_batch_return c = ltb (c.max_cache_size * 3 % 2 ^ 64 / 4) (length c.cache)

-- `count` times: the back goes to the next place of the buffer.
unfoldable pub pop_back : ℕ → List ℕ → List ℕ × List ℕ
pop_back zero cache = ([], cache)
pop_back (suc count) [] = ([], [])
pop_back (suc count) (obj ∷ cache) = let (batch, rest) = pop_back count cache in (obj ∷ batch, rest)

unfoldable pub extract_batch : ℕ → ThreadLocalCache → List ℕ × ThreadLocalCache
unfolding pop_back
extract_batch buffer_size c =
    let (batch, rest) = pop_back (min (min c.batch_size buffer_size) (length c.cache)) c.cache in
    (batch, record c { cache = rest })

unfoldable pub push_while : ℕ → List ℕ → List ℕ → List ℕ
push_while max_cache_size [] cache = cache
push_while max_cache_size (obj ∷ objects) cache =
    if ltb (length cache) max_cache_size
    then push_while max_cache_size objects (obj ∷ cache)
    else cache

unfoldable pub add_batch : List ℕ → ThreadLocalCache → ThreadLocalCache
unfolding push_while
add_batch objects c = record c { cache = push_while c.max_cache_size objects c.cache }
