-- ===== src/Memory/Tests.antt =====
-- A small pool, with lists for the queues of Boost.
use first_server.Common.{ℕ, ◌≡◌, refl, List, [], ◌∷◌, none, some, true, false, arith}
use first_server.Lockfree.{LockfreeQueue, NeverFails, list_queue}
use first_server.Memory.Pool.{ObjectPool, get_tls_cache, release}
use first_server.Memory.Pool.Bounds.{IsTrim, release-IsTrim}
use first_server.Memory.Pool.Client.{Action, acquires, releases, System, run, IsWhole, run-IsWhole}
use first_server.Memory.Cache.{ThreadLocalCache}
use first_server.Memory.Threads.{
  Worker, idle, Turn, begins_acquire, begins_release, goes_on, Threads, run_threads,
}
use first_server.Memory.Threads.Conserved.{IsBalanced, run_threads-IsBalanced}
use first_server.Memory.Threads.Exclusion.{IsExclusive, run_threads-IsExclusive}

abbrev Q : LockfreeQueue ℕ
Q = list_queue ℕ

never : NeverFails Q
never = λ a q. refl

-- Two slots of eight bytes, at 64 and 72.
abbrev pool_with : ℕ → List ℕ → ObjectPool Q 8
pool_with batch_size free = record {
  chunk_size = 2;
  tls_cache_size = 4;
  batch_size = batch_size;
  free_queue = free;
  chunks = record { count = 2; memory = 64 } ∷ [];
  total_allocated = 2;
  allocating = false;
  tls_cache = none;
}

abbrev pool : ObjectPool Q 8
pool = pool_with 2 (64 ∷ 72 ∷ [])

abbrev system : System Q 8
system = record { pool = pool; lent = [] }

system-IsWhole : IsWhole Q 8 never system
unfolding get_tls_cache
system-IsWhole = λ a. omega arith

abbrev actions : List Action
actions = acquires none true ∷ acquires none true ∷ acquires (some 128) true ∷ releases 1 ∷ []

run-IsWhole_example : (s' : System Q 8) × (run Q 8 actions system ≡ some s') × IsWhole Q 8 never s'
run-IsWhole_example = run-IsWhole Q 8 never actions system system-IsWhole

pool-IsTrim : IsTrim Q 8 pool
unfolding get_tls_cache
pool-IsTrim = omega arith

release-IsTrim_example : IsTrim Q 8 (release Q 8 (some 80) pool)
release-IsTrim_example = release-IsTrim Q 8 (some 80) pool pool-IsTrim

abbrev empty_cache : ThreadLocalCache
empty_cache = record { cache = []; max_cache_size = 4; batch_size = 2 }

abbrev worker : Worker
worker = record { tls_cache = empty_cache; point = idle }

abbrev two_threads : Threads Q 8 2 2
two_threads = record {
  workers = worker ∷ worker ∷ [];
  shared = record {
    free_queue = 64 ∷ 72 ∷ [];
    chunks = record { count = 2; memory = 64 } ∷ [];
    total_allocated = 2;
    allocating = false;
    lent = [];
  };
}

abbrev schedule : List (ℕ × Turn)
schedule =
    (0, begins_acquire)
    ∷ (1, begins_acquire)
    ∷ (1, goes_on none true)
    ∷ (0, goes_on none true)
    ∷ (1, goes_on none true)
    ∷ (1, begins_release 0)
    ∷ (0, goes_on none true)
    ∷ []

two_threads-IsBalanced : IsBalanced Q never 8 2 2 two_threads
two_threads-IsBalanced = record {
  balanced = λ a. omega arith;
  good = ((omega arith, tt), ((omega arith, tt), tt));
}

run_threads-IsBalanced_example : IsBalanced Q never 8 2 2 (run_threads Q 8 2 2 schedule two_threads)
run_threads-IsBalanced_example =
    run_threads-IsBalanced Q never 8 2 2 (omega arith) schedule two_threads two_threads-IsBalanced

run_threads-IsExclusive_example : IsExclusive Q 8 2 2 (run_threads Q 8 2 2 schedule two_threads)
run_threads-IsExclusive_example = run_threads-IsExclusive Q 8 2 2 schedule two_threads (omega arith)
