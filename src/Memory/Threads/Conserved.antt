-- ===== src/Memory/Threads/Conserved.antt =====
-- The slots over any schedule of the threads.
use first_server.Common.{
  ℕ, zero, suc, ◌+◌, ◌≤◌, ◌≡◌, List, [], ◌∷◌, some, arith, get_elem?, set, sum_of, sum_of-set,
  Option-cases, inl, inr, subst,
}
use first_server.Lockfree.{LockfreeQueue, NeverFails}
use first_server.Memory.Pool.{default_batch_size}
use first_server.Memory.Threads.{Worker, Turn, Threads, turn_step, thread_step, run_threads}
use first_server.Memory.Threads.Holdings.{worker_has, worker_made, shared_has, shared_made, IsGood}
use first_server.Memory.Threads.Balance.{turn_step-Moves}

module _ (Q : LockfreeQueue ℕ) (never : NeverFails Q) (sizeof_t chunk_size batch_size : ℕ) where
  abbrev T : Type 0
  T = Threads Q sizeof_t chunk_size batch_size

  abbrev pub AllGood : List Worker → Type 0
  AllGood [] = Unit
  AllGood (w ∷ ws) = IsGood Q never sizeof_t chunk_size batch_size w × AllGood ws

  AllGood-get :
      (ws : List Worker) (i : ℕ) (w : Worker)
      → AllGood ws
      → get_elem? ws i ≡ some w
      → IsGood Q never sizeof_t chunk_size batch_size w
  AllGood-get [] i w g h = absurd (cc)
  AllGood-get (x ∷ ws) zero w g h =
      let e : x ≡ w = cc in subst (IsGood Q never sizeof_t chunk_size batch_size) e g.0
  AllGood-get (x ∷ ws) (suc i) w g h = AllGood-get ws i w g.1 h

  AllGood-set :
      (ws : List Worker) (i : ℕ) (w' : Worker)
      → AllGood ws
      → IsGood Q never sizeof_t chunk_size batch_size w'
      → AllGood (set ws i w')
  AllGood-set [] i w' g g' = tt
  AllGood-set (x ∷ ws) zero w' g g' = (g', g.1)
  AllGood-set (x ∷ ws) (suc i) w' g g' = (g.0, AllGood-set ws i w' g.1 g')

  -- Counting any address, the free slots, the objects that are out and what the threads have in
  -- their caches and hands are the slots of the chunks.
  pub record IsBalanced (t : T) : Type 0 where
    pub balanced :
        (a : ℕ)
        → shared_has Q never sizeof_t chunk_size batch_size a t.shared
            + sum_of (worker_has Q never sizeof_t chunk_size batch_size a) t.workers
          ≡ shared_made Q never sizeof_t chunk_size batch_size a t.shared
            + sum_of (worker_made Q never sizeof_t chunk_size batch_size a) t.workers
    pub good : AllGood t.workers

  module _ (fits : batch_size ≤ default_batch_size) where
    thread_step-IsBalanced :
        (i : ℕ) (turn : Turn) (t : T)
        → IsBalanced t
        → IsBalanced (thread_step Q sizeof_t chunk_size batch_size i turn t)
    unfolding thread_step
    thread_step-IsBalanced i turn t b = elim (Option-cases (get_elem? t.workers i)) [
      | inl e ↦ rw (e, thread_step) b
      | inr (w, e) ↦
          let (w', s) = turn_step Q sizeof_t chunk_size batch_size turn w.point w t.shared in
          let (moves, good) =
            turn_step-Moves Q never sizeof_t chunk_size batch_size fits turn w.point w.tls_cache
              t.shared (AllGood-get t.workers i w b.good e) in
          rw (e, thread_step)
            (record {
              balanced = λ a. omega (
                arith,
                b.balanced a,
                moves a,
                sum_of-set (worker_has Q never sizeof_t chunk_size batch_size a) t.workers i w w' e,
                sum_of-set (worker_made Q never sizeof_t chunk_size batch_size a) t.workers i w w'
                    e,
              );
              good = AllGood-set t.workers i w' b.good good;
            })
    ]

    -- Let the free queue's push never fail and the batch size be at most 16. Counting any address,
    -- let the free slots, the objects that are out and what the threads have in their caches and
    -- hands be the slots of the chunks, and let every thread's cache have room for a batch and its
    -- local variables be sound. Then this is so after any schedule of the threads' steps of
    -- `acquire` and `release`, and no thread has written past its batch.
    pub run_threads-IsBalanced :
        (schedule : List (ℕ × Turn)) (t : T)
        → IsBalanced t
        → IsBalanced (run_threads Q sizeof_t chunk_size batch_size schedule t)
    unfolding run_threads
    run_threads-IsBalanced [] t b = b
    run_threads-IsBalanced ((i, turn) ∷ schedule) t b =
        run_threads-IsBalanced schedule (thread_step Q sizeof_t chunk_size batch_size i turn t)
          (thread_step-IsBalanced i turn t b)
