-- ===== src/Service/Routine/Sends.antt =====
-- The operations in the queues of the workers, weighed, and how an operation gets there.
use first_server.Common.{
  ℕ, zero, suc, ◌+◌, ◌≤◌, ◌≡◌, ap, inl, inr, List, [], ◌∷◌, Bool, arith, ℤ, pos_part, get_elem?,
  sum_of, sum_of-set, sum_of-append, one, Option-cases, ◌%◌, ◌^◌, signed32, rem_ℤ,
}
use first_server.Lockfree.{LockfreeQueue}
use first_server.Service.{IoOperation, Service, push_tries, push_request, request_io_at, request_io}

-- 1 for the object of the `n`-th `acquire`
abbrev pub is_object : ℕ → IoOperation → ℕ
is_object n op = one n op.serial

module _ (Operations : LockfreeQueue IoOperation) where
  abbrev pub queue_weight : (IoOperation → ℕ) → Operations.Queue → ℕ
  queue_weight f q = sum_of f (Operations.contents q)

  abbrev pub queues_weight : (IoOperation → ℕ) → List Operations.Queue → ℕ
  queues_weight f qs = sum_of (queue_weight f) qs

module _ (Sessions : LockfreeQueue ℕ) (Operations : LockfreeQueue IoOperation)
    (acquires : ℕ → Bool) where
  abbrev S : Type 0
  S = Service Sessions Operations acquires

  push_tries-weight :
      (f : IoOperation → ℕ) (tries : ℕ) (op : IoOperation) (q : Operations.Queue)
      → queue_weight Operations f (push_tries Sessions Operations acquires tries op q)
        ≤ f op + queue_weight Operations f q
  unfolding push_tries
  push_tries-weight f zero op q = omega arith
  push_tries-weight f (suc tries) op q = elim (Operations.push_cases op q) [
    | inl (pushed, after) ↦
        rw (pushed, push_tries)
          (rw after (omega (arith, sum_of-append f (Operations.contents q) (op ∷ []))))
    | inr (failed, after) ↦
        rw (failed, push_tries)
          (omega
            (arith, ap (sum_of f) after, push_tries-weight f tries op (Operations.push op q).1))
  ]

  request_io_at-weight :
      (f : IoOperation → ℕ) (i : ℤ) (op : IoOperation) (s : S)
      → queues_weight Operations f
          (request_io_at Sessions Operations acquires i op s).worker_threads
        ≤ f op + queues_weight Operations f s.worker_threads
  unfolding request_io_at
  request_io_at-weight f i op s = elim (Option-cases (get_elem? s.worker_threads (pos_part i))) [
    | inl e ↦ ground (arith, e)
    | inr (q, e) ↦ ground (
      arith,
      e,
      push_tries-weight f 11 op q,
      sum_of-set (queue_weight Operations f) s.worker_threads (pos_part i) q
          (push_request Sessions Operations acquires op q) e,
    )
  ]

  -- What sending an operation to a worker leaves alone.
  pub record Sends (op : IoOperation) (s s' : S) : Type 0 where
    pub weight :
        (f : IoOperation → ℕ)
        → queues_weight Operations f s'.worker_threads
          ≤ f op + queues_weight Operations f s.worker_threads
    pub counts : s'.ref_counts ≡ s.ref_counts
    pub released : s'.released ≡ s.released
    pub acquired : s'.acquired ≡ s.acquired

  pub request_io-Sends :
      (op : IoOperation) (s : S) → Sends op s (request_io Sessions Operations acquires op s)
  unfolding request_io request_io_at
  request_io-Sends op s = record {
    weight = λ f.
        request_io_at-weight f (rem_ℤ (signed32 s.request_index) s.thread_count) op
          (record s { request_index = (s.request_index + 1) % 2 ^ 32 });
    counts = ground arith;
    released = ground arith;
    acquired = ground arith;
  }
