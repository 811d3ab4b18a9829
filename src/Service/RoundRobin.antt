-- ===== src/Service/RoundRobin.antt =====
-- Which worker a request goes to.
use first_server.Common.{
  ℕ, zero, suc, ◌+◌, ◌-◌, ◌%◌, ◌^◌, ◌<◌, ◌≡◌, refl, ap, inl, inr, List, Option, none, some, Bool,
  true, false, if◌then◌else◌, arith, ltb, Bool-cases, Option-cases, ◌==◌, pos, signed32, rem_ℤ,
  sub_ℕ, get_elem?, set,
}
use native.Mathlib.Nat.{mod-lt}
use first_server.Lockfree.{LockfreeQueue}
use first_server.Service.{IoOperation, Service, push_request, request_io_at, request_io}

-- The worker for the 32-bit pattern `index` of the counter, among `n`; from 2 ^ 31 on the counter is
-- a negative number.
abbrev pub worker_of : ℕ → ℕ → Option ℕ
worker_of index n =
    if ltb index (2 ^ 31)
    then some (index % n)
    else (if (2 ^ 32 - index) % n == 0 then some 0 else none)

abbrev pub push_at {ℓ} : {A : Type ℓ} → Option ℕ → (A → A) → List A → List A
push_at none f l = l
push_at (some i) f l = elim (get_elem? l i) [ none ↦ l | some a ↦ set l i (f a) ]

rem-low : (index n : ℕ) → ltb index (2 ^ 31) ≡ true → rem_ℤ (signed32 index) n ≡ pos (index % n)
unfolding rem_ℤ signed32
rem-low index n e = rw e refl

rem-high :
    (index n : ℕ)
    → index < 2 ^ 32
    → ltb index (2 ^ 31) ≡ false
    → rem_ℤ (signed32 index) n ≡ sub_ℕ 0 ((2 ^ 32 - index) % n)
unfolding rem_ℤ signed32
rem-high index n h e =
    let whole : suc (2 ^ 32 - index - 1) ≡ 2 ^ 32 - index = omega arith in
    rw e (ap (λ x. sub_ℕ 0 (x % n)) whole)

module _ (Sessions : LockfreeQueue ℕ) (Operations : LockfreeQueue IoOperation)
    (acquires : ℕ → Bool) where
  abbrev S : Type 0
  S = Service Sessions Operations acquires

  request_io_at-pos :
      (t : ℕ) (op : IoOperation) (s : S)
      → t < s.thread_count
      → request_io_at Sessions Operations acquires (pos t) op s ≡ record s {
        worker_threads =
            push_at (some t) (push_request Sessions Operations acquires op) s.worker_threads;
      }
  unfolding request_io_at
  request_io_at-pos t op s h = elim (Option-cases (get_elem? s.worker_threads t)) [
    | inl e ↦ ground (arith, e)
    | inr (q, e) ↦ ground (arith, e)
  ]

  request_io_at-neg :
      (m : ℕ) (op : IoOperation) (s : S)
      → 0 < s.thread_count
      → request_io_at Sessions Operations acquires (sub_ℕ 0 m) op s ≡ record s {
        worker_threads =
            push_at
              (if m == 0 then some 0 else none)
              (push_request Sessions Operations acquires op)
              s.worker_threads;
      }
  unfolding request_io_at
  request_io_at-neg zero op s h = request_io_at-pos 0 op s h
  request_io_at-neg (suc m) op s h = ground arith

  -- For a counter of 32 bits and at least one worker, `request_io` steps the counter, which wraps
  -- around, and puts the operation into the queue of the worker that is the counter's remainder by
  -- the number of workers. Once the counter is negative as an `int`, the operation goes to the
  -- first worker if their number divides it, and is dropped if not.
  pub request_io_lem :
      (op : IoOperation) (s : S)
      → s.request_index < 2 ^ 32
      → 0 < s.thread_count
      → request_io Sessions Operations acquires op s ≡ record s {
        request_index = (s.request_index + 1) % 2 ^ 32;
        worker_threads =
            push_at
              (worker_of s.request_index s.thread_count)
              (push_request Sessions Operations acquires op)
              s.worker_threads;
      }
  unfolding request_io
  request_io_lem op s h p =
      let s' : S = record s { request_index = (s.request_index + 1) % 2 ^ 32 } in
      elim (Bool-cases (ltb s.request_index (2 ^ 31))) [
        | inl e ↦
            rw (rem-low s.request_index s.thread_count e, e)
              (request_io_at-pos (s.request_index % s.thread_count) op s'
                (mod-lt s.request_index p))
        | inr e ↦
            rw (rem-high s.request_index s.thread_count h e, e)
              (request_io_at-neg ((2 ^ 32 - s.request_index) % s.thread_count) op s' p)
      ]
