-- ===== src/Service/Routine/Places.antt =====
-- What every call of the service keeps, from one request to the start and a completion.
use first_server.Common.{
  ℕ, zero, suc, ◌+◌, ◌≤◌, ◌≡◌, refl, inl, inr, List, [], ◌∷◌, Bool, arith, ℤ, get_elem?, set, count,
  Option-cases, Bool-cases,
}
use first_server.Lockfree.{LockfreeQueue}
use first_server.Session.Connection.{
  Request, io_recv, io_send_buffer, io_accept, io_close, accept_one, session_closed, request_accept,
}
use first_server.Message.Dispatcher.{MessageDispatcher}
use first_server.Service.{
  IoOperation, Service, with_count, request_io, add_ref, request_operation, request_operations,
  request_accept_one, on_session_closed, serve, serve_all, complete_session, handle_completion,
  push_sessions, accept_times, initialize,
}
use first_server.Service.Routine.Sends.{is_object, queues_weight, Sends, request_io-Sends}

module _ (Sessions : LockfreeQueue ℕ) (Operations : LockfreeQueue IoOperation)
    (acquires : ℕ → Bool) where
  abbrev S : Type 0
  S = Service Sessions Operations acquires

  -- Of every object, the queues and the rings, where `rings` counts it, have no more than there
  -- are references to it; it has one reference, or has been given back once, or neither; and what
  -- has not been acquired has neither.
  pub record IsAlive (rings : ℕ → ℕ) (s : S) : Type 0 where
    pub held :
        (n : ℕ) → queues_weight Operations (is_object n) s.worker_threads + rings n ≤ s.ref_counts n
    pub once : (n : ℕ) → s.ref_counts n + count n s.released ≤ 1
    pub fresh : (n : ℕ) → s.acquired ≤ n → s.ref_counts n + count n s.released ≡ 0

  -- A new object with one reference goes to a worker.
  acquire-IsAlive :
      (rings counts : ℕ → ℕ) (s s' : S) (op : IoOperation)
      → op.serial ≡ s.acquired
      → ((k : ℕ) → counts k ≡ with_count s.acquired 1 s.ref_counts k)
      → Sends Sessions Operations acquires op
          (record s { acquired = s.acquired + 1; ref_counts = counts })
          s'
      → IsAlive rings s
      → IsAlive rings s'
  acquire-IsAlive rings counts s s' op e same sends a = record {
    held = λ n.
        rw sends.counts
          (ground (arith, e, same n, sends.weight (is_object n), a.held n, a.fresh n));
    once = λ n. rw (sends.counts, sends.released) (ground (arith, same n, a.once n, a.fresh n));
    fresh = λ n h.
        rw (sends.counts, sends.released) (ground (arith, same n, sends.acquired, a.fresh n));
  }

  request_operation-IsAlive :
      (rings : ℕ → ℕ) (i : ℕ) (r : Request) (s : S)
      → IsAlive rings s
      → IsAlive rings (request_operation Sessions Operations acquires i r s)
  unfolding request_operation add_ref
  request_operation-IsAlive rings i r s a = elim (Bool-cases (acquires s.acquired)) [
    | inl e ↦
        let op : IoOperation = record { session = i; kind = r; serial = s.acquired } in
        let new : S = record s {
          acquired = s.acquired + 1;
          ref_counts = with_count s.acquired 0 s.ref_counts;
        } in
        let counted = add_ref Sessions Operations acquires op new in
        rw (e, request_operation)
          (acquire-IsAlive rings counted.ref_counts s
            (request_io Sessions Operations acquires op counted) op refl (λ k. ground arith)
            (request_io-Sends Sessions Operations acquires op counted) a)
    | inr e ↦
        rw (e, request_operation)
          (record { held = a.held; once = a.once; fresh = λ n h. a.fresh n (omega arith) })
  ]

  request_operations-IsAlive :
      (rings : ℕ → ℕ) (i : ℕ) (rs : List Request) (s : S)
      → IsAlive rings s
      → IsAlive rings (request_operations Sessions Operations acquires i rs s)
  unfolding request_operations
  request_operations-IsAlive rings i [] s a = a
  request_operations-IsAlive rings i (r ∷ rs) s a =
      request_operations-IsAlive rings i rs (request_operation Sessions Operations acquires i r s)
        (request_operation-IsAlive rings i r s a)

  -- Sessions and their queue are no part of it.
  with_sessions :
      (rings : ℕ → ℕ) (s s' : S)
      → s'.worker_threads ≡ s.worker_threads
      → s'.ref_counts ≡ s.ref_counts
      → s'.released ≡ s.released
      → s'.acquired ≡ s.acquired
      → IsAlive rings s
      → IsAlive rings s'
  with_sessions rings s s' w c r q a = record {
    held = λ n. rw (w, c) (a.held n);
    once = λ n. rw (c, r) (a.once n);
    fresh = λ n h. rw (c, r) (a.fresh n (omega (arith, q)));
  }

  request_accept_one-IsAlive :
      (rings : ℕ → ℕ) (s : S)
      → IsAlive rings s
      → IsAlive rings (request_accept_one Sessions Operations acquires s)
  unfolding request_accept_one
  request_accept_one-IsAlive rings s a = elim (Option-cases (Sessions.pop s.sessions_queue)) [
    | inl e ↦ rw (e, request_accept_one) a
    | inr ((i, q), e) ↦
        let s' : S = record s { sessions_queue = q } in
        let a' = with_sessions rings s s' refl refl refl refl a in
        elim (Option-cases (get_elem? s.sessions i)) [
          | inl f ↦ rw (e, request_accept_one) (rw (f, request_accept_one) a')
          | inr (session, f) ↦
              rw (e, request_accept_one)
                (rw (f, request_accept_one)
                  (request_operations-IsAlive rings i (request_accept s.acceptor_fd session) s' a'))
        ]
  ]

  pub serve-IsAlive :
      (rings : ℕ → ℕ) (i : ℕ) (r : Request) (s : S)
      → IsAlive rings s
      → IsAlive rings (serve Sessions Operations acquires i r s)
  unfolding serve on_session_closed
  serve-IsAlive rings i accept_one s a = request_accept_one-IsAlive rings s a
  serve-IsAlive rings i session_closed s a =
      let s' : S = record s { sessions_queue = (Sessions.push i s.sessions_queue).1 } in
      request_accept_one-IsAlive rings s' (with_sessions rings s s' refl refl refl refl a)
  serve-IsAlive rings i (io_recv b) s a = request_operation-IsAlive rings i _ s a
  serve-IsAlive rings i (io_send_buffer b) s a = request_operation-IsAlive rings i _ s a
  serve-IsAlive rings i (io_accept b) s a = request_operation-IsAlive rings i _ s a
  serve-IsAlive rings i io_close s a = request_operation-IsAlive rings i _ s a

  serve_all-IsAlive :
      (rings : ℕ → ℕ) (i : ℕ) (rs : List Request) (s : S)
      → IsAlive rings s
      → IsAlive rings (serve_all Sessions Operations acquires i rs s)
  unfolding serve_all
  serve_all-IsAlive rings i [] s a = a
  serve_all-IsAlive rings i (r ∷ rs) s a =
      serve_all-IsAlive rings i rs (serve Sessions Operations acquires i r s)
        (serve-IsAlive rings i r s a)

  push_sessions-IsAlive :
      (rings : ℕ → ℕ) (i n : ℕ) (s : S)
      → IsAlive rings s
      → IsAlive rings (push_sessions Sessions Operations acquires i n s)
  unfolding push_sessions
  push_sessions-IsAlive rings i zero s a = a
  push_sessions-IsAlive rings i (suc n) s a =
      let s' : S = record s { sessions_queue = (Sessions.push i s.sessions_queue).1 } in
      push_sessions-IsAlive rings (suc i) n s' (with_sessions rings s s' refl refl refl refl a)

  accept_times-IsAlive :
      (rings : ℕ → ℕ) (n : ℕ) (s : S)
      → IsAlive rings s
      → IsAlive rings (accept_times Sessions Operations acquires n s)
  unfolding accept_times
  accept_times-IsAlive rings zero s a = a
  accept_times-IsAlive rings (suc n) s a =
      accept_times-IsAlive rings n (request_accept_one Sessions Operations acquires s)
        (request_accept_one-IsAlive rings s a)

  pub initialize-IsAlive :
      (rings : ℕ → ℕ) (session_count backlog : ℕ) (s : S)
      → IsAlive rings s
      → IsAlive rings (initialize Sessions Operations acquires session_count backlog s)
  unfolding initialize
  initialize-IsAlive rings session_count backlog s a =
      accept_times-IsAlive rings backlog
        (push_sessions Sessions Operations acquires 0 session_count s)
        (push_sessions-IsAlive rings 0 session_count s a)

  module _ {ℓ} {H : Type ℓ} (d : MessageDispatcher H) where
    pub handle_completion-IsAlive :
        (rings : ℕ → ℕ) (op : IoOperation) (result : ℤ) (s : S)
        → IsAlive rings s
        → IsAlive rings (handle_completion Sessions Operations acquires d op result s)
    unfolding handle_completion
    handle_completion-IsAlive rings op result s a =
        elim (Option-cases (get_elem? s.sessions op.session)) [
          | inl e ↦ rw (e, handle_completion) a
          | inr (session, e) ↦ elim (Option-cases (complete_session d op.kind result session)) [
            | inl f ↦ rw (e, handle_completion) (rw (f, handle_completion) a)
            | inr ((session', requests), f) ↦
                let s' : S = record s { sessions = set s.sessions op.session session' } in
                rw (e, handle_completion)
                  (rw (f, handle_completion)
                    (serve_all-IsAlive rings op.session requests s'
                      (with_sessions rings s s' refl refl refl refl a)))
          ]
        ]
