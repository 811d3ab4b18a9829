-- ===== src/Service/Workers/Served.antt =====
-- The accepts and receives that stand in the service, over its calls.
use first_server.Common.{
  ℕ, ◌+◌, ◌≤◌, ◌≡◌, refl, ap, inl, inr, List, [], ◌∷◌, Bool, true, arith, ℤ, get_elem?, set, one,
  count, Option-cases, Bool-cases,
}
use first_server.Lockfree.{LockfreeQueue}
use first_server.Net.Uring.{IoUring}
use first_server.Message.Dispatcher.{MessageDispatcher}
use first_server.Session.Connection.{
  ServiceSession, Request, io_recv, io_send_buffer, io_accept, io_close, accept_one, session_closed,
  request_accept,
}
use first_server.Service.{
  IoOperation, Service, with_count, add_ref, request_operation, request_operations,
  request_accept_one, serve, serve_all, complete_session, handle_completion,
}
use first_server.Service.Accepts.{
  keeps_session, keeps_session-∷, complete-keeps, request_operation-queue,
}
use first_server.Service.Routine.{IoCompletion, serve_list, handle_io_completion}
use first_server.Service.Routine.Sends.{queues_weight, request_io-Sends}
use first_server.Service.Workers.Reads.{
  read_of, reads, option_reads, reads_of, by_actor, by_actors, complete-reads,
}

module _ (Sessions : LockfreeQueue ℕ) (Operations : LockfreeQueue IoOperation)
    (acquires : ℕ → Bool) where
  abbrev S : Type 0
  S = Service Sessions Operations acquires

  -- How often the session `i` waits for an accept, with the reads of it that wait for their worker.
  abbrev pub in_service : ℕ → S → ℕ
  in_service i s =
      count i (Sessions.contents s.sessions_queue)
      + queues_weight Operations (reads i) s.worker_threads

  request_operation-weight :
      (i k : ℕ) (r : Request) (s : S)
      → queues_weight Operations
          (reads i)
          (request_operation Sessions Operations acquires k r s).worker_threads
        ≤ queues_weight Operations (reads i) s.worker_threads + read_of i k r
  unfolding request_operation add_ref
  request_operation-weight i k r s = elim (Bool-cases (acquires s.acquired)) [
    | inl e ↦
        let op : IoOperation = record { session = k; kind = r; serial = s.acquired } in
        let new : S = record s {
          acquired = s.acquired + 1;
          ref_counts = with_count s.acquired 0 s.ref_counts;
        } in
        let sends =
          request_io-Sends Sessions Operations acquires op
            (add_ref Sessions Operations acquires op new) in
        rw (e, request_operation) (omega (arith, sends.weight (reads i)))
    | inr e ↦ rw (e, request_operation) (omega arith)
  ]

  request_operation-reads :
      (i k : ℕ) (r : Request) (s : S)
      → in_service i (request_operation Sessions Operations acquires k r s)
        ≤ in_service i s + read_of i k r
  request_operation-reads i k r s =
      let same =
        ap (λ q. count i (Sessions.contents q))
          (request_operation-queue Sessions Operations acquires k r s) in
      omega (arith, same, request_operation-weight i k r s)

  request_operations-reads :
      (i k : ℕ) (rs : List Request) (s : S)
      → in_service i (request_operations Sessions Operations acquires k rs s)
        ≤ in_service i s + reads_of i k rs
  unfolding request_operations
  request_operations-reads i k [] s = omega arith
  request_operations-reads i k (r ∷ rs) s = omega (
    arith,
    request_operation-reads i k r s,
    request_operations-reads i k rs (request_operation Sessions Operations acquires k r s),
  )

  accept-reads :
      (i k : ℕ) (fd : ℤ) (session : ServiceSession)
      → reads_of i k (request_accept fd session) ≤ one i k
  unfolding request_accept
  accept-reads i k fd session = ground arith

  -- A session that leaves the queue gets one accept.
  pub request_accept_one-reads :
      (i : ℕ) (s : S)
      → in_service i (request_accept_one Sessions Operations acquires s) ≤ in_service i s
  unfolding request_accept_one
  request_accept_one-reads i s = elim (Sessions.pop_cases s.sessions_queue) [
    | inl (empty, popped) ↦ rw (popped, request_accept_one) (omega arith)
    | inr (k, q, front, popped) ↦
        let s' : S = record s { sessions_queue = q } in
        elim (Option-cases (get_elem? s.sessions k)) [
          | inl e ↦
              rw (popped, request_accept_one)
                (rw (e, request_accept_one) (omega (arith, ap (count i) front)))
          | inr (session, e) ↦
              rw (popped, request_accept_one)
                (rw (e, request_accept_one)
                  (omega (
                    arith,
                    ap (count i) front,
                    accept-reads i k s.acceptor_fd session,
                    request_operations-reads i k (request_accept s.acceptor_fd session) s',
                  )))
        ]
  ]

  serve-reads :
      (i k : ℕ) (r : Request) (s : S)
      → keeps_session (r ∷ []) ≡ true
      → in_service i (serve Sessions Operations acquires k r s) ≤ in_service i s + read_of i k r
  unfolding serve
  serve-reads i k accept_one s h = omega (arith, request_accept_one-reads i s)
  serve-reads i k session_closed s h = absurd (cc)
  serve-reads i k (io_recv b) s h = request_operation-reads i k _ s
  serve-reads i k (io_send_buffer b) s h = request_operation-reads i k _ s
  serve-reads i k (io_accept b) s h = request_operation-reads i k _ s
  serve-reads i k io_close s h = request_operation-reads i k _ s

  serve_all-reads :
      (i k : ℕ) (rs : List Request) (s : S)
      → keeps_session rs ≡ true
      → in_service i (serve_all Sessions Operations acquires k rs s)
        ≤ in_service i s + reads_of i k rs
  unfolding serve_all
  serve_all-reads i k [] s h = omega arith
  serve_all-reads i k (r ∷ rs) s h =
      let (first, later) = keeps_session-∷ Sessions Operations acquires r rs h in
      omega (
        arith,
        serve-reads i k r s first,
        serve_all-reads i k rs (serve Sessions Operations acquires k r s) later,
      )

  by_actor-keeps :
      (i k : ℕ) (r : Request)
      → by_actor r ≡ true
      → (keeps_session (r ∷ []) ≡ true) × (read_of i k r ≡ 0)
  by_actor-keeps i k (io_send_buffer b) h = (refl, refl)
  by_actor-keeps i k io_close h = (refl, refl)
  by_actor-keeps i k (io_recv b) h = absurd (cc)
  by_actor-keeps i k (io_accept b) h = absurd (cc)
  by_actor-keeps i k accept_one h = absurd (cc)
  by_actor-keeps i k session_closed h = absurd (cc)

  -- What actors ask for is no read.
  pub serve_list-reads :
      (U : IoUring IoOperation) (i : ℕ) (asks : List (ℕ × Request)) (s : S)
      → by_actors asks ≡ true
      → in_service i (serve_list U Sessions Operations acquires asks s) ≤ in_service i s
  unfolding serve_list
  serve_list-reads U i [] s h = omega arith
  serve_list-reads U i ((k, r) ∷ more) s h =
      let first : by_actor r ≡ true = ground (arith, h) in
      let later : by_actors more ≡ true = ground (arith, h) in
      let (keeps, none_read) = by_actor-keeps i k r first in
      omega (
        arith,
        none_read,
        serve-reads i k r s keeps,
        serve_list-reads U i more (serve Sessions Operations acquires k r s) later,
      )

  module _ {ℓ} {H : Type ℓ} (d : MessageDispatcher H) where
    handle_completion-reads :
        (i : ℕ) (op : IoOperation) (result : ℤ) (s : S)
        → in_service i (handle_completion Sessions Operations acquires d op result s)
          ≤ in_service i s + reads i op
    unfolding handle_completion
    handle_completion-reads i op result s = elim (Option-cases (get_elem? s.sessions op.session)) [
      | inl e ↦ rw (e, handle_completion) (omega arith)
      | inr (session, e) ↦ elim (Option-cases (complete_session d op.kind result session)) [
        | inl f ↦ rw (e, handle_completion) (rw (f, handle_completion) (omega arith))
        | inr ((session', requests), f) ↦
            let s' : S = record s { sessions = set s.sessions op.session session' } in
            rw (e, handle_completion)
              (rw (f, handle_completion)
                (omega (
                  arith,
                  complete-reads d i op.session op.kind result session session' requests f,
                  serve_all-reads i op.session requests s'
                      (complete-keeps d op.kind result session session' requests f),
                )))
      ]
    ]

    -- Of a completion that has been handled, its operation is the read that may come in its place.
    pub handle-reads :
        (U : IoUring IoOperation) (i : ℕ) (completion : IoCompletion) (s : S)
        → in_service i (handle_io_completion U Sessions Operations acquires d completion s)
          ≤ in_service i s + option_reads i completion.completed_operation
    unfolding handle_io_completion
    handle-reads U i completion s = elim (Option-cases completion.completed_operation) [
      | inl e ↦ rw (e, handle_io_completion) (omega arith)
      | inr (op, e) ↦
          rw (e, handle_io_completion)
            (omega (arith, handle_completion-reads i op completion.result s))
    ]
