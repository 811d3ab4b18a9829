-- ===== src/Service.antt =====
-- braid/src/service/src/service/Service.cc and include/braid/service/Service.h, with `push_request` of
-- braid/src/service/src/net/IORequestQueue.cc.
-- The sessions are known by their places in `sessions_`. Whether the pool of operations gives one at
-- its n-th `acquire` is a parameter; an operation is the session and what it asked for.
pub mod Accepts
pub mod RoundRobin
pub mod Start
pub mod RequestQueue
pub mod Routine
pub mod Builder
pub mod Workers
pub mod Run
pub mod IoPool
pub mod Tests
use first_server.Common.{
  ℕ, zero, suc, ◌+◌, ◌%◌, ◌^◌, List, [], ◌∷◌, ◌++◌, Option, none, some, Bool, true, false,
  if◌then◌else◌, ltb, leb, ◌==◌, ℤ, pos, ltb_ℤ, signed32, rem_ℤ, pos_part, get_elem?, set,
}
use first_server.Lockfree.{LockfreeQueue}
use first_server.Message.Dispatcher.{MessageDispatcher, Call}
use first_server.Session.Connection.{
  ServiceSession, Request, io_recv, io_send_buffer, io_accept, io_close, accept_one, session_closed,
  request_accept, Outcome, accept_completion, send_completion, close_completion, recv_completion,
}

pub record IoOperation : Type 0 where
  pub session : ℕ
  pub kind : Request
  -- which `acquire` gave the object
  pub serial : ℕ

module _ {ℓ} {H : Type ℓ} (d : MessageDispatcher H) where
  -- `handle_io_completion` of an operation, and the calls of the service that it makes.
  unfoldable pub complete_session :
      Request → ℤ → ServiceSession → Option (ServiceSession × List Request)
  complete_session (io_recv span) result session = elim (recv_completion d result session []) [
    | none ↦ none
    | some outcome ↦ some (outcome.session, outcome.requests)
  ]
  complete_session (io_send_buffer bytes) result session = some (send_completion result session)
  complete_session (io_accept fd) result session = some (accept_completion result session)
  complete_session io_close result session = some (close_completion result session)
  complete_session accept_one result session = some (session, [])
  complete_session session_closed result session = some (session, [])

abbrev pub with_count : ℕ → ℕ → (ℕ → ℕ) → ℕ → ℕ
with_count n count ref_counts k = if k == n then count else ref_counts k

module _ (Sessions : LockfreeQueue ℕ) (Operations : LockfreeQueue IoOperation)
    (acquires : ℕ → Bool) where
  pub record Service : Type 0 where
    pub sessions : List ServiceSession
    pub sessions_queue : Sessions.Queue
    -- a 32-bit pattern
    pub request_index : ℕ
    pub thread_count : ℕ
    -- the `request_queue_` of each worker's `ring_queue_`
    pub worker_threads : List Operations.Queue
    -- `acceptor_object_->get_socket_fd()`
    pub acceptor_fd : ℤ
    pub acquired : ℕ
    -- by the number of the `acquire`
    pub ref_counts : ℕ → ℕ
    -- the objects that `g_io_pool.release` was called on, the last one first
    pub released : List ℕ

  -- `while (!request_queue_.push(operation) && count++ < 10)`: `tries` is 11 at the start
  unfoldable pub push_tries : ℕ → IoOperation → Operations.Queue → Operations.Queue
  push_tries zero op q = q
  push_tries (suc tries) op q =
      let (pushed, q') = Operations.push op q in
      let rest = push_tries tries op q' in if pushed then q' else rest

  abbrev pub push_request : IoOperation → Operations.Queue → Operations.Queue
  push_request op q = push_tries 11 op q

  -- `request_io(int thread_index, IOOperation* operation)`
  unfoldable pub request_io_at : ℤ → IoOperation → Service → Service
  request_io_at thread_index op s =
      if ltb_ℤ thread_index (pos 0)
      then s
      else if leb s.thread_count (pos_part thread_index)
      then s
      else elim (get_elem? s.worker_threads (pos_part thread_index)) [
        | none ↦ s
        | some q ↦ record s {
          worker_threads = set s.worker_threads (pos_part thread_index) (push_request op q);
        }
      ]

  -- `request_io(IOOperation* operation)`
  unfoldable pub request_io : IoOperation → Service → Service
  request_io op s =
      request_io_at (rem_ℤ (signed32 s.request_index) s.thread_count) op
        (record s { request_index = (s.request_index + 1) % 2 ^ 32 })

  -- `operation->add_ref()`
  unfoldable pub add_ref : IoOperation → Service → Service
  add_ref op s = record s {
    ref_counts = with_count op.serial (s.ref_counts op.serial + 1) s.ref_counts;
  }

  -- `request_io<T>(...)`: a new object's `ref_count_` is 0
  unfoldable pub request_operation : ℕ → Request → Service → Service
  request_operation i r s =
      let op : IoOperation = record { session = i; kind = r; serial = s.acquired } in
      let s' : Service = record s {
        acquired = s.acquired + 1;
        ref_counts = with_count s.acquired 0 s.ref_counts;
      } in
      if acquires s.acquired
      then request_io op (add_ref op s')
      else record s { acquired = s.acquired + 1 }

  -- the operations that the session `i` asks for, in order
  unfoldable pub request_operations : ℕ → List Request → Service → Service
  request_operations i [] s = s
  request_operations i (r ∷ rs) s = request_operations i rs (request_operation i r s)

  unfoldable pub request_accept_one : Service → Service
  request_accept_one s = elim (Sessions.pop s.sessions_queue) [
    | none ↦ s
    | some (i, q) ↦
        let s' : Service = record s { sessions_queue = q } in
        elim (get_elem? s.sessions i) [
          | none ↦ s'
          | some session ↦ request_operations i (request_accept s.acceptor_fd session) s'
        ]
  ]

  unfoldable pub on_session_closed : ℕ → Service → Service
  on_session_closed i s =
      request_accept_one (record s { sessions_queue = (Sessions.push i s.sessions_queue).1 })

  -- One call that the session `i` makes of its service.
  unfoldable pub serve : ℕ → Request → Service → Service
  serve i accept_one s = request_accept_one s
  serve i session_closed s = on_session_closed i s
  serve i r s = request_operation i r s

  unfoldable pub serve_all : ℕ → List Request → Service → Service
  serve_all i [] s = s
  serve_all i (r ∷ rs) s = serve_all i rs (serve i r s)

  -- `session_count_` sessions into the queue, then `backlog_` calls of `request_accept_one`.
  unfoldable pub push_sessions : ℕ → ℕ → Service → Service
  push_sessions i zero s = s
  push_sessions i (suc n) s =
      push_sessions (suc i) n (record s { sessions_queue = (Sessions.push i s.sessions_queue).1 })

  unfoldable pub accept_times : ℕ → Service → Service
  accept_times zero s = s
  accept_times (suc n) s = accept_times n (request_accept_one s)

  -- `initialize` on a service whose threads and sessions have been made
  unfoldable pub initialize : ℕ → ℕ → Service → Service
  initialize session_count backlog s = accept_times backlog (push_sessions 0 session_count s)

  module _ {ℓ} {H : Type ℓ} (d : MessageDispatcher H) where
    unfoldable pub handle_completion : IoOperation → ℤ → Service → Service
    handle_completion op result s = elim (get_elem? s.sessions op.session) [
      | none ↦ s
      | some session ↦ elim (complete_session d op.kind result session) [
        | none ↦ s
        | some (session', requests) ↦
            serve_all op.session requests
              (record s { sessions = set s.sessions op.session session' })
      ]
    ]

    -- The completions that the workers see, in the order in which they handle them.
    unfoldable pub handle_completions : List (IoOperation × ℤ) → Service → Service
    handle_completions [] s = s
    handle_completions ((op, result) ∷ more) s =
        handle_completions more (handle_completion op result s)
