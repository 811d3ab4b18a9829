-- ===== src/Service/Routine.antt =====
-- A worker of the service: `routine` of braid/src/service/src/thread/WorkerThread.cc, with
-- `IORequestQueue::wait_one`, the completions of braid/src/service/src/net/IOCompletion.cc, the
-- `request_io` of braid/src/service/src/net/IOOperation*.cc and the reference counts of
-- braid/src/task/include/braid/task/RefCountable.h.
-- The ring of each worker's queue stands in a list beside the service. A routine is one step, and
-- a schedule says whose routines run, in order. The handlers that a completion calls, and the tasks
-- that `process_task_serializer` runs, are the application's: what they ask of the service in a
-- routine is given with it, and may be anything. `none` is a null pointer that is
-- written through, which happens where `io_uring_get_sqe` finds no free entry.
pub mod Places
pub mod Others
pub mod Requests
pub mod Sends
pub mod Release
pub mod Alive
pub mod Started
use first_server.Common.{
  ℕ, suc, ◌+◌, ◌-◌, ◌*◌, ◌%◌, ◌^◌, List, [], ◌∷◌, Option, none, some, Bool, true, false,
  if◌then◌else◌, ◌==◌, ◌||◌, ltb_ℤ, ℤ, pos, negsuc, pos_part, signed32, length, get_elem?, set,
}
use first_server.Lockfree.{LockfreeQueue}
use first_server.Net.Object.{IoUringObject}
use first_server.Net.Uring.{
  IoUring, Prepared, prep_accept, prep_recv, prep_send, prep_close, Cqe, Timespec, Waited, fails,
  ready,
}
use first_server.Message.Dispatcher.{MessageDispatcher}
use first_server.Session.Connection.{
  ServiceSession, Request, io_recv, io_send_buffer, io_accept, io_close, accept_one, session_closed,
}
use first_server.Service.{IoOperation, Service, with_count, serve, handle_completion}
use first_server.Service.RequestQueue.{IoRequestQueue, flush_requests}

-- A routine: the worker, and what handlers and tasks ask for, each with the place of its session.
pub record Turn : Type 0 where
  pub worker : ℕ
  pub handlers_ask : List (ℕ × Request)
  pub tasks_ask : List (ℕ × Request)

-- `ring_` and `cqe_` are both null or both set.
pub record IoCompletion : Type 0 where
  pub has_cqe : Bool
  pub result : ℤ
  pub completed_operation : Option IoOperation

-- `IOCompletion(ring, cqe)`, with null pointers and with a completion, and `IOCompletion(result)`
unfoldable pub null_completion : IoCompletion
null_completion = record { has_cqe = false; result = pos 0; completed_operation = none }

unfoldable pub completion_of : Cqe IoOperation → IoCompletion
completion_of cqe = record {
  has_cqe = true;
  result = cqe.res;
  completed_operation = some cqe.user_data;
}

unfoldable pub failed_completion : ℤ → IoCompletion
failed_completion result = record { has_cqe = false; result = result; completed_operation = none }

-- `ret` of a failed wait is -(n + 1): -EINTR is -4 and -ETIME is -62
unfoldable pub completion_of_wait : Waited IoOperation → IoCompletion
completion_of_wait (ready cqe) = completion_of cqe
completion_of_wait (fails n) =
    if (n == 3) || (n == 61) then null_completion else failed_completion (negsuc n)

-- `ts`, for a timeout that is not negative
unfoldable pub timespec : ℤ → Timespec
timespec timeout_ms = record {
  tv_sec = pos 0;
  tv_nsec = signed32 ((pos_part timeout_ms * 1000000) % 2 ^ 32);
}

-- Release of one reference.
module _ (Sessions : LockfreeQueue ℕ) (Operations : LockfreeQueue IoOperation)
    (acquires : ℕ → Bool) where
  abbrev S : Type 0
  S = Service Sessions Operations acquires

  -- `on_zero_ref`, which `on_final_release` of a pooled object calls
  unfoldable pub on_zero_ref : IoOperation → S → S
  on_zero_ref op s = record s { released = op.serial ∷ s.released }

  -- `intrusive_ptr_release`: `fetch_sub` returns what the counter was
  unfoldable pub intrusive_ptr_release : IoOperation → S → S
  intrusive_ptr_release op s =
      let s' : S = record s {
        ref_counts = with_count op.serial (s.ref_counts op.serial - 1) s.ref_counts;
      } in
      if s.ref_counts op.serial == 1 then on_zero_ref op s' else s'

module _ (U : IoUring IoOperation) where
  unfoldable pub wait_one : ℤ → U.Ring → IoCompletion × U.Ring
  wait_one timeout_ms ring =
      let t : Option Timespec =
        if ltb_ℤ timeout_ms (pos 0) then none else some (timespec timeout_ms) in
      let (ret, ring') = U.wait_cqe t ring in (completion_of_wait ret, ring')

  -- `io_uring_get_sqe`, a preparation, and `io_uring_sqe_set_data`
  unfoldable pub with_sqe : Prepared → IoOperation → U.Ring → Option U.Ring
  with_sqe p op ring = if U.has_sqe ring then some (U.prepare p op ring) else none

  abbrev pub map_ring : (U.Ring → U.Ring) → Option U.Ring → Option U.Ring
  map_ring f none = none
  map_ring f (some ring) = some (f ring)

  -- `request_io` of the five operations, on the object of the session; no operation is
  -- `accept_one` or `session_closed`.
  unfoldable pub request_on : Request → IoOperation → IoUringObject → U.Ring → Option U.Ring
  request_on (io_recv span) op object ring = with_sqe (prep_recv object.socket_fd span) op ring
  request_on (io_send_buffer bytes) op object ring =
      with_sqe (prep_send object.socket_fd bytes) op ring
  request_on (io_accept listen_fd) op object ring =
      with_sqe (prep_accept listen_fd object.address) op ring
  request_on io_close op object ring =
      map_ring U.submit (with_sqe (prep_close object.socket_fd) op ring)
  request_on accept_one op object ring = some ring
  request_on session_closed op object ring = some ring

  -- `operation->request_io(&ring_)`; every operation is of a session.
  unfoldable pub request_io_on : List ServiceSession → IoOperation → Option U.Ring → Option U.Ring
  request_io_on sessions op none = none
  request_io_on sessions op (some ring) = elim (get_elem? sessions op.session) [
    | none ↦ some ring
    | some session ↦ request_on op.kind op session.object ring
  ]

  module _ (Sessions : LockfreeQueue ℕ) (Operations : LockfreeQueue IoOperation)
      (acquires : ℕ → Bool) where
    pub record Running : Type 0 where
      pub service : Service Sessions Operations acquires
      -- the `ring_` of each worker's `ring_queue_`
      pub rings : List U.Ring

    unfoldable pub serve_list :
        List (ℕ × Request)
        → Service Sessions Operations acquires
        → Service Sessions Operations acquires
    serve_list [] s = s
    serve_list ((i, r) ∷ more) s = serve_list more (serve Sessions Operations acquires i r s)

    -- `~IOCompletion`, and the release of `completed_operation_` after it
    unfoldable pub destroy_completion :
        IoCompletion → ℕ → U.Ring → Service Sessions Operations acquires → List U.Ring → Running
    destroy_completion completion w ring s rings = record {
      service = elim completion.completed_operation [
        | none ↦ s
        | some op ↦ intrusive_ptr_release Sessions Operations acquires op s
      ];
      rings = set rings w (if completion.has_cqe then U.cqe_seen ring else ring);
    }

    -- `ring_queue_.flush_requests()` of the worker `w`, its tasks, and the end of its routine
    unfoldable pub flush_and_end :
        List (ℕ × Request)
        → IoCompletion
        → ℕ
        → U.Ring
        → Service Sessions Operations acquires
        → List U.Ring
        → Option Running
    flush_and_end tasks_ask completion w ring s rings = elim (get_elem? s.worker_threads w) [
      | none ↦ some (destroy_completion completion w ring (serve_list tasks_ask s) rings)
      | some q ↦
          elim (flush_requests Operations (request_io_on s.sessions) (map_ring U.submit)
            (suc (length (Operations.contents q)))
            (record { ring = some ring; request_queue = q })) [
              | none ↦ none
              | some flushed ↦ elim flushed.ring [
                | none ↦ none
                | some ring' ↦ some (
                    destroy_completion completion w ring'
                      (serve_list tasks_ask (record s {
                        worker_threads = set s.worker_threads w flushed.request_queue;
                      }))
                      rings)
              ]
            ]
    ]

    module _ {ℓ} {H : Type ℓ} (d : MessageDispatcher H) where
      -- `IOCompletion::handle_completion`
      unfoldable pub handle_io_completion :
          IoCompletion → Service Sessions Operations acquires → Service Sessions Operations acquires
      handle_io_completion completion s = elim completion.completed_operation [
        | none ↦ s
        | some op ↦ handle_completion Sessions Operations acquires d op completion.result s
      ]

      unfoldable pub routine : Turn → Running → Option Running
      routine turn x = elim (get_elem? x.rings turn.worker) [
        | none ↦ some x
        | some ring ↦
            let (completion, ring') = wait_one (pos 0) ring in
            flush_and_end turn.tasks_ask completion turn.worker ring'
              (serve_list turn.handlers_ask (handle_io_completion completion x.service)) x.rings
      ]

      -- The routines of a schedule, one after the other.
      unfoldable pub run_routines : List Turn → Running → Option Running
      run_routines [] x = some x
      run_routines (turn ∷ turns) x = elim (routine turn x) [
        | none ↦ none
        | some x' ↦ run_routines turns x'
      ]
