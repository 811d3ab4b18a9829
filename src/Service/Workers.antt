-- ===== src/Service/Workers.antt =====
-- The workers of a service, run by threads of their own: `routine` of
-- braid/src/service/src/thread/WorkerThread.cc in the steps that other threads can come between. A step is
-- one operation on what the threads share, or what the worker does with its own ring. How a completion is
-- handled is one step, and so is what a worker's tasks ask for; what handlers and tasks, which are the
-- application's, ask of the service is given with the turn.
-- A worker that writes through a null pointer, which `io_uring_get_sqe` returns for a full ring, has
-- crashed, and stands still.
pub mod Reads
pub mod Served
pub mod Holding
pub mod Alive
pub mod Single
pub mod Apart
pub mod Overtake
mod Tests
use first_server.Common.{
  ℕ, List, [], ◌∷◌, Option, none, some, Bool, true, false, if◌then◌else◌, pos, get_elem?, set,
}
use first_server.Lockfree.{LockfreeQueue}
use first_server.Net.Uring.{IoUring}
use first_server.Message.Dispatcher.{MessageDispatcher}
use first_server.Session.Connection.{Request}
use first_server.Service.{IoOperation, Service}
use first_server.Service.Routine.{
  IoCompletion, wait_one, request_io_on, intrusive_ptr_release, serve_list, handle_io_completion,
}

-- What a worker does next; `completion` is the variable of `routine`.
pub data Point : Type 0 where
  -- `ring_queue_.wait_one(0)`
  waits : Point
  -- `completion.handle_completion()`
  handles : IoCompletion → Point
  -- `ring_queue_.flush_requests()`: the test, the loop, and `submit`
  tests_empty : IoCompletion → Point
  pops : IoCompletion → Point
  submits : IoCompletion → Point
  -- `g_task_distributor.process_task_serializer()`
  works : IoCompletion → Point
  -- `~IOCompletion`
  ends : IoCompletion → Point
  crashed : Point

pub record Turn : Type 0 where
  pub worker : ℕ
  pub asks : List (ℕ × Request)

module _ (U : IoUring IoOperation) (Sessions : LockfreeQueue ℕ)
    (Operations : LockfreeQueue IoOperation) (acquires : ℕ → Bool) where
  abbrev S : Type 0
  S = Service Sessions Operations acquires

  pub record Worker : Type 0 where
    pub ring : U.Ring
    pub point : Point

  pub record Workers : Type 0 where
    pub service : Service Sessions Operations acquires
    pub workers : List Worker

  abbrev pub at : U.Ring → Point → Worker
  at ring point = record { ring = ring; point = point }

  -- One round of the loop of `flush_requests` of the worker `w`, whose queue is `q`.
  unfoldable pub pop_request : ℕ → Operations.Queue → IoCompletion → U.Ring → S → Worker × S
  pop_request w q completion ring s = elim (Operations.pop q) [
    | none ↦ (at ring (submits completion), s)
    | some (op, q') ↦
        let s' : S = record s { worker_threads = set s.worker_threads w q' } in
        elim (request_io_on U s.sessions op (some ring)) [
          | none ↦ (at ring crashed, s')
          | some ring' ↦ (at ring' (pops completion), s')
        ]
  ]

  unfoldable pub end_completion : IoCompletion → U.Ring → S → Worker × S
  end_completion completion ring s = (
    at (if completion.has_cqe then U.cqe_seen ring else ring) waits,
    elim completion.completed_operation [
      | none ↦ s
      | some op ↦ intrusive_ptr_release Sessions Operations acquires op s
    ],
  )

  module _ {ℓ} {H : Type ℓ} (d : MessageDispatcher H) where
    unfoldable pub go_on : ℕ → List (ℕ × Request) → Point → U.Ring → S → Worker × S
    unfolding pop_request end_completion
    go_on w asks waits ring s =
        let (completion, ring') = wait_one U (pos 0) ring in (at ring' (handles completion), s)
    go_on w asks (handles completion) ring s = (
      at ring (tests_empty completion),
      serve_list U Sessions Operations acquires asks
          (handle_io_completion U Sessions Operations acquires d completion s),
    )
    go_on w asks (tests_empty completion) ring s = elim (get_elem? s.worker_threads w) [
      | none ↦ (at ring (works completion), s)
      | some q ↦ (at ring (if Operations.empty q then works completion else pops completion), s)
    ]
    go_on w asks (pops completion) ring s = elim (get_elem? s.worker_threads w) [
      | none ↦ (at ring (works completion), s)
      | some q ↦ pop_request w q completion ring s
    ]
    go_on w asks (submits completion) ring s = (at (U.submit ring) (works completion), s)
    go_on w asks (works completion) ring s =
        (at ring (ends completion), serve_list U Sessions Operations acquires asks s)
    go_on w asks (ends completion) ring s = end_completion completion ring s
    go_on w asks crashed ring s = (at ring crashed, s)

    unfoldable pub worker_step : Turn → Workers → Workers
    unfolding go_on
    worker_step turn t = elim (get_elem? t.workers turn.worker) [
      | none ↦ t
      | some worker ↦
          let (worker', s) = go_on turn.worker turn.asks worker.point worker.ring t.service in
          record { service = s; workers = set t.workers turn.worker worker' }
    ]

    -- A schedule: which worker takes a step, one after the other.
    unfoldable pub run_workers : List Turn → Workers → Workers
    run_workers [] t = t
    run_workers (turn ∷ turns) t = run_workers turns (worker_step turn t)
