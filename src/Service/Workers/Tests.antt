-- ===== src/Service/Workers/Tests.antt =====
-- Two workers as threads, whose steps come in turn.
use first_server.Common.{ℕ, ◌+◌, ◌≤◌, ltb, if◌then◌else◌, false, List, [], ◌∷◌, refl, arith, sum_of}
use first_server.Session.Connection.{io_send_buffer, io_close}
use first_server.Service.Tests.{
  Sessions, Operations, acquires, session, service, operation, accepting, dispatcher, small, U,
  empty_ring,
}
use first_server.Service.Workers.{Turn, Worker, Workers, waits, pops, at, worker_step, run_workers}
use first_server.Service.Workers.Served.{in_service}
use first_server.Service.Workers.Alive.{IsSound, run_workers-IsSound}
use first_server.Service.Routine.{null_completion}
use first_server.Service.Workers.Overtake.{two_sends, Overtaken, sends_overtake}
use first_server.Service.Workers.Apart.{handling, started_workers, handles_one}

-- A step of the worker `w`, in which an actor of the session 0 asks for a send and a close.
abbrev turn : ℕ → Turn
turn w = record { worker = w; asks = (0, io_send_buffer (65 ∷ [])) ∷ (0, io_close) ∷ [] }

abbrev turns : List Turn
turns = turn 0 ∷ turn 1 ∷ turn 0 ∷ turn 1 ∷ turn 1 ∷ turn 0 ∷ turn 0 ∷ []

abbrev small_workers : Workers U Sessions Operations acquires
small_workers =
    started_workers Sessions Operations acquires [] [] refl refl U empty_ring refl small.built

handles_one_example :
    let t = run_workers U Sessions Operations acquires dispatcher turns small_workers in
    in_service Sessions Operations acquires 0 t.service
      + sum_of (λ (w : Worker U Sessions Operations acquires). handling 0 w.point) t.workers
    ≤ 1
handles_one_example =
    handles_one Sessions Operations acquires [] [] refl refl U empty_ring refl dispatcher
      small.built turns 0 refl

-- An accept of the session 1 has completed, and a close of the session 0 waits in the queue.
abbrev two_workers : Workers U Sessions Operations acquires
two_workers = record {
  service = record (service 0) {
    worker_threads = (operation ∷ []) ∷ [] ∷ [];
    acquired = 2;
    ref_counts = λ n. if ltb n 2 then 1 else 0;
  };
  workers =
      at U Sessions Operations acquires empty_ring waits
      ∷ at U Sessions Operations acquires (record { entries = accepting ∷ []; done = false }) waits
      ∷ [];
}

two_workers-IsSound : IsSound U Sessions Operations acquires dispatcher two_workers
two_workers-IsSound = (
  (tt, (tt, tt)),
  record { held = λ n. ground arith; once = λ n. ground arith; fresh = λ n h. ground arith },
)

run_workers-IsSound_example :
    IsSound U Sessions Operations acquires dispatcher
      (run_workers U Sessions Operations acquires dispatcher turns two_workers)
run_workers-IsSound_example =
    run_workers-IsSound U Sessions Operations acquires dispatcher turns two_workers
      two_workers-IsSound

-- Both workers empty their queues.
abbrev flushing : List (Worker U Sessions Operations acquires)
flushing =
    at U Sessions Operations acquires empty_ring (pops null_completion)
    ∷ at U Sessions Operations acquires empty_ring (pops null_completion)
    ∷ []

sends_overtake_example :
    Overtaken Sessions Operations acquires
      (λ x q. refl)
      U
      0
      (65 ∷ [])
      (66 ∷ [])
      session.object.socket_fd
      empty_ring
      (service 0)
      (worker_step U Sessions Operations acquires dispatcher
        (record { worker = 1; asks = [] })
        (record {
          service =
              two_sends Sessions Operations acquires
                (λ x q. refl)
                0
                (65 ∷ [])
                (66 ∷ [])
                (service 0);
          workers = flushing;
        }))
sends_overtake_example =
    sends_overtake Sessions Operations acquires (λ x q. refl) U dispatcher 0 (65 ∷ []) (66 ∷ []) []
      [] session null_completion empty_ring flushing (service 0) (omega arith) (omega arith) refl
      refl refl refl refl refl refl refl
