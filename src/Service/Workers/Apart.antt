-- ===== src/Service/Workers/Apart.antt =====
-- A service from its builder on: which workers handle what a session has read.
use first_server.Common.{
  ℕ, zero, suc, ◌+◌, ◌≤◌, ◌≡◌, ap, inl, inr, List, [], ◌∷◌, Bool, true, arith, replicate, sum_of,
  sum_of-replicate, count, count-append,
}
use first_server.Lockfree.{LockfreeQueue}
use first_server.Net.Uring.{IoUring}
use first_server.Message.Dispatcher.{MessageDispatcher}
use first_server.Service.{
  IoOperation, Service, push_sessions, accept_times, initialize, request_accept_one,
}
use first_server.Service.Builder.{
  Built, new_session, new_service, initialize_threads, initialize_service,
}
use first_server.Service.Routine.Sends.{queue_weight}
use first_server.Service.Workers.{
  Point, waits, handles, tests_empty, pops, submits, works, ends, crashed, Turn, Worker, Workers,
  at, run_workers,
}
use first_server.Service.Workers.Reads.{reads, option_reads}
use first_server.Service.Workers.Served.{in_service, request_accept_one-reads}
use first_server.Service.Workers.Holding.{IsHolding, AllHold}
use first_server.Service.Workers.Single.{
  asked_by_actors, unhandled, unhandled_of, completed-in_ring, IsSingle, run_workers-IsSingle,
}

-- 1 for a worker that is about to handle the completion of an accept or a receive of the session
abbrev pub handling : ℕ → Point → ℕ
handling i (handles completion) = option_reads i completion.completed_operation
handling i waits = 0
handling i (tests_empty completion) = 0
handling i (pops completion) = 0
handling i (submits completion) = 0
handling i (works completion) = 0
handling i (ends completion) = 0
handling i crashed = 0

handling_one :
    (U : IoUring IoOperation) (i : ℕ) (p : Point) (ring : U.Ring)
    → IsHolding U ring p
    → handling i p ≤ unhandled U i ring p
handling_one U i (handles completion) ring h = completed-in_ring U i completion ring h
handling_one U i waits ring h = omega arith
handling_one U i (tests_empty completion) ring h = omega arith
handling_one U i (pops completion) ring h = omega arith
handling_one U i (submits completion) ring h = omega arith
handling_one U i (works completion) ring h = omega arith
handling_one U i (ends completion) ring h = omega arith
handling_one U i crashed ring h = omega arith

module _ (Sessions : LockfreeQueue ℕ) (Operations : LockfreeQueue IoOperation)
    (acquires : ℕ → Bool) where
  abbrev S : Type 0
  S = Service Sessions Operations acquires

  -- Of the sessions from `k` on there is nothing yet, and of each one at most.
  record Fresh (k : ℕ) (s : S) : Type 0 where
    at_most : (i : ℕ) → in_service Sessions Operations acquires i s ≤ 1
    none_from : (i : ℕ) → k ≤ i → in_service Sessions Operations acquires i s ≡ 0

  push_session-Fresh :
      (k : ℕ) (s : S)
      → Fresh k s
      → Fresh (suc k) (record s { sessions_queue = (Sessions.push k s.sessions_queue).1 })
  push_session-Fresh k s f = elim (Sessions.push_cases k s.sessions_queue) [
    | inl (_, after) ↦
        let more = λ (i : ℕ). count-append i (Sessions.contents s.sessions_queue) (k ∷ []) in
        let now = λ (i : ℕ). ap (count i) after in
        record {
          at_most = λ i. ground (arith, more i, now i, f.at_most i, f.none_from k, f.none_from i);
          none_from = λ i h. ground (arith, more i, now i, f.none_from i);
        }
    | inr (_, same) ↦ record {
      at_most = λ i. omega (arith, ap (count i) same, f.at_most i);
      none_from = λ i h. omega (arith, ap (count i) same, f.none_from i (omega arith));
    }
  ]

  push_sessions-at_most :
      (k n : ℕ) (s : S)
      → Fresh k s
      → (i : ℕ)
      → in_service Sessions Operations acquires i (push_sessions Sessions Operations acquires k n s)
        ≤ 1
  unfolding push_sessions
  push_sessions-at_most k zero s f i = f.at_most i
  push_sessions-at_most k (suc n) s f i =
      push_sessions-at_most (suc k) n
        (record s { sessions_queue = (Sessions.push k s.sessions_queue).1 })
        (push_session-Fresh k s f) i

  accept_times-reads :
      (i n : ℕ) (s : S)
      → in_service Sessions Operations acquires i (accept_times Sessions Operations acquires n s)
        ≤ in_service Sessions Operations acquires i s
  unfolding accept_times
  accept_times-reads i zero s = omega arith
  accept_times-reads i (suc n) s = omega (
    arith,
    request_accept_one-reads Sessions Operations acquires i s,
    accept_times-reads i n (request_accept_one Sessions Operations acquires s),
  )

  module _ (no_sessions : Sessions.Queue) (no_operations : Operations.Queue)
      (empty : Sessions.contents no_sessions ≡ [])
      (no_requests : Operations.contents no_operations ≡ []) where
    initialize_service-at_most :
        (built : Built) (i : ℕ)
        → in_service Sessions Operations acquires i
            (initialize_service Sessions Operations acquires no_sessions no_operations built)
          ≤ 1
    unfolding initialize_service initialize_threads new_service initialize
    initialize_service-at_most built i =
        let nothing = λ (k : ℕ).
          sum_of-replicate (queue_weight Operations (reads k)) built.service.thread_count
            no_operations (ap (sum_of (reads k)) no_requests) in
        let made : S =
          record (initialize_threads Sessions Operations acquires no_sessions no_operations
            built.service.thread_count
            (new_service Sessions Operations acquires no_sessions no_operations built)) {
              sessions = replicate built.service.session_count new_session;
            } in
        let fresh : Fresh 0 made = record {
          at_most = λ k. omega (arith, nothing k, ap (count k) empty);
          none_from = λ k h. omega (arith, nothing k, ap (count k) empty);
        } in
        omega (
          arith,
          accept_times-reads i built.service.backlog
              (push_sessions Sessions Operations acquires 0 built.service.session_count made),
          push_sessions-at_most 0 built.service.session_count made fresh i,
        )

    module _ (U : IoUring IoOperation) (new_ring : U.Ring)
        (no_entries : U.outstanding new_ring ≡ []) where
      -- The service has started; every worker waits, with a new ring.
      abbrev pub started_workers : Built → Workers U Sessions Operations acquires
      started_workers built = record {
        service = initialize_service Sessions Operations acquires no_sessions no_operations built;
        workers =
            replicate built.service.thread_count (at U Sessions Operations acquires new_ring waits);
      }

      module _ {ℓ} {H : Type ℓ} (d : MessageDispatcher H) where
        waiting-AllHold :
            (n : ℕ)
            → AllHold U Sessions Operations acquires d
                (replicate n (at U Sessions Operations acquires new_ring waits))
        waiting-AllHold zero = tt
        waiting-AllHold (suc n) = (tt, waiting-AllHold n)

        started-IsSingle :
            (built : Built) → IsSingle U Sessions Operations acquires d (started_workers built)
        started-IsSingle built = (
          waiting-AllHold built.service.thread_count,
          λ i. omega (
            arith,
            initialize_service-at_most built i,
            sum_of-replicate (unhandled_of U Sessions Operations acquires d i)
                built.service.thread_count (at U Sessions Operations acquires new_ring waits)
                (ap (sum_of (reads i)) no_entries),
          ),
        )

        handling-unhandled :
            (i : ℕ) (ws : List (Worker U Sessions Operations acquires))
            → AllHold U Sessions Operations acquires d ws
            → sum_of (λ (w : Worker U Sessions Operations acquires). handling i w.point) ws
              ≤ sum_of (unhandled_of U Sessions Operations acquires d i) ws
        handling-unhandled i [] all = omega arith
        handling-unhandled i (w ∷ ws) all =
            omega (arith, handling_one U i w.point w.ring all.0, handling-unhandled i ws all.1)

        -- A service as its builder makes it is started with empty queues and empty rings, and its
        -- workers run as threads, whose steps may come in any order; handlers and tasks ask
        -- sessions for sends and closes only, as Actor lets them. Then, at any time, a session
        -- waits in the queue for an accept, or has an accept or a receive in the queue of a
        -- worker, or a worker is about to handle the completion of one, and of all of these there
        -- is one at most: no two threads ever handle what one session has read.
        pub handles_one :
            (built : Built) (schedule : List Turn) (i : ℕ)
            → asked_by_actors schedule ≡ true
            → let t =
                run_workers U Sessions Operations acquires d schedule (started_workers built) in
              in_service Sessions Operations acquires i t.service
                + sum_of
                    (λ (w : Worker U Sessions Operations acquires). handling i w.point)
                    t.workers
              ≤ 1
        handles_one built schedule i b =
            let t = run_workers U Sessions Operations acquires d schedule (started_workers built) in
            let (all, single) =
              run_workers-IsSingle U Sessions Operations acquires d schedule (started_workers built)
                b (started-IsSingle built) in
            omega (arith, single i, handling-unhandled i t.workers all)
