-- ===== src/Service/Workers/Single.antt =====
-- At most one accept or receive of a session at any time, over any schedule of the workers' steps.
use first_server.Common.{
  ℕ, ◌+◌, ◌-◌, ◌≤◌, ◌≡◌, ap, inl, inr, List, [], ◌∷◌, some, Bool, true, ◌&&◌, arith, get_elem?,
  sum_of, sum_of-set, sum_of-get, AllOf-get, Option-cases, Bool-cases, pos,
}
use first_server.Lockfree.{LockfreeQueue}
use first_server.Net.Uring.{IoUring}
use first_server.Message.Dispatcher.{MessageDispatcher}
use first_server.Session.Connection.{Request}
use first_server.Service.{IoOperation, Service}
use first_server.Service.Routine.{
  IoCompletion, completion_of, request_io_on, intrusive_ptr_release, on_zero_ref,
  handle_io_completion,
}
use first_server.Service.Routine.Sends.{queue_weight}
use first_server.Service.Routine.Requests.{ring_weight, request_io_on-Requested}
use first_server.Service.Routine.Release.{IsOfRing, wait_one-outstanding}
use first_server.Service.Workers.{
  Point, waits, handles, tests_empty, pops, submits, works, ends, crashed, Turn, Worker, Workers,
  pop_request, end_completion, go_on, worker_step, run_workers,
}
use first_server.Service.Workers.Reads.{reads, option_reads, by_actors}
use first_server.Service.Workers.Served.{in_service, serve_list-reads, handle-reads}
use first_server.Service.Workers.Holding.{IsHolding, Holds, AllHold, worker_step-AllHold}

-- All that actors ask for in a schedule is sends and closes.
abbrev pub asked_by_actors : List Turn → Bool
asked_by_actors [] = true
asked_by_actors (turn ∷ turns) = by_actors turn.asks && asked_by_actors turns

module _ (U : IoUring IoOperation) where
  -- The reads of the session `i` in a ring that have not been handled: a completion that has been
  -- handled stays in the ring until it is marked as seen. A crashed worker handles nothing more.
  abbrev pub unhandled : ℕ → U.Ring → Point → ℕ
  unhandled i ring waits = ring_weight U (reads i) ring
  unhandled i ring (handles completion) = ring_weight U (reads i) ring
  unhandled i ring (tests_empty completion) =
      ring_weight U (reads i) ring - option_reads i completion.completed_operation
  unhandled i ring (pops completion) =
      ring_weight U (reads i) ring - option_reads i completion.completed_operation
  unhandled i ring (submits completion) =
      ring_weight U (reads i) ring - option_reads i completion.completed_operation
  unhandled i ring (works completion) =
      ring_weight U (reads i) ring - option_reads i completion.completed_operation
  unhandled i ring (ends completion) =
      ring_weight U (reads i) ring - option_reads i completion.completed_operation
  unhandled i ring crashed = 0

  -- The operation of a completion is one of the ring's.
  pub completed-in_ring :
      (i : ℕ) (completion : IoCompletion) (ring : U.Ring)
      → IsOfRing U completion ring
      → option_reads i completion.completed_operation ≤ ring_weight U (reads i) ring
  unfolding IsOfRing completion_of
  completed-in_ring i completion ring (inl (no_cqe, no_op)) = rw no_op (omega arith)
  completed-in_ring i completion ring (inr (c, e, first)) =
      rw e (omega (arith, U.seen_outstanding c ring first (reads i)))

  module _ (Sessions : LockfreeQueue ℕ) (Operations : LockfreeQueue IoOperation)
      (acquires : ℕ → Bool) where
    abbrev S : Type 0
    S = Service Sessions Operations acquires

    abbrev W : Type 0
    W = Worker U Sessions Operations acquires

    abbrev total : ℕ → W → S → ℕ
    total i worker s =
        in_service Sessions Operations acquires i s + unhandled i worker.ring worker.point

    pop_request-total :
        (i w : ℕ) (q : Operations.Queue) (completion : IoCompletion) (ring : U.Ring) (s : S)
        → get_elem? s.worker_threads w ≡ some q
        → IsOfRing U completion ring
        → let r = pop_request U Sessions Operations acquires w q completion ring s in
          total i r.0 r.1
          ≤ in_service Sessions Operations acquires i s + unhandled i ring (pops completion)
    unfolding pop_request
    pop_request-total i w q completion ring s e of_ring =
        let in_ring = completed-in_ring i completion ring of_ring in
        elim (Operations.pop_cases q) [
          | inl (empty, popped) ↦ rw (popped, pop_request) (omega arith)
          | inr (op, q', front, popped) ↦
              let less = sum_of-set (queue_weight Operations (reads i)) s.worker_threads w q q' e in
              let was = ap (sum_of (reads i)) front in
              elim (Option-cases (request_io_on U s.sessions op (some ring))) [
                | inl full ↦
                    rw (popped, pop_request) (rw (full, pop_request) (omega (arith, less, was)))
                | inr (ring', done) ↦
                    let requested = request_io_on-Requested U s.sessions op ring ring' done in
                    rw (popped, pop_request)
                      (rw (done, pop_request)
                        (omega (arith, less, was, in_ring, requested.weight (reads i))))
              ]
        ]

    end_completion-total :
        (i : ℕ) (completion : IoCompletion) (ring : U.Ring) (s : S)
        → IsOfRing U completion ring
        → let r = end_completion U Sessions Operations acquires completion ring s in
          total i r.0 r.1
          ≤ in_service Sessions Operations acquires i s + unhandled i ring (ends completion)
    unfolding end_completion IsOfRing completion_of intrusive_ptr_release on_zero_ref
    end_completion-total i completion ring s (inl (no_cqe, no_op)) =
        rw (no_cqe, no_op, end_completion) (omega arith)
    end_completion-total i completion ring s (inr (c, e, first)) =
        rw (e, end_completion) (ground (arith, U.seen_outstanding c ring first (reads i)))

    module _ {ℓ} {H : Type ℓ} (d : MessageDispatcher H) where
      go_on-total :
          (i w : ℕ) (asks : List (ℕ × Request)) (p : Point) (ring : U.Ring) (s : S)
          → by_actors asks ≡ true
          → IsHolding U ring p
          → let r = go_on U Sessions Operations acquires d w asks p ring s in
            total i r.0 r.1 ≤ in_service Sessions Operations acquires i s + unhandled i ring p
      unfolding go_on
      go_on-total i w asks waits ring s b h =
          omega (arith, ap (sum_of (reads i)) (wait_one-outstanding U (pos 0) ring))
      go_on-total i w asks (handles completion) ring s b h = omega (
        arith,
        handle-reads Sessions Operations acquires d U i completion s,
        completed-in_ring i completion ring h,
        serve_list-reads Sessions Operations acquires U i asks
            (handle_io_completion U Sessions Operations acquires d completion s) b,
      )
      go_on-total i w asks (tests_empty completion) ring s b h =
          elim (Option-cases (get_elem? s.worker_threads w)) [
            | inl e ↦ rw (e, go_on) (omega arith)
            | inr (q, e) ↦ elim (Bool-cases (Operations.empty q)) [
              | inl f ↦ rw (e, go_on) (rw (f, go_on) (omega arith))
              | inr f ↦ rw (e, go_on) (rw (f, go_on) (omega arith))
            ]
          ]
      go_on-total i w asks (pops completion) ring s b h =
          elim (Option-cases (get_elem? s.worker_threads w)) [
            | inl e ↦ rw (e, go_on) (omega arith)
            | inr (q, e) ↦ rw (e, go_on) (pop_request-total i w q completion ring s e h)
          ]
      go_on-total i w asks (submits completion) ring s b h =
          omega (arith, ap (sum_of (reads i)) (U.submit_outstanding ring))
      go_on-total i w asks (works completion) ring s b h =
          omega (arith, serve_list-reads Sessions Operations acquires U i asks s b)
      go_on-total i w asks (ends completion) ring s b h = end_completion-total i completion ring s h
      go_on-total i w asks crashed ring s b h = omega arith

      abbrev pub unhandled_of : ℕ → W → ℕ
      unhandled_of i worker = unhandled i worker.ring worker.point

      -- Of every session: how often it waits for an accept, its accepts and receives that wait for
      -- their worker, and those in the rings whose completions have not been handled, are one at
      -- most.
      abbrev pub IsSingle : Workers U Sessions Operations acquires → Type 0
      IsSingle t =
          AllHold U Sessions Operations acquires d t.workers
          × ((i : ℕ)
              → in_service Sessions Operations acquires i t.service
                  + sum_of (unhandled_of i) t.workers
                ≤ 1)

      worker_step-IsSingle :
          (turn : Turn) (t : Workers U Sessions Operations acquires)
          → by_actors turn.asks ≡ true
          → IsSingle t
          → IsSingle (worker_step U Sessions Operations acquires d turn t)
      unfolding worker_step
      worker_step-IsSingle turn t b (all, single) = (
        worker_step-AllHold U Sessions Operations acquires d turn t all,
        λ i. elim (Option-cases (get_elem? t.workers turn.worker)) [
          | inl e ↦ rw (e, worker_step) (single i)
          | inr (worker, e) ↦
              let (worker', s) =
                go_on U Sessions Operations acquires d turn.worker turn.asks worker.point
                  worker.ring t.service in
              let holds =
                AllOf-get (Holds U Sessions Operations acquires) t.workers turn.worker worker all
                  e in
              rw (e, worker_step)
                (omega (
                  arith,
                  single i,
                  sum_of-set (unhandled_of i) t.workers turn.worker worker worker' e,
                  sum_of-get (unhandled_of i) t.workers turn.worker worker e,
                  go_on-total i turn.worker turn.asks worker.point worker.ring t.service b holds,
                ))
        ],
      )

      pub run_workers-IsSingle :
          (schedule : List Turn) (t : Workers U Sessions Operations acquires)
          → asked_by_actors schedule ≡ true
          → IsSingle t
          → IsSingle (run_workers U Sessions Operations acquires d schedule t)
      unfolding run_workers
      run_workers-IsSingle [] t b single = single
      run_workers-IsSingle (turn ∷ turns) t b single =
          let first : by_actors turn.asks ≡ true = ground (arith, b) in
          let later : asked_by_actors turns ≡ true = ground (arith, b) in
          run_workers-IsSingle turns (worker_step U Sessions Operations acquires d turn t) later
            (worker_step-IsSingle turn t first single)
