-- ===== src/Service/Workers/Alive.antt =====
-- The operations over any schedule of the workers' steps.
use first_server.Common.{
  ℕ, ◌+◌, ◌-◌, ◌≤◌, ◌≡◌, ap, inl, inr, List, [], ◌∷◌, some, Bool, arith, get_elem?, sum_of,
  sum_of-set, sum_of-get, AllOf-get, Option-cases, pos,
}
use first_server.Lockfree.{LockfreeQueue}
use first_server.Net.Uring.{IoUring}
use first_server.Message.Dispatcher.{MessageDispatcher}
use first_server.Session.Connection.{Request}
use first_server.Service.{IoOperation, Service}
use first_server.Service.Routine.{IoCompletion, completion_of, wait_one, request_io_on}
use first_server.Service.Routine.Sends.{is_object, queue_weight}
use first_server.Service.Routine.Places.{IsAlive}
use first_server.Service.Routine.Requests.{ring_weight, request_io_on-Requested}
use first_server.Service.Routine.Release.{IsOfRing, wait_one-outstanding, release-IsAlive}
use first_server.Service.Routine.Alive.{serve_list-IsAlive, handle-IsAlive}
use first_server.Service.Workers.Holding.{IsHolding, Holds, AllHold, worker_step-AllHold}
use first_server.Service.Workers.{
  Point, waits, handles, tests_empty, pops, submits, works, ends, crashed, Turn, Worker, Workers,
  pop_request, end_completion, go_on, worker_step, run_workers,
}

module _ (U : IoUring IoOperation) where
  module _ (Sessions : LockfreeQueue ℕ) (Operations : LockfreeQueue IoOperation)
      (acquires : ℕ → Bool) where
    abbrev S : Type 0
    S = Service Sessions Operations acquires

    abbrev W : Type 0
    W = Worker U Sessions Operations acquires

    abbrev Alive : (ℕ → ℕ) → S → Type 0
    Alive = IsAlive Sessions Operations acquires

    -- Of an object, what a worker's ring has with what is elsewhere.
    abbrev with_ring : (ℕ → ℕ) → U.Ring → ℕ → ℕ
    with_ring others ring n = others n + ring_weight U (is_object n) ring

    IsAlive-le :
        (rings rings' : ℕ → ℕ) (s : S)
        → ((n : ℕ) → rings' n ≤ rings n)
        → Alive rings s
        → Alive rings' s
    IsAlive-le rings rings' s le a = record {
      held = λ n. omega (arith, le n, a.held n);
      once = a.once;
      fresh = a.fresh;
    }

    -- After a step of a worker, while the other rings have `others`.
    abbrev Steps : (ℕ → ℕ) → W × S → Type 0
    Steps others r = Alive (with_ring others r.0.ring) r.1

    pop_request-Steps :
        (others : ℕ → ℕ) (w : ℕ) (q : Operations.Queue) (completion : IoCompletion) (ring : U.Ring)
        (s : S)
        → get_elem? s.worker_threads w ≡ some q
        → Alive (with_ring others ring) s
        → Steps others (pop_request U Sessions Operations acquires w q completion ring s)
    unfolding pop_request
    pop_request-Steps others w q completion ring s e a = elim (Operations.pop_cases q) [
      | inl (empty, popped) ↦ rw (popped, pop_request) a
      | inr (op, q', front, popped) ↦
          let less = λ (f : IoOperation → ℕ).
            sum_of-set (queue_weight Operations f) s.worker_threads w q q' e in
          let was = λ (f : IoOperation → ℕ). ap (sum_of f) front in
          elim (Option-cases (request_io_on U s.sessions op (some ring))) [
            | inl full ↦
                rw (popped, pop_request)
                  (rw (full, pop_request)
                    (record {
                      held = λ n. omega (arith, less (is_object n), was (is_object n), a.held n);
                      once = a.once;
                      fresh = a.fresh;
                    }))
            | inr (ring', done) ↦
                let requested = request_io_on-Requested U s.sessions op ring ring' done in
                rw (popped, pop_request)
                  (rw (done, pop_request)
                    (record {
                      held = λ n. omega (
                        arith,
                        less (is_object n),
                        was (is_object n),
                        requested.weight (is_object n),
                        a.held n,
                      );
                      once = a.once;
                      fresh = a.fresh;
                    }))
          ]
    ]

    end_completion-Steps :
        (others : ℕ → ℕ) (completion : IoCompletion) (ring : U.Ring) (s : S)
        → IsOfRing U completion ring
        → Alive (with_ring others ring) s
        → Steps others (end_completion U Sessions Operations acquires completion ring s)
    unfolding end_completion IsOfRing completion_of
    end_completion-Steps others completion ring s (inl (no_cqe, no_op)) a =
        rw (no_cqe, no_op, end_completion) a
    end_completion-Steps others completion ring s (inr (c, e, first)) a =
        rw (e, end_completion)
          (release-IsAlive U Sessions Operations acquires c.user_data (with_ring others ring)
            (with_ring others (U.cqe_seen ring)) s
            (λ n. omega (arith, U.seen_outstanding c ring first (is_object n))) a)

    module _ {ℓ} {H : Type ℓ} (d : MessageDispatcher H) where
      go_on-Steps :
          (others : ℕ → ℕ) (w : ℕ) (asks : List (ℕ × Request)) (p : Point) (ring : U.Ring) (s : S)
          → IsHolding U ring p
          → Alive (with_ring others ring) s
          → Steps others (go_on U Sessions Operations acquires d w asks p ring s)
      unfolding go_on
      go_on-Steps others w asks waits ring s h a =
          IsAlive-le (with_ring others ring) (with_ring others (wait_one U (pos 0) ring).1) s
            (λ n. omega (arith, ap (sum_of (is_object n)) (wait_one-outstanding U (pos 0) ring))) a
      go_on-Steps others w asks (handles completion) ring s h a =
          serve_list-IsAlive U Sessions Operations acquires (with_ring others ring) asks _
            (handle-IsAlive U Sessions Operations acquires d (with_ring others ring) completion s a)
      go_on-Steps others w asks (tests_empty completion) ring s h a =
          elim (Option-cases (get_elem? s.worker_threads w)) [
            | inl e ↦ rw (e, go_on) a
            | inr (q, e) ↦ rw (e, go_on) a
          ]
      go_on-Steps others w asks (pops completion) ring s h a =
          elim (Option-cases (get_elem? s.worker_threads w)) [
            | inl e ↦ rw (e, go_on) a
            | inr (q, e) ↦ rw (e, go_on) (pop_request-Steps others w q completion ring s e a)
          ]
      go_on-Steps others w asks (submits completion) ring s h a =
          IsAlive-le (with_ring others ring) (with_ring others (U.submit ring)) s
            (λ n. omega (arith, ap (sum_of (is_object n)) (U.submit_outstanding ring))) a
      go_on-Steps others w asks (works completion) ring s h a =
          serve_list-IsAlive U Sessions Operations acquires (with_ring others ring) asks s a
      go_on-Steps others w asks (ends completion) ring s h a =
          end_completion-Steps others completion ring s h a
      go_on-Steps others w asks crashed ring s h a = a

      abbrev pub workers_weight : List W → ℕ → ℕ
      workers_weight workers n =
          sum_of (λ (worker : W). ring_weight U (is_object n) worker.ring) workers

      abbrev pub IsSound : Workers U Sessions Operations acquires → Type 0
      IsSound t =
          AllHold U Sessions Operations acquires d t.workers
          × Alive (workers_weight t.workers) t.service

      worker_step-IsSound :
          (turn : Turn) (t : Workers U Sessions Operations acquires)
          → IsSound t
          → IsSound (worker_step U Sessions Operations acquires d turn t)
      unfolding worker_step
      worker_step-IsSound turn t (all, a) = (
        worker_step-AllHold U Sessions Operations acquires d turn t all,
        elim (Option-cases (get_elem? t.workers turn.worker)) [
          | inl e ↦ rw (e, worker_step) a
          | inr (worker, e) ↦
              let others : ℕ → ℕ =
                λ n. workers_weight t.workers n - ring_weight U (is_object n) worker.ring in
              let (worker', s) =
                go_on U Sessions Operations acquires d turn.worker turn.asks worker.point
                  worker.ring t.service in
              let weighs = λ (n : ℕ).
                sum_of-set (λ (worker : W). ring_weight U (is_object n) worker.ring) t.workers
                  turn.worker worker worker' e in
              let le = λ (n : ℕ).
                sum_of-get (λ (worker : W). ring_weight U (is_object n) worker.ring) t.workers
                  turn.worker worker e in
              let holds =
                AllOf-get (Holds U Sessions Operations acquires) t.workers turn.worker worker all
                  e in
              rw (e, worker_step)
                (IsAlive-le (with_ring others worker'.ring) _ s (λ n. omega (arith, weighs n, le n))
                  (go_on-Steps others turn.worker turn.asks worker.point worker.ring t.service holds
                    (IsAlive-le (workers_weight t.workers) (with_ring others worker.ring) t.service
                      (λ n. omega (arith, le n)) a)))
        ],
      )

      -- Let the workers run as threads, whose steps may come in any order. In a state, let the
      -- completion that a worker works on be the first of its ring; let the queues and the rings
      -- have every operation at most as often as there are references to it; let each operation
      -- have one reference, or have been given back to its pool once, or neither; and let an
      -- operation that has not been acquired have neither. Then all of this holds after any steps
      -- of the workers, whatever handlers and tasks ask for, also when a worker has crashed on a
      -- full ring: no operation is given back twice, and none that has been given back is in a
      -- queue or a ring.
      pub run_workers-IsSound :
          (schedule : List Turn) (t : Workers U Sessions Operations acquires)
          → IsSound t
          → IsSound (run_workers U Sessions Operations acquires d schedule t)
      unfolding run_workers
      run_workers-IsSound [] t sound = sound
      run_workers-IsSound (turn ∷ turns) t sound =
          run_workers-IsSound turns (worker_step U Sessions Operations acquires d turn t)
            (worker_step-IsSound turn t sound)
