-- ===== src/Service/Workers/Holding.antt =====
-- The completion that a worker works on, over any schedule of the workers' steps.
use first_server.Common.{
  ℕ, ◌≡◌, inl, inr, List, some, Bool, get_elem?, AllOf, AllOf-get, AllOf-set, Option-cases,
  Bool-cases, pos,
}
use first_server.Lockfree.{LockfreeQueue}
use first_server.Net.Uring.{IoUring, Cqe}
use first_server.Message.Dispatcher.{MessageDispatcher}
use first_server.Session.Connection.{Request}
use first_server.Service.{IoOperation, Service}
use first_server.Service.Routine.{IoCompletion, request_io_on}
use first_server.Service.Routine.Requests.{request_io_on-Requested}
use first_server.Service.Routine.Release.{IsOfRing, wait_one-IsOfRing}
use first_server.Service.Workers.{
  Point, waits, handles, tests_empty, pops, submits, works, ends, crashed, Turn, Worker, Workers,
  pop_request, end_completion, go_on, worker_step,
}

module _ (U : IoUring IoOperation) where
  -- The completion of a worker is the first of its ring.
  abbrev pub IsHolding : U.Ring → Point → Type 0
  IsHolding ring waits = Unit
  IsHolding ring (handles completion) = IsOfRing U completion ring
  IsHolding ring (tests_empty completion) = IsOfRing U completion ring
  IsHolding ring (pops completion) = IsOfRing U completion ring
  IsHolding ring (submits completion) = IsOfRing U completion ring
  IsHolding ring (works completion) = IsOfRing U completion ring
  IsHolding ring (ends completion) = IsOfRing U completion ring
  IsHolding ring crashed = Unit

  IsOfRing-first :
      (completion : IoCompletion) (ring ring' : U.Ring)
      → ((c : Cqe IoOperation) → U.first_cqe ring ≡ some c → U.first_cqe ring' ≡ some c)
      → IsOfRing U completion ring
      → IsOfRing U completion ring'
  unfolding IsOfRing
  IsOfRing-first completion ring ring' keeps (inl nothing) = inl nothing
  IsOfRing-first completion ring ring' keeps (inr (c, e, first)) = inr (c, e, keeps c first)

  module _ (Sessions : LockfreeQueue ℕ) (Operations : LockfreeQueue IoOperation)
      (acquires : ℕ → Bool) where
    abbrev S : Type 0
    S = Service Sessions Operations acquires

    abbrev W : Type 0
    W = Worker U Sessions Operations acquires

    -- So is a worker in itself.
    abbrev pub Holds : W → Type 0
    Holds worker = IsHolding worker.ring worker.point

    pop_request-Holds :
        (w : ℕ) (q : Operations.Queue) (completion : IoCompletion) (ring : U.Ring) (s : S)
        → IsOfRing U completion ring
        → Holds (pop_request U Sessions Operations acquires w q completion ring s).0
    unfolding pop_request
    pop_request-Holds w q completion ring s of_ring = elim (Option-cases (Operations.pop q)) [
      | inl popped ↦ rw (popped, pop_request) of_ring
      | inr ((op, q'), popped) ↦ elim (Option-cases (request_io_on U s.sessions op (some ring))) [
        | inl full ↦ rw (popped, pop_request) (rw (full, pop_request) tt)
        | inr (ring', done) ↦
            rw (popped, pop_request)
              (rw (done, pop_request)
                (IsOfRing-first completion ring ring'
                  (request_io_on-Requested U s.sessions op ring ring' done).first of_ring))
      ]
    ]

    module _ {ℓ} {H : Type ℓ} (d : MessageDispatcher H) where
      go_on-Holds :
          (w : ℕ) (asks : List (ℕ × Request)) (p : Point) (ring : U.Ring) (s : S)
          → IsHolding ring p
          → Holds (go_on U Sessions Operations acquires d w asks p ring s).0
      unfolding go_on end_completion
      go_on-Holds w asks waits ring s h = wait_one-IsOfRing U (pos 0) ring
      go_on-Holds w asks (handles completion) ring s h = h
      go_on-Holds w asks (tests_empty completion) ring s h =
          elim (Option-cases (get_elem? s.worker_threads w)) [
            | inl e ↦ rw (e, go_on) h
            | inr (q, e) ↦ elim (Bool-cases (Operations.empty q)) [
              | inl f ↦ rw (e, go_on) (rw (f, go_on) h)
              | inr f ↦ rw (e, go_on) (rw (f, go_on) h)
            ]
          ]
      go_on-Holds w asks (pops completion) ring s h =
          elim (Option-cases (get_elem? s.worker_threads w)) [
            | inl e ↦ rw (e, go_on) h
            | inr (q, e) ↦ rw (e, go_on) (pop_request-Holds w q completion ring s h)
          ]
      go_on-Holds w asks (submits completion) ring s h =
          IsOfRing-first completion ring (U.submit ring) (λ c. U.submit_first c ring) h
      go_on-Holds w asks (works completion) ring s h = h
      go_on-Holds w asks (ends completion) ring s h = tt
      go_on-Holds w asks crashed ring s h = tt

      -- Every worker that works on a completion keeps it as the first of its ring.
      abbrev pub AllHold : List W → Type 0
      AllHold = AllOf Holds

      pub worker_step-AllHold :
          (turn : Turn) (t : Workers U Sessions Operations acquires)
          → AllHold t.workers
          → AllHold (worker_step U Sessions Operations acquires d turn t).workers
      unfolding worker_step
      worker_step-AllHold turn t all = elim (Option-cases (get_elem? t.workers turn.worker)) [
        | inl e ↦ rw (e, worker_step) all
        | inr (worker, e) ↦
            let holds = AllOf-get Holds t.workers turn.worker worker all e in
            rw (e, worker_step)
              (AllOf-set Holds t.workers turn.worker _ all
                (go_on-Holds turn.worker turn.asks worker.point worker.ring t.service holds))
      ]
