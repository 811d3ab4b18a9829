-- ===== src/Service/Routine/Alive.antt =====
-- The operations over any schedule of the workers' routines.
use first_server.Common.{
  ℕ, suc, ◌≡◌, refl, ap, ◌∙◌, inl, inr, List, [], ◌∷◌, Option, some, none, ◌⊎◌, Bool, arith, pos,
  get_elem?, set, length, sum_of, Option-cases,
}
use first_server.Lockfree.{LockfreeQueue}
use first_server.Net.Uring.{IoUring}
use first_server.Message.Dispatcher.{MessageDispatcher}
use first_server.Session.Connection.{Request}
use first_server.Service.{IoOperation, Service, serve}
use first_server.Service.RequestQueue.{flush_requests-Flushed}
use first_server.Service.Routine.{
  IoCompletion, wait_one, map_ring, request_io_on, Turn, serve_list, Running, destroy_completion,
  flush_and_end, handle_io_completion, routine, run_routines,
}
use first_server.Service.Routine.Places.{IsAlive, serve-IsAlive, handle_completion-IsAlive}
use first_server.Service.Routine.Requests.{rings_weight, submit-requests, submit-cases, IsFull}
use first_server.Service.Routine.Release.{
  IsOfRing, wait_one-IsOfRing, wait_one-outstanding, destroy-IsAlive, flushed-IsAlive,
  same_ring-IsAlive, still_first,
}

module _ (U : IoUring IoOperation) (Sessions : LockfreeQueue ℕ)
    (Operations : LockfreeQueue IoOperation) (acquires : ℕ → Bool) where
  abbrev S : Type 0
  S = Service Sessions Operations acquires

  abbrev R : Type 0
  R = Running U Sessions Operations acquires

  abbrev Alive : (ℕ → ℕ) → S → Type 0
  Alive = IsAlive Sessions Operations acquires

  -- The end, which is in order.
  pub record Ended (result : Option R) : Type 0 where
    pub final : R
    pub returns : result ≡ some final
    pub alive : IsAlive Sessions Operations acquires (rings_weight U final.rings) final.service

  -- Either a ring without a free entry has led to a fault, or the end is in order.
  abbrev pub Survives : Option R → Type 0
  Survives result = ((result ≡ none) × IsFull U) ⊎ Ended result

  pub serve_list-IsAlive :
      (rings : ℕ → ℕ) (asked : List (ℕ × Request)) (s : S)
      → Alive rings s
      → Alive rings (serve_list U Sessions Operations acquires asked s)
  unfolding serve_list
  serve_list-IsAlive rings [] s a = a
  serve_list-IsAlive rings ((i, r) ∷ more) s a =
      serve_list-IsAlive rings more (serve Sessions Operations acquires i r s)
        (serve-IsAlive Sessions Operations acquires rings i r s a)

  flush_queue-Survives :
      (tasks_ask : List (ℕ × Request)) (completion : IoCompletion) (w : ℕ) (ring old : U.Ring)
      (s : S) (rings : List U.Ring)
      → (q : Operations.Queue) → get_elem? s.worker_threads w ≡ some q
      → get_elem? rings w ≡ some old
      → U.outstanding ring ≡ U.outstanding old
      → IsOfRing U completion ring
      → Alive (rings_weight U rings) s
      → Survives (flush_and_end U Sessions Operations acquires tasks_ask completion w ring s rings)
  unfolding flush_and_end
  flush_queue-Survives tasks_ask completion w ring old s rings q e h same first a =
      let ops = Operations.contents q in
      let run =
        flush_requests-Flushed Operations (request_io_on U s.sessions) (map_ring U U.submit)
          (suc (length ops)) (record { ring = some ring; request_queue = q }) (omega arith) in
      let q' = run.final.request_queue in
      let s' : S = record s { worker_threads = set s.worker_threads w q' } in
      let s'' = serve_list U Sessions Operations acquires tasks_ask s' in
      elim (submit-cases U Operations s.sessions ops ring) [
        | inl (faults, full) ↦
            let got : run.final.ring ≡ none = run.requested ∙ faults in
            rw (e, flush_and_end)
              (rw (run.returns, flush_and_end) (rw (got, flush_and_end) (inl (refl, full))))
        | inr (ring', submitted) ↦
            let requested = submit-requests U Operations s.sessions ops ring ring' submitted in
            let got : run.final.ring ≡ some ring' = run.requested ∙ submitted in
            let flushed =
              flushed-IsAlive U Sessions Operations acquires s rings w q q' old ring' h e
                run.emptied (λ f. omega (arith, requested.weight f, ap (sum_of f) same)) a in
            rw (e, flush_and_end)
              (rw (run.returns, flush_and_end)
                (rw (got, flush_and_end)
                  (inr (record {
                    final =
                        destroy_completion U Sessions Operations acquires completion w ring' s''
                          rings;
                    returns = refl;
                    alive =
                        destroy-IsAlive U Sessions Operations acquires completion w ring' old s''
                          rings h
                          (still_first U Sessions Operations acquires completion ops ring ring'
                            requested first)
                          (serve_list-IsAlive (rings_weight U (set rings w ring')) tasks_ask s'
                            flushed);
                  }))))
      ]

  flush-Survives :
      (tasks_ask : List (ℕ × Request)) (completion : IoCompletion) (w : ℕ) (ring old : U.Ring)
      (s : S) (rings : List U.Ring)
      → get_elem? rings w ≡ some old
      → U.outstanding ring ≡ U.outstanding old
      → IsOfRing U completion ring
      → Alive (rings_weight U rings) s
      → Survives (flush_and_end U Sessions Operations acquires tasks_ask completion w ring s rings)
  unfolding flush_and_end
  flush-Survives tasks_ask completion w ring old s rings h same first a =
      elim (Option-cases (get_elem? s.worker_threads w)) [
        | inl e ↦
            let s' = serve_list U Sessions Operations acquires tasks_ask s in
            rw (e, flush_and_end)
              (inr (record {
                final =
                    destroy_completion U Sessions Operations acquires completion w ring s' rings;
                returns = refl;
                alive =
                    destroy-IsAlive U Sessions Operations acquires completion w ring old s' rings h
                      first
                      (serve_list-IsAlive (rings_weight U (set rings w ring)) tasks_ask s (
                        same_ring-IsAlive U Sessions Operations acquires s rings w old ring h same
                          a));
              }))
        | inr (q, e) ↦
            flush_queue-Survives tasks_ask completion w ring old s rings q e h same first a
      ]

  module _ {ℓ} {H : Type ℓ} (d : MessageDispatcher H) where
    pub handle-IsAlive :
        (rings : ℕ → ℕ) (completion : IoCompletion) (s : S)
        → Alive rings s
        → Alive rings (handle_io_completion U Sessions Operations acquires d completion s)
    unfolding handle_io_completion
    handle-IsAlive rings completion s a = elim (Option-cases completion.completed_operation) [
      | inl e ↦ rw (e, handle_io_completion) a
      | inr (op, e) ↦
          rw (e, handle_io_completion)
            (handle_completion-IsAlive Sessions Operations acquires d rings op completion.result s
              a)
    ]

    routine-Survives :
        (turn : Turn) (x : R)
        → Alive (rings_weight U x.rings) x.service
        → Survives (routine U Sessions Operations acquires d turn x)
    unfolding routine
    routine-Survives turn x a = elim (Option-cases (get_elem? x.rings turn.worker)) [
      | inl e ↦ rw (e, routine) (inr (record { final = x; returns = refl; alive = a }))
      | inr (ring, e) ↦
          let (completion, ring') = wait_one U (pos 0) ring in
          let handled =
            handle_io_completion U Sessions Operations acquires d completion x.service in
          rw (e, routine)
            (flush-Survives turn.tasks_ask completion turn.worker ring' ring
              (serve_list U Sessions Operations acquires turn.handlers_ask handled) x.rings e
              (wait_one-outstanding U (pos 0) ring) (wait_one-IsOfRing U (pos 0) ring)
              (serve_list-IsAlive (rings_weight U x.rings) turn.handlers_ask handled
                (handle-IsAlive (rings_weight U x.rings) completion x.service a)))
    ]

    -- In the state at the start, let the workers' queues and rings have every operation at most as
    -- often as there are references to it; let each operation have one reference, or have been
    -- given back to its pool once, or neither; and let an operation that has not been acquired
    -- have neither. Then for any schedule of the workers' routines, whatever handlers and tasks
    -- ask for, either a ring can be full and a null pointer has been written through, or the
    -- schedule comes to its end and all of this holds again: no operation is given back twice, and
    -- none that has been given back is in a queue or a ring.
    pub run_routines-IsAlive :
        (schedule : List Turn) (x : R)
        → IsAlive Sessions Operations acquires (rings_weight U x.rings) x.service
        → Survives (run_routines U Sessions Operations acquires d schedule x)
    unfolding run_routines
    run_routines-IsAlive [] x a = inr (record { final = x; returns = refl; alive = a })
    run_routines-IsAlive (turn ∷ turns) x a = elim (routine-Survives turn x a) [
      | inl (faults, full) ↦ inl (rw (faults, run_routines) refl, full)
      | inr first ↦
          rw (first.returns, run_routines) (run_routines-IsAlive turns first.final first.alive)
    ]
