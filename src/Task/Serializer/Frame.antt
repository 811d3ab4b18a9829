-- ===== src/Task/Serializer/Frame.antt =====
-- What no call of a task's making changes: the copies that another source file owns.
use first_server.Common.{ℕ, zero, suc, ◌≡◌, refl, ◌∙◌, inl, inr, [], ◌∷◌, ◌++◌, none, some, arith}
use first_server.Lockfree.{LockfreeQueue}
use first_server.Task.Fault.{Result, ok, Result-cases, then_ok}
use first_server.Task.Serializer.{
  Task, work, clear_of, Requests, finish, ask_for, World, store, clear, delete, push, request_task,
  run_requests, invoke, process_round, process_loop, finish_processing, requeue_serializer,
  process_with, process,
}

module _ (Tasks : LockfreeQueue Task) (Serializers : LockfreeQueue ℕ) where
  abbrev W : Type 0
  W = World Tasks Serializers

  -- `tl_process_task_serializer` of TaskSerializer.cc and the queue of WorkerThread.cc's distributor
  -- are as they were.
  abbrev pub Same : W → W → Type 0
  Same w w' = (w'.push_current ≡ w.push_current) × (w'.worker_queue ≡ w.worker_queue)

  clear-Same : (i : ℕ) (w w' : W) → clear Tasks Serializers i w ≡ ok w' → Same w w'
  unfolding clear store
  clear-Same i w w' e = ground arith

  delete-Same : (i : ℕ) (w w' : W) → delete Tasks Serializers i w ≡ ok w' → Same w w'
  unfolding delete clear store
  delete-Same i w w' e = ground arith

  finish-Same :
      (requeue : ℕ → W → W)
      → ((i : ℕ) (w : W) → Same w (requeue i w))
      → (w w' : W) → finish_processing Tasks Serializers requeue w ≡ ok w'
      → Same w w' × (w'.process_current ≡ none)
  unfolding finish_processing
  finish-Same requeue same w w' e = grind (arith, same, delete-Same)

  module _ (inner : ℕ → W → Result W)
      (keeps : (i : ℕ) (w w' : W) → inner i w ≡ ok w' → Same w w') where
    push-Same :
        (i : ℕ) (t : Task) (w w' : W) → push Tasks Serializers inner i t w ≡ ok w' → Same w w'
    unfolding push store
    push-Same i t w w' e = grind (arith, keeps)

    request_task-Same :
        (i : ℕ) (t : Task) (w w' : W)
        → request_task Tasks Serializers inner i t w ≡ ok w'
        → Same w w'
    unfolding request_task
    request_task-Same i t w w' e = ground (arith, push-Same i t w w')

    run_requests-Same :
        (r : Requests) (w w' : W) → run_requests Tasks Serializers inner r w ≡ ok w' → Same w w'
    unfolding run_requests
    run_requests-Same finish w w' e = ground arith
    run_requests-Same (ask_for i t more) w w' e =
        let (w1, e1, e2) =
          then_ok (request_task Tasks Serializers inner i t w)
            (run_requests Tasks Serializers inner more) e in
        let first = request_task-Same i t w w1 e1 in
        let later = run_requests-Same more w1 w' e2 in (later.0 ∙ first.0, later.1 ∙ first.1)

    invoke-Same : (t : Task) (w w' : W) → invoke Tasks Serializers inner t w ≡ ok w' → Same w w'
    unfolding invoke
    invoke-Same (work n r) w w' e =
        run_requests-Same r (record w { invoked = w.invoked ++ (n ∷ []) }) w' e
    invoke-Same (clear_of i) w w' e = clear-Same i w w' e

    process_round-Same :
        (w w' : W) → process_round Tasks Serializers inner w ≡ ok (some w') → Same w w'
    unfolding process_round store
    process_round-Same w w' e = grind (arith, invoke-Same)

    process_loop-Same :
        (rounds : ℕ) (w w' : W) → process_loop Tasks Serializers inner rounds w ≡ ok w' → Same w w'
    unfolding process_loop
    process_loop-Same zero w w' e = ground arith
    process_loop-Same (suc rounds) w w' e =
        elim (Result-cases (process_round Tasks Serializers inner w)) [
          | inl (x, f) ↦ ground (arith, f)
          | inr (none, f) ↦ ground (arith, f)
          | inr (some w1, f) ↦
              ground (arith, f, process_round-Same w w1 f, process_loop-Same rounds w1 w')
        ]

    process_with-Same :
        (requeue : ℕ → W → W)
        → ((i : ℕ) (w : W) → Same w (requeue i w))
        → (i : ℕ) (w w' : W) → process_with Tasks Serializers inner requeue i w ≡ ok w'
        → Same w w' × (w'.process_current ≡ none)
    unfolding process_with
    process_with-Same requeue same i w w' e =
        grind (arith, process_loop-Same, finish-Same requeue same)

  pub process-Same :
      (depth i : ℕ) (w w' : W)
      → process Tasks Serializers depth i w ≡ ok w'
      → Same w w' × (w'.process_current ≡ none)
  unfolding process requeue_serializer
  process-Same zero i w w' e = ground arith
  process-Same (suc depth) i w w' e =
      process_with-Same (process Tasks Serializers depth)
        (λ j v v' f. (process-Same depth j v v' f).0) (requeue_serializer Tasks Serializers)
        (λ j v. (refl, refl)) i w w' e
