-- ===== src/Task/Threads/Conserved.antt =====
-- Where the tasks are, over any schedule of the threads.
use first_server.Common.{
  ℕ, ◌+◌, ◌≡◌, ap, inl, inr, List, [], ◌∷◌, Bool, true, false, arith, get_elem?, sum_of, sum_of-set,
  one, count, count-append, Option-cases,
}
use first_server.Lockfree.{LockfreeQueue, NeverFails}
use first_server.Task.Threads.{
  Point, idle, tests_empty, pushes, pops, invokes, tests_rest, requeues, Turn, begins_request,
  begins_work, goes_on, Shared, pop_task, go_on, work, turn_step, Threads, thread_step, run_threads,
}

-- How often a thread has a task in its hand.
abbrev pub in_hand : ℕ → Point → ℕ
in_hand a (tests_empty task) = one a task
in_hand a (pushes task was_empty) = one a task
in_hand a (invokes from_worker process_count task) = one a task
in_hand a idle = 0
in_hand a (pops from_worker process_count) = 0
in_hand a (tests_rest from_worker) = 0
in_hand a (requeues from_worker) = 0

module _ (Tasks Serializers : LockfreeQueue ℕ) (never : NeverFails Tasks) where
  abbrev S : Type 0
  S = Shared Tasks Serializers

  abbrev pub in_shared : ℕ → S → ℕ
  in_shared a s = count a (Tasks.contents s.task_queue) + count a s.invoked

  abbrev Keeps : Point → S → Point × S → Type 0
  Keeps p s r =
      (a : ℕ)
      → in_shared a r.1 + in_hand a r.0 + count a s.requested
        ≡ in_shared a s + in_hand a p + count a r.1.requested

  count-push :
      (a task : ℕ) (q : Tasks.Queue)
      → count a (Tasks.contents (Tasks.push task q).1) ≡ count a (Tasks.contents q) + one a task
  count-push a task q =
      ground (
        arith,
        Tasks.push_cases task q,
        never task q,
        count-append a (Tasks.contents q) (task ∷ []),
      )

  pop_task-Keeps :
      (from_worker : Bool) (n : ℕ) (s : S)
      → Keeps (pops from_worker n) s (pop_task Tasks Serializers from_worker n s)
  unfolding pop_task
  pop_task-Keeps from_worker n s a = elim (Tasks.pop_cases s.task_queue) [
    | inl (empty, popped) ↦ rw (popped, pop_task) (omega arith)
    | inr (task, q, front, popped) ↦ rw (popped, pop_task) (omega (arith, ap (count a) front))
  ]

  go_on-Keeps : (p : Point) (s : S) → Keeps p s (go_on Tasks Serializers p s)
  unfolding go_on
  go_on-Keeps idle s a = omega arith
  go_on-Keeps (tests_empty task) s a = omega arith
  go_on-Keeps (pushes task true) s a = omega (arith, count-push a task s.task_queue)
  go_on-Keeps (pushes task false) s a = omega (arith, count-push a task s.task_queue)
  go_on-Keeps (pops from_worker n) s a = pop_task-Keeps from_worker n s a
  go_on-Keeps (invokes from_worker n task) s a = ground arith
  go_on-Keeps (tests_rest from_worker) s a = ground arith
  go_on-Keeps (requeues false) s a = omega arith
  go_on-Keeps (requeues true) s a = omega arith

  turn_step-Keeps :
      (turn : Turn) (p : Point) (s : S) → Keeps p s (turn_step Tasks Serializers turn p s)
  unfolding turn_step work
  turn_step-Keeps goes_on p s a = go_on-Keeps p s a
  turn_step-Keeps (begins_request task) idle s a = omega arith
  turn_step-Keeps begins_work idle s a = elim (Option-cases (Serializers.pop s.worker_queue)) [
    | inl e ↦ rw (e, work) (omega arith)
    | inr ((i, q), e) ↦ rw (e, work) (omega arith)
  ]
  turn_step-Keeps _ (tests_empty task) s a = omega arith
  turn_step-Keeps _ (pushes task was_empty) s a = omega arith
  turn_step-Keeps _ (pops from_worker n) s a = omega arith
  turn_step-Keeps _ (invokes from_worker n task) s a = omega arith
  turn_step-Keeps _ (tests_rest from_worker) s a = omega arith
  turn_step-Keeps _ (requeues from_worker) s a = omega arith

  -- Every task that has been made is in the queue, in one thread's hand, or has been invoked.
  pub record IsConserved (t : Threads Tasks Serializers) : Type 0 where
    pub counts :
        (a : ℕ) → in_shared a t.shared + sum_of (in_hand a) t.points ≡ count a t.shared.requested

  thread_step-IsConserved :
      (i : ℕ) (turn : Turn) (t : Threads Tasks Serializers)
      → IsConserved t
      → IsConserved (thread_step Tasks Serializers i turn t)
  unfolding thread_step
  thread_step-IsConserved i turn t c = elim (Option-cases (get_elem? t.points i)) [
    | inl e ↦ rw (e, thread_step) c
    | inr (p, e) ↦
        let (p', s) = turn_step Tasks Serializers turn p t.shared in
        rw (e, thread_step)
          (record {
            counts = λ a. omega (
              arith,
              c.counts a,
              turn_step-Keeps turn p t.shared a,
              sum_of-set (in_hand a) t.points i p p' e,
            );
          })
  ]

  -- Let pushes to the queue of tasks never fail. If every task that has been made is in the queue
  -- of its serializer, in the hand of a thread, or has been invoked, counted by how often it was
  -- made, then this holds after any steps of any threads that request tasks, process the
  -- serializer, or work as a worker: no task is lost, and none is run twice.
  pub run_threads-IsConserved :
      (schedule : List (ℕ × Turn)) (t : Threads Tasks Serializers)
      → IsConserved t
      → IsConserved (run_threads Tasks Serializers schedule t)
  unfolding run_threads
  run_threads-IsConserved [] t c = c
  run_threads-IsConserved ((i, turn) ∷ schedule) t c =
      run_threads-IsConserved schedule (thread_step Tasks Serializers i turn t)
        (thread_step-IsConserved i turn t c)
