-- ===== src/Task/Threads/Overlap.antt =====
-- Two tasks of one serializer at once.
use first_server.Common.{
  ℕ, ◌≡◌, refl, ap, sym, ◌∙◌, List, [], ◌∷◌, some, Bool, true, false, arith, get_elem?,
  get_elem?-set_self, get_elem?-set_ne,
}
use first_server.Lockfree.{LockfreeQueue, NeverFails, pop-cons}
use first_server.Task.Threads.{
  Point, idle, tests_empty, pushes, pops, invokes, Turn, begins_request, goes_on, pop_task, go_on,
  turn_step, Threads, thread_step, run_threads,
}

-- A thread's request, as far as its first task.
abbrev pub asks_and_takes : ℕ → ℕ → List (ℕ × Turn)
asks_and_takes j task = (j, begins_request task) ∷ (j, goes_on) ∷ (j, goes_on) ∷ (j, goes_on) ∷ []

module _ (Tasks Serializers : LockfreeQueue ℕ) where
  abbrev T : Type 0
  T = Threads Tasks Serializers

  -- Where two threads are, and the tasks in the queue.
  record Seen (i j : ℕ) (p p' : Point) (tasks : List ℕ) (t : T) : Type 0 where
    one_at : get_elem? t.points i ≡ some p
    other_at : get_elem? t.points j ≡ some p'
    queued : Tasks.contents t.shared.task_queue ≡ tasks

  -- A step of the second thread.
  step-Seen :
      (i j : ℕ) (p p1 p2 : Point) (tasks tasks' : List ℕ) (turn : Turn) (t : T)
      → (i ≡ j → ⊥)
      → Seen i j p p1 tasks t
      → (turn_step Tasks Serializers turn p1 t.shared).0 ≡ p2
      → Tasks.contents (turn_step Tasks Serializers turn p1 t.shared).1.task_queue ≡ tasks'
      → Seen i j p p2 tasks' (thread_step Tasks Serializers j turn t)
  unfolding thread_step
  step-Seen i j p p1 p2 tasks tasks' turn t apart seen goes queue =
      rw (seen.other_at, thread_step)
        (record {
          one_at =
              get_elem?-set_ne t.points j i (turn_step Tasks Serializers turn p1 t.shared).0
                (λ e. apart (sym e))
              ∙ seen.one_at;
          other_at =
              get_elem?-set_self t.points j (turn_step Tasks Serializers turn p1 t.shared).0
                seen.other_at
              ∙ ap some goes;
          queued = queue;
        })

  -- Let pushes to the queue of tasks never fail. While a thread runs the last task of a
  -- serializer, another thread that requests a task finds the queue empty and takes its own task
  -- at once: after its four steps both threads are running a task of the one serializer.
  pub request-overlaps :
      (never : NeverFails Tasks)
      → (i j task task' n : ℕ) (from_worker : Bool) (t : T) → (i ≡ j → ⊥)
      → get_elem? t.points i ≡ some (invokes from_worker n task)
      → get_elem? t.points j ≡ some idle
      → Tasks.contents t.shared.task_queue ≡ []
      → let t' = run_threads Tasks Serializers (asks_and_takes j task') t in
        (get_elem? t'.points i ≡ some (invokes from_worker n task))
        × (get_elem? t'.points j ≡ some (invokes false 0 task'))
  unfolding run_threads turn_step go_on pop_task
  request-overlaps never i j task task' n from_worker t apart runs free empty =
      let run = invokes from_worker n task in
      let at0 : Seen i j run idle [] t = record {
        one_at = runs;
        other_at = free;
        queued = empty;
      } in
      let t1 = thread_step Tasks Serializers j (begins_request task') t in
      let at1 =
        step-Seen i j run idle (tests_empty task') [] [] (begins_request task') t apart at0 refl
          empty in
      let t2 = thread_step Tasks Serializers j goes_on t1 in
      let was_empty : Tasks.empty t1.shared.task_queue ≡ true =
        (Tasks.empty_iff t1.shared.task_queue).1 at1.queued in
      let at2 =
        step-Seen i j run (tests_empty task') (pushes task' true) [] [] goes_on t1 apart at1
          (ap (pushes task') was_empty) at1.queued in
      let t3 = thread_step Tasks Serializers j goes_on t2 in
      let at3 =
        step-Seen i j run (pushes task' true) (pops false 0) [] (task' ∷ []) goes_on t2 apart at2
          refl
          (ground (
            arith,
            Tasks.push_cases task' t2.shared.task_queue,
            never task' t2.shared.task_queue,
            at2.queued,
          )) in
      let (q, popped, none_left) = pop-cons Tasks t3.shared.task_queue task' [] at3.queued in
      let at4 =
        step-Seen i j run (pops false 0) (invokes false 0 task') (task' ∷ []) [] goes_on t3 apart
          at3 (rw (popped, pop_task) refl) (rw (popped, pop_task) none_left) in
      (at4.one_at, at4.other_at)
