-- ===== src/Task/Threads/Race.antt =====
-- How a task is left behind: a push finds the queue not empty, and the thread that processes is done
-- before the task is in it.
use first_server.Common.{ℕ, suc, ◌<◌, ◌≡◌, refl, ◌∙◌, List, [], ◌∷◌, ◌++◌, false, arith, leb}
use first_server.Lockfree.{LockfreeQueue, NeverFails, pop-cons, pop-nil, empty-cons}
use first_server.Task.Serializer.{max_process_task_count}
use first_server.Task.Threads.{
  idle, pops, Turn, begins_request, goes_on, Shared, pop_task, go_on, turn_step, Threads,
  thread_step, run_threads,
}
use first_server.Task.Threads.Stranded.{IsStranded, run_threads-Strands}

-- The thread 1 asks for `task` while the thread 0 runs the last one.
abbrev pub race : ℕ → List (ℕ × Turn)
race task =
    (1, begins_request task)
    ∷ (1, goes_on)
    ∷ (0, goes_on)
    ∷ (0, goes_on)
    ∷ (0, goes_on)
    ∷ (0, goes_on)
    ∷ (1, goes_on)
    ∷ []

module _ (Tasks Serializers : LockfreeQueue ℕ) where
  abbrev T : Type 0
  T = Threads Tasks Serializers

  run_threads-append :
      (first later : List (ℕ × Turn)) (t : T)
      → run_threads Tasks Serializers (first ++ later) t
        ≡ run_threads Tasks Serializers later (run_threads Tasks Serializers first t)
  unfolding run_threads
  run_threads-append [] later t = refl
  run_threads-append ((i, turn) ∷ first) later t =
      run_threads-append first later (thread_step Tasks Serializers i turn t)

  race-IsStranded :
      NeverFails Tasks
      → (task task' n : ℕ) (s : Shared Tasks Serializers) → suc n < max_process_task_count
      → Tasks.contents s.task_queue ≡ task ∷ []
      → Serializers.contents s.worker_queue ≡ []
      → let t : T = record { points = pops false n ∷ idle ∷ []; shared = s } in
        let t' = run_threads Tasks Serializers (race task') t in
        IsStranded Tasks Serializers t' × (t'.shared.invoked ≡ task ∷ s.invoked)
  unfolding run_threads thread_step turn_step go_on pop_task
  race-IsStranded never task task' n s more queued no_work =
      let (q, popped, none_left) = pop-cons Tasks s.task_queue task [] queued in
      let some_left = empty-cons Tasks s.task_queue task [] queued in
      let goes : leb max_process_task_count (suc n) ≡ false = ground arith in
      let nothing = pop-nil Tasks q none_left in
      let now_empty = (Tasks.empty_iff q).1 none_left in
      rw
        (
          some_left, popped, goes, nothing, now_empty, run_threads, thread_step, turn_step, go_on,
          pop_task,
        )
        (
          record {
            passing = (tt, (tt, tt));
            left = record {
              first = task';
              rest = [];
              waiting = ground (arith, Tasks.push_cases task' q, never task' q, none_left);
              no_work = no_work;
            };
          },
          refl,
        )

  -- Let pushes to the queue of tasks never fail, let one of two threads, in a request, have run
  -- fewer than 29 tasks of a serializer with one task left, let the other be idle, and let the
  -- workers not have the serializer. The other thread requests a task and finds the queue not
  -- empty; the first thread runs the task that is left, finds the queue empty twice, and is done;
  -- then the other pushes its task. After that no steps of any threads ever run that task or a
  -- later one.
  pub race-loses :
      NeverFails Tasks
      → (task task' n : ℕ) (s : Shared Tasks Serializers) → suc n < max_process_task_count
      → Tasks.contents s.task_queue ≡ task ∷ []
      → Serializers.contents s.worker_queue ≡ []
      → (later : List (ℕ × Turn))
      → let t : T = record { points = pops false n ∷ idle ∷ []; shared = s } in
        let t' = run_threads Tasks Serializers (race task' ++ later) t in
        IsStranded Tasks Serializers t' × (t'.shared.invoked ≡ task ∷ s.invoked)
  race-loses never task task' n s more queued no_work later =
      let t : T = record { points = pops false n ∷ idle ∷ []; shared = s } in
      let (stranded, invoked) = race-IsStranded never task task' n s more queued no_work in
      let t1 = run_threads Tasks Serializers (race task') t in
      let strands = run_threads-Strands Tasks Serializers later t1 stranded in
      rw (run_threads-append (race task') later t)
        (strands.stranded, strands.none_invoked ∙ invoked)
