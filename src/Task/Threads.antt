-- ===== src/Task/Threads.antt =====
-- One serializer that several threads request tasks of and process
-- (braid/src/task/src/task/TaskSerializer.cc and TaskDistributor.cc).
-- A thread goes on by one operation on what the threads share: the queue of tasks, or one of the two
-- queues of serializers that are used, the distributor's of TaskSerializer.cc, which `push` calls,
-- and that of WorkerThread.cc. The marker that `push` tests is never set in its source file, so a
-- push to an empty queue always goes on to process. The tasks ask for nothing, as those of the log,
-- and the serializer stays RUNNING; asking and destroying are in Serializer.
pub mod Conserved
pub mod Overlap
pub mod Stranded
pub mod Race
use first_server.Common.{
  ℕ, suc, List, [], ◌∷◌, ◌++◌, Option, none, some, Bool, true, false, if◌then◌else◌, get_elem?, set,
  leb,
}
use first_server.Lockfree.{LockfreeQueue}
use first_server.Task.Serializer.{max_process_task_count}

-- What a thread does next, with its local variables. The flag of a thread that processes says
-- whether it came from a worker's `process_task_serializer()`.
pub data Point : Type 0 where
  idle : Point
  -- `push`: `task_queue_.empty()`, then `task_queue_.push(task)`
  tests_empty : ℕ → Point
  pushes : ℕ → Bool → Point
  -- the loop of `process_task_serializer(task_serializer)` with `process_count`: the pop, and the
  -- task that is being invoked
  pops : Bool → ℕ → Point
  invokes : Bool → ℕ → ℕ → Point
  -- behind the loop
  tests_rest : Bool → Point
  requeues : Bool → Point

pub data Turn : Type 0 where
  begins_request : ℕ → Turn
  begins_work : Turn
  goes_on : Turn

abbrev pub is_idle : Point → Bool
is_idle idle = true
is_idle _ = false

module _ (Tasks Serializers : LockfreeQueue ℕ) where
  pub record Shared : Type 0 where
    pub task_queue : Tasks.Queue
    pub serializer_queue : Serializers.Queue
    pub worker_queue : Serializers.Queue
    -- the tasks that have been made, and those whose invocation has ended
    pub requested : List ℕ
    pub invoked : List ℕ

  unfoldable pub pop_task : Bool → ℕ → Shared → Point × Shared
  pop_task from_worker process_count s = elim (Tasks.pop s.task_queue) [
    | none ↦ (tests_rest from_worker, s)
    | some (task, q) ↦ (invokes from_worker process_count task, record s { task_queue = q })
  ]

  -- `serializer_queue_.push(...)` of the distributor that the thread is in; the serializer is 0
  abbrev pub requeue : Bool → Shared → Shared
  requeue false s = record s { serializer_queue = (Serializers.push 0 s.serializer_queue).1 }
  requeue true s = record s { worker_queue = (Serializers.push 0 s.worker_queue).1 }

  -- A step of a thread that is in a call.
  unfoldable pub go_on : Point → Shared → Point × Shared
  unfolding pop_task
  go_on idle s = (idle, s)
  go_on (tests_empty task) s = (pushes task (Tasks.empty s.task_queue), s)
  go_on (pushes task was_empty) s = (
    if was_empty then pops false 0 else idle,
    record s { task_queue = (Tasks.push task s.task_queue).1 },
  )
  go_on (pops from_worker process_count) s = pop_task from_worker process_count s
  go_on (invokes from_worker process_count task) s = (
    if leb max_process_task_count (suc process_count)
        then tests_rest from_worker
        else pops from_worker (suc process_count),
    record s { invoked = task ∷ s.invoked },
  )
  go_on (tests_rest from_worker) s =
      (if Tasks.empty s.task_queue then idle else requeues from_worker, s)
  go_on (requeues from_worker) s = (idle, requeue from_worker s)

  -- `process_task_serializer()` of a worker
  unfoldable pub work : Shared → Point × Shared
  work s = elim (Serializers.pop s.worker_queue) [
    | none ↦ (idle, s)
    | some (i, q) ↦ (pops true 0, record s { worker_queue = q })
  ]

  -- A call begins where the thread is idle, and a thread that is in a call goes on with it.
  unfoldable pub turn_step : Turn → Point → Shared → Point × Shared
  unfolding go_on work
  turn_step goes_on point s = go_on point s
  turn_step (begins_request task) point s =
      if is_idle point
      then (tests_empty task, record s { requested = task ∷ s.requested })
      else (point, s)
  turn_step begins_work point s = if is_idle point then work s else (point, s)

  pub record Threads : Type 0 where
    pub points : List Point
    pub shared : Shared

  unfoldable pub thread_step : ℕ → Turn → Threads → Threads
  unfolding turn_step
  thread_step i turn t = elim (get_elem? t.points i) [
    | none ↦ t
    | some point ↦
        let (point', s) = turn_step turn point t.shared in
        record { points = set t.points i point'; shared = s }
  ]

  -- A schedule: whose turn it is, and what it does.
  unfoldable pub run_threads : List (ℕ × Turn) → Threads → Threads
  run_threads [] t = t
  run_threads ((i, turn) ∷ schedule) t = run_threads schedule (thread_step i turn t)
