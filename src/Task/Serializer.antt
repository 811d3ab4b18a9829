-- ===== src/Task/Serializer.antt =====
-- braid/src/task/src/task/TaskSerializer.cc and TaskDistributor.cc, as one thread runs them.
-- A task is what it does when it is invoked: its number is recorded, and then it asks serializers
-- for further tasks; or it is the `clear` that `set_destroy` asks for. A task in a queue has the
-- reference count 0 that it was made with: `pop` makes the first counted pointer to it.
-- `g_task_distributor` and `tl_process_task_serializer` are declared `static` in TaskDistributor.h,
-- so each source file that includes it has its own: TaskSerializer.cc, TaskDistributor.cc and
-- WorkerThread.cc. The three copies that are ever used stand in the state below.
-- Serializers are known by their places in a list; a deleted one leaves `none`.
pub mod Store
pub mod Fifo
pub mod Frame
pub mod Idle
pub mod Nested
pub mod Destroy
use first_server.Common.{
  ℕ, zero, suc, List, [], ◌∷◌, ◌++◌, Option, none, some, Bool, true, false, if◌then◌else◌, not, ℤ,
  pos, get_elem?, set,
}
use first_server.Lockfree.{LockfreeQueue}
use first_server.Task.Fault.{
  Fault, assertion, null_pointer, freed, out_of_depth, Result, ok, fault, ◌>>=◌, assert,
}
use first_server.Task.RefCount.{release}

mutual
  pub data Task : Type 0 where
    work : ℕ → Requests → Task
    clear_of : ℕ → Task

  -- `request_task` calls of a running task, each with the serializer that it asks
  pub data Requests : Type 0 where
    finish : Requests
    ask_for : ℕ → Task → Requests → Requests

pub data State : Type 0 where
  running destroying destroyed : State

abbrev pub max_process_task_count : ℕ
max_process_task_count = 30

-- A serializer is processed in a task of another at most; the second call does not go on.
abbrev pub nesting : ℕ
nesting = 2

module _ (Tasks : LockfreeQueue Task) (Serializers : LockfreeQueue ℕ) where
  pub record TaskSerializer : Type 0 where
    pub task_queue : Tasks.Queue
    pub state : State

  pub record World : Type 0 where
    pub serializers : List (Option TaskSerializer)
    -- `g_task_distributor.serializer_queue_` of TaskSerializer.cc and of WorkerThread.cc
    pub serializer_queue : Serializers.Queue
    pub worker_queue : Serializers.Queue
    -- `tl_process_task_serializer` of TaskSerializer.cc and of TaskDistributor.cc
    pub push_current : Option ℕ
    pub process_current : Option ℕ
    -- the tasks that have been invoked, the first first
    pub invoked : List ℕ

  -- Following a pointer to a serializer.
  unfoldable pub deref : ℕ → World → Result TaskSerializer
  deref i w = elim (get_elem? w.serializers i) [
    | none ↦ fault freed
    | some none ↦ fault freed
    | some (some s) ↦ ok s
  ]

  unfoldable pub store : ℕ → Option TaskSerializer → World → World
  store i s w = record w { serializers = set w.serializers i s }

  -- `while (false == task_queue_.empty()) { pop; task->release() }`, on the tasks in the queue
  unfoldable pub release_all : List Task → Result (Unit {0})
  release_all [] = ok tt
  release_all (t ∷ ts) =
      let rest = release_all ts in elim (release (pos 0)) [ fault e ↦ fault e | ok _ ↦ rest ]

  unfoldable pub clear : ℕ → World → Result World
  clear i w = do
    s ← deref i w
    _ ← release_all (Tasks.contents s.task_queue)
    ok (store i (some (record s { state = destroyed })) w)

  -- `delete`, whose destructor clears
  unfoldable pub delete : ℕ → World → Result World
  delete i w = do w' ← clear i w; ok (store i none w')

  -- `TaskSerializer::push`; `process` is `process_task_serializer` of TaskSerializer.cc's distributor
  unfoldable pub push : (ℕ → World → Result World) → ℕ → Task → World → Result World
  push process i task w = do
    s ← deref i w
    let was_empty = Tasks.empty s.task_queue
    let w' = store i (some (record s { task_queue = (Tasks.push task s.task_queue).1 })) w
    elim was_empty [
      | false ↦ ok w'
      | true ↦ elim w'.push_current [
        | none ↦ process i w'
        | some _ ↦ ok (record w' { serializer_queue = (Serializers.push i w'.serializer_queue).1 })
      ]
    ]

  unfoldable pub request_task : (ℕ → World → Result World) → ℕ → Task → World → Result World
  request_task process i task w = do
    s ← deref i w
    elim s.state [ running ↦ push process i task w | _ ↦ ok w ]

  unfoldable pub run_requests : (ℕ → World → Result World) → Requests → World → Result World
  run_requests process finish w = ok w
  run_requests process (ask_for i task more) w = elim (request_task process i task w) [
    | fault e ↦ fault e
    | ok w' ↦ run_requests process more w'
  ]

  unfoldable pub invoke : (ℕ → World → Result World) → Task → World → Result World
  invoke process (work n requests) w =
      run_requests process requests (record w { invoked = w.invoked ++ (n ∷ []) })
  invoke process (clear_of i) w = clear i w

  -- One round of the loop of `process_task_serializer`: `none` if there is no task to pop.
  unfoldable pub process_round : (ℕ → World → Result World) → World → Result (Option World)
  process_round process w = elim w.process_current [
    | none ↦ fault null_pointer
    | some i ↦ do
      s ← deref i w
      elim (Tasks.pop s.task_queue) [
        | none ↦ ok none
        | some (task, q) ↦ do
          w' ← invoke process task (store i (some (record s { task_queue = q })) w)
          ok (some w')
      ]
  ]

  -- The loop, with `rounds` tasks left to the limit.
  unfoldable pub process_loop : (ℕ → World → Result World) → ℕ → World → Result World
  process_loop process zero w = ok w
  process_loop process (suc rounds) w = elim (process_round process w) [
    | fault e ↦ fault e
    | ok none ↦ ok w
    | ok (some w') ↦ process_loop process rounds w'
  ]

  -- What `process_task_serializer` does behind the loop: the serializer is deleted, put back into
  -- the queue of the distributor that was called, or let go.
  unfoldable pub finish_processing : (ℕ → World → World) → World → Result World
  finish_processing requeue w = elim w.process_current [
    | none ↦ fault null_pointer
    | some i ↦ do
      s ← deref i w
      w' ← (elim s.state [
        | destroyed ↦ delete i w
        | _ ↦ ok (if not (Tasks.empty s.task_queue) then requeue i w else w)
      ])
      ok (record w' { process_current = none })
  ]

  unfoldable pub requeue_serializer : ℕ → World → World
  requeue_serializer i w = record w { serializer_queue = (Serializers.push i w.serializer_queue).1 }

  unfoldable pub requeue_worker : ℕ → World → World
  requeue_worker i w = record w { worker_queue = (Serializers.push i w.worker_queue).1 }

  abbrev is_none : Option ℕ → Bool
  is_none none = true
  is_none (some _) = false

  -- `process_task_serializer(task_serializer)` of the distributor that `requeue` puts back into;
  -- `inner` is the call that a task makes when it pushes.
  unfoldable pub process_with :
      (ℕ → World → Result World) → (ℕ → World → World) → ℕ → World → Result World
  process_with inner requeue i w = do
    _ ← assert (is_none w.process_current)
    w' ← process_loop inner max_process_task_count (record w { process_current = some i })
    finish_processing requeue w'

  -- The calls nest where a task pushes; `depth` bounds how deep.
  unfoldable pub process : ℕ → ℕ → World → Result World
  process zero i w = fault out_of_depth
  process (suc depth) i w = process_with (process depth) requeue_serializer i w

  -- What the outside calls: `request_task` and `set_destroy`, and a worker's
  -- `process_task_serializer()`.
  unfoldable pub request : ℕ → Task → World → Result World
  request i task w = request_task (process nesting) i task w

  -- `state_.store(DESTROYING)`
  unfoldable pub mark_destroying : ℕ → World → Result World
  mark_destroying i w = do s ← deref i w; ok (store i (some (record s { state = destroying })) w)

  unfoldable pub set_destroy : ℕ → World → Result World
  set_destroy i w = do w' ← request i (clear_of i) w; mark_destroying i w'

  unfoldable pub work_once : World → Result World
  work_once w = do
    _ ← assert (is_none w.process_current)
    elim (Serializers.pop w.worker_queue) [
      | none ↦ ok w
      | some (i, q) ↦
          process_with (process nesting) requeue_worker i (record w { worker_queue = q })
    ]
