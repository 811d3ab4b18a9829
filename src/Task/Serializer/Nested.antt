-- ===== src/Task/Serializer/Nested.antt =====
-- A task that asks for another task while it runs.
use first_server.Common.{ℕ, suc, ◌≡◌, refl, [], none, some, arith}
use first_server.Lockfree.{LockfreeQueue}
use first_server.Task.Fault.{ok, fault, assertion}
use first_server.Task.Serializer.{
  Task, running, World, TaskSerializer, deref, store, push, request_task, process_with, process,
  request,
}

module _ (Tasks : LockfreeQueue Task) (Serializers : LockfreeQueue ℕ) where
  abbrev W : Type 0
  W = World Tasks Serializers

  busy :
      (depth i j : ℕ) (w : W)
      → w.process_current ≡ some j
      → process Tasks Serializers (suc depth) i w ≡ fault assertion
  unfolding process process_with
  busy depth i j w c = rw c refl

  -- While a serializer is processed, with no serializer in the other source file's copy of the
  -- marker, a request for a task on a running serializer that has no task fails the assertion that
  -- nothing is being processed.
  pub request_fails :
      (i j : ℕ) (task : Task) (s : TaskSerializer Tasks Serializers) (w : W)
      → w.process_current ≡ some j
      → w.push_current ≡ none
      → deref Tasks Serializers i w ≡ ok s
      → s.state ≡ running
      → Tasks.contents s.task_queue ≡ []
      → request Tasks Serializers i task w ≡ fault assertion
  unfolding request request_task push store
  request_fails i j task s w c no_push e running_s h = ground (
    arith,
    c,
    no_push,
    e,
    running_s,
    (Tasks.empty_iff s.task_queue).1 h,
    busy 1 i j
        (store Tasks Serializers i
          (some (record s { task_queue = (Tasks.push task s.task_queue).1 })) w)
        c,
  )
