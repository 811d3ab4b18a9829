-- ===== src/Task/Serializer/Idle.antt =====
-- Whether the workers ever process a serializer.
use first_server.Common.{ℕ, ◌≡◌, inl, inr, List, [], ◌∷◌, none, arith}
use first_server.Lockfree.{LockfreeQueue}
use first_server.Task.Fault.{Result, ok, fault, Result-cases, then_ok}
use first_server.Task.Serializer.{
  Task, clear_of, World, store, push, request_task, process, nesting, request, set_destroy,
  mark_destroying, work_once,
}
use first_server.Task.Serializer.Frame.{Same, process-Same}

module _ (Tasks : LockfreeQueue Task) (Serializers : LockfreeQueue ℕ) where
  abbrev W : Type 0
  W = World Tasks Serializers

  -- Between two calls of a thread: nothing is being processed, as either file sees it, and the queue
  -- that the workers read is empty. So it is when the program starts.
  pub record IsQuiet (w : W) : Type 0 where
    pub no_push : w.push_current ≡ none
    pub no_process : w.process_current ≡ none
    pub no_work : Serializers.contents w.worker_queue ≡ []

  -- A call from outside: a request for a task, a request to destroy, or a worker's turn.
  pub data Event : Type 0 where
    requests : ℕ → Task → Event
    destroys : ℕ → Event
    works : Event

  unfoldable pub step : Event → W → Result W
  step (requests i t) w = request Tasks Serializers i t w
  step (destroys i) w = set_destroy Tasks Serializers i w
  step works w = work_once Tasks Serializers w

  unfoldable pub run : List Event → W → Result W
  run [] w = ok w
  run (e ∷ es) w = elim (step e w) [ fault x ↦ fault x | ok w' ↦ run es w' ]

  push-Same :
      (depth i : ℕ) (t : Task) (w w' : W)
      → w.process_current ≡ none
      → push Tasks Serializers (process Tasks Serializers depth) i t w ≡ ok w'
      → Same Tasks Serializers w w' × (w'.process_current ≡ none)
  unfolding push store
  push-Same depth i t w w' c e = grind (arith, process-Same Tasks Serializers depth)

  request-IsQuiet :
      (i : ℕ) (t : Task) (w w' : W)
      → IsQuiet w
      → request Tasks Serializers i t w ≡ ok w'
      → IsQuiet w'
  unfolding request request_task
  request-IsQuiet i t w w' q e =
      ground (arith, push-Same nesting i t w w', q.no_push, q.no_process, q.no_work)

  -- A worker that finds the state quiet does nothing.
  work_once_idle : (w : W) → IsQuiet w → work_once Tasks Serializers w ≡ ok w
  unfolding work_once
  work_once_idle w q = ground (arith, Serializers.pop_cases w.worker_queue, q.no_process, q.no_work)

  step-IsQuiet : (event : Event) (w w' : W) → IsQuiet w → step event w ≡ ok w' → IsQuiet w'
  unfolding step set_destroy mark_destroying store
  step-IsQuiet (requests i t) w w' q e = request-IsQuiet i t w w' q e
  step-IsQuiet (destroys i) w w' q e =
      elim (Result-cases (request Tasks Serializers i (clear_of i) w)) [
        | inl (x, f) ↦ ground (arith, f)
        | inr (w1, f) ↦ ground (arith, f, request-IsQuiet i (clear_of i) w w1 q f)
      ]
  step-IsQuiet works w w' q e = ground (arith, work_once_idle w q)

  run-IsQuiet : (events : List Event) (w w' : W) → IsQuiet w → run events w ≡ ok w' → IsQuiet w'
  unfolding run
  run-IsQuiet [] w w' q e = ground arith
  run-IsQuiet (event ∷ events) w w' q e =
      let (w1, e1, e2) = then_ok (step event w) (run events) e in
      run-IsQuiet events w1 w' (step-IsQuiet event w w1 q e1) e2

  -- From a state in which nothing is being processed and the workers' queue of serializers is
  -- empty, after any calls of `request_task`, of `set_destroy` and of the workers'
  -- `process_task_serializer()` that come through, the workers' `process_task_serializer()`
  -- changes nothing: a serializer that is put back with tasks left stands in another queue than
  -- the one that the workers read.
  pub workers_idle :
      (events : List Event) (w w' : W)
      → IsQuiet w
      → run events w ≡ ok w'
      → work_once Tasks Serializers w' ≡ ok w'
  workers_idle events w w' q e = work_once_idle w' (run-IsQuiet events w w' q e)
