-- ===== src/Task/Serializer/Destroy.antt =====
-- `set_destroy` of a serializer that has no task.
use first_server.Common.{ℕ, ◌≡◌, refl, ◌∙◌, [], ◌∷◌, none, some, arith, set, get_elem?-set_self}
use first_server.Lockfree.{LockfreeQueue, NeverFails}
use first_server.Task.Fault.{Result, ok, fault, freed}
use first_server.Task.Serializer.{
  Task, clear_of, running, destroyed, World, TaskSerializer, deref, store, release_all, clear,
  delete, push, request_task, invoke, process_round, process_loop, finish_processing, process_with,
  process, requeue_serializer, request, mark_destroying, set_destroy, max_process_task_count,
}
use first_server.Task.Serializer.Store.{deref-found, deref-store_self, store_current, store_push}
use first_server.Task.Serializer.Fifo.{round_empty, pop_empty, pop_front, process_with_lem}

module _ (Tasks : LockfreeQueue Task) (Serializers : LockfreeQueue ℕ) where
  abbrev W : Type 0
  W = World Tasks Serializers

  abbrev at : ℕ → W → Result (TaskSerializer Tasks Serializers)
  at = deref Tasks Serializers

  module _ (inner : ℕ → W → Result W) where
    clear_lem :
        (i : ℕ) (s : TaskSerializer Tasks Serializers) (w : W)
        → at i w ≡ ok s
        → Tasks.contents s.task_queue ≡ []
        → clear Tasks Serializers i w
          ≡ ok (store Tasks Serializers i (some (record s { state = destroyed })) w)
    unfolding clear release_all
    clear_lem i s w e h = ground (arith, e, h)

    abbrev cleared : ℕ → Tasks.Queue → TaskSerializer Tasks Serializers → W → W
    cleared i q s w =
        store Tasks Serializers i (some (record { task_queue = q; state = destroyed }))
          (store Tasks Serializers i (some (record s { task_queue = q })) w)

    clear_round :
        (i : ℕ) (s : TaskSerializer Tasks Serializers) (w : W) (q : Tasks.Queue)
        → w.process_current ≡ some i
        → at i w ≡ ok s
        → Tasks.pop s.task_queue ≡ some (clear_of i, q)
        → Tasks.contents q ≡ []
        → process_round Tasks Serializers inner w ≡ ok (some (cleared i q s w))
    unfolding process_round invoke
    clear_round i s w q c e popped h =
        let s' : TaskSerializer Tasks Serializers = record s { task_queue = q } in
        let cleared_s =
          clear_lem i s' (store Tasks Serializers i (some s') w)
            (deref-store_self Tasks Serializers i w s s' e) h in
        ground (arith, c, e, popped, cleared_s)

    at-cleared :
        (i : ℕ) (q : Tasks.Queue) (s : TaskSerializer Tasks Serializers) (w : W)
        → at i w ≡ ok s
        → at i (cleared i q s w) ≡ ok (record { task_queue = q; state = destroyed })
    at-cleared i q s w e =
        let s' : TaskSerializer Tasks Serializers = record s { task_queue = q } in
        deref-store_self Tasks Serializers i (store Tasks Serializers i (some s') w) s'
          (record { task_queue = q; state = destroyed })
          (deref-store_self Tasks Serializers i w s s' e)

    cleared_current :
        (i : ℕ) (q : Tasks.Queue) (s : TaskSerializer Tasks Serializers) (w : W)
        → (cleared i q s w).process_current ≡ w.process_current
    unfolding store
    cleared_current i q s w = refl

    abbrev deleted : ℕ → TaskSerializer Tasks Serializers → W → W
    deleted i s w =
        record (store Tasks Serializers i none
          (store Tasks Serializers i (some (record s { state = destroyed })) w)) {
            process_current = none;
          }

    finish_destroyed :
        (requeue : ℕ → W → W) (i : ℕ) (s : TaskSerializer Tasks Serializers) (w : W)
        → w.process_current ≡ some i
        → at i w ≡ ok s
        → s.state ≡ destroyed
        → Tasks.contents s.task_queue ≡ []
        → finish_processing Tasks Serializers requeue w ≡ ok (deleted i s w)
    unfolding finish_processing delete
    finish_destroyed requeue i s w c e d h = ground (arith, c, e, d, clear_lem i s w e h)

    freed-deleted :
        (i : ℕ) (s s' : TaskSerializer Tasks Serializers) (w : W)
        → at i w ≡ ok s'
        → at i (deleted i s w) ≡ fault freed
    unfolding deref store
    freed-deleted i s s' w e =
        let found = deref-found Tasks Serializers i w s' e in
        ground (
          arith,
          get_elem?-set_self (set w.serializers i (some (record s { state = destroyed }))) i none
              (get_elem?-set_self w.serializers i (some (record s { state = destroyed })) found),
        )

    clear_loop :
        (i : ℕ) (s : TaskSerializer Tasks Serializers) (w : W) (q : Tasks.Queue)
        → w.process_current ≡ some i
        → at i w ≡ ok s
        → Tasks.pop s.task_queue ≡ some (clear_of i, q)
        → Tasks.contents q ≡ []
        → process_loop Tasks Serializers inner max_process_task_count w ≡ ok (cleared i q s w)
    unfolding process_loop
    clear_loop i s w q c e popped h =
        rw (clear_round i s w q c e popped h, process_loop)
          (rw
            (
              round_empty Tasks Serializers inner i (record { task_queue = q; state = destroyed })
                  (cleared i q s w) (cleared_current i q s w ∙ c) (at-cleared i q s w e)
                  (pop_empty Tasks Serializers inner q h),
              process_loop,
            )
            refl)

    process_clear :
        (i : ℕ) (s : TaskSerializer Tasks Serializers) (w : W)
        → w.process_current ≡ none
        → at i w ≡ ok s
        → Tasks.contents s.task_queue ≡ clear_of i ∷ []
        → (w' : W) × (process_with Tasks Serializers inner
              (requeue_serializer Tasks Serializers)
              i
              w
            ≡ ok w')
          × (at i w' ≡ fault freed)
    unfolding deref store
    process_clear i s w c e h =
        let (q, popped, emptied) =
          pop_front Tasks Serializers inner s.task_queue (clear_of i) [] h in
        let w0 : W = record w { process_current = some i } in
        let s2 : TaskSerializer Tasks Serializers = record { task_queue = q; state = destroyed } in
        let there = at-cleared i q s w0 e in
        let w1 = cleared i q s w0 in
        (
          deleted i s2 w1,
          process_with_lem Tasks Serializers inner i w w1 c
              (clear_loop i s w0 q refl e popped emptied)
              (finish_destroyed (requeue_serializer Tasks Serializers) i s2 w1 refl there refl
                emptied),
          freed-deleted i s2 s2 w1 there,
        )

  -- If a serializer's queue never fails to push and nothing is being processed in either source
  -- file's copy of the marker, `set_destroy` of a running serializer that has no task follows the
  -- pointer to it after it has been deleted.
  pub set_destroy_faults :
      NeverFails Tasks
      → (i : ℕ) (s : TaskSerializer Tasks Serializers) (w : W) → w.process_current ≡ none
      → w.push_current ≡ none
      → at i w ≡ ok s
      → s.state ≡ running
      → Tasks.contents s.task_queue ≡ []
      → set_destroy Tasks Serializers i w ≡ fault freed
  unfolding set_destroy mark_destroying request request_task push process
  set_destroy_faults never i s w c no_push e running_s h =
      let pushed : TaskSerializer Tasks Serializers = record s {
        task_queue = (Tasks.push (clear_of i) s.task_queue).1;
      } in
      let w0 : W = store Tasks Serializers i (some pushed) w in
      let contents : Tasks.contents pushed.task_queue ≡ clear_of i ∷ [] =
        ground
          (arith, Tasks.push_cases (clear_of i) s.task_queue, never (clear_of i) s.task_queue, h) in
      let (w1, ends, gone) =
        process_clear (process Tasks Serializers 1) i pushed w0
          (store_current Tasks Serializers i (some pushed) w ∙ c)
          (deref-store_self Tasks Serializers i w s pushed e) contents in
      ground (
        arith,
        e,
        store_push Tasks Serializers i (some pushed) w,
        no_push,
        running_s,
        (Tasks.empty_iff s.task_queue).1 h,
        ends,
        gone,
      )
