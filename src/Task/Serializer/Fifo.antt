-- ===== src/Task/Serializer/Fifo.antt =====
-- What one `process_task_serializer` does to a serializer whose tasks ask for nothing.
use first_server.Common.{
  ℕ, zero, suc, ◌≡◌, refl, sym, ap, ◌∙◌, inl, inr, List, [], ◌∷◌, ◌++◌, none, some, Bool, true,
  false, if◌then◌else◌, arith, map, take, drop, append_assoc, append-nil, Bool-cases,
}
use first_server.Lockfree.{LockfreeQueue}
use first_server.Task.Fault.{Result, ok, ◌>>=◌}
use first_server.Task.Serializer.{
  Task, work, finish, running, World, TaskSerializer, max_process_task_count, deref, store,
  run_requests, invoke, process_round, process_loop, finish_processing, requeue_serializer,
  process_with,
}
use first_server.Task.Serializer.Store.{deref-store_self}

abbrev pub leaf : ℕ → Task
leaf n = work n finish

abbrev head_or : Task → List Task → Task
head_or d [] = d
head_or d (t ∷ ts) = t

abbrev tail_or : List Task → List Task
tail_or [] = []
tail_or (t ∷ ts) = ts

module _ (Tasks : LockfreeQueue Task) (Serializers : LockfreeQueue ℕ) where
  abbrev W : Type 0
  W = World Tasks Serializers

  abbrev at : ℕ → W → Result (TaskSerializer Tasks Serializers)
  at = deref Tasks Serializers

  -- What the loop has done to the serializer `i` after `rounds` rounds, or when it has no task left.
  pub record Looped (i : ℕ) (numbers : List ℕ) (s : TaskSerializer Tasks Serializers) (rounds : ℕ)
      (w : W) (r : Result W) : Type 0 where
    pub final : W
    pub left : TaskSerializer Tasks Serializers
    pub returns : r ≡ ok final
    pub ran : final.invoked ≡ w.invoked ++ take rounds numbers
    pub there : at i final ≡ ok left
    pub rest : Tasks.contents left.task_queue ≡ map leaf (drop rounds numbers)
    pub same_state : left.state ≡ s.state
    pub same_current : final.process_current ≡ w.process_current
    pub same_queue : final.serializer_queue ≡ w.serializer_queue

  module _ (inner : ℕ → W → Result W) where
    -- The state after the task `n` has been taken from the serializer `i` and invoked.
    abbrev after : ℕ → ℕ → TaskSerializer Tasks Serializers → Tasks.Queue → W → W
    after i n s q w =
        let s' : TaskSerializer Tasks Serializers = record s { task_queue = q } in
        let w' : W = store Tasks Serializers i (some s') w in
        record w' { invoked = w.invoked ++ (n ∷ []) }

    round_lem :
        (i n : ℕ) (s : TaskSerializer Tasks Serializers) (w : W) (q : Tasks.Queue)
        → w.process_current ≡ some i
        → at i w ≡ ok s
        → Tasks.pop s.task_queue ≡ some (leaf n, q)
        → process_round Tasks Serializers inner w ≡ ok (some (after i n s q w))
    unfolding process_round invoke run_requests store
    round_lem i n s w q c e popped = ground (arith, c, e, popped)

    pub round_empty :
        (i : ℕ) (s : TaskSerializer Tasks Serializers) (w : W)
        → w.process_current ≡ some i
        → at i w ≡ ok s
        → Tasks.pop s.task_queue ≡ none
        → process_round Tasks Serializers inner w ≡ ok none
    unfolding process_round
    round_empty i s w c e popped = ground (arith, c, e, popped)

    pub pop_empty : (q : Tasks.Queue) → Tasks.contents q ≡ [] → Tasks.pop q ≡ none
    pop_empty q h = ground (arith, Tasks.pop_cases q, h)

    pub pop_front :
        (q : Tasks.Queue) (t : Task) (ts : List Task)
        → Tasks.contents q ≡ t ∷ ts
        → (q' : Tasks.Queue) × (Tasks.pop q ≡ some (t, q')) × (Tasks.contents q' ≡ ts)
    pop_front q t ts h = elim (Tasks.pop_cases q) [
      | inl (empty, _) ↦ absurd (cc)
      | inr (t', q', front, popped) ↦ (
        q',
        popped ∙ ap (λ x. some (x, q')) (ap (head_or t') (sym front ∙ h)),
        ap tail_or (sym front ∙ h),
      )
    ]

    at-after :
        (i n : ℕ) (s : TaskSerializer Tasks Serializers) (w : W) (q : Tasks.Queue)
        → at i w ≡ ok s
        → at i (after i n s q w) ≡ ok (record s { task_queue = q })
    unfolding deref store
    at-after i n s w q e = deref-store_self Tasks Serializers i w s (record s { task_queue = q }) e

    after_same :
        (i n : ℕ) (s : TaskSerializer Tasks Serializers) (w : W) (q : Tasks.Queue)
        → ((after i n s q w).process_current ≡ w.process_current)
          × ((after i n s q w).serializer_queue ≡ w.serializer_queue)
          × ((after i n s q w).invoked ≡ w.invoked ++ (n ∷ []))
    unfolding store
    after_same i n s w q = (refl, refl, refl)

    pub loop-Looped :
        (rounds i : ℕ) (numbers : List ℕ) (s : TaskSerializer Tasks Serializers) (w : W)
        → w.process_current ≡ some i
        → at i w ≡ ok s
        → Tasks.contents s.task_queue ≡ map leaf numbers
        → Looped i numbers s rounds w (process_loop Tasks Serializers inner rounds w)
    unfolding process_loop
    loop-Looped zero i numbers s w c e h = record {
      final = w;
      left = s;
      returns = refl;
      ran = sym (append-nil w.invoked);
      there = e;
      rest = h;
      same_state = refl;
      same_current = refl;
      same_queue = refl;
    }
    loop-Looped (suc rounds) i [] s w c e h = record {
      final = w;
      left = s;
      returns = rw (round_empty i s w c e (pop_empty s.task_queue h), process_loop);
      ran = sym (append-nil w.invoked);
      there = e;
      rest = h;
      same_state = refl;
      same_current = refl;
      same_queue = refl;
    }
    loop-Looped (suc rounds) i (n ∷ numbers) s w c e h =
        let (q, popped, rest) = pop_front s.task_queue (leaf n) (map leaf numbers) h in
        let (current, queue, ran) = after_same i n s w q in
        let later =
          loop-Looped rounds i numbers (record s { task_queue = q }) (after i n s q w) (current ∙ c)
            (at-after i n s w q e) rest in
        record {
          final = later.final;
          left = later.left;
          returns = rw (round_lem i n s w q c e popped, process_loop) later.returns;
          ran =
              later.ran
              ∙ (ap (λ x. x ++ take rounds numbers) ran
                  ∙ append_assoc w.invoked (n ∷ []) (take rounds numbers));
          there = later.there;
          rest = later.rest;
          same_state = later.same_state;
          same_current = later.same_current ∙ current;
          same_queue = later.same_queue ∙ queue;
        }

    abbrev pub is_nil : List ℕ → Bool
    is_nil [] = true
    is_nil (n ∷ ns) = false

    -- What a serializer whose tasks ask for nothing looks like after its turn.
    pub record Served (i : ℕ) (numbers : List ℕ) (w : W) (r : Result W) : Type 0 where
      pub final : W
      pub left : TaskSerializer Tasks Serializers
      pub returns : r ≡ ok final
      pub ran : final.invoked ≡ w.invoked ++ take max_process_task_count numbers
      pub there : at i final ≡ ok left
      pub rest : Tasks.contents left.task_queue ≡ map leaf (drop max_process_task_count numbers)
      pub let_go : final.process_current ≡ none
      pub requeued : final.serializer_queue ≡ (
          if is_nil (drop max_process_task_count numbers)
          then w.serializer_queue
          else (Serializers.push i w.serializer_queue).1)

    nonempty : {t : Task} {ts : List Task} → t ∷ ts ≡ [] → ⊥
    nonempty h = cc

    empty-leaf :
        (q : Tasks.Queue) (numbers : List ℕ)
        → Tasks.contents q ≡ map leaf numbers
        → Tasks.empty q ≡ is_nil numbers
    empty-leaf q [] h = (Tasks.empty_iff q).1 h
    empty-leaf q (n ∷ numbers) h = elim (Bool-cases (Tasks.empty q)) [
      | inl e ↦ absurd (nonempty (sym h ∙ (Tasks.empty_iff q).0 e))
      | inr e ↦ e
    ]

    finish_lem :
        (i : ℕ) (numbers : List ℕ) (s : TaskSerializer Tasks Serializers) (w : W)
        → w.process_current ≡ some i
        → at i w ≡ ok s
        → s.state ≡ running
        → Tasks.contents s.task_queue ≡ map leaf numbers
        → finish_processing Tasks Serializers (requeue_serializer Tasks Serializers) w
          ≡ ok (record w {
            process_current = none;
            serializer_queue =
                if is_nil numbers
                then w.serializer_queue
                else (Serializers.push i w.serializer_queue).1;
          })
    unfolding finish_processing requeue_serializer
    finish_lem i numbers s w c e running_s h =
        ground (arith, c, e, running_s, empty-leaf s.task_queue numbers h)

    pub process_with_lem :
        (i : ℕ) (w w1 : W) {r : Result W}
        → w.process_current ≡ none
        → process_loop Tasks Serializers inner max_process_task_count
            (record w { process_current = some i })
          ≡ ok w1
        → finish_processing Tasks Serializers (requeue_serializer Tasks Serializers) w1 ≡ r
        → process_with Tasks Serializers inner (requeue_serializer Tasks Serializers) i w ≡ r
    unfolding process_with
    process_with_lem i w w1 c looped finished = rw c (
        ap (λ x. x >>= finish_processing Tasks Serializers (requeue_serializer Tasks Serializers))
          looped
        ∙ finished)

    -- Where no serializer is being processed, `process_task_serializer` of a running serializer
    -- whose tasks ask for nothing runs its oldest 30 tasks, or all if there are fewer, in the
    -- order in which they stand in the queue. The others stay in their order, the serializer is
    -- put back into the queue of serializers exactly if some are left, and nothing is being
    -- processed afterwards.
    pub process_with-Served :
        (i : ℕ) (numbers : List ℕ) (s : TaskSerializer Tasks Serializers) (w : W)
        → w.process_current ≡ none
        → at i w ≡ ok s
        → s.state ≡ running
        → Tasks.contents s.task_queue ≡ map leaf numbers
        → Served i numbers w
            (process_with Tasks Serializers inner (requeue_serializer Tasks Serializers) i w)
    unfolding deref
    process_with-Served i numbers s w c e running_s h =
        let w0 : W = record w { process_current = some i } in
        let looped = loop-Looped max_process_task_count i numbers s w0 refl e h in
        let finished =
          finish_lem i (drop max_process_task_count numbers) looped.left looped.final
            looped.same_current looped.there (looped.same_state ∙ running_s) looped.rest in
        record {
          final = record looped.final {
            process_current = none;
            serializer_queue =
                if is_nil (drop max_process_task_count numbers)
                then looped.final.serializer_queue
                else (Serializers.push i looped.final.serializer_queue).1;
          };
          left = looped.left;
          returns = process_with_lem i w looped.final c looped.returns finished;
          ran = looped.ran;
          there = looped.there;
          rest = looped.rest;
          let_go = refl;
          requeued =
              ap
                (λ q.
                  if is_nil (drop max_process_task_count numbers)
                  then q
                  else (Serializers.push i q).1)
                looped.same_queue;
        }
