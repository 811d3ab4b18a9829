-- ===== src/Task/Threads/Stranded.antt =====
-- A serializer with tasks that no thread comes for.
use first_server.Common.{
  ℕ, ◌≡◌, refl, ap, ◌∙◌, inl, inr, List, [], ◌∷◌, ◌++◌, false, get_elem?, AllOf, AllOf-get,
  AllOf-set, Option-cases, Bool-cases,
}
use first_server.Lockfree.{LockfreeQueue, empty-cons}
use first_server.Task.Threads.{
  Point, idle, tests_empty, pushes, pops, invokes, tests_rest, requeues, Turn, begins_request,
  begins_work, goes_on, is_idle, Shared, go_on, work, turn_step, Threads, thread_step, run_threads,
}

-- A thread that is not going to take a task: it has no task to run, has not found the queue empty,
-- and does not come from the workers' queue.
abbrev pub IsPassing : Point → Type 0
IsPassing idle = Unit
IsPassing (tests_empty task) = Unit
IsPassing (pushes task was_empty) = was_empty ≡ false
IsPassing (pops from_worker n) = ⊥
IsPassing (invokes from_worker n task) = ⊥
IsPassing (tests_rest from_worker) = from_worker ≡ false
IsPassing (requeues from_worker) = from_worker ≡ false

abbrev pub AllPassing : List Point → Type 0
AllPassing = AllOf IsPassing

module _ (Tasks Serializers : LockfreeQueue ℕ) where
  abbrev S : Type 0
  S = Shared Tasks Serializers

  -- The queue has a task, and the workers' queue does not have the serializer.
  pub record IsLeft (s : S) : Type 0 where
    pub first : ℕ
    pub rest : List ℕ
    pub waiting : Tasks.contents s.task_queue ≡ first ∷ rest
    pub no_work : Serializers.contents s.worker_queue ≡ []

  -- After a step the thread still passes, the tasks are still left, and none has been invoked.
  record Leaves (s : S) (r : Point × S) : Type 0 where
    passing : IsPassing r.0
    left : IsLeft r.1
    same : r.1.invoked ≡ s.invoked

  push-IsLeft :
      (task : ℕ) (s : S)
      → IsLeft s
      → IsLeft (record s { task_queue = (Tasks.push task s.task_queue).1 })
  push-IsLeft task s l = elim (Tasks.push_cases task s.task_queue) [
    | inl (_, after) ↦ record {
      first = l.first;
      rest = l.rest ++ (task ∷ []);
      waiting = after ∙ ap (λ c. c ++ (task ∷ [])) l.waiting;
      no_work = l.no_work;
    }
    | inr (_, after) ↦ record {
      first = l.first;
      rest = l.rest;
      waiting = after ∙ l.waiting;
      no_work = l.no_work;
    }
  ]

  stays : (p : Point) (s : S) → IsPassing p → IsLeft s → Leaves s (p, s)
  stays p s g l = record { passing = g; left = l; same = refl }

  go_on-Leaves :
      (p : Point) (s : S) → IsPassing p → IsLeft s → Leaves s (go_on Tasks Serializers p s)
  unfolding go_on
  go_on-Leaves idle s g l = stays idle s tt l
  go_on-Leaves (tests_empty task) s g l = record {
    passing = empty-cons Tasks s.task_queue l.first l.rest l.waiting;
    left = l;
    same = refl;
  }
  go_on-Leaves (pushes task was_empty) s g l =
      rw g (record { passing = tt; left = push-IsLeft task s l; same = refl })
  go_on-Leaves (pops from_worker n) s g l = absurd g
  go_on-Leaves (invokes from_worker n task) s g l = absurd g
  go_on-Leaves (tests_rest from_worker) s g l =
      rw (empty-cons Tasks s.task_queue l.first l.rest l.waiting)
        (record { passing = g; left = l; same = refl })
  go_on-Leaves (requeues from_worker) s g l = rw g (record {
    passing = tt;
    left = record { first = l.first; rest = l.rest; waiting = l.waiting; no_work = l.no_work };
    same = refl;
  })

  work-Leaves : (s : S) → IsLeft s → Leaves s (work Tasks Serializers s)
  unfolding work
  work-Leaves s l = elim (Serializers.pop_cases s.worker_queue) [
    | inl (empty, popped) ↦ rw (popped, work) (stays idle s tt l)
    | inr (i, q, front, popped) ↦ let no_work = l.no_work in absurd (cc)
  ]

  turn_step-Leaves :
      (turn : Turn) (p : Point) (s : S)
      → IsPassing p
      → IsLeft s
      → Leaves s (turn_step Tasks Serializers turn p s)
  unfolding turn_step
  turn_step-Leaves goes_on p s g l = go_on-Leaves p s g l
  turn_step-Leaves (begins_request task) p s g l = elim (Bool-cases (is_idle p)) [
    | inl e ↦
        rw (e, turn_step)
          (record {
            passing = tt;
            left = record {
              first = l.first;
              rest = l.rest;
              waiting = l.waiting;
              no_work = l.no_work;
            };
            same = refl;
          })
    | inr e ↦ rw (e, turn_step) (stays p s g l)
  ]
  turn_step-Leaves begins_work p s g l = elim (Bool-cases (is_idle p)) [
    | inl e ↦ rw (e, turn_step) (work-Leaves s l)
    | inr e ↦ rw (e, turn_step) (stays p s g l)
  ]

  -- There are tasks, and no thread is going to take one.
  pub record IsStranded (t : Threads Tasks Serializers) : Type 0 where
    pub passing : AllPassing t.points
    pub left : IsLeft t.shared

  -- The threads have run nothing, and it goes on so.
  pub record Strands (t t' : Threads Tasks Serializers) : Type 0 where
    pub stranded : IsStranded t'
    pub none_invoked : t'.shared.invoked ≡ t.shared.invoked

  thread_step-Strands :
      (i : ℕ) (turn : Turn) (t : Threads Tasks Serializers)
      → IsStranded t
      → Strands t (thread_step Tasks Serializers i turn t)
  unfolding thread_step
  thread_step-Strands i turn t x = elim (Option-cases (get_elem? t.points i)) [
    | inl e ↦ rw (e, thread_step) (record { stranded = x; none_invoked = refl })
    | inr (p, e) ↦
        let moved =
          turn_step-Leaves turn p t.shared (AllOf-get IsPassing t.points i p x.passing e) x.left in
        let p' = (turn_step Tasks Serializers turn p t.shared).0 in
        rw (e, thread_step)
          (record {
            stranded = record {
              passing = AllOf-set IsPassing t.points i p' x.passing moved.passing;
              left = moved.left;
            };
            none_invoked = moved.same;
          })
  ]

  -- Let the queue of a serializer have a task, let the workers not have the serializer in their
  -- queue, and let no thread be about to take a task: each is idle, or is in a request whose test
  -- has not found the queue empty, or is behind its last round of a request. Then no steps of any
  -- threads, new requests among them, ever run a task again, and all of this stays so.
  pub run_threads-Strands :
      (schedule : List (ℕ × Turn)) (t : Threads Tasks Serializers)
      → IsStranded t
      → Strands t (run_threads Tasks Serializers schedule t)
  unfolding run_threads
  run_threads-Strands [] t x = record { stranded = x; none_invoked = refl }
  run_threads-Strands ((i, turn) ∷ schedule) t x =
      let first = thread_step-Strands i turn t x in
      let later =
        run_threads-Strands schedule (thread_step Tasks Serializers i turn t) first.stranded in
      record { stranded = later.stranded; none_invoked = later.none_invoked ∙ first.none_invoked }
