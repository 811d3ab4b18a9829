-- ===== src/Service/Run/Steps.antt =====
-- What the steps of `Service::run`, of its threads and of `stop` keep.
use first_server.Common.{
  ℕ, ◌≡◌, ◌≢◌, refl, inl, inr, List, [], ◌∷◌, ◌++◌, none, true, false, arith, get_elem?,
  get_elem?-set-none, AllOf, AllOf-get, AllOf-set, Option-cases, Bool-cases,
}
use first_server.Service.Run.{
  not_started, tests, Thread, stop, start, run_step, returns_from_wait, MainPoint, starts, waits,
  returned, terminated, ServiceRun, Turn, main_goes, thread_goes, stops, main_step, change_thread,
  turn_step, run_service,
}

pub run_service-append :
    (first later : List Turn) (r : ServiceRun)
    → run_service (first ++ later) r ≡ run_service later (run_service first r)
unfolding run_service
run_service-append [] later r = refl
run_service-append (turn ∷ first) later r = run_service-append first later (turn_step turn r)

-- A predicate of the threads that starting and joining keep.
pub main_step-AllOf :
    (P : Thread → Type 0)
    → ((t : Thread) → P t → P (record t { joinable = true; point = tests }))
    → ((t : Thread) → P t → P (record t { joinable = false }))
    → (main : MainPoint) (threads : List Thread) → AllOf P threads
    → AllOf P (main_step (record { main = main; worker_threads = threads })).worker_threads
unfolding main_step start
main_step-AllOf P starting joining returned threads all = all
main_step-AllOf P starting joining terminated threads all = all
main_step-AllOf P starting joining (starts i) threads all =
    elim (Option-cases (get_elem? threads i)) [
      | inl e ↦ rw (e, main_step) all
      | inr (t, e) ↦ elim (Bool-cases t.joinable) [
        | inl b ↦ rw (e, main_step) (rw (b, main_step) all)
        | inr b ↦
            rw (e, main_step)
              (rw (b, main_step)
                (AllOf-set P threads i _ all (starting t (AllOf-get P threads i t all e))))
      ]
    ]
main_step-AllOf P starting joining (waits i) threads all =
    elim (Option-cases (get_elem? threads i)) [
      | inl e ↦ rw (e, main_step) all
      | inr (t, e) ↦ elim (Bool-cases (returns_from_wait t)) [
        | inl b ↦
            rw (e, main_step)
              (rw (b, main_step)
                (AllOf-set P threads i _ all (joining t (AllOf-get P threads i t all e))))
        | inr b ↦ rw (e, main_step) (rw (b, main_step) all)
      ]
    ]

pub change_thread-AllOf :
    (P : Thread → Type 0) (f : Thread → Thread) (i : ℕ) (r : ServiceRun)
    → ((t : Thread) → P t → P (f t))
    → AllOf P r.worker_threads
    → AllOf P (change_thread f i r).worker_threads
unfolding change_thread
change_thread-AllOf P f i r keeps all = elim (Option-cases (get_elem? r.worker_threads i)) [
  | inl e ↦ rw (e, change_thread) all
  | inr (t, e) ↦
      rw (e, change_thread)
        (AllOf-set P r.worker_threads i (f t) all
          (keeps t (AllOf-get P r.worker_threads i t all e)))
]

-- A thread that is joinable has been started.
abbrev pub IsLaunched : Thread → Type 0
IsLaunched t = t.joinable ≡ true → t.point ≢ not_started

abbrev pub IsStopped : Thread → Type 0
IsStopped t = t.is_stop ≡ true

run_step-IsLaunched : (t : Thread) → IsLaunched t → IsLaunched (run_step t)
unfolding run_step
run_step-IsLaunched t launched b new = launched (ground (arith, b)) (ground (arith, new))

pub run_service-IsLaunched :
    (schedule : List Turn) (r : ServiceRun)
    → AllOf IsLaunched r.worker_threads
    → AllOf IsLaunched (run_service schedule r).worker_threads
unfolding run_service turn_step stop
run_service-IsLaunched [] r all = all
run_service-IsLaunched (main_goes ∷ turns) r all = run_service-IsLaunched turns (main_step r) (
    main_step-AllOf IsLaunched (λ t h b x. absurd (cc)) (λ t h b x. absurd (cc)) r.main
      r.worker_threads all)
run_service-IsLaunched (thread_goes i ∷ turns) r all =
    run_service-IsLaunched turns (change_thread run_step i r)
      (change_thread-AllOf IsLaunched run_step i r run_step-IsLaunched all)
run_service-IsLaunched (stops i ∷ turns) r all =
    run_service-IsLaunched turns (change_thread stop i r)
      (change_thread-AllOf IsLaunched stop i r (λ t h. h) all)

-- There are no more threads than at the start.
main_step-none :
    (n : ℕ) (main : MainPoint) (threads : List Thread)
    → get_elem? threads n ≡ none
    → get_elem? (main_step (record { main = main; worker_threads = threads })).worker_threads n
      ≡ none
unfolding main_step start
main_step-none n returned threads h = h
main_step-none n terminated threads h = h
main_step-none n (starts i) threads h = elim (Option-cases (get_elem? threads i)) [
  | inl e ↦ rw (e, main_step) h
  | inr (t, e) ↦ elim (Bool-cases t.joinable) [
    | inl b ↦ rw (e, main_step) (rw (b, main_step) h)
    | inr b ↦ rw (e, main_step) (rw (b, main_step) (get_elem?-set-none threads i n _ h))
  ]
]
main_step-none n (waits i) threads h = elim (Option-cases (get_elem? threads i)) [
  | inl e ↦ rw (e, main_step) h
  | inr (t, e) ↦ elim (Bool-cases (returns_from_wait t)) [
    | inl b ↦ rw (e, main_step) (rw (b, main_step) (get_elem?-set-none threads i n _ h))
    | inr b ↦ rw (e, main_step) (rw (b, main_step) h)
  ]
]

change_thread-no_more :
    (n : ℕ) (f : Thread → Thread) (i : ℕ) (r : ServiceRun)
    → get_elem? r.worker_threads n ≡ none
    → get_elem? (change_thread f i r).worker_threads n ≡ none
unfolding change_thread
change_thread-no_more n f i r h = elim (Option-cases (get_elem? r.worker_threads i)) [
  | inl e ↦ rw (e, change_thread) h
  | inr (t, e) ↦ rw (e, change_thread) (get_elem?-set-none r.worker_threads i n (f t) h)
]

pub run_service-no_more :
    (n : ℕ) (schedule : List Turn) (r : ServiceRun)
    → get_elem? r.worker_threads n ≡ none
    → get_elem? (run_service schedule r).worker_threads n ≡ none
unfolding run_service turn_step
run_service-no_more n [] r h = h
run_service-no_more n (main_goes ∷ turns) r h =
    run_service-no_more n turns (main_step r) (main_step-none n r.main r.worker_threads h)
run_service-no_more n (thread_goes i ∷ turns) r h =
    run_service-no_more n turns (change_thread run_step i r)
      (change_thread-no_more n run_step i r h)
run_service-no_more n (stops i ∷ turns) r h =
    run_service-no_more n turns (change_thread stop i r) (change_thread-no_more n stop i r h)
