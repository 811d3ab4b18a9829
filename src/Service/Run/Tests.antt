-- ===== src/Service/Run/Tests.antt =====
-- Services of one thread and of two.
use first_server.Common.{
  ℕ, ◌++◌, some, get_elem?, AllOf-get, ◌≡◌, ◌≢◌, refl, List, [], ◌∷◌, true, false, arith, pos,
}
use first_server.Service.Run.{
  Turn, main_goes, thread_goes, stops, Thread, ended, threads_from, new_thread, set_thread_id,
  initialize, stop, start, run_step, returns_from_wait, returned, start_run, main_step,
  change_thread, turn_step, run_service,
}
use first_server.Service.Run.Live.{finish, stopped-returns}
use first_server.Service.Run.Laws.{returned-all_stopped}
use first_server.Service.Run.Unstopped.{never_returns}

-- A service of one thread, which is stopped after one routine.
abbrev one_routine : List Turn
one_routine =
    main_goes
    ∷ thread_goes 0
    ∷ main_goes
    ∷ stops 0
    ∷ main_goes
    ∷ thread_goes 0
    ∷ thread_goes 0
    ∷ main_goes
    ∷ main_goes
    ∷ []

abbrev stopped_thread : Thread
stopped_thread = record {
  thread_id = pos 0;
  is_stop = true;
  joinable = false;
  point = ended;
  routines = 1;
}

returned-all_stopped_example : (stopped_thread.point ≡ ended) × (stopped_thread.is_stop ≡ true)
unfolding run_service turn_step change_thread main_step start_run threads_from initialize
    set_thread_id new_thread start run_step stop returns_from_wait
returned-all_stopped_example = returned-all_stopped 1 one_routine 0 stopped_thread refl refl

abbrev not_stopped : List Turn
not_stopped = main_goes ∷ main_goes ∷ main_goes ∷ thread_goes 1 ∷ main_goes ∷ thread_goes 0 ∷ []

never_returns_example : (run_service not_stopped (start_run 2)).main ≢ returned
never_returns_example = never_returns 2 not_stopped (omega arith) refl

-- Both threads are stopped before they have been started.
abbrev stopping : List Turn
stopping = main_goes ∷ stops 0 ∷ stops 1 ∷ []

both_stopped :
    (i : ℕ) (t : Thread)
    → get_elem? (run_service stopping (start_run 2)).worker_threads i ≡ some t
    → t.is_stop ≡ true
unfolding run_service turn_step change_thread main_step start_run threads_from initialize
    set_thread_id new_thread start stop
both_stopped i t h =
    AllOf-get (λ (u : Thread). u.is_stop ≡ true) (run_service stopping (start_run 2)).worker_threads
      i t (refl, (refl, tt)) h

stopped-returns_example : (run_service (stopping ++ finish 2) (start_run 2)).main ≡ returned
stopped-returns_example = stopped-returns 2 stopping both_stopped
