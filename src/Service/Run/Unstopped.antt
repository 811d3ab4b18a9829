-- ===== src/Service/Run/Unstopped.antt =====
-- `Service::run` where nobody calls `stop`.
use first_server.Common.{
  ℕ, zero, suc, ◌<◌, ◌≡◌, ◌≢◌, refl, ap, ◌∙◌, inl, inr, List, [], ◌∷◌, some, Bool, true, false,
  arith, get_elem?, set, Option-cases, Bool-cases, pos,
}
use first_server.Service.Run.{
  Thread, new_thread, set_thread_id, initialize, start, run_step, returns_from_wait, MainPoint,
  starts, waits, returned, terminated, ServiceRun, Turn, main_goes, thread_goes, stops,
  threads_from, start_run, main_step, change_thread, turn_step, run_service,
}
use first_server.Service.Run.Laws.{returned-all_stopped}

-- A schedule in which nobody calls `stop`.
abbrev pub nobody_stops : List Turn → Bool
nobody_stops [] = true
nobody_stops (main_goes ∷ turns) = nobody_stops turns
nobody_stops (thread_goes i ∷ turns) = nobody_stops turns
nobody_stops (stops i ∷ turns) = false

-- The first thread is there, and goes on.
record FirstGoes (threads : List Thread) : Type 0 where
  first : Thread
  found : get_elem? threads 0 ≡ some first
  goes : first.is_stop ≡ false

set-FirstGoes :
    (threads : List Thread) (i : ℕ) (t t' : Thread)
    → get_elem? threads i ≡ some t
    → t'.is_stop ≡ t.is_stop
    → FirstGoes threads
    → FirstGoes (set threads i t')
set-FirstGoes [] i t t' e same f = absurd (cc)
set-FirstGoes (x ∷ xs) zero t t' e same f =
    let here : t ≡ f.first = cc in
    record { first = t'; found = refl; goes = same ∙ (ap (λ u. u.is_stop) here ∙ f.goes) }
set-FirstGoes (x ∷ xs) (suc i) t t' e same f = record {
  first = f.first;
  found = f.found;
  goes = f.goes;
}

main_step-FirstGoes :
    (main : MainPoint) (threads : List Thread)
    → FirstGoes threads
    → FirstGoes (main_step (record { main = main; worker_threads = threads })).worker_threads
unfolding main_step start
main_step-FirstGoes returned threads f = f
main_step-FirstGoes terminated threads f = f
main_step-FirstGoes (starts i) threads f = elim (Option-cases (get_elem? threads i)) [
  | inl e ↦ rw (e, main_step) f
  | inr (t, e) ↦ elim (Bool-cases t.joinable) [
    | inl b ↦ rw (e, main_step) (rw (b, main_step) f)
    | inr b ↦ rw (e, main_step) (rw (b, main_step) (set-FirstGoes threads i t _ e refl f))
  ]
]
main_step-FirstGoes (waits i) threads f = elim (Option-cases (get_elem? threads i)) [
  | inl e ↦ rw (e, main_step) f
  | inr (t, e) ↦ elim (Bool-cases (returns_from_wait t)) [
    | inl b ↦ rw (e, main_step) (rw (b, main_step) (set-FirstGoes threads i t _ e refl f))
    | inr b ↦ rw (e, main_step) (rw (b, main_step) f)
  ]
]

run_step-FirstGoes :
    (i : ℕ) (r : ServiceRun)
    → FirstGoes r.worker_threads
    → FirstGoes (change_thread run_step i r).worker_threads
unfolding change_thread run_step
run_step-FirstGoes i r f = elim (Option-cases (get_elem? r.worker_threads i)) [
  | inl e ↦ rw (e, change_thread) f
  | inr (t, e) ↦
      rw (e, change_thread) (set-FirstGoes r.worker_threads i t (run_step t) e (ground arith) f)
]

run_service-FirstGoes :
    (schedule : List Turn) (r : ServiceRun)
    → nobody_stops schedule ≡ true
    → FirstGoes r.worker_threads
    → FirstGoes (run_service schedule r).worker_threads
unfolding run_service turn_step
run_service-FirstGoes [] r b f = f
run_service-FirstGoes (main_goes ∷ turns) r b f =
    run_service-FirstGoes turns (main_step r) b (main_step-FirstGoes r.main r.worker_threads f)
run_service-FirstGoes (thread_goes i ∷ turns) r b f =
    run_service-FirstGoes turns (change_thread run_step i r) b (run_step-FirstGoes i r f)
run_service-FirstGoes (stops i ∷ turns) r b f = absurd (cc)

start_run-FirstGoes : (n : ℕ) → 0 < n → FirstGoes (start_run n).worker_threads
unfolding start_run threads_from initialize set_thread_id new_thread
start_run-FirstGoes zero some_thread = absurd (omega arith)
start_run-FirstGoes (suc n) some_thread = record {
  first = initialize (set_thread_id (pos 0) new_thread);
  found = refl;
  goes = refl;
}

-- With one thread at least, and as long as nobody calls the stop of a thread, Service::run does
-- not return, in whatever order the steps come.
pub never_returns :
    (n : ℕ) (schedule : List Turn)
    → 0 < n
    → nobody_stops schedule ≡ true
    → (run_service schedule (start_run n)).main ≢ returned
never_returns n schedule some_thread nobody back =
    let f =
      run_service-FirstGoes schedule (start_run n) nobody (start_run-FirstGoes n some_thread) in
    let (over, stopped) = returned-all_stopped n schedule 0 f.first back f.found in
    let goes = f.goes in absurd (cc)
