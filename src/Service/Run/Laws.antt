-- ===== src/Service/Run/Laws.antt =====
-- When `Service::run` returns.
use first_server.Common.{
  ℕ, zero, suc, ◌≤◌, ◌<◌, ◌≡◌, ◌≢◌, refl, sym, ◌∙◌, subst, inl, inr, List, [], ◌∷◌, some, true,
  false, arith, get_elem?, set, get_elem?-set_cases, get_elem?-before, Option-cases, Bool-cases,
  pos,
}
use first_server.Service.Run.{
  not_started, tests, ended, Thread, new_thread, set_thread_id, initialize, stop, start, run_step,
  returns_from_wait, MainPoint, starts, waits, returned, terminated, ServiceRun, Turn, main_goes,
  thread_goes, stops, threads_from, start_run, main_step, change_thread, turn_step, run_service,
}

-- What is so of the thread of the place `j`, by where `Service::run` is.
abbrev pub IsPlaced : MainPoint → ℕ → Thread → Type 0
IsPlaced (starts i) j t = (j < i → t.joinable ≡ true) × (i ≤ j → t.joinable ≡ false)
IsPlaced (waits i) j t = (j < i → t.point ≡ ended) × (i ≤ j → t.joinable ≡ true)
IsPlaced returned j t = t.point ≡ ended
IsPlaced terminated j t = ⊥

abbrev pub IsPhase : MainPoint → ℕ → Thread → Type 0
IsPhase main j t = (t.point ≡ ended → t.is_stop ≡ true) × IsPlaced main j t

pub record AllPhase (r : ServiceRun) : Type 0 where
  pub main_runs : r.main ≢ terminated
  pub at : (j : ℕ) (t : Thread) → get_elem? r.worker_threads j ≡ some t → IsPhase r.main j t

-- A change of a thread that leaves what `Service::run` sees.
same-IsPlaced :
    (main : MainPoint) (j : ℕ) (t t' : Thread)
    → t'.joinable ≡ t.joinable
    → (t.point ≡ ended → t'.point ≡ ended)
    → IsPlaced main j t
    → IsPlaced main j t'
same-IsPlaced (starts i) j t t' e f p = (λ h. e ∙ p.0 h, λ h. e ∙ p.1 h)
same-IsPlaced (waits i) j t t' e f p = (λ h. f (p.0 h), λ h. e ∙ p.1 h)
same-IsPlaced returned j t t' e f p = f p
same-IsPlaced terminated j t t' e f p = p

run_step-IsPhase :
    (main : MainPoint) (j : ℕ) (t : Thread) → IsPhase main j t → IsPhase main j (run_step t)
unfolding run_step
run_step-IsPhase main j t (stopped, placed) =
    (ground arith, same-IsPlaced main j t (run_step t) (ground arith) (ground arith) placed)

stop-IsPhase : (main : MainPoint) (j : ℕ) (t : Thread) → IsPhase main j t → IsPhase main j (stop t)
unfolding stop
stop-IsPhase main j t (stopped, placed) =
    (λ h. refl, same-IsPlaced main j t (stop t) refl (λ h. h) placed)

change_thread-AllPhase :
    (f : Thread → Thread) (i : ℕ) (r : ServiceRun)
    → ((main : MainPoint) (j : ℕ) (t : Thread) → IsPhase main j t → IsPhase main j (f t))
    → AllPhase r
    → AllPhase (change_thread f i r)
unfolding change_thread
change_thread-AllPhase f i r keeps a = elim (Option-cases (get_elem? r.worker_threads i)) [
  | inl e ↦ rw (e, change_thread) a
  | inr (t, e) ↦
      rw (e, change_thread)
        (record {
          main_runs = a.main_runs;
          at = λ j u h. elim (get_elem?-set_cases r.worker_threads i j (f t) u e h) [
            | inl (same, new) ↦
                subst (IsPhase r.main j) new (keeps r.main j t (a.at j t (rw (sym same) e)))
            | inr (other, old) ↦ a.at j u old
          ];
        })
]

-- The places of the threads, when the thread of the place `i` has become `t'`.
set-places :
    (r : ServiceRun) (main : MainPoint) (i : ℕ) (t t' : Thread)
    → get_elem? r.worker_threads i ≡ some t
    → main ≢ terminated
    → IsPhase main i t'
    → ((j : ℕ) (u : Thread) → (i ≡ j → ⊥) → IsPhase r.main j u → IsPhase main j u)
    → AllPhase r
    → AllPhase (record { main = main; worker_threads = set r.worker_threads i t' })
set-places r main i t t' e runs here others a = record {
  main_runs = runs;
  at = λ j u h. elim (get_elem?-set_cases r.worker_threads i j t' u e h) [
    | inl (same, new) ↦ rw (sym same, sym new) here
    | inr (other, old) ↦ others j u other (a.at j u old)
  ];
}

starts-AllPhase :
    (i : ℕ) (threads : List Thread)
    → AllPhase (record { main = starts i; worker_threads = threads })
    → AllPhase (main_step (record { main = starts i; worker_threads = threads }))
unfolding main_step start
starts-AllPhase i threads a =
    let r : ServiceRun = record { main = starts i; worker_threads = threads } in
    elim (Option-cases (get_elem? threads i)) [
      | inl e ↦
          rw (e, main_step)
            (record {
              main_runs = λ x. absurd (cc);
              at = λ j u h. (
                (a.at j u h).0,
                (
                  λ b. absurd (omega (arith, b)),
                  λ b. (a.at j u h).1.0 (get_elem?-before threads i j u e h),
                ),
              );
            })
      | inr (t, e) ↦
          let free = (a.at i t e).1.1 (omega arith) in
          rw (e, main_step)
            (rw (free, main_step)
              (set-places r (starts (suc i)) i t (record t { joinable = true; point = tests }) e
                (λ x. absurd (cc)) ((λ x. absurd (cc)), (λ b. refl, λ b. absurd (omega (arith, b))))
                (λ j u other p.
                  (p.0, (λ b. p.1.0 (omega (arith, other)), λ b. p.1.1 (omega arith))))
                a))
    ]

-- A join that returns is one of a thread that has ended.
returns_from_wait-ended :
    (t : Thread) → t.joinable ≡ true → returns_from_wait t ≡ true → t.point ≡ ended
unfolding returns_from_wait
returns_from_wait-ended t joins r = ground (arith, joins, r)

waits-AllPhase :
    (i : ℕ) (threads : List Thread)
    → AllPhase (record { main = waits i; worker_threads = threads })
    → AllPhase (main_step (record { main = waits i; worker_threads = threads }))
unfolding main_step
waits-AllPhase i threads a =
    let r : ServiceRun = record { main = waits i; worker_threads = threads } in
    elim (Option-cases (get_elem? threads i)) [
      | inl e ↦
          rw (e, main_step)
            (record {
              main_runs = λ x. absurd (cc);
              at = λ j u h. ((a.at j u h).0, (a.at j u h).1.0 (get_elem?-before threads i j u e h));
            })
      | inr (t, e) ↦ elim (Bool-cases (returns_from_wait t)) [
        | inl f ↦
            let (stopped, placed) = a.at i t e in
            let over = returns_from_wait-ended t (placed.1 (omega arith)) f in
            rw (e, main_step)
              (rw (f, main_step)
                (set-places r (waits (suc i)) i t (record t { joinable = false }) e
                  (λ x. absurd (cc)) (stopped, (λ b. over, λ b. absurd (omega (arith, b))))
                  (λ j u other p.
                    (p.0, (λ b. p.1.0 (omega (arith, other)), λ b. p.1.1 (omega arith))))
                  a))
        | inr f ↦ rw (e, main_step) (rw (f, main_step) a)
      ]
    ]

pub main_step-AllPhase :
    (main : MainPoint) (threads : List Thread)
    → AllPhase (record { main = main; worker_threads = threads })
    → AllPhase (main_step (record { main = main; worker_threads = threads }))
unfolding main_step
main_step-AllPhase (starts i) threads a = starts-AllPhase i threads a
main_step-AllPhase (waits i) threads a = waits-AllPhase i threads a
main_step-AllPhase returned threads a = a
main_step-AllPhase terminated threads a = a

pub run_service-AllPhase :
    (schedule : List Turn) (r : ServiceRun) → AllPhase r → AllPhase (run_service schedule r)
unfolding run_service turn_step
run_service-AllPhase [] r a = a
run_service-AllPhase (main_goes ∷ turns) r a =
    run_service-AllPhase turns (main_step r) (main_step-AllPhase r.main r.worker_threads a)
run_service-AllPhase (thread_goes i ∷ turns) r a =
    run_service-AllPhase turns (change_thread run_step i r)
      (change_thread-AllPhase run_step i r run_step-IsPhase a)
run_service-AllPhase (stops i ∷ turns) r a =
    run_service-AllPhase turns (change_thread stop i r)
      (change_thread-AllPhase stop i r stop-IsPhase a)

-- A thread that has been made, and not started.
pub record IsNew (t : Thread) : Type 0 where
  idle : t.point ≡ not_started
  pub free : t.joinable ≡ false
  goes : t.is_stop ≡ false

pub threads_from-IsNew :
    (i n j : ℕ) (t : Thread) → get_elem? (threads_from i n) j ≡ some t → IsNew t
unfolding threads_from initialize set_thread_id new_thread
threads_from-IsNew i zero j t h = absurd (cc)
threads_from-IsNew i (suc n) zero t h =
    let made : initialize (set_thread_id (pos i) new_thread) ≡ t = cc in
    subst IsNew made (record { idle = refl; free = refl; goes = refl })
threads_from-IsNew i (suc n) (suc j) t h = threads_from-IsNew (suc i) n j t h

pub start_run-AllPhase : (n : ℕ) → AllPhase (start_run n)
unfolding start_run
start_run-AllPhase n = record {
  main_runs = λ x. absurd (cc);
  at = λ j t h.
      let new = threads_from-IsNew 0 n j t h in
      let not_ended = new.idle in
      ((λ x. absurd (cc)), ((λ b. absurd (omega (arith, b))), λ b. new.free));
}

-- Service::run is called on a service with any number of threads; it, the threads it starts and
-- calls of stop take steps in any order. If it has returned, then every thread of the service has
-- ended its loop, and its stop has been called.
pub returned-all_stopped :
    (n : ℕ) (schedule : List Turn) (i : ℕ) (t : Thread)
    → (run_service schedule (start_run n)).main ≡ returned
    → get_elem? (run_service schedule (start_run n)).worker_threads i ≡ some t
    → (t.point ≡ ended) × (t.is_stop ≡ true)
returned-all_stopped n schedule i t back h =
    let a = run_service-AllPhase schedule (start_run n) (start_run-AllPhase n) in
    let (stopped, placed) = a.at i t h in
    let over : t.point ≡ ended = subst (λ m. IsPlaced m i t) back placed in (over, stopped over)
