-- ===== src/Service/Run/Live.antt =====
-- The end of `Service::run` when every thread has been stopped.
use first_server.Common.{
  ℕ, zero, suc, ◌≡◌, ◌≢◌, refl, ap, sym, ◌∙◌, subst, List, ◌++◌, none, some, true, arith, get_elem?,
  get_elem?-before, AllOf, AllOf-get, AllOf-pointwise, dec_lt,
}
use first_server.Service.Run.{
  not_started, Thread, MainPoint, starts, waits, returned, terminated, ServiceRun, Turn,
  threads_from, start_run, run_service,
}
use first_server.Service.Run.Laws.{
  IsPlaced, AllPhase, threads_from-IsNew, run_service-AllPhase, start_run-AllPhase,
}
use first_server.Service.Run.Steps.{
  run_service-append, IsLaunched, IsStopped, run_service-IsLaunched, run_service-no_more,
}
use first_server.Service.Run.Starting.{
  mains, IsPast, mains-stay_IsPast, mains-IsPast, mains-AllStopped,
}
use first_server.Service.Run.Ending.{
  IsLeaving, twice_each, twice_each-EndedBefore, IsEnded, returned-stays, mains-returned,
}

-- What is so of a state that `Service::run` comes to on `n` threads.
record IsReached (n : ℕ) (r : ServiceRun) : Type 0 where
  phase : AllPhase r
  launched : AllOf IsLaunched r.worker_threads
  no_more : get_elem? r.worker_threads n ≡ none

run_service-IsReached :
    (n : ℕ) (schedule : List Turn) (r : ServiceRun)
    → IsReached n r
    → IsReached n (run_service schedule r)
run_service-IsReached n schedule r x = record {
  phase = run_service-AllPhase schedule r x.phase;
  launched = run_service-IsLaunched schedule r x.launched;
  no_more = run_service-no_more n schedule r x.no_more;
}

threads_from-none : (i n : ℕ) → get_elem? (threads_from i n) n ≡ none
unfolding threads_from
threads_from-none i zero = refl
threads_from-none i (suc n) = threads_from-none (suc i) n

start_run-IsReached : (n : ℕ) → IsReached n (start_run n)
unfolding start_run
start_run-IsReached n = record {
  phase = start_run-AllPhase n;
  launched =
      AllOf-pointwise IsLaunched (threads_from 0 n)
        (λ j t h b. let free = (threads_from-IsNew 0 n j t h).free in absurd (cc));
  no_more = threads_from-none 0 n;
}

mains-leave_starts :
    (n : ℕ) (main : MainPoint) (threads : List Thread)
    → IsReached n (record { main = main; worker_threads = threads })
    → IsPast (run_service (mains (suc n)) (record { main = main; worker_threads = threads })).main
mains-leave_starts n (starts i) threads x =
    mains-IsPast n i n threads x.phase x.no_more (omega arith)
mains-leave_starts n (waits i) threads x = mains-stay_IsPast (suc n) _ tt
mains-leave_starts n returned threads x = mains-stay_IsPast (suc n) _ tt
mains-leave_starts n terminated threads x = mains-stay_IsPast (suc n) _ tt

placed-old :
    (main : MainPoint) (j : ℕ) (t : Thread)
    → IsPast main
    → IsPlaced main j t
    → IsLaunched t
    → t.point ≢ not_started
placed-old (starts i) j t past placed launched new = absurd past
placed-old (waits i) j t past placed launched new = elim (dec_lt j i) [
  | yes b ↦ let over = placed.0 b in absurd (cc)
  | no b ↦ absurd (launched (placed.1 (omega (arith, b))) new)
]
placed-old returned j t past placed launched new = absurd (cc)
placed-old terminated j t past placed launched new = absurd placed

-- The steps that are enough: all that `Service::run` may still have to start, two of every thread,
-- and the joins.
abbrev pub finish : ℕ → List Turn
finish n = mains (suc n) ++ (twice_each 0 n ++ mains (suc n))

joins-returned :
    (n : ℕ) (main : MainPoint) (threads : List Thread)
    → IsPast main
    → main ≢ terminated
    → AllOf IsEnded threads
    → get_elem? threads n ≡ none
    → (run_service (mains (suc n)) (record { main = main; worker_threads = threads })).main
      ≡ returned
joins-returned n (starts i) threads past runs over no_more = absurd past
joins-returned n (waits i) threads past runs over no_more =
    mains-returned n i n threads over no_more (omega arith)
joins-returned n returned threads past runs over no_more = returned-stays (suc n) threads
joins-returned n terminated threads past runs over no_more = absurd (runs refl)

finish-returned :
    (n : ℕ) (r : ServiceRun)
    → IsReached n r
    → AllOf IsStopped r.worker_threads
    → (run_service (finish n) r).main ≡ returned
finish-returned n r x stopped =
    let r1 = run_service (mains (suc n)) r in
    let r2 = run_service (twice_each 0 n) r1 in
    let x1 = run_service-IsReached n (mains (suc n)) r x in
    let x2 = run_service-IsReached n (twice_each 0 n) r1 x1 in
    let past : IsPast r1.main = mains-leave_starts n r.main r.worker_threads x in
    let stopped1 = mains-AllStopped (suc n) r stopped in
    let leaving : AllOf IsLeaving r1.worker_threads =
      AllOf-pointwise IsLeaving r1.worker_threads (λ j t h. (
        AllOf-get IsStopped r1.worker_threads j t stopped1 h,
        placed-old r1.main j t past (x1.phase.at j t h).1
            (AllOf-get IsLaunched r1.worker_threads j t x1.launched h),
      )) in
    let (before, same) =
      twice_each-EndedBefore n 0 r1 leaving (λ j t h b. absurd (omega (arith, b))) in
    let over : AllOf IsEnded r2.worker_threads = AllOf-pointwise IsEnded r2.worker_threads (λ j t h.
      before j t h (omega (arith, get_elem?-before r2.worker_threads n j t x2.no_more h))) in
    let ends : (run_service (mains (suc n)) r2).main ≡ returned =
      joins-returned n r2.main r2.worker_threads (subst IsPast (sym same) past) x2.phase.main_runs
        over x2.no_more in
    ap (λ s. s.main)
      (run_service-append (mains (suc n)) (twice_each 0 n ++ mains (suc n)) r
        ∙ run_service-append (twice_each 0 n) (mains (suc n)) r1)
    ∙ ends

-- Service::run is called on a service with n threads; it, the threads it starts and calls of stop
-- take steps in any order, after which stop has been called for every thread. Then, wherever the
-- steps have come to, n + 1 further steps of Service::run, two of every thread, and n + 1 of
-- Service::run again are enough for it to return.
pub stopped-returns :
    (n : ℕ) (schedule : List Turn)
    → ((i : ℕ) (t : Thread)
        → get_elem? (run_service schedule (start_run n)).worker_threads i ≡ some t
        → t.is_stop ≡ true)
    → (run_service (schedule ++ finish n) (start_run n)).main ≡ returned
stopped-returns n schedule stopped =
    let r = run_service schedule (start_run n) in
    ap (λ s. s.main) (run_service-append schedule (finish n) (start_run n))
    ∙ finish-returned n r (run_service-IsReached n schedule (start_run n) (start_run-IsReached n))
        (AllOf-pointwise IsStopped r.worker_threads stopped)
