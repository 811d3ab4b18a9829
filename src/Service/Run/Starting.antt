-- ===== src/Service/Run/Starting.antt =====
-- The start of the threads: `Service::run` gets past its first loop.
use first_server.Common.{
  ℕ, zero, suc, ◌+◌, ◌≤◌, ◌≡◌, refl, sym, subst, ◌⊎◌, inl, inr, List, none, some, true, arith,
  get_elem?, set, get_elem?-set-none, get_elem?-before, AllOf, Option-cases, Bool-cases, replicate,
}
use first_server.Service.Run.{
  tests, Thread, start, returns_from_wait, MainPoint, starts, waits, returned, terminated,
  ServiceRun, Turn, main_goes, main_step, turn_step, run_service,
}
use first_server.Service.Run.Laws.{AllPhase, main_step-AllPhase}
use first_server.Service.Run.Steps.{main_step-AllOf, IsStopped}

-- Steps of `Service::run` only.
abbrev pub mains : ℕ → List Turn
mains n = replicate n main_goes

abbrev pub IsPast : MainPoint → Type 0
IsPast (starts i) = ⊥
IsPast (waits i) = Unit
IsPast returned = Unit
IsPast terminated = Unit

main_step-IsPast :
    (main : MainPoint) (threads : List Thread)
    → IsPast main
    → IsPast (main_step (record { main = main; worker_threads = threads })).main
unfolding main_step
main_step-IsPast (starts i) threads past = absurd past
main_step-IsPast returned threads past = tt
main_step-IsPast terminated threads past = tt
main_step-IsPast (waits i) threads past = elim (Option-cases (get_elem? threads i)) [
  | inl e ↦ rw (e, main_step) tt
  | inr (t, e) ↦ elim (Bool-cases (returns_from_wait t)) [
    | inl b ↦ rw (e, main_step) (rw (b, main_step) tt)
    | inr b ↦ rw (e, main_step) (rw (b, main_step) tt)
  ]
]

pub mains-stay_IsPast :
    (k : ℕ) (r : ServiceRun) → IsPast r.main → IsPast (run_service (mains k) r).main
unfolding run_service turn_step
mains-stay_IsPast zero r past = past
mains-stay_IsPast (suc k) r past =
    mains-stay_IsPast k (main_step r) (main_step-IsPast r.main r.worker_threads past)

-- A step that starts threads, or has started them.
starts-cases :
    (i : ℕ) (threads : List Thread)
    → AllPhase (record { main = starts i; worker_threads = threads })
    → let r' = main_step (record { main = starts i; worker_threads = threads }) in
      (r' ≡ record { main = waits 0; worker_threads = threads })
      ⊎ ((t : Thread) × (get_elem? threads i ≡ some t)
          × (r' ≡ record {
            main = starts (suc i);
            worker_threads = set threads i (record t { joinable = true; point = tests });
          }))
unfolding main_step start
starts-cases i threads a = elim (Option-cases (get_elem? threads i)) [
  | inl e ↦ inl (rw (e, main_step) refl)
  | inr (t, e) ↦
      let free = (a.at i t e).1.1 (omega arith) in
      inr (t, e, rw (e, main_step) (rw (free, main_step) refl))
]

pub mains-IsPast :
    (k i n : ℕ) (threads : List Thread)
    → AllPhase (record { main = starts i; worker_threads = threads })
    → get_elem? threads n ≡ none
    → n ≤ i + k
    → IsPast
        (run_service (mains (suc k)) (record { main = starts i; worker_threads = threads })).main
unfolding run_service turn_step
mains-IsPast zero i n threads a none_at h = elim (starts-cases i threads a) [
  | inl e ↦ rw e tt
  | inr (t, found, e) ↦ absurd (omega (arith, get_elem?-before threads n i t none_at found, h))
]
mains-IsPast (suc k) i n threads a none_at h = elim (starts-cases i threads a) [
  | inl e ↦
      subst (λ r. IsPast (run_service (mains (suc k)) r).main) (sym e)
        (mains-stay_IsPast (suc k) (record { main = waits 0; worker_threads = threads }) tt)
  | inr (t, found, e) ↦
      let threads' = set threads i (record t { joinable = true; point = tests }) in
      subst (λ r. IsPast (run_service (mains (suc k)) r).main) (sym e)
        (mains-IsPast k (suc i) n threads'
          (subst AllPhase e (main_step-AllPhase (starts i) threads a))
          (get_elem?-set-none threads i n _ none_at) (omega (arith, h)))
]

pub mains-AllStopped :
    (k : ℕ) (r : ServiceRun)
    → AllOf IsStopped r.worker_threads
    → AllOf IsStopped (run_service (mains k) r).worker_threads
unfolding run_service turn_step
mains-AllStopped zero r all = all
mains-AllStopped (suc k) r all =
    mains-AllStopped k (main_step r)
      (main_step-AllOf IsStopped (λ t h. h) (λ t h. h) r.main r.worker_threads all)
