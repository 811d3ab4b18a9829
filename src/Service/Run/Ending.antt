-- ===== src/Service/Run/Ending.antt =====
-- The end of threads that have been stopped, and their joins.
use first_server.Common.{
  ℕ, zero, suc, ◌+◌, ◌≤◌, ◌<◌, ◌≡◌, ◌≢◌, refl, ap, sym, ◌∙◌, subst, ◌⊎◌, inl, inr, List, [], ◌∷◌,
  none, some, true, false, arith, get_elem?, set, get_elem?-set_self, get_elem?-set_cases,
  get_elem?-set-none, get_elem?-before, AllOf, AllOf-get, AllOf-set, Option-cases,
}
use first_server.Service.Run.{
  ThreadPoint, not_started, tests, in_routine, ended, Thread, run_step, returns_from_wait, waits,
  returned, ServiceRun, Turn, thread_goes, main_step, change_thread, turn_step, run_service,
}
use first_server.Service.Run.Steps.{change_thread-AllOf}
use first_server.Service.Run.Starting.{mains}

-- A thread that has been started and stopped.
abbrev pub IsLeaving : Thread → Type 0
IsLeaving t = (t.is_stop ≡ true) × (t.point ≢ not_started)

run_step-IsLeaving : (t : Thread) → IsLeaving t → IsLeaving (run_step t)
unfolding run_step
run_step-IsLeaving t (stopped, old) = (ground (arith, stopped), λ new. old (ground (arith, new)))

point_cases :
    (p : ThreadPoint) → (p ≡ not_started) ⊎ ((p ≡ tests) ⊎ ((p ≡ in_routine) ⊎ (p ≡ ended)))
point_cases not_started = inl refl
point_cases tests = inr (inl refl)
point_cases in_routine = inr (inr (inl refl))
point_cases ended = inr (inr (inr refl))

-- It ends after two steps at most.
run_step_twice : (t : Thread) → IsLeaving t → (run_step (run_step t)).point ≡ ended
unfolding run_step
run_step_twice t (stopped, old) = elim (point_cases t.point) [
  | inl new ↦ absurd (old new)
  | inr (inl e) ↦ ground (arith, e, stopped)
  | inr (inr (inl e)) ↦ ground (arith, e, stopped)
  | inr (inr (inr e)) ↦ ground (arith, e, stopped)
]

-- Two steps of every thread, from the place `i` on.
abbrev pub twice_each : ℕ → ℕ → List Turn
twice_each i zero = []
twice_each i (suc m) = thread_goes i ∷ thread_goes i ∷ twice_each (suc i) m

abbrev pub EndedBefore : ℕ → List Thread → Type 0
EndedBefore i threads =
    (j : ℕ) (t : Thread) → get_elem? threads j ≡ some t → j < i → t.point ≡ ended

change_thread-some :
    (f : Thread → Thread) (i : ℕ) (r : ServiceRun) (t : Thread)
    → get_elem? r.worker_threads i ≡ some t
    → change_thread f i r ≡ record r { worker_threads = set r.worker_threads i (f t) }
unfolding change_thread
change_thread-some f i r t e = rw (e, change_thread) refl

change_thread-none :
    (f : Thread → Thread) (i : ℕ) (r : ServiceRun)
    → get_elem? r.worker_threads i ≡ none
    → change_thread f i r ≡ r
unfolding change_thread
change_thread-none f i r e = rw (e, change_thread) refl

two_steps-threads :
    (i : ℕ) (r : ServiceRun) (t : Thread)
    → get_elem? r.worker_threads i ≡ some t
    → change_thread run_step i (change_thread run_step i r) ≡ record r {
      worker_threads = set (set r.worker_threads i (run_step t)) i (run_step (run_step t));
    }
two_steps-threads i r t e =
    let r1 : ServiceRun = record r { worker_threads = set r.worker_threads i (run_step t) } in
    ap (change_thread run_step i) (change_thread-some run_step i r t e)
    ∙ change_thread-some run_step i r1 (run_step t)
        (get_elem?-set_self r.worker_threads i (run_step t) e)

two_steps-EndedBefore :
    (i : ℕ) (r : ServiceRun)
    → AllOf IsLeaving r.worker_threads
    → EndedBefore i r.worker_threads
    → EndedBefore (suc i) (change_thread run_step i (change_thread run_step i r)).worker_threads
two_steps-EndedBefore i r leaving before = elim (Option-cases (get_elem? r.worker_threads i)) [
  | inl e ↦
      let same = change_thread-none run_step i r e in
      subst (λ r'. EndedBefore (suc i) r'.worker_threads)
        (sym (ap (change_thread run_step i) same ∙ same))
        (λ j u h b. before j u h (get_elem?-before r.worker_threads i j u e h))
  | inr (t, e) ↦
      let over = run_step_twice t (AllOf-get IsLeaving r.worker_threads i t leaving e) in
      let once = set r.worker_threads i (run_step t) in
      let again = get_elem?-set_self r.worker_threads i (run_step t) e in
      rw (two_steps-threads i r t e) (λ j u h b.
        elim (get_elem?-set_cases once i j (run_step (run_step t)) u again h) [
          | inl (same, new) ↦ rw (sym new) over
          | inr (other, old) ↦
              elim (get_elem?-set_cases r.worker_threads i j (run_step t) u e old) [
                | inl (same, new) ↦ absurd (other same)
                | inr (other', there) ↦ before j u there (omega (arith, b, other))
              ]
        ])
]

change_thread-main :
    (f : Thread → Thread) (i : ℕ) (r : ServiceRun) → (change_thread f i r).main ≡ r.main
unfolding change_thread
change_thread-main f i r = ground arith

pub twice_each-EndedBefore :
    (m i : ℕ) (r : ServiceRun)
    → AllOf IsLeaving r.worker_threads
    → EndedBefore i r.worker_threads
    → EndedBefore (i + m) (run_service (twice_each i m) r).worker_threads
      × ((run_service (twice_each i m) r).main ≡ r.main)
unfolding run_service turn_step
twice_each-EndedBefore zero i r leaving before =
    ((λ j u h b. before j u h (omega (arith, b))), refl)
twice_each-EndedBefore (suc m) i r leaving before =
    let r1 = change_thread run_step i r in
    let r2 = change_thread run_step i r1 in
    let leaving1 = change_thread-AllOf IsLeaving run_step i r run_step-IsLeaving leaving in
    let leaving2 = change_thread-AllOf IsLeaving run_step i r1 run_step-IsLeaving leaving1 in
    let (later, same) =
      twice_each-EndedBefore m (suc i) r2 leaving2 (two_steps-EndedBefore i r leaving before) in
    (
      (λ j u h b. later j u h (omega (arith, b))),
      same ∙ (change_thread-main run_step i r1 ∙ change_thread-main run_step i r),
    )

abbrev pub IsEnded : Thread → Type 0
IsEnded t = t.point ≡ ended

ended-returns : (t : Thread) → IsEnded t → returns_from_wait t ≡ true
unfolding returns_from_wait
ended-returns t e = ground (arith, e)

pub returned-stays :
    (k : ℕ) (threads : List Thread)
    → (run_service (mains k) (record { main = returned; worker_threads = threads })).main ≡ returned
unfolding run_service turn_step main_step
returned-stays zero threads = refl
returned-stays (suc k) threads = returned-stays k threads

joins-cases :
    (i : ℕ) (threads : List Thread)
    → AllOf IsEnded threads
    → let r' = main_step (record { main = waits i; worker_threads = threads }) in
      (r' ≡ record { main = returned; worker_threads = threads })
      ⊎ ((t : Thread) × (get_elem? threads i ≡ some t)
          × (r' ≡ record {
            main = waits (suc i);
            worker_threads = set threads i (record t { joinable = false });
          }))
unfolding main_step
joins-cases i threads over = elim (Option-cases (get_elem? threads i)) [
  | inl e ↦ inl (rw (e, main_step) refl)
  | inr (t, e) ↦
      let joins = ended-returns t (AllOf-get IsEnded threads i t over e) in
      inr (t, e, rw (e, main_step) (rw (joins, main_step) refl))
]

-- The joins of threads that have ended.
pub mains-returned :
    (k i n : ℕ) (threads : List Thread)
    → AllOf IsEnded threads
    → get_elem? threads n ≡ none
    → n ≤ i + k
    → (run_service (mains (suc k)) (record { main = waits i; worker_threads = threads })).main
      ≡ returned
unfolding run_service turn_step
mains-returned zero i n threads over none_at h = elim (joins-cases i threads over) [
  | inl e ↦ rw e refl
  | inr (t, found, e) ↦ absurd (omega (arith, get_elem?-before threads n i t none_at found, h))
]
mains-returned (suc k) i n threads over none_at h = elim (joins-cases i threads over) [
  | inl e ↦
      subst (λ r. (run_service (mains (suc k)) r).main ≡ returned) (sym e)
        (returned-stays (suc k) threads)
  | inr (t, found, e) ↦
      subst (λ r. (run_service (mains (suc k)) r).main ≡ returned) (sym e)
        (mains-returned k (suc i) n (set threads i (record t { joinable = false }))
          (AllOf-set IsEnded threads i (record t { joinable = false }) over
            (AllOf-get IsEnded threads i t over found))
          (get_elem?-set-none threads i n _ none_at) (omega (arith, h)))
]
