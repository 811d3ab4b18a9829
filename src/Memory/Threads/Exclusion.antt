-- ===== src/Memory/Threads/Exclusion.antt =====
-- The `allocating_` flag, over any schedule of the threads.
use first_server.Common.{
  ℕ, zero, suc, ◌+◌, ◌≤◌, ◌≡◌, refl, ap, sym, List, [], ◌∷◌, Option, none, some, Bool, true, false,
  arith, get_elem?, sum_of, sum_of-set, Option-cases, inl, inr, subst,
}
use first_server.Lockfree.{LockfreeQueue}
use first_server.Memory.Threads.{
  Point, idle, pops, steals, sets_flag, makes_chunk, pushes_slots, links, counts, clears_flag,
  pops_new, retries, constructs, puts_back, pushes_released, tests_cache, pushes_batch, overruns,
  is_idle, Worker, Turn, begins_acquire, begins_release, goes_on, Shared, Threads, begin_acquire,
  begin_release, end_steal, begin_return, pop_step, go_on, begin, turn_step, thread_step,
  run_threads,
}

-- Whether a thread has set the flag and not cleared it.
abbrev pub holds_flag : Point → ℕ
holds_flag makes_chunk = 1
holds_flag (pushes_slots chunk index n) = 1
holds_flag (links chunk) = 1
holds_flag counts = 1
holds_flag (clears_flag made) = 1
holds_flag idle = 0
holds_flag pops = 0
holds_flag (steals n batch) = 0
holds_flag sets_flag = 0
holds_flag pops_new = 0
holds_flag (retries n) = 0
holds_flag (constructs o) = 0
holds_flag (puts_back o) = 0
holds_flag (pushes_released o) = 0
holds_flag tests_cache = 0
holds_flag (pushes_batch batch) = 0
holds_flag overruns = 0

abbrev pub flag : Bool → ℕ
flag true = 1
flag false = 0

abbrev pub worker_flag : Worker → ℕ
worker_flag w = holds_flag w.point

module _ (Q : LockfreeQueue ℕ) (sizeof_t chunk_size batch_size : ℕ) where
  abbrev S : Type 0
  S = Shared Q sizeof_t chunk_size batch_size

  -- A step changes the flag as it changes the threads that hold it.
  abbrev Hands : Point → S → Worker × S → Type 0
  Hands p s r = flag r.1.allocating + holds_flag p ≡ flag s.allocating + worker_flag r.0

  pop_step-Hands :
      (p : Point) (found : ℕ → Worker) (lost : Worker) (s : S)
      → holds_flag p ≡ 0
      → ((o : ℕ) → worker_flag (found o) ≡ 0)
      → worker_flag lost ≡ 0
      → Hands p s (pop_step Q sizeof_t chunk_size batch_size found lost s)
  unfolding pop_step
  pop_step-Hands p found lost s h f l = elim (Q.pop_cases s.free_queue) [
    | inl (empty, popped) ↦
        let e : pop_step Q sizeof_t chunk_size batch_size found lost s ≡ (lost, s) =
          rw (popped, pop_step) refl in
        subst (Hands p s) (sym e) (omega arith)
    | inr (o, q, front, popped) ↦
        let e : pop_step Q sizeof_t chunk_size batch_size found lost s
            ≡ (found o, record s { free_queue = q }) =
          rw (popped, pop_step) refl in
        subst (Hands p s) (sym e) (omega (arith, f o))
  ]

  end_steal-flag :
      (batch : List ℕ) (w : Worker)
      → worker_flag (end_steal Q sizeof_t chunk_size batch_size batch w) ≡ 0
  unfolding end_steal
  end_steal-flag [] w = refl
  end_steal-flag (o ∷ more) w = refl

  go_on-Hands :
      (memory : Option ℕ) (constructed : Bool) (p : Point) (w : Worker) (s : S)
      → w.point ≡ p
      → holds_flag p ≤ flag s.allocating
      → Hands p s (go_on Q sizeof_t chunk_size batch_size memory constructed p w s)
  unfolding go_on begin_return
  go_on-Hands memory constructed idle w s e h = omega (arith, ap holds_flag e)
  go_on-Hands memory constructed pops w s e h = pop_step-Hands pops _ _ s refl (λ o. refl) refl
  go_on-Hands memory constructed (steals zero batch) w s e h = omega (arith, end_steal-flag batch w)
  go_on-Hands memory constructed (steals (suc n) batch) w s e h =
      pop_step-Hands (steals (suc n) batch) _ _ s refl (λ o. ground arith) (end_steal-flag batch w)
  go_on-Hands memory constructed sets_flag w s e h = ground arith
  go_on-Hands none constructed makes_chunk w s e h = omega arith
  go_on-Hands (some address) constructed makes_chunk w s e h = omega arith
  go_on-Hands memory constructed (pushes_slots chunk index zero) w s e h = omega arith
  go_on-Hands memory constructed (pushes_slots chunk index (suc n)) w s e h = ground arith
  go_on-Hands memory constructed (links chunk) w s e h = omega arith
  go_on-Hands memory constructed counts w s e h = omega arith
  go_on-Hands memory constructed (clears_flag made) w s e h = ground arith
  go_on-Hands memory constructed pops_new w s e h =
      pop_step-Hands pops_new _ _ s refl (λ o. refl) refl
  go_on-Hands memory constructed (retries zero) w s e h = omega arith
  go_on-Hands memory constructed (retries (suc n)) w s e h =
      pop_step-Hands (retries (suc n)) _ _ s refl (λ o. refl) refl
  go_on-Hands memory true (constructs o) w s e h = omega arith
  go_on-Hands memory false (constructs o) w s e h = omega arith
  go_on-Hands memory constructed (puts_back o) w s e h = omega arith
  go_on-Hands memory constructed (pushes_released o) w s e h = omega arith
  go_on-Hands memory constructed tests_cache w s e h = ground arith
  go_on-Hands memory constructed overruns w s e h = omega (arith, ap holds_flag e)
  go_on-Hands memory constructed (pushes_batch []) w s e h = omega arith
  go_on-Hands memory constructed (pushes_batch (o ∷ batch)) w s e h = omega arith

  idle-flag : (p : Point) → is_idle p ≡ true → holds_flag p ≡ 0
  idle-flag idle h = refl
  idle-flag _ h = cc

  turn_step-Hands :
      (turn : Turn) (w : Worker) (s : S)
      → holds_flag w.point ≤ flag s.allocating
      → Hands w.point s (turn_step Q sizeof_t chunk_size batch_size turn w.point w s)
  unfolding turn_step begin begin_acquire begin_release
  turn_step-Hands (goes_on memory constructed) w s h =
      go_on-Hands memory constructed w.point w s refl h
  turn_step-Hands begins_acquire w s h = ground (arith, idle-flag w.point)
  turn_step-Hands (begins_release i) w s h = ground (arith, idle-flag w.point)

  -- The flag is set exactly while one thread is in `allocate_chunk`.
  abbrev pub IsExclusive : Threads Q sizeof_t chunk_size batch_size → Type 0
  IsExclusive t = sum_of worker_flag t.workers ≡ flag t.shared.allocating

  flag-le-sum :
      (ws : List Worker) (i : ℕ) (w : Worker)
      → get_elem? ws i ≡ some w
      → worker_flag w ≤ sum_of worker_flag ws
  flag-le-sum [] i w h = absurd (cc)
  flag-le-sum (x ∷ ws) zero w h = let e : x ≡ w = cc in rw e (omega arith)
  flag-le-sum (x ∷ ws) (suc i) w h = omega (arith, flag-le-sum ws i w h)

  thread_step-IsExclusive :
      (i : ℕ) (turn : Turn) (t : Threads Q sizeof_t chunk_size batch_size)
      → IsExclusive t
      → IsExclusive (thread_step Q sizeof_t chunk_size batch_size i turn t)
  unfolding thread_step
  thread_step-IsExclusive i turn t x = elim (Option-cases (get_elem? t.workers i)) [
    | inl e ↦ rw (e, thread_step) x
    | inr (w, e) ↦
        let (w', s) = turn_step Q sizeof_t chunk_size batch_size turn w.point w t.shared in
        rw (e, thread_step)
          (omega (
            arith,
            x,
            turn_step-Hands turn w t.shared (omega (arith, flag-le-sum t.workers i w e)),
            sum_of-set worker_flag t.workers i w w' e,
          ))
  ]

  -- If the `allocating_` flag is set exactly while one thread is between setting and clearing it
  -- in `allocate_chunk`, and no more than one thread is there, then this is so after any schedule
  -- of the threads' steps.
  pub run_threads-IsExclusive :
      (schedule : List (ℕ × Turn)) (t : Threads Q sizeof_t chunk_size batch_size)
      → IsExclusive t
      → IsExclusive (run_threads Q sizeof_t chunk_size batch_size schedule t)
  unfolding run_threads
  run_threads-IsExclusive [] t x = x
  run_threads-IsExclusive ((i, turn) ∷ schedule) t x =
      run_threads-IsExclusive schedule (thread_step Q sizeof_t chunk_size batch_size i turn t)
        (thread_step-IsExclusive i turn t x)
