-- ===== src/Memory/Threads/Balance.antt =====
-- What each step does with the slots: it moves them, and makes or loses none.
use first_server.Common.{
  ℕ, zero, suc, ◌+◌, ◌*◌, lt→ltb, ◌≤◌, ◌≡◌, refl, ap, sym, List, [], ◌∷◌, ◌++◌, Option, none, some,
  Bool, true, false, if◌then◌else◌, length, length-append, arith, one, count, count-append,
  get_elem?, remove, count-remove, min, ltb, subst, Bool-cases, Option-cases, inl, inr,
}
use first_server.Lockfree.{LockfreeQueue, NeverFails}
use first_server.Memory.Chunk.{get_slot}
use first_server.Memory.Cache.{
  ThreadLocalCache, try_acquire, try_release, extract_batch, add_batch, push_while,
}
use first_server.Memory.Pool.{default_batch_size}
use first_server.Memory.Pool.Count.{in_queue-push, pop_back_lem}
use first_server.Memory.Threads.{
  Point, idle, pops, steals, sets_flag, makes_chunk, pushes_slots, links, counts, clears_flag,
  pops_new, retries, constructs, puts_back, pushes_released, tests_cache, pushes_batch, overruns,
  is_idle, Worker, Turn, begins_acquire, begins_release, goes_on, Shared, begin_acquire,
  begin_release, end_steal, begin_return, pop_step, go_on, begin, turn_step,
}
use first_server.Memory.Threads.Holdings.{IsGood, Moves, worker}

push_while_lem :
    (a max : ℕ) (objects cache : List ℕ)
    → length cache + length objects ≤ max
    → count a (push_while max objects cache) ≡ count a cache + count a objects
unfolding push_while
push_while_lem a max [] cache h = omega arith
push_while_lem a max (o ∷ objects) cache h =
    ground (arith, push_while_lem a max objects (o ∷ cache))

module _ (Q : LockfreeQueue ℕ) (never : NeverFails Q) (sizeof_t chunk_size batch_size : ℕ) where
  abbrev S : Type 0
  S = Shared Q sizeof_t chunk_size batch_size

  begin_acquire-Moves :
      (c : ThreadLocalCache) (s : S)
      → IsGood Q never sizeof_t chunk_size batch_size (worker c idle)
      → Moves Q never sizeof_t chunk_size batch_size
          (worker c idle)
          s
          (begin_acquire Q sizeof_t chunk_size batch_size (worker c idle), s)
  unfolding begin_acquire try_acquire
  begin_acquire-Moves c s g = ((λ a. ground arith), ground arith)

  begin_release-Moves :
      (c : ThreadLocalCache) (s : S) (i o : ℕ)
      → IsGood Q never sizeof_t chunk_size batch_size (worker c idle)
      → get_elem? s.lent i ≡ some o
      → Moves Q never sizeof_t chunk_size batch_size (worker c idle) s (
        begin_release Q sizeof_t chunk_size batch_size o (worker c idle),
        record s { lent = remove i s.lent },
      )
  unfolding begin_release try_release
  begin_release-Moves c s i o g found =
      ((λ a. ground (arith, count-remove a i s.lent)), ground arith)

  end_steal-Moves :
      (c : ThreadLocalCache) (s : S) (n : ℕ) (batch : List ℕ)
      → IsGood Q never sizeof_t chunk_size batch_size (worker c (steals n batch))
      → Moves Q never sizeof_t chunk_size batch_size
          (worker c (steals n batch))
          s
          (end_steal Q sizeof_t chunk_size batch_size batch (worker c (steals n batch)), s)
  unfolding end_steal add_batch
  end_steal-Moves c s n [] g = ((λ a. ground arith), ground arith)
  end_steal-Moves c s n (o ∷ more) g =
      ((λ a. ground (arith, push_while_lem a c.max_cache_size more c.cache)), ground arith)

  begin_return-Moves :
      (c : ThreadLocalCache) (s : S)
      → IsGood Q never sizeof_t chunk_size batch_size (worker c tests_cache)
      → Moves Q never sizeof_t chunk_size batch_size
          (worker c tests_cache)
          s
          (begin_return Q sizeof_t chunk_size batch_size (worker c tests_cache), s)
  unfolding begin_return extract_batch
  begin_return-Moves c s g =
      let n = min (min c.batch_size default_batch_size) (length c.cache) in
      ((λ a. ground (arith, pop_back_lem Q never sizeof_t a n c.cache)), ground arith)

  module _ (fits : batch_size ≤ default_batch_size) where
    -- A pop, by what an empty queue leads to and by what an object does.
    pop_step-Moves :
        (w lost : Worker) (found : ℕ → Worker) (s : S)
        → Moves Q never sizeof_t chunk_size batch_size w s (lost, s)
        → ((o : ℕ) (q : Q.Queue)
            → ((a : ℕ) → count a (Q.contents s.free_queue) ≡ one a o + count a (Q.contents q))
            → Moves Q never sizeof_t chunk_size batch_size w s
                (found o, record s { free_queue = q }))
        → Moves Q never sizeof_t chunk_size batch_size w s
            (pop_step Q sizeof_t chunk_size batch_size found lost s)
    unfolding pop_step
    pop_step-Moves w lost found s empty_handed taken = elim (Q.pop_cases s.free_queue) [
      | inl (empty, popped) ↦
          let e : pop_step Q sizeof_t chunk_size batch_size found lost s ≡ (lost, s) =
            rw (popped, pop_step) refl in
          subst (Moves Q never sizeof_t chunk_size batch_size w s) (sym e) empty_handed
      | inr (o, q, front, popped) ↦
          let e : pop_step Q sizeof_t chunk_size batch_size found lost s
              ≡ (found o, record s { free_queue = q }) =
            rw (popped, pop_step) refl in
          subst (Moves Q never sizeof_t chunk_size batch_size w s) (sym e)
            (taken o q (λ a. ap (count a) front))
    ]

    go_on-Moves :
        (memory : Option ℕ) (constructed : Bool) (p : Point) (c : ThreadLocalCache) (s : S)
        → IsGood Q never sizeof_t chunk_size batch_size (worker c p)
        → Moves Q never sizeof_t chunk_size batch_size
            (worker c p)
            s
            (go_on Q sizeof_t chunk_size batch_size memory constructed p (worker c p) s)
    unfolding go_on get_slot
    go_on-Moves memory constructed idle c s g = ((λ a. omega arith), g)
    go_on-Moves memory constructed pops c s g =
        pop_step-Moves (worker c pops) (worker c (steals batch_size []))
          (λ o. worker c (constructs o)) s ((λ a. omega arith), (g.0, (g.1, omega arith)))
          (λ o q e. ((λ a. omega (arith, e a)), (g.0, tt)))
    go_on-Moves memory constructed (steals zero batch) c s g = end_steal-Moves c s zero batch g
    go_on-Moves memory constructed (steals (suc n) batch) c s g =
        pop_step-Moves (worker c (steals (suc n) batch))
          (end_steal Q sizeof_t chunk_size batch_size batch (worker c (steals (suc n) batch)))
          (λ o. worker c (
            if ltb (length batch) default_batch_size
            then steals n (batch ++ (o ∷ []))
            else overruns))
          s (end_steal-Moves c s (suc n) batch g)
          (λ o q e. rw (lt→ltb (length batch) default_batch_size (omega arith)) (
            (λ a. omega (arith, e a, count-append a batch (o ∷ []))),
            (g.0, (g.1.0, omega (arith, length-append batch (o ∷ [])))),
          ))
    go_on-Moves memory constructed sets_flag c s g = ((λ a. ground arith), ground arith)
    go_on-Moves none constructed makes_chunk c s g = ((λ a. omega arith), ground arith)
    go_on-Moves (some address) constructed makes_chunk c s g = ((λ a. ground arith), ground arith)
    go_on-Moves memory constructed (pushes_slots chunk index zero) c s g =
        ((λ a. omega arith), ground arith)
    go_on-Moves memory constructed (pushes_slots chunk index (suc n)) c s g =
        let slot = chunk.memory + sizeof_t * index in
        ((λ a. ground (arith, in_queue-push Q never sizeof_t a slot s.free_queue)), ground arith)
    go_on-Moves memory constructed (links chunk) c s g = ((λ a. omega arith), ground arith)
    go_on-Moves memory constructed counts c s g = ((λ a. omega arith), ground arith)
    go_on-Moves memory constructed (clears_flag made) c s g = ((λ a. ground arith), ground arith)
    go_on-Moves memory constructed pops_new c s g =
        pop_step-Moves (worker c pops_new) (worker c idle) (λ o. worker c (constructs o)) s
          ((λ a. omega arith), (g.0, tt)) (λ o q e. ((λ a. omega (arith, e a)), (g.0, tt)))
    go_on-Moves memory constructed (retries zero) c s g = ((λ a. omega arith), ground arith)
    go_on-Moves memory constructed (retries (suc n)) c s g =
        pop_step-Moves (worker c (retries (suc n))) (worker c (retries n))
          (λ o. worker c (constructs o)) s ((λ a. omega arith), (g.0, tt))
          (λ o q e. ((λ a. omega (arith, e a)), (g.0, tt)))
    go_on-Moves memory true (constructs o) c s g = ((λ a. omega arith), ground arith)
    go_on-Moves memory false (constructs o) c s g = ((λ a. omega arith), ground arith)
    go_on-Moves memory constructed (puts_back o) c s g =
        ((λ a. omega (arith, in_queue-push Q never sizeof_t a o s.free_queue)), ground arith)
    go_on-Moves memory constructed (pushes_released o) c s g =
        ((λ a. omega (arith, in_queue-push Q never sizeof_t a o s.free_queue)), ground arith)
    go_on-Moves memory constructed tests_cache c s g = begin_return-Moves c s g
    go_on-Moves memory constructed overruns c s g = absurd g.1
    go_on-Moves memory constructed (pushes_batch []) c s g = ((λ a. omega arith), ground arith)
    go_on-Moves memory constructed (pushes_batch (o ∷ batch)) c s g =
        ((λ a. omega (arith, in_queue-push Q never sizeof_t a o s.free_queue)), ground arith)

    begin-Moves :
        (turn : Turn) (c : ThreadLocalCache) (s : S)
        → IsGood Q never sizeof_t chunk_size batch_size (worker c idle)
        → Moves Q never sizeof_t chunk_size batch_size
            (worker c idle)
            s
            (begin Q sizeof_t chunk_size batch_size turn (worker c idle) s)
    unfolding begin
    begin-Moves (goes_on memory constructed) c s g = ((λ a. omega arith), g)
    begin-Moves begins_acquire c s g = begin_acquire-Moves c s g
    begin-Moves (begins_release i) c s g = elim (Option-cases (get_elem? s.lent i)) [
      | inl e ↦
          let same : begin Q sizeof_t chunk_size batch_size (begins_release i) (worker c idle) s
              ≡ (worker c idle, s) =
            rw (e, begin) refl in
          subst (Moves Q never sizeof_t chunk_size batch_size (worker c idle) s) (sym same)
            ((λ a. omega arith), g)
      | inr (o, e) ↦
          let gives : begin Q sizeof_t chunk_size batch_size (begins_release i) (worker c idle) s
              ≡ (
                begin_release Q sizeof_t chunk_size batch_size o (worker c idle),
                record s { lent = remove i s.lent },
              ) =
            rw (e, begin) refl in
          subst (Moves Q never sizeof_t chunk_size batch_size (worker c idle) s) (sym gives)
            (begin_release-Moves c s i o g e)
    ]

    idle_of : (p : Point) → is_idle p ≡ true → p ≡ idle
    idle_of idle h = refl
    idle_of _ h = cc

    if_idle-Moves :
        (turn : Turn) (p : Point) (c : ThreadLocalCache) (s : S)
        → IsGood Q never sizeof_t chunk_size batch_size (worker c p)
        → Moves Q never sizeof_t chunk_size batch_size (worker c p) s (
            if is_idle p
            then begin Q sizeof_t chunk_size batch_size turn (worker c p) s
            else (worker c p, s))
    if_idle-Moves turn p c s g = elim (Bool-cases (is_idle p)) [
      | inl e ↦
          let idles : (x : Point)
              → x ≡ idle
              → IsGood Q never sizeof_t chunk_size batch_size (worker c x)
              → Moves Q never sizeof_t chunk_size batch_size (worker c x) s
                  (begin Q sizeof_t chunk_size batch_size turn (worker c x) s) =
            λ x h.
              subst
                (λ y.
                  IsGood Q never sizeof_t chunk_size batch_size (worker c y)
                  → Moves Q never sizeof_t chunk_size batch_size (worker c y) s
                      (begin Q sizeof_t chunk_size batch_size turn (worker c y) s))
                (sym h) (begin-Moves turn c s) in
          rw e (idles p (idle_of p e) g)
      | inr e ↦ rw e ((λ a. omega arith), g)
    ]

    pub turn_step-Moves :
        (turn : Turn) (p : Point) (c : ThreadLocalCache) (s : S)
        → IsGood Q never sizeof_t chunk_size batch_size (worker c p)
        → Moves Q never sizeof_t chunk_size batch_size
            (worker c p)
            s
            (turn_step Q sizeof_t chunk_size batch_size turn p (worker c p) s)
    unfolding turn_step
    turn_step-Moves (goes_on memory constructed) p c s g = go_on-Moves memory constructed p c s g
    turn_step-Moves begins_acquire p c s g = if_idle-Moves begins_acquire p c s g
    turn_step-Moves (begins_release i) p c s g = if_idle-Moves (begins_release i) p c s g
