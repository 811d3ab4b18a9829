-- ===== src/Memory/Pool/Client.antt =====
-- A pool and the objects that it has handed out, over any sequence of acquires and releases.
use first_server.Common.{
  remove, count-remove, count_option, ℕ, ◌+◌, ◌≡◌, refl, List, [], ◌∷◌, Option, none, some, Bool,
  arith, count, get_elem?,
}
use first_server.Lockfree.{LockfreeQueue, NeverFails}
use first_server.Memory.Pool.{ObjectPool, acquire, release}
use first_server.Memory.Pool.Count.{owned, held, acquire_lem, release_lem}

-- One call: an `acquire`, with what `operator new` gives and whether the constructor returns, or a
-- `release` of the object at a place of the list of those that are out.
pub data Action : Type 0 where
  acquires : Option ℕ → Bool → Action
  releases : ℕ → Action

abbrev add_object : Option ℕ → List ℕ → List ℕ
add_object none lent = lent
add_object (some o) lent = o ∷ lent

count-add_object :
    (a : ℕ) (obj : Option ℕ) (lent : List ℕ)
    → count a (add_object obj lent) ≡ count_option a obj + count a lent
count-add_object a none lent = omega arith
count-add_object a (some o) lent = refl

module _ (Q : LockfreeQueue ℕ) (sizeof_t : ℕ) where
  pub record System : Type 0 where
    pub pool : ObjectPool Q sizeof_t
    pub lent : List ℕ

  -- `none`: a fault in the pool
  unfoldable pub step : Action → System → Option System
  step (acquires memory constructed) s = elim (acquire Q sizeof_t memory constructed s.pool) [
    | none ↦ none
    | some (obj, p) ↦ some (record { pool = p; lent = add_object obj s.lent })
  ]
  step (releases i) s =
      some
        (record { pool = release Q sizeof_t (get_elem? s.lent i) s.pool; lent = remove i s.lent })

  unfoldable pub run : List Action → System → Option System
  run [] s = some s
  run (action ∷ actions) s = elim (step action s) [ none ↦ none | some s' ↦ run actions s' ]

  module _ (never_fails : NeverFails Q) where
    -- Every slot of the chunks is at one place: free, or out.
    abbrev pub IsWhole : System → Type 0
    IsWhole s =
        (a : ℕ)
        → held Q never_fails sizeof_t a s.pool + count a s.lent
          ≡ owned Q never_fails sizeof_t a s.pool

    pub step-IsWhole :
        (action : Action) (s : System)
        → IsWhole s
        → (s' : System) × (step action s ≡ some s') × IsWhole s'
    unfolding step
    step-IsWhole (acquires memory constructed) s w =
        let (obj, p, ends, moved) = acquire_lem Q never_fails sizeof_t memory constructed s.pool in
        (
          record { pool = p; lent = add_object obj s.lent },
          rw (ends, step),
          λ a. omega (arith, w a, moved a, count-add_object a obj s.lent),
        )
    step-IsWhole (releases i) s w = (
      record { pool = release Q sizeof_t (get_elem? s.lent i) s.pool; lent = remove i s.lent },
      refl,
      λ a.
          let (same, moved) = release_lem Q never_fails sizeof_t a (get_elem? s.lent i) s.pool in
          ground (arith, w a, moved, same, count-remove a i s.lent),
    )

    -- If the free queue's push never fails and, counting any address, the free slots and the
    -- objects that are out are the slots of the pool's chunks, then no sequence of acquires and
    -- releases of objects that are out faults, and afterwards the counts agree again. So where
    -- chunks do not overlap, no slot is handed out twice, handed out while it is free, or lost.
    pub run-IsWhole :
        (actions : List Action) (s : System)
        → IsWhole s
        → (s' : System) × (run actions s ≡ some s') × IsWhole s'
    unfolding run
    run-IsWhole [] s w = (s, refl, w)
    run-IsWhole (action ∷ actions) s w =
        let (s', ends, w') = step-IsWhole action s w in
        let (s3, ends3, w3) = run-IsWhole actions s' w' in (s3, rw (ends, run) ends3, w3)
