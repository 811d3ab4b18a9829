-- ===== src/Memory/Pool/Overrun.antt =====
-- `batch_steal_from_central` fills a local array of `default_batch_size` places, and takes
-- `batch_size` rounds, which the pool's configuration sets.
use first_server.Common.{
  ℕ, zero, suc, ◌+◌, ◌≤◌, ◌<◌, ◌≡◌, refl, ap, inl, inr, List, [], ◌∷◌, ◌++◌, none, some, arith,
  length, length-append, le→ltb, lt→ltb, dec_lt, ◌≢◌,
}
use first_server.Lockfree.{LockfreeQueue}
use first_server.Memory.Pool.{ObjectPool, default_batch_size, steal, batch_steal_from_central}

module _ (Q : LockfreeQueue ℕ) (sizeof_t : ℕ) where
  open Q use {Queue, contents, pop, pop_cases}

  steal_fits :
      (rounds : ℕ) (batch : List ℕ) (q : Queue)
      → length batch + rounds ≤ default_batch_size
      → (batch' : List ℕ) × (q' : Queue) × (steal Q sizeof_t rounds batch q ≡ some (batch', q'))
  unfolding steal
  steal_fits zero batch q h = (batch, q, refl)
  steal_fits (suc rounds) batch q h = elim (pop_cases q) [
    | inl (_, e) ↦ (batch, q, rw (e, steal))
    | inr (o, q', _, e) ↦
        let (batch', q3, ends) =
          steal_fits rounds (batch ++ (o ∷ [])) q' (omega (arith, length-append batch (o ∷ []))) in
        (batch', q3, rw (e, steal, lt→ltb (length batch) default_batch_size (omega arith)) ends)
  ]

  steal_overruns :
      (rounds : ℕ) (batch : List ℕ) (q : Queue)
      → length batch ≤ default_batch_size
      → default_batch_size < length batch + rounds
      → default_batch_size < length batch + length (contents q)
      → steal Q sizeof_t rounds batch q ≡ none
  unfolding steal
  steal_overruns zero batch q small over full = absurd (omega arith)
  steal_overruns (suc rounds) batch q small over full = elim (pop_cases q) [
    | inl (empty, e) ↦ absurd (omega (arith, ap length empty))
    | inr (o, q', front, e) ↦
        rw (e, steal)
          (elim (dec_lt (length batch) default_batch_size) [
            | yes room ↦ rw (lt→ltb (length batch) default_batch_size room) (
                steal_overruns rounds (batch ++ (o ∷ [])) q'
                  (omega (arith, length-append batch (o ∷ [])))
                  (omega (arith, length-append batch (o ∷ [])))
                  (omega (arith, length-append batch (o ∷ []), ap length front)))
            | no none_left ↦ rw (le→ltb (length batch) default_batch_size (omega arith))
          ])
  ]

  -- In a pool whose batch size is at most 16, `batch_steal_from_central` never writes past its
  -- local array.
  pub batch_steal_fits :
      (p : ObjectPool Q sizeof_t)
      → p.batch_size ≤ default_batch_size
      → batch_steal_from_central Q sizeof_t p ≢ none
  unfolding batch_steal_from_central
  batch_steal_fits p h e =
      let (batch, q, ends) = steal_fits p.batch_size [] p.free_queue (omega arith) in
      ground (arith, ends)

  -- In a pool whose batch size is above 16, `batch_steal_from_central` writes past its local array
  -- whenever the free queue has more than 16 slots.
  pub batch_steal_overruns :
      (p : ObjectPool Q sizeof_t)
      → default_batch_size < p.batch_size
      → default_batch_size < length (contents p.free_queue)
      → batch_steal_from_central Q sizeof_t p ≡ none
  unfolding batch_steal_from_central
  batch_steal_overruns p large full = rw (
    steal_overruns p.batch_size [] p.free_queue (omega arith) (omega arith) (omega arith),
    batch_steal_from_central,
  )
