-- ===== src/Service/Routine/Release.antt =====
-- The end of a routine: a completion is marked as seen, and its operation's reference goes.
use first_server.Common.{
  ℕ, ◌+◌, ◌≤◌, ◌≡◌, refl, ap, ◌⊎◌, inl, inr, List, [], Option, none, some, Bool, false, arith, ℤ,
  pos, get_elem?, set, sum_of, sum_of-set, one, ltb_ℤ, if◌then◌else◌,
}
use first_server.Lockfree.{LockfreeQueue}
use first_server.Net.Uring.{IoUring, Cqe, Waited, fails, ready, Timespec}
use first_server.Service.{IoOperation, Service}
use first_server.Service.Routine.{
  IoCompletion, completion_of, completion_of_wait, null_completion, failed_completion,
  intrusive_ptr_release, on_zero_ref, wait_one, timespec, destroy_completion,
}
use first_server.Service.Routine.Sends.{is_object, queue_weight}
use first_server.Service.Routine.Places.{IsAlive}
use first_server.Service.Routine.Requests.{ring_weight, rings_weight, Requested}

one_self : (n : ℕ) → one n n ≡ 1
one_self n = ground arith

module _ (U : IoUring IoOperation) where
  -- Either nothing has completed, or the completion is the ring's first.
  unfoldable pub IsOfRing : IoCompletion → U.Ring → Type 0
  IsOfRing completion ring =
      ((completion.has_cqe ≡ false) × (completion.completed_operation ≡ none))
      ⊎ ((c : Cqe IoOperation) × (completion ≡ completion_of c) × (U.first_cqe ring ≡ some c))

  of_wait :
      (w : Waited IoOperation) (ring : U.Ring)
      → ((c : Cqe IoOperation) → w ≡ ready c → U.first_cqe ring ≡ some c)
      → IsOfRing (completion_of_wait w) ring
  unfolding IsOfRing completion_of_wait null_completion failed_completion
  of_wait (ready c) ring h = inr (c, refl, h c refl)
  of_wait (fails n) ring h = inl (ground arith, ground arith)

  pub wait_one-IsOfRing :
      (timeout_ms : ℤ) (ring : U.Ring)
      → IsOfRing (wait_one U timeout_ms ring).0 (wait_one U timeout_ms ring).1
  unfolding wait_one
  wait_one-IsOfRing timeout_ms ring =
      let t : Option Timespec =
        if ltb_ℤ timeout_ms (pos 0) then none else some (timespec timeout_ms) in
      of_wait (U.wait_cqe t ring).0 (U.wait_cqe t ring).1 (λ c. U.wait_ready t c ring)

  pub wait_one-outstanding :
      (timeout_ms : ℤ) (ring : U.Ring)
      → U.outstanding (wait_one U timeout_ms ring).1 ≡ U.outstanding ring
  unfolding wait_one
  wait_one-outstanding timeout_ms ring =
      let t : Option Timespec =
        if ltb_ℤ timeout_ms (pos 0) then none else some (timespec timeout_ms) in
      U.wait_outstanding t ring

  module _ (Sessions : LockfreeQueue ℕ) (Operations : LockfreeQueue IoOperation)
      (acquires : ℕ → Bool) where
    abbrev S : Type 0
    S = Service Sessions Operations acquires

    abbrev Alive : (ℕ → ℕ) → S → Type 0
    Alive = IsAlive Sessions Operations acquires

    -- The one reference to the operation of a completion goes, and so does its completion.
    pub release-IsAlive :
        (op : IoOperation) (before after : ℕ → ℕ) (s : S)
        → ((n : ℕ) → after n + is_object n op ≡ before n)
        → Alive before s
        → Alive after (intrusive_ptr_release Sessions Operations acquires op s)
    unfolding intrusive_ptr_release on_zero_ref
    release-IsAlive op before after s gone a =
        let one_left : s.ref_counts op.serial ≡ 1 =
          omega (arith, gone op.serial, one_self op.serial, a.held op.serial, a.once op.serial) in
        rw (one_left, intrusive_ptr_release)
          (record {
            held = λ n. ground (arith, one_left, gone n, a.held n);
            once = λ n. ground (arith, one_left, a.once n);
            fresh = λ n h. ground (arith, one_left, a.fresh n h);
          })

    -- Changing one ring changes what the rings weigh by as much.
    weight_of-set :
        (rings : List U.Ring) (w : ℕ) (old ring : U.Ring) (n : ℕ)
        → get_elem? rings w ≡ some old
        → rings_weight U (set rings w ring) n + ring_weight U (is_object n) old
          ≡ rings_weight U rings n + ring_weight U (is_object n) ring
    weight_of-set rings w old ring n h = sum_of-set (ring_weight U (is_object n)) rings w old ring h

    pub destroy-IsAlive :
        (completion : IoCompletion) (w : ℕ) (ring old : U.Ring) (s : S) (rings : List U.Ring)
        → get_elem? rings w ≡ some old
        → IsOfRing completion ring
        → Alive (rings_weight U (set rings w ring)) s
        → let y = destroy_completion U Sessions Operations acquires completion w ring s rings in
          Alive (rings_weight U y.rings) y.service
    unfolding IsOfRing destroy_completion completion_of
    destroy-IsAlive completion w ring old s rings h (inl (no_cqe, no_op)) a =
        rw (no_cqe, no_op, destroy_completion) a
    destroy-IsAlive completion w ring old s rings h (inr (c, e, first)) a =
        rw (e, destroy_completion)
          (release-IsAlive c.user_data (rings_weight U (set rings w ring))
            (rings_weight U (set rings w (U.cqe_seen ring))) s
            (λ n. omega (
              arith,
              weight_of-set rings w old ring n h,
              weight_of-set rings w old (U.cqe_seen ring) n h,
              U.seen_outstanding c ring first (is_object n),
            ))
            a)

    -- The operations that leave a queue go into the ring.
    pub flushed-IsAlive :
        (s : S) (rings : List U.Ring) (w : ℕ) (q q' : Operations.Queue) (old ring : U.Ring)
        → get_elem? rings w ≡ some old
        → get_elem? s.worker_threads w ≡ some q
        → Operations.contents q' ≡ []
        → ((f : IoOperation → ℕ)
            → ring_weight U f ring ≤ queue_weight Operations f q + ring_weight U f old)
        → Alive (rings_weight U rings) s
        → Alive
            (rings_weight U (set rings w ring))
            (record s { worker_threads = set s.worker_threads w q' })
    flushed-IsAlive s rings w q q' old ring h e empty moved a = record {
      held = λ n. omega (
        arith,
        weight_of-set rings w old ring n h,
        sum_of-set (queue_weight Operations (is_object n)) s.worker_threads w q q' e,
        ap (sum_of (is_object n)) empty,
        moved (is_object n),
        a.held n,
      );
      once = a.once;
      fresh = a.fresh;
    }

    pub same_ring-IsAlive :
        (s : S) (rings : List U.Ring) (w : ℕ) (old ring : U.Ring)
        → get_elem? rings w ≡ some old
        → U.outstanding ring ≡ U.outstanding old
        → Alive (rings_weight U rings) s
        → Alive (rings_weight U (set rings w ring)) s
    same_ring-IsAlive s rings w old ring h same a = record {
      held = λ n.
          omega
            (arith, weight_of-set rings w old ring n h, ap (sum_of (is_object n)) same, a.held n);
      once = a.once;
      fresh = a.fresh;
    }

    pub still_first :
        (completion : IoCompletion) (ops : List IoOperation) (ring ring' : U.Ring)
        → Requested U ops ring ring'
        → IsOfRing completion ring
        → IsOfRing completion ring'
    unfolding IsOfRing
    still_first completion ops ring ring' requested (inl nothing) = inl nothing
    still_first completion ops ring ring' requested (inr (c, e, first)) =
        inr (c, e, requested.first c first)
