-- ===== src/Service/Routine/Requests.antt =====
-- What the flush of a queue makes of a ring.
use first_server.Common.{
  ℕ, ◌+◌, ◌≤◌, ◌≡◌, refl, sym, ap, ◌∙◌, subst, ◌⊎◌, inl, inr, List, [], ◌∷◌, ◌++◌, Option, none,
  some, false, arith, get_elem?, sum_of, sum_of-append, Option-cases, Bool-cases,
}
use first_server.Lockfree.{LockfreeQueue}
use first_server.Net.Object.{IoUringObject}
use first_server.Net.Uring.{IoUring, Prepared, Cqe}
use first_server.Session.Connection.{
  ServiceSession, Request, io_recv, io_send_buffer, io_accept, io_close, accept_one, session_closed,
}
use first_server.Service.{IoOperation}
use first_server.Service.RequestQueue.{request_all, submit_if_any}
use first_server.Service.Routine.{with_sqe, map_ring, request_on, request_io_on}
use first_server.Service.Routine.Sends.{is_object}

module _ (U : IoUring IoOperation) where
  abbrev pub ring_weight : (IoOperation → ℕ) → U.Ring → ℕ
  ring_weight f ring = sum_of f (U.outstanding ring)

  abbrev pub rings_weight : List U.Ring → ℕ → ℕ
  rings_weight rings n = sum_of (ring_weight (is_object n)) rings

  -- `ring'` has got no more than the operations `ops`, and has its first completion still.
  pub record Requested (ops : List IoOperation) (ring ring' : U.Ring) : Type 0 where
    pub weight : (f : IoOperation → ℕ) → ring_weight f ring' ≤ sum_of f ops + ring_weight f ring
    pub first : (c : Cqe IoOperation) → U.first_cqe ring ≡ some c → U.first_cqe ring' ≡ some c

  then_Requested :
      (ops more : List IoOperation) (a b c : U.Ring)
      → Requested ops a b
      → Requested more b c
      → Requested (ops ++ more) a c
  then_Requested ops more a b c x y = record {
    weight = λ f. omega (arith, x.weight f, y.weight f, sum_of-append f ops more);
    first = λ cqe h. y.first cqe (x.first cqe h);
  }

  with_sqe-Requested :
      (p : Prepared) (op : IoOperation) (ring ring' : U.Ring)
      → with_sqe U p op ring ≡ some ring'
      → Requested (op ∷ []) ring ring'
  unfolding with_sqe
  with_sqe-Requested p op ring ring' h = elim (Bool-cases (U.has_sqe ring)) [
    | inl e ↦
        let same : U.prepare p op ring ≡ ring' = ground (arith, e) in
        subst (Requested (op ∷ []) ring) same (record {
          weight = λ f. omega (
            arith,
            ap (sum_of f) (U.prepare_outstanding p op ring),
            sum_of-append f (U.outstanding ring) (op ∷ []),
          );
          first = λ c. U.prepare_first c p op ring;
        })
    | inr e ↦ absurd (ground (arith, e))
  ]

  submit-Requested :
      (ops : List IoOperation) (ring ring' : U.Ring)
      → Requested ops ring ring'
      → Requested ops ring (U.submit ring')
  submit-Requested ops ring ring' r = record {
    weight = λ f. omega (arith, r.weight f, ap (sum_of f) (U.submit_outstanding ring'));
    first = λ c h. U.submit_first c ring' (r.first c h);
  }

  unchanged-Requested :
      (ops : List IoOperation) (ring ring' : U.Ring)
      → some ring ≡ some ring'
      → Requested ops ring ring'
  unchanged-Requested ops ring ring' h =
      let e : ring ≡ ring' = cc in
      subst (Requested ops ring) e (record { weight = λ f. omega arith; first = λ c h. h })

  map_submit-Requested :
      (ops : List IoOperation) (ring : U.Ring) (o : Option U.Ring)
      → ((ring' : U.Ring) → o ≡ some ring' → Requested ops ring ring')
      → (ring' : U.Ring) → map_ring U U.submit o ≡ some ring'
      → Requested ops ring ring'
  map_submit-Requested ops ring none later ring' h = absurd (cc)
  map_submit-Requested ops ring (some r) later ring' h =
      let e : U.submit r ≡ ring' = cc in
      subst (Requested ops ring) e (submit-Requested ops ring r (later r refl))

  request_on-Requested :
      (r : Request) (op : IoOperation) (object : IoUringObject) (ring ring' : U.Ring)
      → request_on U r op object ring ≡ some ring'
      → Requested (op ∷ []) ring ring'
  unfolding request_on
  request_on-Requested (io_recv span) op object ring ring' h = with_sqe-Requested _ op ring ring' h
  request_on-Requested (io_send_buffer b) op object ring ring' h =
      with_sqe-Requested _ op ring ring' h
  request_on-Requested (io_accept fd) op object ring ring' h = with_sqe-Requested _ op ring ring' h
  request_on-Requested io_close op object ring ring' h =
      map_submit-Requested (op ∷ []) ring _ (λ r. with_sqe-Requested _ op ring r) ring' h
  request_on-Requested accept_one op object ring ring' h =
      unchanged-Requested (op ∷ []) ring ring' h
  request_on-Requested session_closed op object ring ring' h =
      unchanged-Requested (op ∷ []) ring ring' h

  pub request_io_on-Requested :
      (sessions : List ServiceSession) (op : IoOperation) (ring ring' : U.Ring)
      → request_io_on U sessions op (some ring) ≡ some ring'
      → Requested (op ∷ []) ring ring'
  unfolding request_io_on
  request_io_on-Requested sessions op ring ring' h =
      elim (Option-cases (get_elem? sessions op.session)) [
        | inl e ↦ unchanged-Requested (op ∷ []) ring ring' (ground (arith, e))
        | inr (session, e) ↦
            request_on-Requested op.kind op session.object ring ring' (ground (arith, e))
      ]

  -- There is a ring without a free entry.
  abbrev pub IsFull : Type 0
  IsFull = (ring : U.Ring) × (U.has_sqe ring ≡ false)

  module _ (Operations : LockfreeQueue IoOperation) (sessions : List ServiceSession) where
    abbrev requests : List IoOperation → Option U.Ring → Option U.Ring
    requests ops ring =
        request_all Operations (request_io_on U sessions) (map_ring U U.submit) ops ring

    requests-none : (ops : List IoOperation) → requests ops none ≡ none
    unfolding request_io_on
    requests-none [] = refl
    requests-none (op ∷ ops) = requests-none ops

    requests-Requested :
        (ops : List IoOperation) (ring ring' : U.Ring)
        → requests ops (some ring) ≡ some ring'
        → Requested ops ring ring'
    requests-Requested [] ring ring' h = unchanged-Requested [] ring ring' h
    requests-Requested (op ∷ ops) ring ring' h =
        elim (Option-cases (request_io_on U sessions op (some ring))) [
          | inl e ↦
              let stopped : requests ops none ≡ some ring' =
                subst (λ o. requests ops o ≡ some ring') e h in
              let never = requests-none ops in absurd (cc)
          | inr (ring1, e) ↦
              then_Requested (op ∷ []) ops ring ring1 ring'
                (request_io_on-Requested sessions op ring ring1 e)
                (requests-Requested ops ring1 ring' (subst (λ o. requests ops o ≡ some ring') e h))
        ]

    pub submit-requests :
        (ops : List IoOperation) (ring ring' : U.Ring)
        → submit_if_any Operations (request_io_on U sessions) (map_ring U U.submit) ops (some ring)
          ≡ some ring'
        → Requested ops ring ring'
    submit-requests [] ring ring' h = unchanged-Requested [] ring ring' h
    submit-requests (op ∷ ops) ring ring' h =
        map_submit-Requested (op ∷ ops) ring (requests (op ∷ ops) (some ring))
          (requests-Requested (op ∷ ops) ring) ring' h

    -- What a request makes of a ring, or a null pointer that is written through.
    abbrev pub RingResult : Option U.Ring → Type 0
    RingResult result = ((result ≡ none) × IsFull) ⊎ ((ring' : U.Ring) × (result ≡ some ring'))

    with_sqe-cases :
        (p : Prepared) (op : IoOperation) (ring : U.Ring) → RingResult (with_sqe U p op ring)
    unfolding with_sqe
    with_sqe-cases p op ring = elim (Bool-cases (U.has_sqe ring)) [
      | inl e ↦ rw e (inr (U.prepare p op ring, refl))
      | inr e ↦ inl (ground (arith, e), (ring, e))
    ]

    map_submit-cases : (o : Option U.Ring) → RingResult o → RingResult (map_ring U U.submit o)
    map_submit-cases o (inl (e, full)) = rw e (inl (refl, full))
    map_submit-cases o (inr (ring', e)) = rw e (inr (U.submit ring', refl))

    request_on-cases :
        (r : Request) (op : IoOperation) (object : IoUringObject) (ring : U.Ring)
        → RingResult (request_on U r op object ring)
    unfolding request_on
    request_on-cases (io_recv span) op object ring = with_sqe-cases _ op ring
    request_on-cases (io_send_buffer b) op object ring = with_sqe-cases _ op ring
    request_on-cases (io_accept fd) op object ring = with_sqe-cases _ op ring
    request_on-cases io_close op object ring = map_submit-cases _ (with_sqe-cases _ op ring)
    request_on-cases accept_one op object ring = inr (ring, refl)
    request_on-cases session_closed op object ring = inr (ring, refl)

    request_io_on-cases :
        (op : IoOperation) (ring : U.Ring) → RingResult (request_io_on U sessions op (some ring))
    unfolding request_io_on
    request_io_on-cases op ring = elim (Option-cases (get_elem? sessions op.session)) [
      | inl e ↦ rw (e, request_io_on) (inr (ring, refl))
      | inr (session, e) ↦ rw (e, request_io_on) (request_on-cases op.kind op session.object ring)
    ]

    requests-cases :
        (ops : List IoOperation) (ring : U.Ring) → RingResult (requests ops (some ring))
    requests-cases [] ring = inr (ring, refl)
    requests-cases (op ∷ ops) ring = elim (request_io_on-cases op ring) [
      | inl (e, full) ↦ inl (ap (requests ops) e ∙ requests-none ops, full)
      | inr (ring1, e) ↦ subst (λ o. RingResult (requests ops o)) (sym e) (requests-cases ops ring1)
    ]

    pub submit-cases :
        (ops : List IoOperation) (ring : U.Ring)
        → RingResult (
            submit_if_any Operations
              (request_io_on U sessions)
              (map_ring U U.submit)
              ops
              (some ring))
    submit-cases [] ring = inr (ring, refl)
    submit-cases (op ∷ ops) ring =
        map_submit-cases (requests (op ∷ ops) (some ring)) (requests-cases (op ∷ ops) ring)
