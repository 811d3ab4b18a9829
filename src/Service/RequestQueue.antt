-- ===== src/Service/RequestQueue.antt =====
-- `flush_requests` of braid/src/service/src/net/IORequestQueue.cc. The ring of io_uring is a value
-- of any type; what an operation's `request_io` and `io_uring_submit` make of it are parameters. The
-- loop runs on fuel, `none` if it runs out; a round takes an operation, so one round more than
-- there are operations is enough.
use first_server.Common.{
  ℕ, zero, suc, ◌<◌, ◌≡◌, refl, sym, ap, ◌∙◌, inl, inr, List, [], ◌∷◌, Option, none, some, false,
  if◌then◌else◌, arith, length, Bool-cases,
}
use first_server.Lockfree.{LockfreeQueue}
use first_server.Service.{IoOperation}

abbrev first_of : IoOperation → List IoOperation → IoOperation
first_of op [] = op
first_of op (x ∷ xs) = x

abbrev rest_of : List IoOperation → List IoOperation → List IoOperation
rest_of ops [] = ops
rest_of ops (x ∷ xs) = xs

module _ {ℓ} {Ring : Type ℓ} (Operations : LockfreeQueue IoOperation)
    (request : IoOperation → Ring → Ring) (submit : Ring → Ring) where
  pub record IoRequestQueue : Type ℓ where
    pub ring : Ring
    pub request_queue : Operations.Queue

  -- `while (request_queue_.pop(operation)) operation->request_io(&ring_)`
  unfoldable pub request_popped : ℕ → IoRequestQueue → Option IoRequestQueue
  request_popped zero r = none
  request_popped (suc fuel) r = elim (Operations.pop r.request_queue) [
    | none ↦ some r
    | some (op, q) ↦ request_popped fuel (record { ring = request op r.ring; request_queue = q })
  ]

  unfoldable pub flush_requests : ℕ → IoRequestQueue → Option IoRequestQueue
  flush_requests fuel r =
      if Operations.empty r.request_queue then some r else (elim (request_popped fuel r) [
        | none ↦ none
        | some r' ↦ some (record r' { ring = submit r'.ring })
      ])

  -- the operations in order, on the ring
  abbrev pub request_all : List IoOperation → Ring → Ring
  request_all [] ring = ring
  request_all (op ∷ ops) ring = request_all ops (request op ring)

  abbrev pub submit_if_any : List IoOperation → Ring → Ring
  submit_if_any [] ring = ring
  submit_if_any (op ∷ ops) ring = submit (request_all (op ∷ ops) ring)

  -- What a flush leaves: an empty queue, and the ring with every operation.
  pub record Flushed (ring : Ring) (result : Option IoRequestQueue) : Type ℓ where
    pub final : IoRequestQueue
    pub returns : result ≡ some final
    pub emptied : Operations.contents final.request_queue ≡ []
    pub requested : final.ring ≡ ring

  request_popped-Flushed :
      (fuel : ℕ) (ops : List IoOperation) (r : IoRequestQueue)
      → Operations.contents r.request_queue ≡ ops
      → length ops < fuel
      → Flushed (request_all ops r.ring) (request_popped fuel r)
  unfolding request_popped
  request_popped-Flushed zero ops r e h = absurd (omega arith)
  request_popped-Flushed (suc fuel) [] r e h = elim (Operations.pop_cases r.request_queue) [
    | inl (empty, popped) ↦ record {
      final = r;
      returns = rw (popped, request_popped) refl;
      emptied = empty;
      requested = refl;
    }
    | inr (op, q, front, popped) ↦ absurd (cc)
  ]
  request_popped-Flushed (suc fuel) (o ∷ ops) r e h = elim (Operations.pop_cases r.request_queue) [
    | inl (empty, popped) ↦ absurd (cc)
    | inr (op, q, front, popped) ↦
        let same : o ∷ ops ≡ op ∷ Operations.contents q = sym e ∙ front in
        let r' : IoRequestQueue = record { ring = request op r.ring; request_queue = q } in
        let later =
          request_popped-Flushed fuel ops r' (ap (rest_of ops) (sym same)) (omega arith) in
        record {
          final = later.final;
          returns = rw (popped, request_popped) later.returns;
          emptied = later.emptied;
          requested =
              later.requested
              ∙ ap (λ x. request_all ops (request x r.ring)) (ap (first_of op) (sym same));
        }
  ]

  flush-nonempty :
      (fuel : ℕ) (o : IoOperation) (ops : List IoOperation) (r : IoRequestQueue)
      → Operations.contents r.request_queue ≡ o ∷ ops
      → length (o ∷ ops) < fuel
      → Operations.empty r.request_queue ≡ false
      → Flushed (submit_if_any (o ∷ ops) r.ring) (flush_requests fuel r)
  unfolding flush_requests
  flush-nonempty fuel o ops r e h f =
      let run = request_popped-Flushed fuel (o ∷ ops) r e h in
      record {
        final = record (run.final) { ring = submit run.final.ring };
        returns = ground (arith, f, run.returns);
        emptied = run.emptied;
        requested = ap submit run.requested;
      }

  flush-of :
      (fuel : ℕ) (ops : List IoOperation) (r : IoRequestQueue)
      → Operations.contents r.request_queue ≡ ops
      → length ops < fuel
      → Flushed (submit_if_any ops r.ring) (flush_requests fuel r)
  unfolding flush_requests
  flush-of fuel [] r e h = record {
    final = r;
    returns = ground (arith, (Operations.empty_iff r.request_queue).1 e);
    emptied = e;
    requested = refl;
  }
  flush-of fuel (o ∷ ops) r e h = elim (Bool-cases (Operations.empty r.request_queue)) [
    | inl f ↦ let none_left = (Operations.empty_iff r.request_queue).0 f in absurd (cc)
    | inr f ↦ flush-nonempty fuel o ops r e h f
  ]

  -- With fuel for more rounds than there are operations in the queue, `flush_requests` ends with
  -- an empty queue. The I/O of every operation has been requested on the ring, oldest first, and
  -- then the ring has been submitted once; with no operation the ring is left alone.
  pub flush_requests-Flushed :
      (fuel : ℕ) (r : IoRequestQueue)
      → length (Operations.contents r.request_queue) < fuel
      → Flushed (submit_if_any (Operations.contents r.request_queue) r.ring) (flush_requests fuel r)
  flush_requests-Flushed fuel r h = flush-of fuel (Operations.contents r.request_queue) r refl h
