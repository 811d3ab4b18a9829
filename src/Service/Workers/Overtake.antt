-- ===== src/Service/Workers/Overtake.antt =====
-- Two sends of one session, which go to two workers.
use first_server.Common.{
  ℕ, suc, ◌+◌, ◌%◌, ◌^◌, ◌≤◌, ◌<◌, ◌≡◌, ◌≢◌, refl, ap, ap₂, sym, ◌∙◌, List, [], ◌∷◌, ◌++◌, some,
  Bool, true, arith, ltb, lt→ltb, dec_lt, ℤ, get_elem?, set, get_elem?-set_self, get_elem?-set_ne,
}
use native.Mathlib.Nat.{mod-lt, suc-mod, mod_self, mod-eq_of_lt}
use first_server.Lockfree.{LockfreeQueue, NeverFails, pop-cons}
use first_server.Net.Uring.{IoUring, prep_send}
use first_server.Message.Dispatcher.{MessageDispatcher}
use first_server.Session.Connection.{ServiceSession, io_send_buffer}
use first_server.Service.{
  IoOperation, Service, with_count, push_tries, push_request, add_ref, request_operation,
}
use first_server.Service.RoundRobin.{push_at, request_io_lem}
use first_server.Service.Routine.{IoCompletion, with_sqe, request_on, request_io_on}
use first_server.Service.Workers.{pops, Worker, Workers, at, pop_request, go_on, worker_step}

-- The counter's next value gives another worker, where there are two.
next_worker_lem : (index n : ℕ) → 2 ≤ n → index % n ≢ suc index % n
next_worker_lem index n two same =
    let low : index % n < n = mod-lt index (omega arith) in
    let next = suc-mod index n in
    elim (dec_lt (suc (index % n)) n) [
      | yes more ↦ let stays = mod-eq_of_lt more in absurd (omega (arith, same, next, stays))
      | no last ↦
          let e : suc (index % n) ≡ n = omega (arith, low, last) in
          let back : suc (index % n) % n ≡ 0 = ap (λ k. k % n) e ∙ mod_self n in
          absurd (omega (arith, same, next, back, e))
    ]

module _ (Sessions : LockfreeQueue ℕ) (Operations : LockfreeQueue IoOperation) (acquires : ℕ → Bool)
    (never : NeverFails Operations) where
  abbrev S : Type 0
  S = Service Sessions Operations acquires

  push_request-push :
      (op : IoOperation) (q : Operations.Queue)
      → push_request Sessions Operations acquires op q ≡ (Operations.push op q).1
  unfolding push_tries
  push_request-push op q = rw (never op q) refl

  -- The object of the `n`-th `acquire`, for a send of the session `i`.
  abbrev pub send_of : ℕ → List ℕ → ℕ → IoOperation
  send_of i bytes n = record { session = i; kind = io_send_buffer bytes; serial = n }

  abbrev pub worker_for : S → ℕ
  worker_for s = s.request_index % s.thread_count

  -- What a send makes of its worker's queue, and of the others.
  record Sent (i : ℕ) (bytes : List ℕ) (s s' : S) : Type 0 where
    index : s'.request_index ≡ suc s.request_index
    count : s'.thread_count ≡ s.thread_count
    acquired : s'.acquired ≡ suc s.acquired
    sessions : s'.sessions ≡ s.sessions
    queues :
        s'.worker_threads
        ≡ push_at
            (some (worker_for s))
            (push_request Sessions Operations acquires (send_of i bytes s.acquired))
            s.worker_threads

  request_operation-Sent :
      (i : ℕ) (bytes : List ℕ) (s : S)
      → suc s.request_index < 2 ^ 31
      → 0 < s.thread_count
      → acquires s.acquired ≡ true
      → Sent i bytes s (request_operation Sessions Operations acquires i (io_send_buffer bytes) s)
  unfolding request_operation add_ref
  request_operation-Sent i bytes s low some_worker given =
      let op = send_of i bytes s.acquired in
      let new : S = record s {
        acquired = s.acquired + 1;
        ref_counts = with_count s.acquired 0 s.ref_counts;
      } in
      let counted = add_ref Sessions Operations acquires op new in
      let moved =
        request_io_lem Sessions Operations acquires op counted (omega (arith, low)) some_worker in
      let positive : ltb s.request_index (2 ^ 31) ≡ true =
        lt→ltb s.request_index (2 ^ 31) (omega (arith, low)) in
      rw (given, request_operation)
        (rw moved (record {
          index = omega (arith, low);
          count = refl;
          acquired = omega arith;
          sessions = refl;
          queues = rw positive refl;
        }))

  -- The second of two sends.
  abbrev pub two_sends : ℕ → List ℕ → List ℕ → S → S
  two_sends i a b s =
      request_operation Sessions Operations acquires i (io_send_buffer b)
        (request_operation Sessions Operations acquires i (io_send_buffer a) s)

  -- Both stand alone in their queues, one behind what was there.
  record Spread (i : ℕ) (a b : List ℕ) (q : Operations.Queue) (s s' : S) : Type 0 where
    sessions : s'.sessions ≡ s.sessions
    first : Operations.Queue
    first_at : get_elem? s'.worker_threads (worker_for s) ≡ some first
    first_waits : Operations.contents first ≡ Operations.contents q ++ (send_of i a s.acquired ∷ [])
    second : Operations.Queue
    second_at : get_elem? s'.worker_threads (suc s.request_index % s.thread_count) ≡ some second
    second_waits : Operations.contents second ≡ send_of i b (suc s.acquired) ∷ []

  push_request-contents :
      (op : IoOperation) (q : Operations.Queue)
      → Operations.contents (push_request Sessions Operations acquires op q)
        ≡ Operations.contents q ++ (op ∷ [])
  push_request-contents op q =
      ap Operations.contents (push_request-push op q)
      ∙ ground (arith, Operations.push_cases op q, never op q)

  two_sends-Spread :
      (i : ℕ) (a b : List ℕ) (q q' : Operations.Queue) (s : S)
      → suc (suc s.request_index) < 2 ^ 31
      → 2 ≤ s.thread_count
      → acquires s.acquired ≡ true
      → acquires (suc s.acquired) ≡ true
      → get_elem? s.worker_threads (worker_for s) ≡ some q
      → get_elem? s.worker_threads (suc s.request_index % s.thread_count) ≡ some q'
      → Operations.contents q' ≡ []
      → Spread i a b q s (two_sends i a b s)
  two_sends-Spread i a b q q' s low two given given' at_w at_w' empty =
      let w = worker_for s in
      let w' = suc s.request_index % s.thread_count in
      let s1 = request_operation Sessions Operations acquires i (io_send_buffer a) s in
      let earlier = request_operation-Sent i a s (omega (arith, low)) (omega (arith, two)) given in
      let later =
        request_operation-Sent i b s1 (omega (arith, low, earlier.index))
          (omega (arith, two, earlier.count)) (ap acquires earlier.acquired ∙ given') in
      let apart = next_worker_lem s.request_index s.thread_count two in
      let op = send_of i a s.acquired in
      let op' = send_of i b s1.acquired in
      let f = push_request Sessions Operations acquires op in
      let f' = push_request Sessions Operations acquires op' in
      let other : worker_for s1 ≡ w' = ap₂ (λ x y. x % y) earlier.index earlier.count in
      let threads1 : s1.worker_threads ≡ set s.worker_threads w (f q) =
        earlier.queues ∙ rw (at_w, push_at) refl in
      let at1 : get_elem? s1.worker_threads w' ≡ some q' =
        ap (λ l. get_elem? l w') threads1
        ∙ (get_elem?-set_ne s.worker_threads w w' (f q) apart ∙ at_w') in
      let threads2 : (two_sends i a b s).worker_threads ≡ set s1.worker_threads w' (f' q') =
        later.queues
        ∙ (ap (λ x. push_at (some x) f' s1.worker_threads) other ∙ rw (at1, push_at) refl) in
      record {
        sessions = later.sessions ∙ earlier.sessions;
        first = f q;
        first_at =
            ap (λ l. get_elem? l w) threads2
            ∙ (get_elem?-set_ne s1.worker_threads w' w (f' q') (λ e. apart (sym e))
                ∙ (ap (λ l. get_elem? l w) threads1
                    ∙ get_elem?-set_self s.worker_threads w (f q) at_w));
        first_waits = push_request-contents op q;
        second = f' q';
        second_at =
            ap (λ l. get_elem? l w') threads2 ∙ get_elem?-set_self s1.worker_threads w' (f' q') at1;
        second_waits =
            push_request-contents op' q'
            ∙ (ap (λ l. l ++ (op' ∷ [])) empty ∙ ap (λ n. send_of i b n ∷ []) earlier.acquired);
      }

  module _ (U : IoUring IoOperation) where
    -- The second operation is in a ring, and the first one waits in its queue.
    pub record Overtaken (i : ℕ) (a b : List ℕ) (fd : ℤ) (ring : U.Ring) (s : S)
        (t : Workers U Sessions Operations acquires) : Type 0 where
      pub completion : IoCompletion
      pub prepared :
          get_elem? t.workers (suc s.request_index % s.thread_count)
          ≡ some (
              at U Sessions Operations acquires
                (U.prepare (prep_send fd b) (send_of i b (suc s.acquired)) ring)
                (pops completion))
      pub queue : Operations.Queue
      pub queue_at : get_elem? t.service.worker_threads (worker_for s) ≡ some queue
      pub front : List IoOperation
      pub waits_still : Operations.contents queue ≡ front ++ (send_of i a s.acquired ∷ [])

    module _ {ℓ} {H : Type ℓ} (d : MessageDispatcher H) where
      -- Let a service have two workers at least, a counter of requests below 2 ^ 31 - 2, a pool
      -- that gives two operations, and pushes that never fail. Let a session ask for two sends,
      -- one after the other. If the queue of the worker that comes next is empty, and that worker
      -- empties its queue, with a free entry in its ring, then its next step prepares the second
      -- send in its ring, while the first one still waits in the queue of another worker: the
      -- bytes of the second send may go out first.
      pub sends_overtake :
          (i : ℕ) (a b : List ℕ) (q q' : Operations.Queue) (session : ServiceSession)
          (completion : IoCompletion) (ring : U.Ring)
          (workers : List (Worker U Sessions Operations acquires)) (s : S)
          → suc (suc s.request_index) < 2 ^ 31
          → 2 ≤ s.thread_count
          → acquires s.acquired ≡ true
          → acquires (suc s.acquired) ≡ true
          → get_elem? s.sessions i ≡ some session
          → get_elem? s.worker_threads (worker_for s) ≡ some q
          → get_elem? s.worker_threads (suc s.request_index % s.thread_count) ≡ some q'
          → Operations.contents q' ≡ []
          → get_elem? workers (suc s.request_index % s.thread_count)
            ≡ some (at U Sessions Operations acquires ring (pops completion))
          → U.has_sqe ring ≡ true
          → Overtaken i a b session.object.socket_fd ring s (
              worker_step U Sessions Operations acquires d
                (record { worker = suc s.request_index % s.thread_count; asks = [] })
                (record { service = two_sends i a b s; workers = workers }))
      unfolding worker_step go_on pop_request request_io_on request_on with_sqe
      sends_overtake i a b q q' session completion ring workers s low two given given' found at_w
            at_w' empty at_worker room =
          let w = worker_for s in
          let w' = suc s.request_index % s.thread_count in
          let spread = two_sends-Spread i a b q q' s low two given given' at_w at_w' empty in
          let op' = send_of i b (suc s.acquired) in
          let (rest, popped, none_left) =
            pop-cons Operations spread.second op' [] spread.second_waits in
          let known : get_elem? (two_sends i a b s).sessions i ≡ some session =
            ap (λ l. get_elem? l i) spread.sessions ∙ found in
          let at2 = spread.second_at in
          let apart = next_worker_lem s.request_index s.thread_count two in
          rw
            (
              at_worker, at2, popped, known, room, worker_step, go_on, pop_request, request_io_on,
              request_on, with_sqe,
            )
            (record {
              completion = completion;
              prepared = get_elem?-set_self workers w' _ at_worker;
              queue = spread.first;
              queue_at =
                  get_elem?-set_ne (two_sends i a b s).worker_threads w' w rest (λ e. apart (sym e))
                  ∙ spread.first_at;
              front = Operations.contents q;
              waits_still = spread.first_waits;
            })
