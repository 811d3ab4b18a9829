-- ===== src/Service/Start.antt =====
-- The queue of free sessions when a service has started.
use first_server.Common.{
  ℕ, zero, suc, ◌≡◌, refl, sym, ap, ◌∙◌, inl, inr, List, [], ◌∷◌, ◌++◌, Bool, arith, append_assoc,
  append-nil, drop, get_elem?, Option-cases,
}
use first_server.Lockfree.{LockfreeQueue, NeverFails}
use first_server.Session.Connection.{request_accept}
use first_server.Service.{
  IoOperation, Service, request_accept_one, push_sessions, accept_times, initialize,
}
use first_server.Service.Accepts.{request_operations-queue}

-- `n` numbers from `i` on
abbrev pub count_from : ℕ → ℕ → List ℕ
count_from i zero = []
count_from i (suc n) = i ∷ count_from (suc i) n

module _ (Sessions : LockfreeQueue ℕ) (Operations : LockfreeQueue IoOperation)
    (acquires : ℕ → Bool) where
  abbrev S : Type 0
  S = Service Sessions Operations acquires

  abbrev pub free : S → List ℕ
  free s = Sessions.contents s.sessions_queue

  push_sessions-free :
      NeverFails Sessions
      → (i n : ℕ) (s : S)
      → free (push_sessions Sessions Operations acquires i n s) ≡ free s ++ count_from i n
  unfolding push_sessions
  push_sessions-free never i zero s = sym (append-nil (free s))
  push_sessions-free never i (suc n) s =
      let s' : S = record s { sessions_queue = (Sessions.push i s.sessions_queue).1 } in
      let pushed : free s' ≡ free s ++ (i ∷ []) =
        ground (arith, Sessions.push_cases i s.sessions_queue, never i s.sessions_queue) in
      push_sessions-free never (suc i) n s'
      ∙ (ap (λ l. l ++ count_from (suc i) n) pushed
          ∙ append_assoc (free s) (i ∷ []) (count_from (suc i) n))

  accept_one-free :
      (s : S) → free (request_accept_one Sessions Operations acquires s) ≡ drop 1 (free s)
  unfolding request_accept_one
  accept_one-free s = elim (Sessions.pop_cases s.sessions_queue) [
    | inl (empty, popped) ↦ ground (arith, empty, popped)
    | inr (i, q, front, popped) ↦
        let s' : S = record s { sessions_queue = q } in
        elim (Option-cases (get_elem? s.sessions i)) [
          | inl e ↦ ground (arith, popped, e, front)
          | inr (session, e) ↦ ground (
            arith,
            popped,
            e,
            front,
            request_operations-queue Sessions Operations acquires i
                (request_accept s.acceptor_fd session) s',
          )
        ]
  ]

  drop_twice : (n : ℕ) (l : List ℕ) → drop n (drop 1 l) ≡ drop (suc n) l
  drop_twice zero [] = refl
  drop_twice (suc n) [] = refl
  drop_twice n (x ∷ l) = refl

  accept_times-free :
      (n : ℕ) (s : S) → free (accept_times Sessions Operations acquires n s) ≡ drop n (free s)
  unfolding accept_times
  accept_times-free zero s = refl
  accept_times-free (suc n) s =
      accept_times-free n (request_accept_one Sessions Operations acquires s)
      ∙ (ap (drop n) (accept_one-free s) ∙ drop_twice n (free s))

  -- If the queue's push never fails and the queue is empty at the start, `initialize` leaves in
  -- the queue of free sessions all sessions but the first ones, as many of them as the backlog.
  pub initialize-free :
      NeverFails Sessions
      → (session_count backlog : ℕ) (s : S) → free s ≡ []
      → free (initialize Sessions Operations acquires session_count backlog s)
        ≡ drop backlog (count_from 0 session_count)
  unfolding initialize
  initialize-free never session_count backlog s empty =
      accept_times-free backlog (push_sessions Sessions Operations acquires 0 session_count s)
      ∙ ap (drop backlog) (
          push_sessions-free never 0 session_count s
          ∙ ap (λ l. l ++ count_from 0 session_count) empty)
