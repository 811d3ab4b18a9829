-- ===== src/Service/Accepts.antt =====
-- The queue of the sessions that no client has.
use first_server.Common.{
  ℕ, ◌≡◌, refl, sym, ap, ◌∙◌, inl, inr, List, [], ◌∷◌, ◌++◌, some, Bool, true, false, arith,
  append_assoc, Option-cases, ℤ, get_elem?, set,
}
use first_server.Lockfree.{LockfreeQueue}
use first_server.Net.Object.{set_socket_fd}
use first_server.Message.Dispatcher.{MessageDispatcher}
use first_server.Session.Connection.{
  ServiceSession, Request, io_recv, io_send_buffer, io_accept, io_close, accept_one, session_closed,
  request_accept, request_receive, on_accepted, actor_request_close, on_receive_failed, on_received,
  request_close, accept_completion, send_completion, close_completion, recv_completion,
}
use first_server.Service.{
  IoOperation, Service, request_io_at, request_io, add_ref, request_operation, request_operations,
  request_accept_one, serve, serve_all, complete_session, handle_completion, handle_completions,
}

-- No call of a list gives a session back.
abbrev pub keeps_session : List Request → Bool
keeps_session [] = true
keeps_session (session_closed ∷ rs) = false
keeps_session (io_recv b ∷ rs) = keeps_session rs
keeps_session (io_send_buffer b ∷ rs) = keeps_session rs
keeps_session (io_accept b ∷ rs) = keeps_session rs
keeps_session (io_close ∷ rs) = keeps_session rs
keeps_session (accept_one ∷ rs) = keeps_session rs

module _ {ℓ} {H : Type ℓ} (d : MessageDispatcher H) where
  receive-keeps : (s : ServiceSession) → keeps_session (request_receive s) ≡ true
  unfolding request_receive
  receive-keeps s = ground arith

  failed-keeps : (s : ServiceSession) → keeps_session (on_receive_failed s) ≡ true
  unfolding on_receive_failed actor_request_close request_close
  failed-keeps s = ground arith

  accepted-keeps : (s : ServiceSession) → keeps_session (on_accepted s).1 ≡ true
  unfolding on_accepted request_receive
  accepted-keeps s = ground arith

  -- No completion of any operation makes its session tell the service that it is closed.
  pub complete-keeps :
      (r : Request) (result : ℤ) (session session' : ServiceSession) (requests : List Request)
      → complete_session d r result session ≡ some (session', requests)
      → keeps_session requests ≡ true
  unfolding complete_session accept_completion send_completion close_completion recv_completion
      on_received
  complete-keeps (io_recv b) result s s' rs e = ground (arith, failed-keeps s)
  complete-keeps (io_send_buffer b) result s s' rs e = ground arith
  complete-keeps (io_accept b) result s s' rs e =
      ground (arith, accepted-keeps (record s { object = set_socket_fd result s.object }))
  complete-keeps io_close result s s' rs e = ground arith
  complete-keeps accept_one result s s' rs e = ground arith
  complete-keeps session_closed result s s' rs e = ground arith

module _ (Sessions : LockfreeQueue ℕ) (Operations : LockfreeQueue IoOperation)
    (acquires : ℕ → Bool) where
  abbrev S : Type 0
  S = Service Sessions Operations acquires

  -- The sessions `taken` have left the queue at its front, and none has come.
  pub record Taken (s s' : S) : Type 0 where
    pub taken : List ℕ
    pub queue : Sessions.contents s.sessions_queue ≡ taken ++ Sessions.contents s'.sessions_queue

  same_queue : (s s' : S) → s'.sessions_queue ≡ s.sessions_queue → Taken s s'
  same_queue s s' e = record { taken = []; queue = ap Sessions.contents (sym e) }

  then_Taken : (s s1 s2 : S) → Taken s s1 → Taken s1 s2 → Taken s s2
  then_Taken s s1 s2 a b = record {
    taken = a.taken ++ b.taken;
    queue =
        a.queue
        ∙ (ap (λ l. a.taken ++ l) b.queue
            ∙ sym (append_assoc a.taken b.taken (Sessions.contents s2.sessions_queue)));
  }

  pub request_operation-queue :
      (i : ℕ) (r : Request) (s : S)
      → (request_operation Sessions Operations acquires i r s).sessions_queue ≡ s.sessions_queue
  unfolding request_operation add_ref request_io request_io_at
  request_operation-queue i r s = ground arith

  pub request_operations-queue :
      (i : ℕ) (rs : List Request) (s : S)
      → (request_operations Sessions Operations acquires i rs s).sessions_queue ≡ s.sessions_queue
  unfolding request_operations
  request_operations-queue i [] s = refl
  request_operations-queue i (r ∷ rs) s =
      request_operations-queue i rs (request_operation Sessions Operations acquires i r s)
      ∙ request_operation-queue i r s

  request_accept_one-Taken : (s : S) → Taken s (request_accept_one Sessions Operations acquires s)
  unfolding request_accept_one
  request_accept_one-Taken s = elim (Sessions.pop_cases s.sessions_queue) [
    | inl (_, popped) ↦
        same_queue s (request_accept_one Sessions Operations acquires s) (ground (arith, popped))
    | inr (i, q, front, popped) ↦
        let s' : S = record s { sessions_queue = q } in
        elim (Option-cases (get_elem? s.sessions i)) [
          | inl e ↦ record { taken = i ∷ []; queue = ground (arith, popped, e, front) }
          | inr (session, e) ↦ record {
            taken = i ∷ [];
            queue = ground (
              arith,
              popped,
              e,
              front,
              request_operations-queue i (request_accept s.acceptor_fd session) s',
            );
          }
        ]
  ]

  serve-Taken :
      (i : ℕ) (r : Request) (s : S)
      → keeps_session (r ∷ []) ≡ true
      → Taken s (serve Sessions Operations acquires i r s)
  unfolding serve
  serve-Taken i accept_one s h = request_accept_one-Taken s
  serve-Taken i session_closed s h = absurd (cc)
  serve-Taken i (io_recv b) s h = same_queue s _ (request_operation-queue i _ s)
  serve-Taken i (io_send_buffer b) s h = same_queue s _ (request_operation-queue i _ s)
  serve-Taken i (io_accept b) s h = same_queue s _ (request_operation-queue i _ s)
  serve-Taken i io_close s h = same_queue s _ (request_operation-queue i _ s)

  pub keeps_session-∷ :
      (r : Request) (rs : List Request)
      → keeps_session (r ∷ rs) ≡ true
      → (keeps_session (r ∷ []) ≡ true) × (keeps_session rs ≡ true)
  keeps_session-∷ accept_one rs h = (refl, h)
  keeps_session-∷ session_closed rs h = absurd (cc)
  keeps_session-∷ (io_recv b) rs h = (refl, h)
  keeps_session-∷ (io_send_buffer b) rs h = (refl, h)
  keeps_session-∷ (io_accept b) rs h = (refl, h)
  keeps_session-∷ io_close rs h = (refl, h)

  serve_all-Taken :
      (i : ℕ) (rs : List Request) (s : S)
      → keeps_session rs ≡ true
      → Taken s (serve_all Sessions Operations acquires i rs s)
  unfolding serve_all
  serve_all-Taken i [] s h = same_queue s s refl
  serve_all-Taken i (r ∷ rs) s h =
      let (first, later) = keeps_session-∷ r rs h in
      let s1 = serve Sessions Operations acquires i r s in
      then_Taken s s1 (serve_all Sessions Operations acquires i rs s1) (serve-Taken i r s first)
        (serve_all-Taken i rs s1 later)

  module _ {ℓ} {H : Type ℓ} (d : MessageDispatcher H) where
    handle_completion-Taken :
        (op : IoOperation) (result : ℤ) (s : S)
        → Taken s (handle_completion Sessions Operations acquires d op result s)
    unfolding handle_completion
    handle_completion-Taken op result s = elim (Option-cases (get_elem? s.sessions op.session)) [
      | inl e ↦ same_queue s _ (ground (arith, e))
      | inr (session, e) ↦ elim (Option-cases (complete_session d op.kind result session)) [
        | inl f ↦ same_queue s _ (ground (arith, e, f))
        | inr ((session', requests), f) ↦
            let s' : S = record s { sessions = set s.sessions op.session session' } in
            rw (e, handle_completion)
              (rw (f, handle_completion)
                (then_Taken s s' (serve_all Sessions Operations acquires op.session requests s')
                  (same_queue s s' refl)
                  (serve_all-Taken op.session requests s'
                    (complete-keeps d op.kind result session session' requests f))))
      ]
    ]

    -- Whatever operations complete, with whatever results, the sessions that wait in the queue for
    -- an accept are afterwards the last of those that waited before: a session that has left the
    -- queue never comes back into it.
    pub never_returned :
        (completions : List (IoOperation × ℤ)) (s : S)
        → Taken s (handle_completions Sessions Operations acquires d completions s)
    unfolding handle_completions
    never_returned [] s = same_queue s s refl
    never_returned ((op, result) ∷ more) s =
        let s1 = handle_completion Sessions Operations acquires d op result s in
        then_Taken s s1 (handle_completions Sessions Operations acquires d more s1)
          (handle_completion-Taken op result s) (never_returned more s1)
