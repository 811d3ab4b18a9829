-- ===== src/Session/Connection.antt =====
-- braid/src/service/src/service/ServiceSession.cc and Actor.cc, with the completions of
-- braid/src/service/src/net/IOOperation{Recv,Accept,Send,SendBuffer,Close}.cc that call them.
-- The session's calls of its service, made when the weak pointer to it still locks, are returned
-- as a list in the order in which they are made.
-- An actor outlives its session where a handler keeps a pointer to it, so the actors that a session
-- has made stand in a list of their own, and a pointer is an index of it.
use first_server.Common.{
  ℕ, List, [], ◌∷◌, ◌++◌, Option, none, some, Bool, true, false, if◌then◌else◌, ℤ, pos, ltb_ℤ,
  length, get_elem?, set,
}
use first_server.Net.Object.{IoUringObject, Span, commit, reset, set_socket_fd, get_remain_span}
use first_server.Message.Dispatcher.{MessageDispatcher, Call}
use first_server.Session.Framing.{deliver_all}

-- whether `session_` is set
pub record Actor : Type 0 where
  pub session : Bool

pub record ServiceSession : Type 0 where
  pub object : IoUringObject
  -- whether `service_instance_.lock()` succeeds
  pub service_instance : Bool
  pub main_actor : Option ℕ
  pub actors : List Actor

-- What a session asks of its service.
pub data Request : Type 0 where
  io_recv : Span → Request
  io_send_buffer : List ℕ → Request
  io_accept : ℤ → Request
  io_close : Request
  accept_one : Request
  session_closed : Request

-- `if (auto service_ptr_ = service_instance_.lock()) ...`
abbrev pub ask : Request → ServiceSession → List Request
ask r s = if s.service_instance then r ∷ [] else []

unfoldable pub request_receive : ServiceSession → List Request
request_receive s = ask (io_recv (get_remain_span s.object)) s

unfoldable pub request_send : List ℕ → ServiceSession → List Request
request_send bytes s = ask (io_send_buffer bytes) s

unfoldable pub request_accept : ℤ → ServiceSession → List Request
request_accept accept_fd s = ask (io_accept accept_fd) s

unfoldable pub request_close : ServiceSession → List Request
request_close s = ask io_close s

-- `Actor::request_send` and `Actor::request_close` of the actor with index `i`.
unfoldable pub actor_request_send : ℕ → List ℕ → ServiceSession → List Request
unfolding request_send
actor_request_send i bytes s = elim (get_elem? s.actors i) [
  | none ↦ []
  | some a ↦ if a.session then request_send bytes s else []
]

unfoldable pub actor_request_close : ℕ → ServiceSession → List Request
unfolding request_close
actor_request_close i s = elim (get_elem? s.actors i) [
  | none ↦ []
  | some a ↦ if a.session then request_close s else []
]

-- `main_actor_ = new Actor(); main_actor_->set_session(...)`, when there is none
unfoldable pub make_actor : ServiceSession → ServiceSession
make_actor s = elim s.main_actor [
  | some _ ↦ s
  | none ↦ record s {
    main_actor = some (length s.actors);
    actors = s.actors ++ (record { session = true } ∷ []);
  }
]

unfoldable pub on_accepted : ServiceSession → ServiceSession × List Request
unfolding make_actor request_receive
on_accepted s = let s' = make_actor s in (s', request_receive s' ++ ask accept_one s')

unfoldable pub drop_actor : ServiceSession → ServiceSession
drop_actor s = elim s.main_actor [
  | none ↦ s
  | some i ↦ record s { main_actor = none; actors = set s.actors i (record { session = false }) }
]

unfoldable pub on_closed : ServiceSession → ServiceSession × List Request
unfolding drop_actor reset
on_closed s =
    let closed = drop_actor s in
    let s' : ServiceSession = record closed { object = reset closed.object } in
    (s', ask session_closed s')

unfoldable pub on_receive_failed : ServiceSession → List Request
unfolding actor_request_close
on_receive_failed s = elim s.main_actor [ none ↦ [] | some i ↦ actor_request_close i s ]

unfoldable pub on_send_failed : ServiceSession → List Request
unfolding actor_request_close
on_send_failed s = elim s.main_actor [ none ↦ [] | some i ↦ actor_request_close i s ]

-- `IOOperationAccept::handle_io_completion`; `on_accept_failed` does nothing in a session.
unfoldable pub accept_completion : ℤ → ServiceSession → ServiceSession × List Request
unfolding set_socket_fd on_accepted
accept_completion result s =
    if ltb_ℤ result (pos 0)
    then (s, [])
    else on_accepted (record s { object = set_socket_fd result s.object })

-- `IOOperationSend` and `IOOperationSendBuffer`: a failed send is passed over, and `on_sent` does
-- nothing in a session.
unfoldable pub send_completion : ℤ → ServiceSession → ServiceSession × List Request
send_completion result s = if ltb_ℤ result (pos 0) then (s, []) else (s, [])

-- `IOOperationClose::handle_io_completion` is empty.
unfoldable pub close_completion : ℤ → ServiceSession → ServiceSession × List Request
close_completion result s = (s, [])

-- What a completion leaves: the session, its calls of the service, and the calls of handlers.
pub record Outcome {ℓ} (H : Type ℓ) : Type ℓ where
  pub session : ServiceSession
  pub requests : List Request
  pub log : List (Call H)

module _ {ℓ} {H : Type ℓ} (d : MessageDispatcher H) where
  -- `none`: the loop's fuel ran out, which Framing rules out.
  unfoldable pub on_received : ServiceSession → List (Call H) → Option (Outcome H)
  unfolding request_receive
  on_received s log = elim (deliver_all d s.main_actor s.object log) [
    | none ↦ none
    | some (object, log') ↦
        let s' : ServiceSession = record s { object = object } in
        some (record { session = s'; requests = request_receive s'; log = log' })
  ]

  -- `IOOperationRecv::handle_io_completion`
  unfoldable pub recv_completion : ℤ → ServiceSession → List (Call H) → Option (Outcome H)
  unfolding commit on_received
  recv_completion result s log =
      if ltb_ℤ result (pos 0)
      then some (record { session = s; requests = on_receive_failed s; log = log })
      else on_received (record s { object = commit result s.object }) log
