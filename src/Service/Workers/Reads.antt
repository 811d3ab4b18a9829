-- ===== src/Service/Workers/Reads.antt =====
-- The accepts and receives of a session: what a call of the service, and the completion of an
-- operation, make of those that are asked for.
use first_server.Common.{
  ℕ, ◌≤◌, ◌≡◌, List, [], ◌∷◌, Option, none, some, Bool, true, false, ◌&&◌, arith, ℤ, sum_of, one,
}
use first_server.Net.Object.{set_socket_fd}
use first_server.Message.Dispatcher.{MessageDispatcher}
use first_server.Session.Connection.{
  ServiceSession, Request, io_recv, io_send_buffer, io_accept, io_close, accept_one, session_closed,
  request_receive, on_accepted, actor_request_close, on_receive_failed, on_received, request_close,
  accept_completion, send_completion, close_completion, recv_completion,
}
use first_server.Service.{IoOperation, complete_session}

-- 1 for an accept or a receive of the session `i`
abbrev pub read_of : ℕ → ℕ → Request → ℕ
read_of i session (io_recv span) = one i session
read_of i session (io_accept listen_fd) = one i session
read_of i session (io_send_buffer bytes) = 0
read_of i session io_close = 0
read_of i session accept_one = 0
read_of i session session_closed = 0

abbrev pub reads : ℕ → IoOperation → ℕ
reads i op = read_of i op.session op.kind

abbrev pub option_reads : ℕ → Option IoOperation → ℕ
option_reads i none = 0
option_reads i (some op) = reads i op

abbrev pub reads_of : ℕ → ℕ → List Request → ℕ
reads_of i session requests = sum_of (read_of i session) requests

-- An actor asks its session for sends and for its close, `Actor::request_send` and
-- `Actor::request_close`.
abbrev pub by_actor : Request → Bool
by_actor (io_send_buffer bytes) = true
by_actor io_close = true
by_actor (io_recv span) = false
by_actor (io_accept listen_fd) = false
by_actor accept_one = false
by_actor session_closed = false

abbrev pub by_actors : List (ℕ × Request) → Bool
by_actors [] = true
by_actors ((i, r) ∷ more) = by_actor r && by_actors more

module _ {ℓ} {H : Type ℓ} (d : MessageDispatcher H) where
  receive-reads : (i k : ℕ) (s : ServiceSession) → reads_of i k (request_receive s) ≤ one i k
  unfolding request_receive
  receive-reads i k s = ground arith

  failed-reads : (i k : ℕ) (s : ServiceSession) → reads_of i k (on_receive_failed s) ≡ 0
  unfolding on_receive_failed actor_request_close request_close
  failed-reads i k s = ground arith

  accepted-reads : (i k : ℕ) (s : ServiceSession) → reads_of i k (on_accepted s).1 ≤ one i k
  unfolding on_accepted request_receive
  accepted-reads i k s = ground arith

  -- Only the completion of an accept or a receive makes its session ask for a receive, and for one.
  pub complete-reads :
      (i k : ℕ) (r : Request) (result : ℤ) (session session' : ServiceSession)
      (requests : List Request)
      → complete_session d r result session ≡ some (session', requests)
      → reads_of i k requests ≤ read_of i k r
  unfolding complete_session accept_completion send_completion close_completion recv_completion
      on_received
  complete-reads i k (io_recv b) result s s' rs e =
      ground (arith, failed-reads i k s, receive-reads i k)
  complete-reads i k (io_send_buffer b) result s s' rs e = ground arith
  complete-reads i k (io_accept b) result s s' rs e =
      ground (arith, accepted-reads i k (record s { object = set_socket_fd result s.object }))
  complete-reads i k io_close result s s' rs e = ground arith
  complete-reads i k accept_one result s s' rs e = ground arith
  complete-reads i k session_closed result s s' rs e = ground arith
