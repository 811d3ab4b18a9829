-- ===== src/Session/Broadcast.antt =====
-- `SendMessage` to one actor and to many (braid/src/service/include/braid/message/MessageHeader.h).
-- An actor is given by its session and its place among the session's actors; `none` is a null
-- pointer. The values that are written are their bytes.
use first_server.Common.{
  ℕ, ◌≡◌, refl, ap, List, [], ◌∷◌, Option, none, some, Bool, false, if◌then◌else◌, arith, length,
  leb, get_elem?,
}
use first_server.Message.SendBuffer.{new_buffer, write, get_buffer, max_message_size}
use first_server.Message.SendBuffer.Laws.{
  joined, new_buffer-Holds, write-Wrote, get_buffer-new_buffer,
}
use first_server.Session.Connection.{
  ServiceSession, Request, io_send_buffer, request_send, actor_request_send,
}

-- the requests of the actor's session
unfoldable pub send_message : List (List ℕ) → Option (ServiceSession × ℕ) → List Request
unfolding actor_request_send
send_message args none = []
send_message args (some (session, i)) =
    actor_request_send i (get_buffer (write args new_buffer)) session

unfoldable pub send_to_all : List ℕ → List (Option (ServiceSession × ℕ)) → List (List Request)
unfolding actor_request_send
send_to_all bytes [] = []
send_to_all bytes (none ∷ rest) = [] ∷ send_to_all bytes rest
send_to_all bytes (some (session, i) ∷ rest) =
    actor_request_send i bytes session ∷ send_to_all bytes rest

-- To each actor of a list the same buffer.
unfoldable pub send_messages :
    List (List ℕ) → List (Option (ServiceSession × ℕ)) → List (List Request)
unfolding send_to_all
send_messages args actor_list = send_to_all (get_buffer (write args new_buffer)) actor_list

-- What an actor's client is to get: all the values, or nothing of them if they are too long.
abbrev pub sent_bytes : List (List ℕ) → List ℕ
sent_bytes args = if leb (length (joined args)) max_message_size then joined args else []

-- The actor has its session, and that has its service.
abbrev pub is_connected : Option (ServiceSession × ℕ) → Bool
is_connected none = false
is_connected (some (session, i)) = elim (get_elem? session.actors i) [
  | none ↦ false
  | some actor ↦ if actor.session then session.service_instance else false
]

abbrev pub one_each : List ℕ → List (Option (ServiceSession × ℕ)) → List (List Request)
one_each bytes [] = []
one_each bytes (actor ∷ rest) =
    (if is_connected actor then io_send_buffer bytes ∷ [] else []) ∷ one_each bytes rest

written-sent_bytes : (args : List (List ℕ)) → get_buffer (write args new_buffer) ≡ sent_bytes args
written-sent_bytes args = ground (arith, write-Wrote new_buffer-Holds args, get_buffer-new_buffer)

request-connected :
    (i : ℕ) (bytes : List ℕ) (session : ServiceSession)
    → actor_request_send i bytes session
      ≡ (if is_connected (some (session, i)) then io_send_buffer bytes ∷ [] else [])
unfolding actor_request_send request_send
request-connected i bytes session = ground arith

send_to_all-one_each :
    (bytes : List ℕ) (actor_list : List (Option (ServiceSession × ℕ)))
    → send_to_all bytes actor_list ≡ one_each bytes actor_list
unfolding send_to_all
send_to_all-one_each bytes [] = refl
send_to_all-one_each bytes (none ∷ rest) = ap (◌∷◌ []) (send_to_all-one_each bytes rest)
send_to_all-one_each bytes (some (session, i) ∷ rest) =
    rw (request-connected i bytes session, send_to_all-one_each bytes rest) refl

-- `SendMessage` to a list of actors asks for one send at each actor that has its session while the
-- session has its service, of the values' bytes one after the other if they fit into a send buffer
-- and of no bytes if not, and for none at the other actors.
pub send_messages-one_each :
    (args : List (List ℕ)) (actor_list : List (Option (ServiceSession × ℕ)))
    → send_messages args actor_list ≡ one_each (sent_bytes args) actor_list
unfolding send_messages
send_messages-one_each args actor_list =
    rw (written-sent_bytes args) (send_to_all-one_each (sent_bytes args) actor_list)
