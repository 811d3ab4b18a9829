-- ===== src/Sample/Reply.antt =====
-- `timestamp_task` (sample-server/SampleServer.cc): the reply's header, and the sends that the task
-- asks of the actor's session. `total_send_size` is drawn at random, from 1 to 4000, and is an
-- argument here.
pub mod Laws
use first_server.Common.{
  ℕ, suc, List, [], ◌∷◌, ◌++◌, Option, none, some, Bool, false, if◌then◌else◌, ℤ, pos,
}
use first_server.Session.Connection.{ServiceSession, Request, actor_request_send}
use first_server.Sample.Handler.{read_seq, seq_prefix}
use first_server.Sample.Echo.{send_chunks}

-- "[OK] " or "[ERR] "
abbrev pub verdict : Bool → List ℕ
verdict sequential_ok =
    if sequential_ok
    then b'[' ∷ b'O' ∷ b'K' ∷ b']' ∷ b' ' ∷ []
    else b'[' ∷ b'E' ∷ b'R' ∷ b'R' ∷ b']' ∷ b' ' ∷ []

-- "sequential="
abbrev pub sequential_label : List ℕ
sequential_label = b's' ∷ b'e' ∷ b'q' ∷ b'u' ∷ b'e' ∷ b'n' ∷ b't' ∷ b'i' ∷ b'a' ∷ b'l' ∷ b'=' ∷ []

-- "true" or "false"
abbrev pub truth : Bool → List ℕ
truth b = if b then b't' ∷ b'r' ∷ b'u' ∷ b'e' ∷ [] else b'f' ∷ b'a' ∷ b'l' ∷ b's' ∷ b'e' ∷ []

-- "size="
abbrev pub size_label : List ℕ
size_label = b's' ∷ b'i' ∷ b'z' ∷ b'e' ∷ b'=' ∷ []

-- "; "
abbrev pub separator : List ℕ
separator = b';' ∷ b' ' ∷ []

module _ (to_string : ℤ → List ℕ) (stoll : List ℕ → Option ℤ) where
  unfoldable pub reply_header : Bool → ℤ → ℕ → List ℕ → List ℕ
  reply_header sequential_ok seq total_send_size message =
      verdict sequential_ok
      ++ (seq_prefix ++ (to_string seq ++ separator))
      ++ (sequential_label ++ (truth sequential_ok ++ separator))
      ++ (size_label ++ (to_string (pos total_send_size) ++ separator))
      ++ message

  -- the calls of `actor->request_send`, one for each buffer
  unfoldable pub request_sends : ℕ → List (List ℕ) → ServiceSession → List Request
  request_sends actor [] s = []
  request_sends actor (bytes ∷ more) s =
      actor_request_send actor bytes s ++ request_sends actor more s

  -- `sequential_ok` is set to false and to nothing else
  unfoldable pub timestamp_task : ℕ → ℕ → List ℕ → ServiceSession → Option (List Request)
  timestamp_task actor total_send_size message s =
      let seq = read_seq to_string stoll message in
      let header = reply_header false seq total_send_size message in
      elim (send_chunks (suc total_send_size) header total_send_size 0) [
        | none ↦ none
        | some sent ↦ some (request_sends actor sent s)
      ]
