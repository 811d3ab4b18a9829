-- ===== src/Client/Round.antt =====
-- The connections of test-client/TestClient.cc, and one round of its sends: a message to each of
-- them, with its number, its size and what fits of them as the text. The sizes are drawn at random;
-- they, what the system answers, and `std::to_string` are parameters. -1 stands for a connection
-- whose send has failed, and the sends to it are made all the same. `none`: a `send` is waiting.
pub mod Laws
use first_server.Common.{
  ℕ, zero, suc, ◌+◌, ◌%◌, List, [], ◌∷◌, ◌++◌, Option, none, some, Bool, ℤ, pos, negsuc,
  if◌then◌else◌,
}
use first_server.Client.{message, Answer, write_all}

-- How an attempt to connect ends: `socket` fails, `connect` fails, or there is a connection.
pub data Attempt : Type 0 where
  socket_failed : Attempt
  connect_failed : ℤ → Attempt
  connected : ℤ → Attempt

-- The connections, and the sockets that have been closed.
unfoldable pub connect_sockets : ℕ → ℕ → (ℕ → Attempt) → List ℤ × List ℤ
connect_sockets i zero attempts = ([], [])
connect_sockets i (suc left) attempts =
    let later = connect_sockets (suc i) left attempts in
    elim (attempts i) [
      | socket_failed ↦ ([], [])
      | connect_failed fd ↦ ([], fd ∷ [])
      | connected fd ↦ (fd ∷ later.0, later.1)
    ]

-- `socket_count`: 10000 without an argument; `strtoll` gives a number if the whole text is one
unfoldable pub socket_count : (List ℕ → Option ℤ) → Option (List ℕ) → Option ℕ
socket_count strtoll none = some 10000
socket_count strtoll (some text) = elim (strtoll text) [
  | none ↦ none
  | some (negsuc n) ↦ none
  | some (pos zero) ↦ none
  | some (pos (suc n)) ↦ some (suc n)
]

module _ (to_string : ℕ → List ℕ) where
  -- "client=...; msg=...; payload=...; "
  unfoldable pub text_of : ℕ → ℕ → ℕ → List ℕ
  text_of i msg_seq payload_size =
      (b'c' ∷ b'l' ∷ b'i' ∷ b'e' ∷ b'n' ∷ b't' ∷ b'=' ∷ to_string i)
      ++ (b';' ∷ b' ' ∷ b'm' ∷ b's' ∷ b'g' ∷ b'=' ∷ to_string msg_seq)
      ++ (b';'
          ∷ b' '
          ∷ b'p'
          ∷ b'a'
          ∷ b'y'
          ∷ b'l'
          ∷ b'o'
          ∷ b'a'
          ∷ b'd'
          ∷ b'='
          ∷ to_string payload_size)
      ++ (b';' ∷ b' ' ∷ [])

  unfoldable pub message_to : ℕ → ℕ → ℕ → List ℕ
  message_to i msg_seq payload_size =
      message (b'a' + i % 26) payload_size (text_of i msg_seq payload_size)

  -- The sends of a round from the connection `i` on: the connections after it, and what each peer
  -- has been given.
  unfoldable pub send_round :
      (ℕ → ℕ) → (ℕ → List Answer) → ℕ → ℕ → List ℤ → Option (List ℤ × List (List ℕ))
  send_round sizes answers i msg_seq [] = some ([], [])
  send_round sizes answers i msg_seq (fd ∷ sockets) =
      let later = send_round sizes answers (suc i) (suc msg_seq) sockets in
      elim (write_all (answers i) (message_to i msg_seq (sizes i)) []) [
        | none ↦ none
        | some (all_sent, given) ↦ elim later [
          | none ↦ none
          | some (sockets', more) ↦
              some ((if all_sent then fd else negsuc 0) ∷ sockets', given ∷ more)
        ]
      ]
