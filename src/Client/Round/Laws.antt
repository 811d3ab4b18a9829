-- ===== src/Client/Round/Laws.antt =====
-- From the client's rounds to the server's handlers.
use first_server.Common.{
  ℕ, suc, ◌+◌, ◌%◌, ◌≤◌, ◌≡◌, refl, ap, ◌∙◌, List, [], ◌∷◌, ◌++◌, Option, some, true, arith, ℤ, pos,
  length, map, le32, signed32, memcpy,
}
use first_server.Net.Object.{get_received_span}
use first_server.Net.Object.Laws.{Holds}
use first_server.Message.Header.{parse_message}
use first_server.Message.Dispatcher.{MessageDispatcher, Call, find}
use first_server.Session.Connection.{ServiceSession}
use first_server.Session.Framing.Frames.{NoMessage-short, AllMessages, concat}
use first_server.Session.Framing.Laws.{calls}
use first_server.Session.Stream.Defs.{feed}
use first_server.Session.Stream.Live.{AllFit, AllPositive, feed_delivers}
use first_server.Client.{message, Answer, write_all}
use first_server.Client.Laws.{message-IsMessage, length-message, Progress, write_all_lem}
use first_server.Client.Round.{text_of, message_to, send_round}

type-message :
    (fill n : ℕ) (prefix : List ℕ) → (parse_message (message fill n prefix)).message_type ≡ 1
unfolding message parse_message memcpy le32
type-message fill n prefix = refl

module _ (to_string : ℕ → List ℕ) where
  type-message_to :
      (i msg_seq n : ℕ) → (parse_message (message_to to_string i msg_seq n)).message_type ≡ 1
  unfolding message_to
  type-message_to i msg_seq n = type-message _ n _

  -- Every peer has got a whole message, and no connection is lost.
  pub record RoundSent (sockets : List ℤ) (result : Option (List ℤ × List (List ℕ))) : Type 0 where
    pub sent : List (List ℕ)
    pub returns : result ≡ some (sockets, sent)
    pub one_each : length sent ≡ length sockets
    pub messages : AllMessages sent
    pub fit : AllFit sent

  -- If every payload has at most 4000 bytes, and `send` takes a byte or more at each of as many
  -- answers as a message has bytes, then a round of the test client ends with all of its
  -- connections, and has given each peer one whole message, which fits into the server's receive
  -- buffer.
  pub send_round-RoundSent :
      (sizes : ℕ → ℕ) (answers : ℕ → List Answer)
      → ((i : ℕ) → sizes i ≤ 4000)
      → ((i : ℕ) → Progress (8 + sizes i) (answers i))
      → (i msg_seq : ℕ) (sockets : List ℤ)
      → RoundSent sockets (send_round to_string sizes answers i msg_seq sockets)
  unfolding send_round message_to
  send_round-RoundSent sizes answers small takes i msg_seq [] = record {
    sent = [];
    returns = refl;
    one_each = refl;
    messages = tt;
    fit = tt;
  }
  send_round-RoundSent sizes answers small takes i msg_seq (fd ∷ sockets) =
      let m = message_to to_string i msg_seq (sizes i) in
      let len : length m ≡ 8 + sizes i = length-message _ (sizes i) _ in
      let first : write_all (answers i) m [] ≡ some (true, m) =
        write_all_lem (answers i) m [] (rw len (takes i)) in
      let later = send_round-RoundSent sizes answers small takes (suc i) (suc msg_seq) sockets in
      let (whole, fits) =
        message-IsMessage (b'a' + i % 26) (sizes i) (text_of to_string i msg_seq (sizes i))
          (small i) in
      record {
        sent = m ∷ later.sent;
        returns = rw (first, later.returns, send_round) refl;
        one_each = ap suc later.one_each;
        messages = (whole, later.messages);
        fit = (fits, later.fit);
      }

  -- What the connection `i` is given over the rounds, in each of which its number is `i` again.
  abbrev pub messages_over : ℕ → List ℕ → List (List ℕ)
  messages_over i [] = []
  messages_over i (n ∷ ns) = message_to to_string i i n ∷ messages_over i ns

  abbrev pub AllSmall : List ℕ → Type 0
  AllSmall [] = Unit
  AllSmall (n ∷ ns) = (n ≤ 4000) × AllSmall ns

  messages_over-all :
      (i : ℕ) (payloads : List ℕ)
      → AllSmall payloads
      → AllMessages (messages_over i payloads) × AllFit (messages_over i payloads)
  unfolding message_to
  messages_over-all i [] small = (tt, tt)
  messages_over-all i (n ∷ ns) small =
      let (whole, fits) = message-IsMessage (b'a' + i % 26) n (text_of to_string i i n) small.0 in
      let (messages, fit) = messages_over-all i ns small.1 in ((whole, messages), (fits, fit))

  module _ {ℓ} {H : Type ℓ} (d : MessageDispatcher H) where
    abbrev pub call_of : H → Option ℕ → List ℕ → Call H
    call_of h actor m = record { handler = h; bytes = m; actor = actor }

    calls-messages_over :
        (h : H) (actor : Option ℕ) (i : ℕ) (payloads : List ℕ)
        → find (pos 1) d.handlers ≡ some h
        → calls d actor (messages_over i payloads)
          ≡ map (call_of h actor) (messages_over i payloads)
    unfolding signed32
    calls-messages_over h actor i [] registered = refl
    calls-messages_over h actor i (n ∷ ns) registered =
        let m = message_to to_string i i n in
        let later = calls-messages_over h actor i ns registered in
        let found : find (signed32 (parse_message m).message_type) d.handlers ≡ some h =
          ap (λ t. find (signed32 t) d.handlers) (type-message_to i i n) ∙ registered in
        rw (found, calls) (ap (◌∷◌ (call_of h actor m)) later)

    -- Let the server have a handler for the type 1, and a session that is given what one
    -- connection of the test client sends over its rounds, with payloads of at most 4000 bytes,
    -- nothing being left from before. If there are as many receives as there are bytes, and each
    -- asks for a byte or more, then the handler is called once with each message, in order,
    -- however the kernel cuts the stream, and no byte is left in the buffer.
    pub messages_over-handled :
        (h : H) (i : ℕ) (payloads sizes : List ℕ)
        → find (pos 1) d.handlers ≡ some h
        → AllSmall payloads
        → {n : ℕ} (s : ServiceSession) (log : List (Call H)) → Holds n s.object
        → get_received_span s.object ≡ []
        → AllPositive sizes
        → length (concat (messages_over i payloads)) ≤ length sizes
        → (final : ServiceSession) × (feed d sizes (concat (messages_over i payloads)) s log
            ≡ some ([], final, log ++ map (call_of h s.main_actor) (messages_over i payloads)))
          × (get_received_span final.object ≡ [])
    messages_over-handled h i payloads sizes registered small s log v empty positive enough =
        let all = messages_over i payloads in
        let (messages, fit) = messages_over-all i payloads small in
        let (final, ends, clear) =
          feed_delivers d sizes (concat all) s log all v
            (rw empty (NoMessage-short [] (omega arith))) (ap (λ b. b ++ concat all) empty) messages
            fit positive enough in
        (
          final,
          ends
              ∙ ap (λ l. some ([], final, log ++ l))
                  (calls-messages_over h s.main_actor i payloads registered),
          clear,
        )
