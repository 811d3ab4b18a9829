-- ===== src/Client/Tests.antt =====
-- A short message, sent in pieces.
use first_server.Common.{
  zero, suc, memcpy, pos, map, replicate, ◌≡◌, refl, List, [], ◌∷◌, ◌++◌, some, true, false, arith,
  ℕ, negsuc,
}
use first_server.Client.{message, Answer, sent_more, interrupted, failed, write_all}
use first_server.Client.Laws.{write_all_lem}
use first_server.Net.Object.{new_object, get_received_span}
use first_server.Net.Object.Laws.{new_object-Holds}
use first_server.Message.Dispatcher.{MessageDispatcher, find}
use first_server.Session.Connection.{ServiceSession}
use first_server.Session.Framing.Frames.{concat}
use first_server.Session.Stream.Defs.{feed}
use first_server.Client.Receive.{
  Registration, bytes, at_end, Event, EpollWait, wait_interrupted, reports,
}
use first_server.Client.Round.{text_of, message_to, send_round}
use first_server.Client.Round.Laws.{
  RoundSent, send_round-RoundSent, messages_over, call_of, messages_over-handled,
}

abbrev answers : List Answer
answers = sent_more 0 ∷ interrupted ∷ sent_more 7 ∷ sent_more 0 ∷ []

write_all_lem_example : write_all answers (1 ∷ 2 ∷ 3 ∷ []) [] ≡ some (true, [] ++ (1 ∷ 2 ∷ 3 ∷ []))
write_all_lem_example = write_all_lem answers (1 ∷ 2 ∷ 3 ∷ []) [] tt

stopped : write_all (sent_more 0 ∷ failed ∷ []) (1 ∷ 2 ∷ 3 ∷ []) [] ≡ some (false, 1 ∷ [])
unfolding write_all
stopped = refl

-- Numbers as one letter.
abbrev letter : ℕ → List ℕ
letter n = b'n' ∷ []

abbrev ones : ℕ → List Answer
ones zero = []
ones (suc n) = sent_more 0 ∷ ones n

send_round-RoundSent_example :
    RoundSent letter
      (pos 7 ∷ pos 8 ∷ [])
      (send_round letter (λ i. 2) (λ i. ones 10) 0 0 (pos 7 ∷ pos 8 ∷ []))
send_round-RoundSent_example =
    send_round-RoundSent letter (λ i. 2) (λ i. ones 10) (λ i. omega arith) (λ i. tt) 0 0
      (pos 7 ∷ pos 8 ∷ [])

-- Messages of the type 1 have the handler 5.
abbrev dispatcher : MessageDispatcher ℕ
dispatcher = record { handlers = (pos 1, 5) ∷ [] }

abbrev session : ServiceSession
session = record {
  object = new_object;
  service_instance = true;
  main_actor = some 0;
  actors = record { session = true } ∷ [];
}

abbrev payloads : List ℕ
payloads = 1 ∷ 3 ∷ []

nothing_received : get_received_span new_object ≡ []
unfolding get_received_span new_object
nothing_received = refl

abbrev receives : List ℕ
receives = replicate 30 5

handler_found : find (pos 1) dispatcher.handlers ≡ some 5
unfolding find
handler_found = refl

messages_over-handled_example :
    (final : ServiceSession) × (feed dispatcher receives
        (concat (messages_over letter 3 payloads))
        session
        []
      ≡ some (
        [],
        final,
        [] ++ map (call_of letter dispatcher 5 (some 0)) (messages_over letter 3 payloads),
      ))
    × (get_received_span final.object ≡ [])
unfolding message_to message memcpy text_of
messages_over-handled_example =
    messages_over-handled letter dispatcher 5 3 payloads receives handler_found
      (omega arith, (omega arith, tt)) session [] new_object-Holds nothing_received (omega arith)
      (omega arith)

-- Two sockets, of which the second one's registration fails, and one whose send has failed.
abbrev registrations : ℕ → Registration
registrations fd = elim fd [
  | zero ↦ record { flags = pos 0; set_flags = pos 0; added = pos 0 }
  | suc n ↦ record { flags = pos 0; set_flags = pos 0; added = negsuc 0 }
]

abbrev reads_then_end : Event
reads_then_end = record {
  place = 0;
  has_error = false;
  has_input = true;
  answers = bytes 4 ∷ bytes 9 ∷ at_end ∷ [];
}

abbrev epoll_waits : List EpollWait
epoll_waits = wait_interrupted ∷ reports (reads_then_end ∷ []) ∷ []
