-- ===== src/Session/Tests.antt =====
-- Runs of a session on concrete bytes.
use first_server.Common.{
  ℕ, ◌≡◌, ◌≤◌, refl, inr, List, [], ◌∷◌, ◌++◌, some, none, Option, true, arith, pos, length, le32,
  signed32, sym, subst,
}
use first_server.Net.Object.{IoUringObject, new_object, commit, get_received_span}
use first_server.Net.Object.Laws.{Holds, new_object-Holds, commit-Holds, received-commit, written}
use first_server.Message.Header.{parse_message}
use first_server.Message.Dispatcher.{MessageDispatcher, Call}
use first_server.Session.Broadcast.{send_messages, sent_bytes, one_each, send_messages-one_each}
use first_server.Session.Framing.{deliver}
use first_server.Session.Framing.Frames.{IsMessage, NoMessage, NoMessage-short}
use first_server.Session.Framing.Laws.{calls, Delivered, deliver-Delivered}
use first_server.Session.Connection.{ServiceSession}
use first_server.Session.Stream.Defs.{feed}
use first_server.Session.Stream.Laws.{Fed, feed-Fed}
use first_server.Session.Stream.Cut.{feed_cut}
use first_server.Session.Stream.Live.{AllPositive, feed_delivers}
use first_server.Session.Stream.Stall.{IsHopeless, feed-IsHopeless}

-- Messages of the type 1 have the handler 7.
abbrev dispatcher : MessageDispatcher ℕ
dispatcher = record { handlers = (pos 1, 7) ∷ [] }

abbrev hello : List ℕ
hello = 10 ∷ 0 ∷ 0 ∷ 0 ∷ 1 ∷ 0 ∷ 0 ∷ 0 ∷ 65 ∷ 66 ∷ []

abbrev session_with : IoUringObject → ServiceSession
session_with o = record {
  object = o;
  service_instance = true;
  main_actor = some 0;
  actors = record { session = true } ∷ [];
}

abbrev session : ServiceSession
session = session_with new_object

abbrev sizes : List ℕ
sizes = 3 ∷ 3 ∷ 3 ∷ 3 ∷ 3 ∷ 3 ∷ 3 ∷ 3 ∷ 3 ∷ 3 ∷ []

hello-IsMessage : IsMessage hello
unfolding parse_message le32 signed32
hello-IsMessage = (omega arith, refl)

nothing_received : NoMessage (get_received_span new_object)
unfolding get_received_span new_object
nothing_received = NoMessage-short [] (omega arith)

feed_delivers_example :
    (final : ServiceSession) × (feed dispatcher sizes hello session []
      ≡ some ([], final, [] ++ calls dispatcher (some 0) (hello ∷ [])))
    × (get_received_span final.object ≡ [])
unfolding get_received_span new_object
feed_delivers_example =
    feed_delivers dispatcher sizes hello session [] (hello ∷ []) new_object-Holds nothing_received
      refl (hello-IsMessage, tt) (omega arith, tt) (omega arith) (omega arith)

-- The message comes whole, whatever the sizes are.
hello_fed :
    (sizes : List ℕ)
    → AllPositive sizes
    → 10 ≤ length sizes
    → (final : ServiceSession) × (feed dispatcher sizes hello session []
        ≡ some ([], final, [] ++ calls dispatcher (some 0) (hello ∷ [])))
      × (get_received_span final.object ≡ [])
unfolding get_received_span new_object
hello_fed sizes positive enough =
    feed_delivers dispatcher sizes hello session [] (hello ∷ []) new_object-Holds nothing_received
      refl (hello-IsMessage, tt) (omega arith, tt) positive enough

abbrev other_sizes : List ℕ
other_sizes = 1 ∷ 8 ∷ 2 ∷ 2 ∷ 2 ∷ 2 ∷ 2 ∷ 2 ∷ 2 ∷ 2 ∷ []

abbrev calls_of_hello : List (Call ℕ)
calls_of_hello = calls dispatcher (some 0) (hello ∷ [])

feed_cut_example :
    (calls_of_hello ≡ calls_of_hello)
    × (get_received_span (hello_fed sizes (omega arith) (omega arith)).0.object
        ≡ get_received_span (hello_fed other_sizes (omega arith) (omega arith)).0.object)
feed_cut_example =
    feed_cut dispatcher sizes other_sizes hello session [] new_object-Holds nothing_received []
      (hello_fed sizes (omega arith) (omega arith)).0
      (hello_fed other_sizes (omega arith) (omega arith)).0 calls_of_hello calls_of_hello
      (hello_fed sizes (omega arith) (omega arith)).1
      (hello_fed other_sizes (omega arith) (omega arith)).1

feed-Fed_example : Fed dispatcher session hello [] (feed dispatcher sizes hello session [])
feed-Fed_example = feed-Fed dispatcher sizes hello session [] new_object-Holds nothing_received

abbrev filled : List ℕ → IoUringObject
filled bytes = commit (pos (length bytes)) (written new_object 0 bytes)

filled-Holds : Holds 10 (filled hello)
filled-Holds = commit-Holds new_object-Holds hello (omega arith)

deliver-Delivered_example :
    Delivered dispatcher
      (some 0)
      (filled hello)
      []
      (deliver dispatcher (some 0) 11 (filled hello) [])
deliver-Delivered_example =
    deliver-Delivered dispatcher (some 0) 11 10 [] filled-Holds (omega arith)

-- A header that states 5000 bytes.
abbrev too_large : List ℕ
too_large = 136 ∷ 19 ∷ 0 ∷ 0 ∷ 1 ∷ 0 ∷ 0 ∷ 0 ∷ []

too_large-IsHopeless : IsHopeless (get_received_span (filled too_large))
unfolding parse_message le32 signed32 get_received_span new_object
too_large-IsHopeless =
    subst IsHopeless (sym (received-commit new_object-Holds too_large (omega arith)))
      (omega arith, inr refl)

too_large-Holds : Holds 8 (filled too_large)
too_large-Holds = commit-Holds new_object-Holds too_large (omega arith)

feed-IsHopeless_example :
    (rest : List ℕ) × (final : ServiceSession) × (feed dispatcher sizes hello
        (session_with (filled too_large))
        []
      ≡ some (rest, final, []))
    × IsHopeless (get_received_span final.object)
feed-IsHopeless_example =
    feed-IsHopeless dispatcher sizes hello (session_with (filled too_large)) [] too_large-Holds
      too_large-IsHopeless

abbrev actor_list : List (Option (ServiceSession × ℕ))
actor_list = some (session, 0) ∷ none ∷ some (session, 3) ∷ []

send_messages-one_each_example :
    send_messages ((1 ∷ 2 ∷ []) ∷ (3 ∷ []) ∷ []) actor_list
    ≡ one_each (sent_bytes ((1 ∷ 2 ∷ []) ∷ (3 ∷ []) ∷ [])) actor_list
send_messages-one_each_example = send_messages-one_each ((1 ∷ 2 ∷ []) ∷ (3 ∷ []) ∷ []) actor_list
