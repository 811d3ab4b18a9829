-- ===== src/Message/Tests.antt =====
-- Send buffers and the table of handlers on concrete bytes.
use first_server.Common.{ℕ, List, [], ◌∷◌, pos}
use first_server.Message.Dispatcher.{MessageDispatcher}
use first_server.Message.SendBuffer.Refine.{Op, write_values, write_text, write_start, starts_anew}

abbrev arguments : List (List ℕ)
arguments = (9 ∷ 0 ∷ 0 ∷ 0 ∷ []) ∷ (65 ∷ []) ∷ []

abbrev ops : List Op
ops =
    write_values arguments
    ∷ write_text (66 ∷ 67 ∷ [])
    ∷ starts_anew
    ∷ write_start (65 ∷ 66 ∷ 67 ∷ []) 2
    ∷ []

abbrev dispatcher : MessageDispatcher ℕ
dispatcher = record { handlers = (pos 1, 7) ∷ [] }
