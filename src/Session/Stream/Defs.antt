-- ===== src/Session/Stream/Defs.antt =====
-- A run of receives on one connection, at sizes that the kernel chooses.
use first_server.Common.{ℕ, List, [], ◌∷◌, Option, none, some, pos, min, length, take, drop, memcpy}
use first_server.Net.Object.{get_remain_span}
use first_server.Message.Dispatcher.{MessageDispatcher, Call}
use first_server.Session.Connection.{ServiceSession, recv_completion}

-- The kernel's part of a receive: it writes what it gives at the start of the span.
abbrev pub receives : ServiceSession → List ℕ → ServiceSession
receives s bytes = record s {
  object = record (s.object) {
    buffer = memcpy s.object.buffer (get_remain_span s.object).offset bytes;
  };
}

-- At most `n` of the next bytes of the stream, and at most what was asked for.
abbrev pub given : ServiceSession → ℕ → ℕ
given s n = min n (get_remain_span s.object).size

module _ {ℓ} {H : Type ℓ} (d : MessageDispatcher H) where
  unfoldable pub feed :
      List ℕ
      → List ℕ
      → ServiceSession
      → List (Call H)
      → Option (List ℕ × ServiceSession × List (Call H))
  feed [] stream s log = some (stream, s, log)
  feed (n ∷ ns) stream s log =
      let chunk = take (given s n) stream in
      elim (recv_completion d (pos (length chunk)) (receives s chunk) log) [
        | none ↦ none
        | some out ↦ feed ns (drop (given s n) stream) out.session out.log
      ]
