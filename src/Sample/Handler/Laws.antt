-- ===== src/Sample/Handler/Laws.antt =====
-- The numbers that the handler gives, and the bytes that it passes on.
use first_server.Common.{
  ℕ, ◌<◌, ◌≡◌, ap, List, [], ◌∷◌, ◌++◌, Option, none, some, Bool, true, false, if◌then◌else◌, arith,
  ◌==◌, ℤ, length, drop, drop-append_left,
}
use first_server.Message.Header.{sizeof_header}
use first_server.Session.Framing.Frames.{IsMessage, parse_message-append}
use first_server.Sample.Handler.{c_string, passes, past_the_buffer, wrapped_message, handle}

-- no byte of a string is `c`
abbrev pub lacks : ℕ → List ℕ → Bool
lacks c [] = true
lacks c (x ∷ xs) = if x == c then false else lacks c xs

module _ (to_string : ℤ → List ℕ) (stoll : List ℕ → Option ℤ) where
  c_string-lacks :
      (xs rest : List ℕ)
      → lacks 0 xs ≡ true
      → c_string (xs ++ rest) ≡ (elim (c_string rest) [ none ↦ none | some s ↦ some (xs ++ s) ])
  unfolding c_string
  c_string-lacks [] rest h = ground arith
  c_string-lacks (x ∷ xs) rest h = ground (arith, c_string-lacks xs rest)

  -- For a whole message with a text that has no zero byte, the handler passes on the text and with
  -- it all bytes that stand behind the message up to the next zero byte; if there is none, it
  -- reads past the bytes in memory.
  pub handle-reads_on :
      (seq current_time : ℤ) (m later : List ℕ)
      → IsMessage m
      → sizeof_header < length m
      → lacks 0 (drop sizeof_header m) ≡ true
      → handle to_string stoll seq current_time (length m) (m ++ later) ≡ (elim (c_string later) [
        | none ↦ past_the_buffer
        | some more ↦
            passes (wrapped_message to_string stoll seq current_time (drop sizeof_header m ++ more))
      ])
  unfolding handle
  handle-reads_on seq current_time m later w long plain = ground (
    arith,
    w,
    ap (λ h. h.size) (parse_message-append m later w.0),
    ap c_string (drop-append_left sizeof_header m later w.0),
    c_string-lacks (drop sizeof_header m) later plain,
  )
