-- ===== src/Sample/Tests.antt =====
-- The handler and the send loop on concrete bytes.
use first_server.Common.{
  ℕ, ◌≡◌, refl, List, [], ◌∷◌, ◌++◌, Option, none, some, arith, drop, length, ℤ, pos, negsuc, le32,
  signed32, true, replicate, if◌then◌else◌, ◌==◌,
}
use first_server.Message.Header.{parse_message, sizeof_header}
use first_server.Session.Framing.Frames.{IsMessage}
use first_server.Sample.Handler.{c_string, passes, past_the_buffer, wrapped_message, handle}
use first_server.Sample.Handler.Laws.{handle-reads_on}
use first_server.Net.Object.{new_object}
use first_server.Session.Connection.{ServiceSession}

-- Numbers in unary, with a sign.
abbrev unary : ℤ → List ℕ
unary (pos n) = b'+' ∷ replicate n b'1'
unary (negsuc n) = b'-' ∷ replicate n b'1'

abbrev read_unary : List ℕ → Option ℤ
read_unary [] = none
read_unary (c ∷ digits) = some (if c == b'+' then pos (length digits) else negsuc (length digits))

abbrev hello : List ℕ
hello = 10 ∷ 0 ∷ 0 ∷ 0 ∷ 1 ∷ 0 ∷ 0 ∷ 0 ∷ b'h' ∷ b'i' ∷ []

hello-IsMessage : IsMessage hello
unfolding parse_message le32 signed32
hello-IsMessage = (omega arith, refl)

handle-reads_on_example :
    handle unary read_unary (pos 0) (pos 5) 10 (hello ++ (12 ∷ 0 ∷ []))
    ≡ (elim (c_string (12 ∷ 0 ∷ [])) [
      | none ↦ past_the_buffer
      | some more ↦
          passes
            (wrapped_message unary read_unary (pos 0) (pos 5) (drop sizeof_header hello ++ more))
    ])
handle-reads_on_example =
    handle-reads_on unary read_unary (pos 0) (pos 5) hello (12 ∷ 0 ∷ []) hello-IsMessage
      (omega arith) refl

abbrev replier : ServiceSession
replier = record {
  object = new_object;
  service_instance = true;
  main_actor = some 0;
  actors = record { session = true } ∷ [];
}
