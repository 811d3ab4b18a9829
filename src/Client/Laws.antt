-- ===== src/Client/Laws.antt =====
-- The client's messages are messages of the server, and are sent whole.
use first_server.Common.{
  ℕ, zero, suc, ◌+◌, ◌*◌, ◌/◌, ◌%◌, ◌≤◌, ◌<◌, ◌≡◌, sym, ap, ◌∙◌, List, [], ◌∷◌, ◌++◌, some, Bool,
  true, false, arith, min, length, take, drop, replicate, memcpy, length-memcpy, length-replicate,
  length-take, length-drop, append_assoc, append-nil, le32, signed32, pos, if◌then◌else◌, ltb,
  take-append-drop,
}
use first_server.Message.Header.{parse_message}
use first_server.Session.Framing.Frames.{IsMessage}
use first_server.Net.Object.{max_receive_buffer_size}
use first_server.Client.{
  header, message, Answer, sent_more, sent_none, interrupted, failed, write_all,
}

word-bytes :
    (n : ℕ)
    → n < 4294967296
    → (n % 256)
        + 256 * (n / 256 % 256)
        + 65536 * (n / 65536 % 256)
        + 16777216 * (n / 16777216 % 256)
      ≡ n
word-bytes n h = omega arith

pub length-message : (fill n : ℕ) (prefix : List ℕ) → length (message fill n prefix) ≡ 8 + n
unfolding message
length-message fill n prefix = omega (
  arith,
  length-memcpy (header n ++ replicate n fill) 8 (take (min (length prefix) n) prefix)
      (omega (arith, length-replicate n fill, length-take (min (length prefix) n) prefix)),
  length-replicate n fill,
)

size-message :
    (fill n : ℕ) (prefix : List ℕ)
    → n ≤ 4000
    → (parse_message (message fill n prefix)).size ≡ pos (8 + n)
unfolding message parse_message memcpy le32 signed32
size-message fill n prefix h = rw (word-bytes (8 + n) (omega arith)) (ground arith)

-- A message that the test client builds, with a payload of at most 4000 bytes, is a whole message
-- for the server, whose header counts its bytes, and it fits into the receive buffer.
pub message-IsMessage :
    (fill n : ℕ) (prefix : List ℕ)
    → n ≤ 4000
    → IsMessage (message fill n prefix) × (length (message fill n prefix) ≤ max_receive_buffer_size)
message-IsMessage fill n prefix h = (
  (
    omega (arith, length-message fill n prefix),
    size-message fill n prefix h ∙ ap pos (sym (length-message fill n prefix)),
  ),
  omega (arith, length-message fill n prefix),
)

-- Answers that take `n` bytes at least: none of them is a failure before that.
abbrev pub Progress : ℕ → List Answer → Type 0
Progress zero answers = Unit
Progress (suc n) [] = ⊥
Progress (suc n) (sent_more k ∷ answers) = Progress n answers
Progress (suc n) (interrupted ∷ answers) = Progress (suc n) answers
Progress (suc n) (sent_none ∷ answers) = ⊥
Progress (suc n) (failed ∷ answers) = ⊥

Progress-le : (m n : ℕ) (answers : List Answer) → m ≤ n → Progress n answers → Progress m answers
Progress-le zero n answers h p = tt
Progress-le (suc m) zero answers h p = absurd (omega arith)
Progress-le (suc m) (suc n) [] h p = p
Progress-le (suc m) (suc n) (sent_more k ∷ answers) h p = Progress-le m n answers (omega arith) p
Progress-le (suc m) (suc n) (interrupted ∷ answers) h p = Progress-le (suc m) (suc n) answers h p
Progress-le (suc m) (suc n) (sent_none ∷ answers) h p = p
Progress-le (suc m) (suc n) (failed ∷ answers) h p = p

taken :
    (out : List ℕ) (b : ℕ) (n : ℕ) (l : List ℕ)
    → (out ++ (b ∷ take n l)) ++ drop n l ≡ out ++ (b ∷ l)
taken out b n l =
    append_assoc out (b ∷ take n l) (drop n l) ∙ ap (λ x. out ++ (b ∷ x)) (take-append-drop n l)

-- If `send` takes a byte or more at each of as many answers as there are bytes, with any
-- interrupted calls between them, then `write_all` ends with success and the peer has been given
-- all bytes in order.
pub write_all_lem :
    (answers : List Answer) (bytes out : List ℕ)
    → Progress (length bytes) answers
    → write_all answers bytes out ≡ some (true, out ++ bytes)
unfolding write_all
write_all_lem answers [] out p = ap (λ l. some (true, l)) (sym (append-nil out))
write_all_lem [] (b ∷ bytes) out p = absurd p
write_all_lem (sent_more n ∷ answers) (b ∷ bytes) out p =
    write_all_lem answers (drop n bytes) (out ++ (b ∷ take n bytes)) (
      Progress-le (length (drop n bytes)) (length bytes) answers
        (omega (arith, length-drop n bytes)) p)
    ∙ ap (λ l. some (true, l)) (taken out b n bytes)
write_all_lem (interrupted ∷ answers) (b ∷ bytes) out p = write_all_lem answers (b ∷ bytes) out p
write_all_lem (sent_none ∷ answers) (b ∷ bytes) out p = absurd p
write_all_lem (failed ∷ answers) (b ∷ bytes) out p = absurd p

-- What a run that has come back has sent: a front part of the bytes, and all of them exactly if it
-- says so.
pub record Sent (bytes out : List ℕ) (success : Bool) (out' : List ℕ) : Type 0 where
  pub left : List ℕ
  pub split : out ++ bytes ≡ out' ++ left
  pub complete : success ≡ (if ltb 0 (length left) then false else true)

-- However `send` answers, when `write_all` comes back it has given the peer a front part of the
-- bytes, in order, and it returns success exactly if no byte is left.
pub write_all-Sent :
    (answers : List Answer) (bytes out : List ℕ) (success : Bool) (out' : List ℕ)
    → write_all answers bytes out ≡ some (success, out')
    → Sent bytes out success out'
unfolding write_all
write_all-Sent answers [] out success out' e = record {
  left = [];
  split = append-nil out ∙ ground (arith, e) ∙ sym (append-nil out');
  complete = ground (arith, e);
}
write_all-Sent [] (b ∷ bytes) out success out' e = absurd (cc)
write_all-Sent (sent_more n ∷ answers) (b ∷ bytes) out success out' e =
    let later = write_all-Sent answers (drop n bytes) (out ++ (b ∷ take n bytes)) success out' e in
    record {
      left = later.left;
      split = sym (taken out b n bytes) ∙ later.split;
      complete = later.complete;
    }
write_all-Sent (interrupted ∷ answers) (b ∷ bytes) out success out' e =
    write_all-Sent answers (b ∷ bytes) out success out' e
write_all-Sent (sent_none ∷ answers) (b ∷ bytes) out success out' e = record {
  left = b ∷ bytes;
  split = ground (arith, e);
  complete = ground (arith, e);
}
write_all-Sent (failed ∷ answers) (b ∷ bytes) out success out' e = record {
  left = b ∷ bytes;
  split = ground (arith, e);
  complete = ground (arith, e);
}
