-- ===== src/Client.antt =====
-- test-client/TestClient.cc: the messages that the test client sends, and how it sends them.
-- What `send` returns is an argument; the loop ends with the answers, `none`: `send` is still waiting.
pub mod Laws
pub mod Round
pub mod Receive
pub mod Tests
use first_server.Common.{
  ℕ, zero, suc, ◌+◌, ◌*◌, ◌/◌, ◌%◌, min, List, [], ◌∷◌, ◌++◌, Option, none, some, Bool, true, false,
  if◌then◌else◌, length, take, drop, replicate, memcpy,
}

-- A 32-bit word in memory.
abbrev pub word_bytes : ℕ → List ℕ
word_bytes n = n % 256 ∷ n / 256 % 256 ∷ n / 65536 % 256 ∷ n / 16777216 % 256 ∷ []

-- `MessageHeader hdr`, with `hdr.message_type = 1`
abbrev pub header : ℕ → List ℕ
header payload_size = word_bytes (8 + payload_size) ++ word_bytes 1

-- `out`: the header, `payload_size` bytes `fill`, and over them what fits of `prefix`.
unfoldable pub message : ℕ → ℕ → List ℕ → List ℕ
message fill payload_size prefix =
    memcpy (header payload_size ++ replicate payload_size fill) 8
      (take (min (length prefix) payload_size) prefix)

-- What a call of `send` gives: at least one byte taken, none, or an error, which may be `EINTR`.
pub data Answer : Type 0 where
  sent_more : ℕ → Answer
  sent_none interrupted failed : Answer

-- `sent_more n` takes `n + 1` bytes, or all of them. The second list is what the peer gets.
unfoldable pub write_all : List Answer → List ℕ → List ℕ → Option (Bool × List ℕ)
write_all answers [] out = some (true, out)
write_all [] (b ∷ data_left) out = none
write_all (sent_more n ∷ answers) (b ∷ data_left) out =
    write_all answers (drop n data_left) (out ++ (b ∷ take n data_left))
write_all (sent_none ∷ answers) (b ∷ data_left) out = some (false, out)
write_all (interrupted ∷ answers) (b ∷ data_left) out = write_all answers (b ∷ data_left) out
write_all (failed ∷ answers) (b ∷ data_left) out = some (false, out)
