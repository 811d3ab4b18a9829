-- ===== src/Sample/Echo.antt =====
-- The send loop of `timestamp_task` (sample-server/SampleServer.cc): `total_send_size` bytes, in
-- buffers of at most `chunk_size`, filled with 'x' and overlaid with the reply's header. The size is
-- drawn at random by the source, and is an argument here. The loop runs on fuel; a round sends at
-- least a byte, so one round more than there are bytes is enough.
pub mod Laws
use first_server.Common.{
  ℕ, zero, suc, ◌+◌, ◌-◌, List, [], ◌∷◌, ◌++◌, Option, none, some, true, false, if◌then◌else◌, ltb,
  min, pos, length, take, drop, replicate,
}
use first_server.Message.SendBuffer.{new_buffer, write_chars, get_buffer}

abbrev pub chunk_size : ℕ
chunk_size = 1024

-- `std::string payload(chunk, 'x')`, and `payload.replace(0, copy, header.data() + offset, copy)`
unfoldable pub payload : List ℕ → ℕ → ℕ → List ℕ
payload header offset chunk =
    let plain = replicate chunk b'x' in
    let copy = min chunk (length header - offset) in
    if ltb offset (length header) then take copy (drop offset header) ++ drop copy plain else plain

-- The bytes of the buffer that one round hands to `request_send`.
unfoldable pub send_buffer : List ℕ → ℕ → ℕ → List ℕ
send_buffer header offset chunk =
    let bytes = payload header offset chunk in
    get_buffer (write_chars bytes (pos (length bytes)) new_buffer)

unfoldable pub send_chunks : ℕ → List ℕ → ℕ → ℕ → Option (List (List ℕ))
send_chunks zero header remaining offset = none
send_chunks (suc fuel) header remaining offset = elim (ltb 0 remaining) [
  | false ↦ some []
  | true ↦
      let chunk = min chunk_size remaining in
      elim (send_chunks fuel header (remaining - chunk) (offset + chunk)) [
        | none ↦ none
        | some rest ↦ some (send_buffer header offset chunk ∷ rest)
      ]
]
