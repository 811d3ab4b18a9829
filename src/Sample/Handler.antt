-- ===== src/Sample/Handler.antt =====
-- The handler of messages of type 1 and the first half of `timestamp_task` (sample-server/SampleServer.cc).
-- `std::to_string` and `std::stoll` are parameters. A message is given by what stands in memory from
-- its first byte on: `message_content.assign(const char*)` reads up to the next zero byte, and
-- `none` says that there is none in the receive buffer.
pub mod Laws
use first_server.Common.{
  ℕ, zero, suc, ◌+◌, ◌-◌, List, [], ◌∷◌, ◌++◌, Option, none, some, Bool, true, false, if◌then◌else◌,
  ltb, ◌==◌, ℤ, pos, negsuc, ltb_ℤ, length, take, drop,
}
use first_server.Message.Header.{parse_message, sizeof_header}

unfoldable pub c_string : List ℕ → Option (List ℕ)
c_string [] = none
c_string (c ∷ cs) =
    let rest = c_string cs in
    if c == 0 then some [] else (elim rest [ none ↦ none | some s ↦ some (c ∷ s) ])

-- `view.rfind(prefix, 0) == 0`
unfoldable pub starts_with : List ℕ → List ℕ → Bool
starts_with [] s = true
starts_with (p ∷ ps) [] = false
starts_with (p ∷ ps) (c ∷ cs) = if p == c then starts_with ps cs else false

-- `view.find(c)`
unfoldable pub find : ℕ → List ℕ → Option ℕ
find c [] = none
find c (x ∷ xs) =
    let rest = find c xs in
    if x == c then some 0 else (elim rest [ none ↦ none | some i ↦ some (suc i) ])

abbrev pub seq_prefix : List ℕ
seq_prefix = b's' ∷ b'e' ∷ b'q' ∷ b'=' ∷ []

-- What the handler passes to `timestamp_task`: nothing, if it reports an error.
pub data Handled : Type 0 where
  ignored past_the_buffer : Handled
  passes : List ℕ → Handled

module _ (to_string : ℤ → List ℕ) (stoll : List ℕ → Option ℤ) where
  -- "seq=...; ts=...; " and the content
  unfoldable pub wrapped_message : ℤ → ℤ → List ℕ → List ℕ
  wrapped_message seq current_time content =
      seq_prefix
      ++ (to_string seq
          ++ (b';'
              ∷ b' '
              ∷ b't'
              ∷ b's'
              ∷ b'='
              ∷ (to_string current_time ++ (b';' ∷ b' ' ∷ content))))

  unfoldable pub handle : ℤ → ℤ → ℕ → List ℕ → Handled
  handle seq current_time data_size memory =
      let size = (parse_message memory).size in
      if ltb_ℤ size (pos sizeof_header)
      then ignored
      else if ltb_ℤ (pos data_size) size
      then ignored
      else if ltb_ℤ (pos sizeof_header) size
      then (elim (c_string (drop sizeof_header memory)) [
        | none ↦ past_the_buffer
        | some content ↦ passes (wrapped_message seq current_time content)
      ])
      else passes (wrapped_message seq current_time [])

  -- The number that `timestamp_task` reads from its message, or -1.
  unfoldable pub read_seq : List ℕ → ℤ
  read_seq view =
      if starts_with seq_prefix view
      then (elim (find b';' view) [
        | none ↦ negsuc 0
        | some first_sep ↦ elim (stoll (take (first_sep - 4) (drop 4 view))) [
          | none ↦ negsuc 0
          | some seq ↦ seq
        ]
      ])
      else negsuc 0
