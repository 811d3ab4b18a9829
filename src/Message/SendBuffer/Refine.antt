-- ===== src/Message/SendBuffer/Refine.antt =====
-- A send buffer behaves as a run of at most 2048 bytes.
use first_server.Common.{ℕ, ◌+◌, ◌≤◌, List, [], ◌∷◌, ◌++◌, pos, length, leb, take, if◌then◌else◌}
use first_server.Message.SendBuffer.{
  SendBuffer, max_message_size, write, write_string, write_chars, get_buffer, reset,
}
use first_server.Message.SendBuffer.Laws.{joined}

-- A call of a method; `write_text` is given a string, `write_start` some characters and how many.
pub data Op : Type 0 where
  write_values : List (List ℕ) → Op
  write_text : List ℕ → Op
  write_start : List ℕ → ℕ → Op
  starts_anew : Op

-- The characters that are to be written are there.
abbrev pub IsLegal : List Op → Type 0
IsLegal [] = Unit
IsLegal (write_values args ∷ ops) = IsLegal ops
IsLegal (write_text str ∷ ops) = IsLegal ops
IsLegal (write_start str k ∷ ops) = (k ≤ length str) × IsLegal ops
IsLegal (starts_anew ∷ ops) = IsLegal ops

-- The bytes that each operation leaves in the buffer.
pub run : List Op → SendBuffer → List (List ℕ)
run [] b = []
run (write_values args ∷ ops) b = let b' = write args b in get_buffer b' ∷ run ops b'
run (write_text str ∷ ops) b = let b' = write_string str b in get_buffer b' ∷ run ops b'
run (write_start str k ∷ ops) b = let b' = write_chars str (pos k) b in get_buffer b' ∷ run ops b'
run (starts_anew ∷ ops) b = let b' = reset b in get_buffer b' ∷ run ops b'

-- The specification: a list that takes all of some bytes or none.
abbrev pub append : List ℕ → List ℕ → List ℕ
append bytes q = if leb (length q + length bytes) max_message_size then q ++ bytes else q

pub run_list : List Op → List ℕ → List (List ℕ)
run_list [] q = []
run_list (write_values args ∷ ops) q = let q' = append (joined args) q in q' ∷ run_list ops q'
run_list (write_text str ∷ ops) q = let q' = append str q in q' ∷ run_list ops q'
run_list (write_start str k ∷ ops) q = let q' = append (take k str) q in q' ∷ run_list ops q'
run_list (starts_anew ∷ ops) q = [] ∷ run_list ops []
