-- ===== src/Message/SendBuffer.antt =====
-- braid/src/service/include/braid/message/SendBuffer.h: the bytes of one message on its way out.
-- `size_` is an `int`; the values that a `write` is given are their bytes.
pub mod Laws
pub mod Refine
use first_server.Common.{
  ℕ, ◌+◌, List, [], ◌∷◌, if◌then◌else◌, ℤ, pos, ◌+ℤ◌, ltb, ltb_ℤ, to_size, length, take, replicate,
  memcpy,
}

abbrev pub max_message_size : ℕ
max_message_size = 2048

pub record SendBuffer : Type 0 where
  pub buffer : List ℕ
  pub size : ℤ

-- `new SendBuffer()`
unfoldable pub new_buffer : SendBuffer
new_buffer = record { buffer = replicate max_message_size 0; size = pos 0 }

-- `(sizeof(Args) + ... + 0)`
abbrev pub total_size : List (List ℕ) → ℕ
total_size [] = 0
total_size (x ∷ xs) = length x + total_size xs

-- `(append_one(args), ...)` from the offset that `out` has reached
unfoldable pub append_args : List ℕ → ℕ → List (List ℕ) → List ℕ
append_args buffer out [] = buffer
append_args buffer out (x ∷ xs) = append_args (memcpy buffer out x) (out + length x) xs

-- `write(const Args&... args)`
unfoldable pub write : List (List ℕ) → SendBuffer → SendBuffer
unfolding append_args
write args b =
    if ltb_ℤ (pos max_message_size) (b.size +ℤ pos (total_size args)) then b else record b {
      buffer = append_args b.buffer (to_size b.size) args;
      size = b.size +ℤ pos (total_size args);
    }

-- `write(const std::string& str)`: the sum is taken in `size_t`
unfoldable pub write_string : List ℕ → SendBuffer → SendBuffer
write_string str b = if ltb max_message_size (to_size b.size + length str) then b else record b {
  buffer = memcpy b.buffer (to_size b.size) str;
  size = b.size +ℤ pos (length str);
}

-- `write(const char* str, int size)`
unfoldable pub write_chars : List ℕ → ℤ → SendBuffer → SendBuffer
write_chars str size b = if ltb_ℤ (pos max_message_size) (b.size +ℤ size) then b else record b {
  buffer = memcpy b.buffer (to_size b.size) (take (to_size size) str);
  size = b.size +ℤ size;
}

unfoldable pub get_buffer : SendBuffer → List ℕ
get_buffer b = take (to_size b.size) b.buffer

unfoldable pub reset : SendBuffer → SendBuffer
reset b = record b { size = pos 0 }
