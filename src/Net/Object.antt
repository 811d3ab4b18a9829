-- ===== src/Net/Object.antt =====
-- braid/src/service/include/braid/net/IOUringObject.h: the receive buffer of a connection.
-- The buffer is a list of `max_receive_buffer_size` bytes; `commited_size_` is an `int`, and a span
-- is its bytes, or its offset and length in the buffer where the kernel is to write.
pub mod Laws
use first_server.Common.{
  ℕ, ◌-◌, List, if◌then◌else◌, ℤ, pos, negsuc, ◌+ℤ◌, ◌-ℤ◌, ltb_ℤ, to_size, take, replicate, memmove,
}

abbrev pub max_receive_buffer_size : ℕ
max_receive_buffer_size = 4096

pub record SockaddrIn : Type 0 where
  pub sin_family : ℕ
  pub sin_port : ℕ
  pub s_addr : ℕ

pub record IoUringObject : Type 0 where
  pub buffer : List ℕ
  pub commited_size : ℤ
  pub socket_fd : ℤ
  pub address : SockaddrIn

-- The value that the constructor gives each member.
unfoldable pub new_object : IoUringObject
new_object = record {
  buffer = replicate max_receive_buffer_size 0;
  commited_size = pos 0;
  socket_fd = negsuc 0;
  address = record { sin_family = 0; sin_port = 0; s_addr = 0 };
}

unfoldable pub reset : IoUringObject → IoUringObject
reset o = record o { commited_size = pos 0 }

unfoldable pub commit : ℤ → IoUringObject → IoUringObject
commit size o = record o { commited_size = o.commited_size +ℤ size }

unfoldable pub process_completed : ℤ → IoUringObject → IoUringObject
process_completed size o = record o {
  buffer =
      if ltb_ℤ (pos 0) (o.commited_size -ℤ size)
      then memmove o.buffer (to_size size) (to_size (o.commited_size -ℤ size))
      else o.buffer;
  commited_size = o.commited_size -ℤ size;
}

unfoldable pub set_socket_fd : ℤ → IoUringObject → IoUringObject
set_socket_fd fd o = record o { socket_fd = fd }

unfoldable pub set_address : SockaddrIn → IoUringObject → IoUringObject
set_address a o = record o { address = a }

unfoldable pub get_buffer_size : IoUringObject → ℤ
get_buffer_size o = pos max_receive_buffer_size -ℤ o.commited_size

unfoldable pub get_received_span : IoUringObject → List ℕ
get_received_span o = take (to_size o.commited_size) o.buffer

-- A part of the buffer: where it starts and how long it is.
pub record Span : Type 0 where
  pub offset : ℕ
  pub size : ℕ

unfoldable pub get_remain_span : IoUringObject → Span
get_remain_span o = record {
  offset = to_size o.commited_size;
  size = to_size (pos max_receive_buffer_size -ℤ o.commited_size);
}
