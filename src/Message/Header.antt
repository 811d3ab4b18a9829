-- ===== src/Message/Header.antt =====
-- braid/src/service/include/braid/message/MessageHeader.h: the header that starts each message.
-- It is read in place from the received bytes: an `int` and an unsigned word, little endian.
use first_server.Common.{ℕ, List, ℤ, le32, signed32}

pub record MessageHeader : Type 0 where
  pub size : ℤ
  pub message_type : ℕ

-- `sizeof(MessageHeader)`
abbrev pub sizeof_header : ℕ
sizeof_header = 8

unfoldable pub parse_message : List ℕ → MessageHeader
parse_message bytes = record { size = signed32 (le32 bytes 0); message_type = le32 bytes 4 }
