-- ===== src/Sample/Reply/Laws.antt =====
-- What the client gets back for a message.
use first_server.Common.{ℕ, ◌≡◌, List, Option, some, ℤ, map}
use first_server.Session.Connection.{Request, io_send_buffer}
use first_server.Message.SendBuffer.Laws.{joined}
use first_server.Sample.Echo.Laws.{padded, AllChunks}

module _ (to_string : ℤ → List ℕ) (stoll : List ℕ → Option ℤ) where
  -- What a task asks for: the buffers of a reply.
  pub record Replies (total : ℕ) (reply : List ℕ) (result : Option (List Request)) : Type 0 where
    pub sent : List (List ℕ)
    pub asks : result ≡ some (map io_send_buffer sent)
    pub bytes : joined sent ≡ padded reply total
    pub chunks : AllChunks sent
