-- ===== src/Client/Receive/Laws.antt =====
-- Where the sockets of the client are while it receives.
use first_server.Common.{ℕ, ◌+◌, count}
use first_server.Client.Receive.{Receiver}

-- How often a socket is registered or has been closed.
abbrev pub places : ℕ → Receiver → ℕ
places fd s = count fd s.registered + count fd s.closed
