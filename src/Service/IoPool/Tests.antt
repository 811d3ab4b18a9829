-- ===== src/Service/IoPool/Tests.antt =====
-- The four pools, with a list for the queues of Boost.
use first_server.Common.{ℕ, List, [], ◌∷◌, none, true}
use first_server.Lockfree.{LockfreeQueue, list_queue}
use first_server.Memory.Pool.Client.{Action, acquires, releases}
use first_server.Service.IoPool.{IoKind, recv, close}

abbrev Slots : LockfreeQueue ℕ
Slots = list_queue ℕ

abbrev calls : List (IoKind × Action)
calls = (recv, acquires none true) ∷ (close, acquires none true) ∷ (recv, releases 0) ∷ []

abbrev sizes : IoKind → ℕ
sizes kind = 64
