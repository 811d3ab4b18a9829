-- ===== src/Service/IoPool/Laws.antt =====
-- The objects of the four pools over any sequence of calls.
use first_server.Common.{ℕ, ◌≡◌, Option, some}
use first_server.Lockfree.{LockfreeQueue, NeverFails}
use first_server.Memory.Pool.Client.{System, IsWhole}
use first_server.Service.IoPool.{IoKind, IoPool, get_io_pool}

module _ (Q : LockfreeQueue ℕ) (never_fails : NeverFails Q) (sizeof_io : IoKind → ℕ) where
  -- In every pool each slot is free, or its object is out.
  pub record AllWhole (p : IoPool Q sizeof_io) : Type 0 where
    pub whole :
        (kind : IoKind) → IsWhole Q (sizeof_io kind) never_fails (get_io_pool Q sizeof_io kind p)

  abbrev Whole : (kind : IoKind) → System Q (sizeof_io kind) → Type 0
  Whole kind s = IsWhole Q (sizeof_io kind) never_fails s

  -- The calls come to their end, and every slot is accounted for.
  pub record Accounted (result : Option (IoPool Q sizeof_io)) : Type 0 where
    pub final : IoPool Q sizeof_io
    pub returns : result ≡ some final
    pub all_whole : AllWhole final
