-- ===== src/Service/Routine/Started.antt =====
-- A service from its builder to its workers.
use first_server.Common.{ℕ, ◌≡◌, [], Bool, true, replicate}
use first_server.Lockfree.{LockfreeQueue}
use first_server.Net.Uring.{IoUring}
use first_server.Service.{IoOperation}
use first_server.Service.Builder.{Built, initialize_service}
use first_server.Service.Routine.{Running}

module _ (U : IoUring IoOperation) (Sessions : LockfreeQueue ℕ)
    (Operations : LockfreeQueue IoOperation) (acquires : ℕ → Bool) (no_sessions : Sessions.Queue)
    (no_operations : Operations.Queue) (no_requests : Operations.contents no_operations ≡ [])
    (new_ring : U.Ring) (no_entries : U.outstanding new_ring ≡ [])
    (has_room : (ring : U.Ring) → U.has_sqe ring ≡ true) where
  -- The service has started; the ring of every worker is new.
  abbrev pub started : Built → Running U Sessions Operations acquires
  started built = record {
    service = initialize_service Sessions Operations acquires no_sessions no_operations built;
    rings = replicate built.service.thread_count new_ring;
  }
