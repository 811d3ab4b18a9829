-- ===== src/Service/IoPool.antt =====
-- The pool of operations, braid/src/service/include/braid/service/IOPool.h: one ObjectPool for each
-- kind of operation, as the program's first call of `get_io_pool<T>` makes it, and the objects of
-- each that are out. A request acquires an object of its kind, and `on_zero_ref` of an operation
-- (braid/src/service/src/net) releases it to the pool of the kind that it has.
pub mod Laws
mod Tests
use first_server.Common.{ℕ, List, [], ◌∷◌, Option, none, some, Bool, if◌then◌else◌}
use first_server.Lockfree.{LockfreeQueue}
use first_server.Memory.Pool.{
  Config, ObjectPool, new_pool, default_initial_count, default_chunk_size, default_tls_cache_size,
  default_batch_size,
}
use first_server.Memory.Pool.Client.{Action, System, step}

-- The types that `get_io_pool` is called with.
pub data IoKind : Type 0 where
  recv : IoKind
  send_buffer : IoKind
  accept : IoKind
  close : IoKind

-- `Config{}`
unfoldable pub default_config : Config
default_config = record {
  initial_count = default_initial_count;
  chunk_size = default_chunk_size;
  tls_cache_size = default_tls_cache_size;
  batch_size = default_batch_size;
}

-- The sizes of the types are the compiler's.
module _ (Q : LockfreeQueue ℕ) (sizeof_io : IoKind → ℕ) where
  pub record IoPool : Type 0 where
    pub recv_pool : System Q (sizeof_io recv)
    pub send_buffer_pool : System Q (sizeof_io send_buffer)
    pub accept_pool : System Q (sizeof_io accept)
    pub close_pool : System Q (sizeof_io close)

  unfoldable pub get_io_pool : (kind : IoKind) → IoPool → System Q (sizeof_io kind)
  get_io_pool recv p = p.recv_pool
  get_io_pool send_buffer p = p.send_buffer_pool
  get_io_pool accept p = p.accept_pool
  get_io_pool close p = p.close_pool

  unfoldable pub with_io_pool : (kind : IoKind) → System Q (sizeof_io kind) → IoPool → IoPool
  with_io_pool recv s p = record p { recv_pool = s }
  with_io_pool send_buffer s p = record p { send_buffer_pool = s }
  with_io_pool accept s p = record p { accept_pool = s }
  with_io_pool close s p = record p { close_pool = s }

  -- `acquire<T>` and `release<T>`
  unfoldable pub call : IoKind → Action → IoPool → Option IoPool
  call kind action p = elim (step Q (sizeof_io kind) action (get_io_pool kind p)) [
    | none ↦ none
    | some s ↦ some (with_io_pool kind s p)
  ]

  unfoldable pub run_calls : List (IoKind × Action) → IoPool → Option IoPool
  run_calls [] p = some p
  run_calls ((kind, action) ∷ calls) p = elim (call kind action p) [
    | none ↦ none
    | some p' ↦ run_calls calls p'
  ]

  -- The four pools, with what `operator new` gives for their first chunks; nothing is out.
  unfoldable pub new_io_pool : Q.Queue → (IoKind → Option ℕ) → IoPool
  new_io_pool empty_queue memory =
      let new : (kind : IoKind) → System Q (sizeof_io kind) = λ kind. record {
        pool = new_pool Q (sizeof_io kind) default_config empty_queue (memory kind);
        lent = [];
      } in
      record {
        recv_pool = new recv;
        send_buffer_pool = new send_buffer;
        accept_pool = new accept;
        close_pool = new close;
      }
