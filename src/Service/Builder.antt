-- ===== src/Service/Builder.antt =====
-- braid/src/service/include/braid/service/ServiceBuilder.h, and the start of a service that it has
-- built: `initialize_threads` and the sessions of `initialize` in
-- braid/src/service/src/service/Service.cc, and the chains of calls in braid/BraidServer.cc and
-- sample-server/SampleServer.cc.
-- Counts are not negative. The calls of the system are recorded in order; what `socket`, `htons`
-- and `inet_pton` answer are parameters, and `acceptor_addr_` has some value before it is set.
pub mod Laws
use first_server.Common.{
  ℕ, zero, suc, List, [], ◌∷◌, ◌++◌, Option, none, some, Bool, true, ℤ, pos, negsuc, replicate,
}
use first_server.Lockfree.{LockfreeQueue}
use first_server.Net.Object.{SockaddrIn, IoUringObject, new_object, set_socket_fd, set_address}
use first_server.Session.Connection.{ServiceSession}
use first_server.Service.{IoOperation, Service, initialize}

-- The protected members of `Service`.
pub record ServiceConfig : Type 0 where
  pub session_count : ℕ
  pub thread_count : ℕ
  pub queue_depth_per_thread : ℕ
  pub backlog : ℕ

unfoldable pub default_config : ServiceConfig
default_config = record {
  session_count = 1000;
  thread_count = 4;
  queue_depth_per_thread = 1024;
  backlog = 4096;
}

-- `service_instance_` is null after `build`.
pub record ServiceBuilder : Type 0 where
  pub service_instance : Option ServiceConfig
  pub listen_fd : ℤ
  pub port : ℕ
  pub backlog : ℕ
  pub acceptor_addr : SockaddrIn

unfoldable pub create_builder : SockaddrIn → ServiceBuilder
create_builder acceptor_addr = record {
  service_instance = some default_config;
  listen_fd = negsuc 0;
  port = 0;
  backlog = 128;
  acceptor_addr = acceptor_addr;
}

-- `ServiceSession(service_instance)`
unfoldable pub new_session : ServiceSession
new_session = record {
  object = new_object;
  service_instance = true;
  main_actor = none;
  actors = [];
}

pub data SystemCall : Type 0 where
  calls_socket : SystemCall
  calls_setsockopt : ℤ → SystemCall
  calls_bind : ℤ → SockaddrIn → SystemCall
  calls_listen : ℤ → ℕ → SystemCall

-- What `build` makes: the service's members, its acceptor, and the system calls.
pub record Built : Type 0 where
  pub service : ServiceConfig
  pub acceptor_object : ServiceSession
  pub calls : List SystemCall

-- One call of a setter.
pub data Setting : Type 0 where
  set_address_to : List ℕ → ℕ → Setting
  set_backlog_to : ℕ → Setting
  set_thread_count_to : ℕ → Setting
  set_session_count_to : ℕ → Setting
  set_queue_depth_to : ℕ → Setting

abbrev pub map_config : (ServiceConfig → ServiceConfig) → ServiceBuilder → ServiceBuilder
map_config f b = record b {
  service_instance = elim b.service_instance [ none ↦ none | some c ↦ some (f c) ];
}

unfoldable pub set_backlog : ℕ → ServiceBuilder → ServiceBuilder
set_backlog n b = record b { backlog = n }

unfoldable pub set_thread_count : ℕ → ServiceBuilder → ServiceBuilder
set_thread_count n b = map_config (λ c. record c { thread_count = n }) b

unfoldable pub set_session_count : ℕ → ServiceBuilder → ServiceBuilder
set_session_count n b = map_config (λ c. record c { session_count = n }) b

unfoldable pub set_queue_depth_per_thread : ℕ → ServiceBuilder → ServiceBuilder
set_queue_depth_per_thread n b = map_config (λ c. record c { queue_depth_per_thread = n }) b

module _ (htons : ℕ → ℕ) (inet_pton : List ℕ → Option ℕ) where
  -- `AF_INET` is 2 and `INADDR_ANY` is 0; a text that `inet_pton` cannot read changes nothing
  unfoldable pub set_acceptor_address : List ℕ → ℕ → ServiceBuilder → ServiceBuilder
  set_acceptor_address [] port b = record b {
    acceptor_addr = record { sin_family = 2; sin_port = htons port; s_addr = 0 };
  }
  set_acceptor_address (c ∷ cs) port b = record b {
    acceptor_addr = record {
      sin_family = 2;
      sin_port = htons port;
      s_addr = elim (inet_pton (c ∷ cs)) [ none ↦ b.acceptor_addr.s_addr | some a ↦ a ];
    };
  }

  unfoldable pub apply_setting : Setting → ServiceBuilder → ServiceBuilder
  apply_setting (set_address_to address port) b = set_acceptor_address address port b
  apply_setting (set_backlog_to n) b = set_backlog n b
  apply_setting (set_thread_count_to n) b = set_thread_count n b
  apply_setting (set_session_count_to n) b = set_session_count n b
  apply_setting (set_queue_depth_to n) b = set_queue_depth_per_thread n b

  -- The calls of a chain, the first one first.
  unfoldable pub apply_settings : List Setting → ServiceBuilder → ServiceBuilder
  apply_settings [] b = b
  apply_settings (x ∷ xs) b = apply_settings xs (apply_setting x b)

-- `socket` answers `listen_fd`.
unfoldable pub build_acceptor : ℤ → ServiceBuilder → ServiceSession × List SystemCall
build_acceptor listen_fd b = (
  record new_session {
    object = set_address b.acceptor_addr (set_socket_fd listen_fd new_session.object);
  },
  calls_socket
      ∷ calls_setsockopt listen_fd
      ∷ calls_bind listen_fd b.acceptor_addr
      ∷ calls_listen listen_fd b.backlog
      ∷ [],
)

-- `none` is an assertion that fails: the builder has built already.
unfoldable pub build : ℤ → ServiceBuilder → Option (Built × ServiceBuilder)
build listen_fd b = elim b.service_instance [
  | none ↦ none
  | some c ↦
      let (acceptor, calls) = build_acceptor listen_fd b in
      some (
        record { service = c; acceptor_object = acceptor; calls = calls },
        record b { service_instance = none; listen_fd = listen_fd },
      )
]

-- A built service starts, from empty queues.
module _ (Sessions : LockfreeQueue ℕ) (Operations : LockfreeQueue IoOperation) (acquires : ℕ → Bool)
    (no_sessions : Sessions.Queue) (no_operations : Operations.Queue) where
  unfoldable pub new_service : Built → Service Sessions Operations acquires
  new_service built = record {
    sessions = [];
    sessions_queue = no_sessions;
    request_index = 0;
    thread_count = built.service.thread_count;
    worker_threads = [];
    acceptor_fd = built.acceptor_object.object.socket_fd;
    acquired = 0;
    ref_counts = λ n. 0;
    released = [];
  }

  unfoldable pub initialize_threads :
      ℕ → Service Sessions Operations acquires → Service Sessions Operations acquires
  initialize_threads n s = record s {
    worker_threads = s.worker_threads ++ replicate n no_operations;
  }

  -- `initialize`: the threads, the sessions, and their queue with the first accepts
  unfoldable pub initialize_service : Built → Service Sessions Operations acquires
  initialize_service built =
      let s = initialize_threads built.service.thread_count (new_service built) in
      initialize Sessions Operations acquires built.service.session_count built.service.backlog
        (record s { sessions = replicate built.service.session_count new_session })

-- The chains of the two main programs; the ports and counts are theirs.
unfoldable pub braid_server : List Setting
braid_server =
    set_address_to [] 4832
    ∷ set_backlog_to 4096
    ∷ set_thread_count_to 16
    ∷ set_session_count_to 100
    ∷ []

unfoldable pub sample_server : List Setting
sample_server =
    set_address_to [] 4832
    ∷ set_backlog_to 4096
    ∷ set_thread_count_to 36
    ∷ set_session_count_to 10000
    ∷ set_queue_depth_to 10000
    ∷ []
