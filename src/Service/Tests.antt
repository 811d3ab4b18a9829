-- ===== src/Service/Tests.antt =====
-- A service of two workers and two sessions, with lists for the queues of Boost.
use first_server.Common.{
  ℕ, ◌+◌, ◌*◌, ◌/◌, false, Option, ◌%◌, ◌^◌, ◌≡◌, List, [], ◌∷◌, none, refl, drop, Bool, true,
  arith, ℤ, pos,
}
use first_server.Lockfree.{LockfreeQueue, list_queue}
use first_server.Net.Object.{new_object}
use first_server.Message.Dispatcher.{MessageDispatcher}
use first_server.Session.Connection.{ServiceSession, io_accept, io_close, io_send_buffer}
use first_server.Service.{IoOperation, Service, push_request, request_io, handle_completions}
use first_server.Service.RoundRobin.{worker_of, push_at, request_io_lem}
use first_server.Service.Start.{free, count_from}
use first_server.Net.Object.{SockaddrIn}
use first_server.Net.Uring.{IoUring, ListRing, list_uring}
use first_server.Service.Builder.{
  default_config, sample_server, Setting, set_session_count_to, set_backlog_to, set_thread_count_to,
  build, apply_settings, create_builder, initialize_service,
}
use first_server.Service.Builder.Laws.{
  Builds, configured, last_of, backlog_of, port_of, build-Builds, initialize_service-free,
}
use first_server.Service.Routine.{Turn}
use first_server.Service.Accepts.{Taken, never_returned}

abbrev pub Sessions : LockfreeQueue ℕ
Sessions = list_queue ℕ

abbrev pub Operations : LockfreeQueue IoOperation
Operations = list_queue IoOperation

abbrev pub acquires : ℕ → Bool
acquires n = true

abbrev pub session : ServiceSession
session = record { object = new_object; service_instance = true; main_actor = none; actors = [] }

abbrev pub service : ℕ → Service Sessions Operations acquires
service request_index = record {
  sessions = session ∷ session ∷ [];
  sessions_queue = 1 ∷ [];
  request_index = request_index;
  thread_count = 2;
  worker_threads = [] ∷ [] ∷ [];
  acceptor_fd = pos 5;
  acquired = 0;
  ref_counts = λ n. 0;
  released = [];
}

abbrev pub operation : IoOperation
operation = record { session = 0; kind = io_close; serial = 0 }

request_io_lem_example :
    request_io Sessions Operations acquires operation (service 4294967295)
    ≡ record (service 4294967295) {
      request_index = (4294967295 + 1) % 2 ^ 32;
      worker_threads =
          push_at
            (worker_of 4294967295 2)
            (push_request Sessions Operations acquires operation)
            ([] ∷ [] ∷ []);
    }
request_io_lem_example =
    request_io_lem Sessions Operations acquires operation (service 4294967295) (omega arith)
      (omega arith)

abbrev pub dispatcher : MessageDispatcher ℕ
dispatcher = record { handlers = [] }

abbrev completions : List (IoOperation × ℤ)
completions =
    (record { session = 0; kind = io_accept (pos 5); serial = 1 }, pos 9) ∷ (operation, pos 0) ∷ []

never_returned_example :
    Taken Sessions Operations acquires
      (service 0)
      (handle_completions Sessions Operations acquires dispatcher completions (service 0))
never_returned_example =
    never_returned Sessions Operations acquires dispatcher completions (service 0)

abbrev swap_bytes : ℕ → ℕ
swap_bytes n = (n % 256) * 256 + n / 256

abbrev no_address : List ℕ → Option ℕ
no_address text = none

abbrev any_address : SockaddrIn
any_address = record { sin_family = 0; sin_port = 0; s_addr = 7 }

build-Builds_example :
    Builds swap_bytes no_address
      (configured sample_server default_config)
      (pos 3)
      (last_of backlog_of 128 sample_server)
      (last_of (port_of swap_bytes) 0 sample_server)
      (build
        (pos 3)
        (apply_settings swap_bytes no_address sample_server (create_builder any_address)))
build-Builds_example = build-Builds swap_bytes no_address sample_server (pos 3) any_address

-- A service for two sessions, which its builder was given a backlog of one for.
abbrev small_server : List Setting
small_server = set_session_count_to 2 ∷ set_backlog_to 1 ∷ set_thread_count_to 2 ∷ []

pub small :
    Builds swap_bytes no_address (configured small_server default_config) (pos 3) 1 0 (
      build
        (pos 3)
        (apply_settings swap_bytes no_address small_server (create_builder any_address)))
small = build-Builds swap_bytes no_address small_server (pos 3) any_address

initialize_service-free_example :
    free Sessions Operations acquires
      (initialize_service Sessions Operations acquires [] [] small.built)
    ≡ drop 4096 (count_from 0 2)
initialize_service-free_example =
    initialize_service-free swap_bytes no_address Sessions Operations acquires [] [] (λ i q. refl)
      refl small_server (pos 3) any_address small.built small.after small.returns

abbrev pub U : IoUring IoOperation
U = list_uring IoOperation

-- A routine of the worker `w` in which a handler and a task of the session 0 ask for a send each.
abbrev turn : ℕ → Turn
turn w = record {
  worker = w;
  handlers_ask = (0, io_send_buffer (65 ∷ [])) ∷ [];
  tasks_ask = (0, io_send_buffer (66 ∷ [])) ∷ [];
}

abbrev pub empty_ring : ListRing IoOperation
empty_ring = record { entries = []; done = false }

abbrev pub accepting : IoOperation
accepting = record { session = 1; kind = io_accept (pos 5); serial = 1 }
