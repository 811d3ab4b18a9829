-- ===== src/Service/Builder/Laws.antt =====
-- What a chain of setters builds, and which sessions wait for an accept when it has started.
use first_server.Common.{
  ℕ, ◌≡◌, refl, ap, ◌∙◌, List, [], ◌∷◌, Option, none, some, Bool, ℤ, drop, subst, replicate,
}
use first_server.Lockfree.{LockfreeQueue, NeverFails}
use first_server.Net.Object.{SockaddrIn, set_socket_fd, set_address}
use first_server.Service.{IoOperation}
use first_server.Service.Start.{free, count_from, initialize-free}
use first_server.Service.Builder.{
  ServiceConfig, default_config, ServiceBuilder, create_builder, Built, calls_socket,
  calls_setsockopt, calls_bind, calls_listen, Setting, set_address_to, set_backlog_to,
  set_thread_count_to, set_session_count_to, set_queue_depth_to, set_backlog, set_thread_count,
  set_session_count, set_queue_depth_per_thread, set_acceptor_address, apply_setting,
  apply_settings, build_acceptor, build, new_session, new_service, initialize_threads,
  initialize_service,
}

-- What the last setting that says something says, or `d` if none does.
abbrev pub last_of : (Setting → Option ℕ) → ℕ → List Setting → ℕ
last_of f d [] = d
last_of f d (x ∷ xs) = last_of f (elim (f x) [ none ↦ d | some n ↦ n ]) xs

abbrev pub backlog_of : Setting → Option ℕ
backlog_of (set_backlog_to n) = some n
backlog_of _ = none

abbrev pub thread_count_of : Setting → Option ℕ
thread_count_of (set_thread_count_to n) = some n
thread_count_of _ = none

abbrev pub session_count_of : Setting → Option ℕ
session_count_of (set_session_count_to n) = some n
session_count_of _ = none

abbrev pub queue_depth_of : Setting → Option ℕ
queue_depth_of (set_queue_depth_to n) = some n
queue_depth_of _ = none

abbrev pub port_of : (ℕ → ℕ) → Setting → Option ℕ
port_of htons (set_address_to address port) = some (htons port)
port_of htons _ = none

-- A service's members after a chain.
abbrev pub configured : List Setting → ServiceConfig → ServiceConfig
configured xs c = record {
  session_count = last_of session_count_of c.session_count xs;
  thread_count = last_of thread_count_of c.thread_count xs;
  queue_depth_per_thread = last_of queue_depth_of c.queue_depth_per_thread xs;
  backlog = c.backlog;
}

module _ (htons : ℕ → ℕ) (inet_pton : List ℕ → Option ℕ) where
  -- The members of a builder that has not built, after a chain.
  record Chained (xs : List Setting) (c : ServiceConfig) (b b' : ServiceBuilder) : Type 0 where
    service : b'.service_instance ≡ some (configured xs c)
    backlog : b'.backlog ≡ last_of backlog_of b.backlog xs
    port : b'.acceptor_addr.sin_port ≡ last_of (port_of htons) b.acceptor_addr.sin_port xs

  apply_setting-Chained :
      (x : Setting) (c : ServiceConfig) (b : ServiceBuilder)
      → b.service_instance ≡ some c
      → Chained (x ∷ []) c b (apply_setting htons inet_pton x b)
  unfolding apply_setting set_acceptor_address set_backlog set_thread_count set_session_count
      set_queue_depth_per_thread
  apply_setting-Chained (set_address_to [] n) c b e = record {
    service = e;
    backlog = refl;
    port = refl;
  }
  apply_setting-Chained (set_address_to (x ∷ xs) n) c b e = record {
    service = e;
    backlog = refl;
    port = refl;
  }
  apply_setting-Chained (set_backlog_to n) c b e = record {
    service = e;
    backlog = refl;
    port = refl;
  }
  apply_setting-Chained (set_thread_count_to n) c b e = record {
    service = rw e refl;
    backlog = refl;
    port = refl;
  }
  apply_setting-Chained (set_session_count_to n) c b e = record {
    service = rw e refl;
    backlog = refl;
    port = refl;
  }
  apply_setting-Chained (set_queue_depth_to n) c b e = record {
    service = rw e refl;
    backlog = refl;
    port = refl;
  }

  apply_settings-Chained :
      (xs : List Setting) (c : ServiceConfig) (b : ServiceBuilder)
      → b.service_instance ≡ some c
      → Chained xs c b (apply_settings htons inet_pton xs b)
  unfolding apply_settings
  apply_settings-Chained [] c b e = record { service = e; backlog = refl; port = refl }
  apply_settings-Chained (x ∷ xs) c b e =
      let first = apply_setting-Chained x c b e in
      let later =
        apply_settings-Chained xs (configured (x ∷ []) c) (apply_setting htons inet_pton x b)
          first.service in
      record {
        service = later.service;
        backlog = later.backlog ∙ ap (λ d. last_of backlog_of d xs) first.backlog;
        port = later.port ∙ ap (λ d. last_of (port_of htons) d xs) first.port;
      }

  -- The result of a build on `listen_fd`.
  pub record Builds (config : ServiceConfig) (listen_fd : ℤ) (backlog port : ℕ)
      (result : Option (Built × ServiceBuilder)) : Type 0 where
    pub built : Built
    pub after : ServiceBuilder
    pub address : SockaddrIn
    pub returns : result ≡ some (built, after)
    pub service : built.service ≡ config
    pub calls :
        built.calls
        ≡ calls_socket
          ∷ calls_setsockopt listen_fd
          ∷ calls_bind listen_fd address
          ∷ calls_listen listen_fd backlog
          ∷ []
    pub bound : address.sin_port ≡ port
    pub acceptor :
        (built.acceptor_object.object.socket_fd ≡ listen_fd)
        × (built.acceptor_object.object.address ≡ address)
    pub spent : after.service_instance ≡ none

  -- A builder that any chain of setters has been called on builds. The service has the counts of
  -- the last call of each setter, or their defaults, but always the backlog 4096; the system calls
  -- make the socket, set its option, bind it to an address with the last port, or what stood
  -- there, and listen with the last backlog, or 128; the acceptor has this socket and address; and
  -- the builder has no service any more.
  pub build-Builds :
      (settings : List Setting) (listen_fd : ℤ) (address : SockaddrIn)
      → Builds
          (configured settings default_config)
          listen_fd
          (last_of backlog_of 128 settings)
          (last_of (port_of htons) address.sin_port settings)
          (build listen_fd (apply_settings htons inet_pton settings (create_builder address)))
  unfolding build build_acceptor create_builder default_config new_session set_socket_fd set_address
  build-Builds settings listen_fd address =
      let start = create_builder address in
      let b = apply_settings htons inet_pton settings start in
      let chained = apply_settings-Chained settings default_config start refl in
      rw (chained.service, build)
        (record {
          built = _;
          after = _;
          address = b.acceptor_addr;
          returns = refl;
          service = refl;
          calls = rw chained.backlog refl;
          bound = chained.port;
          acceptor = (refl, refl);
          spent = refl;
        })

  module _ (Sessions : LockfreeQueue ℕ) (Operations : LockfreeQueue IoOperation)
      (acquires : ℕ → Bool) (no_sessions : Sessions.Queue) (no_operations : Operations.Queue) where
    -- If the push to the queue of free sessions never fails, then a service that was built with
    -- any chain of setters, and has started with an empty queue, leaves in it all of its sessions
    -- but the first 4096, whatever backlog was set.
    pub initialize_service-free :
        NeverFails Sessions
        → Sessions.contents no_sessions ≡ []
        → (settings : List Setting) (listen_fd : ℤ) (address : SockaddrIn) (built : Built)
          (after : ServiceBuilder)
        → build listen_fd (apply_settings htons inet_pton settings (create_builder address))
          ≡ some (built, after)
        → free Sessions Operations acquires
            (initialize_service Sessions Operations acquires no_sessions no_operations built)
          ≡ drop 4096 (count_from 0 (last_of session_count_of 1000 settings))
    unfolding initialize_service initialize_threads new_service default_config
    initialize_service-free never empty settings listen_fd address built after e =
        let b = build-Builds settings listen_fd address in
        let same : b.built ≡ built = cc in
        let config : built.service ≡ configured settings default_config =
          subst (λ x. x.service ≡ configured settings default_config) same b.service in
        let s =
          initialize_threads Sessions Operations acquires no_sessions no_operations
            built.service.thread_count
            (new_service Sessions Operations acquires no_sessions no_operations built) in
        initialize-free Sessions Operations acquires never built.service.session_count
          built.service.backlog
          (record s { sessions = replicate built.service.session_count new_session }) empty
        ∙ ap (λ c. drop c.backlog (count_from 0 c.session_count)) config
