-- ===== src/Client/Receive.antt =====
-- The second part of test-client/TestClient.cc, from the erasure of failed connections on: the
-- sockets are registered with epoll, and read as long as epoll reports them. The part stands behind
-- an endless loop, and is modelled as it would run.
-- What the system answers is given with each call; where the given answers end, the loops are still
-- running. Epoll reports registered sockets, so an event names the place of one. A socket is its
-- number; the reports to the console are left out.
pub mod Laws
use first_server.Common.{
  ℕ, suc, ◌+◌, ◌%◌, ◌^◌, List, [], ◌∷◌, ◌++◌, Option, none, some, Bool, true, false, not, ◌||◌,
  if◌then◌else◌, ℤ, pos, negsuc, ltb_ℤ, get_elem?, remove,
}

-- `std::remove(..., -1)`: a socket is not negative, or is -1 after a failed send.
unfoldable pub erase_failed : List ℤ → List ℕ
erase_failed [] = []
erase_failed (pos fd ∷ sockets) = fd ∷ erase_failed sockets
erase_failed (negsuc n ∷ sockets) = erase_failed sockets

-- `set_nonblocking`, with what the two calls of `fcntl` return
unfoldable pub set_nonblocking : ℤ → ℤ → Bool
set_nonblocking flags ret =
    if ltb_ℤ flags (pos 0) then false else if ltb_ℤ ret (pos 0) then false else true

-- What the system answers to the registration of a socket.
pub record Registration : Type 0 where
  pub flags : ℤ
  pub set_flags : ℤ
  pub added : ℤ

pub record Receiver : Type 0 where
  -- the sockets in `epfd`
  pub registered : List ℕ
  -- the calls of `close`, the last one first
  pub closed : List ℕ
  -- 64 bits
  pub total_bytes : ℕ
  pub total_reads : ℕ

unfoldable pub new_receiver : Receiver
new_receiver = record { registered = []; closed = []; total_bytes = 0; total_reads = 0 }

unfoldable pub register : Registration → ℕ → Receiver → Receiver
register answers fd s =
    if not (set_nonblocking answers.flags answers.set_flags)
    then record s { closed = fd ∷ s.closed }
    else if ltb_ℤ answers.added (pos 0)
    then record s { closed = fd ∷ s.closed }
    else record s { registered = s.registered ++ (fd ∷ []) }

-- `for (int fd : sockets)`
unfoldable pub register_all : (ℕ → Registration) → List ℕ → Receiver → Receiver
register_all answers [] s = s
register_all answers (fd ∷ sockets) s = register_all answers sockets (register (answers fd) fd s)

-- What `recv_nonblocking` returns: `n + 1` bytes, 0, or an error.
pub data Received : Type 0 where
  bytes : ℕ → Received
  at_end interrupted would_block failed : Received

-- `EPOLL_CTL_DEL` and `close`, for the socket `fd` at a place
unfoldable pub drop_socket : ℕ → ℕ → Receiver → Receiver
drop_socket place fd s = record s { registered = remove place s.registered; closed = fd ∷ s.closed }

-- The loop that reads a socket, and whether it is done.
unfoldable pub read_all : List Received → ℕ → ℕ → Receiver → Receiver × Bool
read_all [] place fd s = (s, false)
read_all (bytes n ∷ answers) place fd s = read_all answers place fd (record s {
  total_bytes = (s.total_bytes + suc n) % 2 ^ 64;
  total_reads = (s.total_reads + 1) % 2 ^ 64;
})
read_all (at_end ∷ answers) place fd s = (drop_socket place fd s, true)
read_all (interrupted ∷ answers) place fd s = read_all answers place fd s
read_all (would_block ∷ answers) place fd s = (s, true)
read_all (failed ∷ answers) place fd s = (drop_socket place fd s, true)

-- An event, with what the reads of its socket return.
pub record Event : Type 0 where
  pub place : ℕ
  -- EPOLLERR, EPOLLHUP or EPOLLRDHUP
  pub has_error : Bool
  -- EPOLLIN
  pub has_input : Bool
  pub answers : List Received

unfoldable pub handle_event : Event → Receiver → Receiver × Bool
handle_event event s = elim (get_elem? s.registered event.place) [
  | none ↦ (s, true)
  | some fd ↦
      if event.has_error
      then (drop_socket event.place fd s, true)
      else if not event.has_input
      then (s, true)
      else read_all event.answers event.place fd s
]

unfoldable pub handle_events : List Event → Receiver → Receiver × Bool
handle_events [] s = (s, true)
handle_events (event ∷ events) s =
    let (s', done) = handle_event event s in
    let rest = handle_events events s' in if done then rest else (s', false)

-- What `epoll_wait` returns.
pub data EpollWait : Type 0 where
  wait_interrupted wait_failed : EpollWait
  reports : List Event → EpollWait

-- `for (;;)`, and whether it has come to its break
unfoldable pub receive_loop : List EpollWait → Receiver → Receiver × Bool
receive_loop [] s = (s, false)
receive_loop (wait_interrupted ∷ waits) s = receive_loop waits s
receive_loop (wait_failed ∷ waits) s = (s, true)
receive_loop (reports events ∷ waits) s =
    let (s', done) = handle_events events s in
    let rest = receive_loop waits s' in if done then rest else (s', false)

-- From the erasure on
unfoldable pub receive : (ℕ → Registration) → List EpollWait → List ℤ → Receiver × Bool
receive answers waits sockets =
    receive_loop waits (register_all answers (erase_failed sockets) new_receiver)
