-- ===== src/Service/Run.antt =====
-- Threads and `Service::run`: Thread.cc and Thread.h of braid/src/service, and `run` and
-- `initialize_threads` of braid/src/service/src/service/Service.cc.
-- The thread that calls `run` and the threads it starts take steps in any order, and anyone may
-- call `stop`. What a routine does is in Routine and Workers; here it is counted. A sleep takes
-- time only. `std::thread` is what the standard says: to assign to one that is joinable ends the
-- program, and a join waits for the end of its function.
pub mod Laws
pub mod Unstopped
pub mod Steps
pub mod Starting
pub mod Ending
pub mod Live
mod Tests
use first_server.Common.{
  ℕ, zero, suc, List, [], ◌∷◌, Option, none, some, Bool, true, false, if◌then◌else◌, not, ℤ, pos,
  negsuc, get_elem?, set,
}

-- Where the function of a thread is: `while (!is_stop_)`, or in the body of the loop.
pub data ThreadPoint : Type 0 where
  not_started : ThreadPoint
  tests : ThreadPoint
  in_routine : ThreadPoint
  ended : ThreadPoint

pub record Thread : Type 0 where
  pub thread_id : ℤ
  pub is_stop : Bool
  -- whether `thread_` is joinable
  pub joinable : Bool
  pub point : ThreadPoint
  -- the calls of `routine` that have returned
  pub routines : ℕ

-- `Thread()`
unfoldable pub new_thread : Thread
new_thread = record {
  thread_id = negsuc 0;
  is_stop = false;
  joinable = false;
  point = not_started;
  routines = 0;
}

unfoldable pub set_thread_id : ℤ → Thread → Thread
set_thread_id id t = record t { thread_id = id }

unfoldable pub initialize : Thread → Thread
initialize t = record t { is_stop = false }

unfoldable pub stop : Thread → Thread
stop t = record t { is_stop = true }

-- `none`: `thread_` is joinable, and the program ends.
unfoldable pub start : Thread → Option Thread
start t = if t.joinable then none else some (record t { joinable = true; point = tests })

-- A step of `run` in the thread's own function.
unfoldable pub run_step : Thread → Thread
run_step t = elim t.point [
  | not_started ↦ t
  | tests ↦ record t { point = if not t.is_stop then in_routine else ended }
  | in_routine ↦ record t { point = tests; routines = suc t.routines }
  | ended ↦ t
]

-- Whether `wait` returns now: the join of a thread that runs does not.
unfoldable pub returns_from_wait : Thread → Bool
returns_from_wait t =
    if t.joinable
    then elim t.point [ ended ↦ true | not_started ↦ false | tests ↦ false | in_routine ↦ false ]
    else true

-- Where `Service::run` is: it starts, or waits for, the thread of a place.
pub data MainPoint : Type 0 where
  starts : ℕ → MainPoint
  waits : ℕ → MainPoint
  returned : MainPoint
  terminated : MainPoint

pub record ServiceRun : Type 0 where
  pub main : MainPoint
  pub worker_threads : List Thread

pub data Turn : Type 0 where
  main_goes : Turn
  thread_goes : ℕ → Turn
  -- someone calls `stop` of the thread
  stops : ℕ → Turn

-- `initialize_threads`: `n` threads, from the number `i` on
unfoldable pub threads_from : ℕ → ℕ → List Thread
unfolding new_thread set_thread_id initialize
threads_from i zero = []
threads_from i (suc n) = initialize (set_thread_id (pos i) new_thread) ∷ threads_from (suc i) n

-- `run` is called.
unfoldable pub start_run : ℕ → ServiceRun
start_run n = record { main = starts 0; worker_threads = threads_from 0 n }

unfoldable pub main_step : ServiceRun → ServiceRun
unfolding start
main_step r = elim r.main [
  | starts i ↦ elim (get_elem? r.worker_threads i) [
    | none ↦ record r { main = waits 0 }
    | some t ↦ elim (start t) [
      | none ↦ record r { main = terminated }
      | some t' ↦ record { main = starts (suc i); worker_threads = set r.worker_threads i t' }
    ]
  ]
  | waits i ↦ elim (get_elem? r.worker_threads i) [
    | none ↦ record r { main = returned }
    | some t ↦
        if returns_from_wait t
        then record {
          main = waits (suc i);
          worker_threads = set r.worker_threads i (record t { joinable = false });
        }
        else r
  ]
  | returned ↦ r
  | terminated ↦ r
]

unfoldable pub change_thread : (Thread → Thread) → ℕ → ServiceRun → ServiceRun
change_thread f i r = elim (get_elem? r.worker_threads i) [
  | none ↦ r
  | some t ↦ record r { worker_threads = set r.worker_threads i (f t) }
]

unfoldable pub turn_step : Turn → ServiceRun → ServiceRun
unfolding main_step change_thread
turn_step main_goes r = main_step r
turn_step (thread_goes i) r = change_thread run_step i r
turn_step (stops i) r = change_thread stop i r

-- A schedule: whose turn it is, one after the other.
unfoldable pub run_service : List Turn → ServiceRun → ServiceRun
run_service [] r = r
run_service (turn ∷ turns) r = run_service turns (turn_step turn r)
