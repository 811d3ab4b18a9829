-- ===== src/Task/Tests.antt =====
-- Serializers with a few tasks, with lists for the queues of Boost.
use first_server.Common.{
  ℕ, ◌≡◌, refl, List, [], ◌∷◌, ◌++◌, Option, none, some, false, get_elem?, arith,
}
use first_server.Lockfree.{LockfreeQueue, list_queue}
use first_server.Task.Arguments.{Element, other_value, pointer_to}
use first_server.Task.Fault.{ok, fault, assertion, freed}
use first_server.Task.Serializer.{
  Task, running, TaskSerializer, World, deref, process, process_with, requeue_serializer, request,
  set_destroy, work_once, request_task, push, store, process_loop, process_round, invoke,
  run_requests, finish_processing,
}
use first_server.Task.Serializer.Fifo.{leaf, Served, process_with-Served}
use first_server.Task.Serializer.Idle.{IsQuiet, requests, works, step, run, workers_idle}
use first_server.Task.Serializer.Nested.{request_fails}
use first_server.Task.Threads.{
  Point, idle, pops, invokes, Turn, begins_request, begins_work, goes_on, Shared, Threads,
  run_threads,
}
use first_server.Task.Threads.Conserved.{IsConserved, run_threads-IsConserved}
use first_server.Task.Threads.Stranded.{IsStranded, Strands, run_threads-Strands}
use first_server.Task.Threads.Overlap.{asks_and_takes, request-overlaps}
use first_server.Task.Threads.Race.{race, race-loses}
use first_server.Task.Serializer.Destroy.{set_destroy_faults}

abbrev Tasks : LockfreeQueue Task
Tasks = list_queue Task

abbrev Serializers : LockfreeQueue ℕ
Serializers = list_queue ℕ

abbrev serializer_of : List Task → TaskSerializer Tasks Serializers
serializer_of tasks = record { task_queue = tasks; state = running }

abbrev world : Option ℕ → List Task → World Tasks Serializers
world current tasks = record {
  serializers = some (serializer_of tasks) ∷ some (serializer_of []) ∷ [];
  serializer_queue = [];
  worker_queue = [];
  push_current = none;
  process_current = current;
  invoked = [];
}

process_with-Served_example :
    Served Tasks Serializers
      (process Tasks Serializers 1)
      0
      (3 ∷ 5 ∷ [])
      (world none (leaf 3 ∷ leaf 5 ∷ []))
      (process_with Tasks Serializers
        (process Tasks Serializers 1)
        (requeue_serializer Tasks Serializers)
        0
        (world none (leaf 3 ∷ leaf 5 ∷ [])))
unfolding deref
process_with-Served_example =
    process_with-Served Tasks Serializers (process Tasks Serializers 1) 0 (3 ∷ 5 ∷ [])
      (serializer_of (leaf 3 ∷ leaf 5 ∷ [])) (world none (leaf 3 ∷ leaf 5 ∷ [])) refl refl refl refl

world-IsQuiet : IsQuiet Tasks Serializers (world none [])
world-IsQuiet = record { no_push = refl; no_process = refl; no_work = refl }

abbrev after_two : World Tasks Serializers
after_two = record (world none []) { invoked = 4 ∷ 6 ∷ [] }

two_requests :
    run Tasks Serializers (requests 0 (leaf 4) ∷ works ∷ requests 1 (leaf 6) ∷ []) (world none [])
    ≡ ok after_two
unfolding run step request request_task push deref store process process_with process_loop
    process_round invoke run_requests finish_processing requeue_serializer work_once
two_requests = refl

workers_idle_example : work_once Tasks Serializers after_two ≡ ok after_two
workers_idle_example =
    workers_idle Tasks Serializers (requests 0 (leaf 4) ∷ works ∷ requests 1 (leaf 6) ∷ [])
      (world none []) after_two world-IsQuiet two_requests

-- The serializer 0 is processed, and one of its tasks asks the serializer 1.
request_fails_example : request Tasks Serializers 1 (leaf 2) (world (some 0) []) ≡ fault assertion
unfolding deref
request_fails_example =
    request_fails Tasks Serializers 1 0 (leaf 2) (serializer_of []) (world (some 0) []) refl refl
      refl refl refl

set_destroy_faults_example : set_destroy Tasks Serializers 1 (world none []) ≡ fault freed
unfolding deref
set_destroy_faults_example =
    set_destroy_faults Tasks Serializers (λ t q. refl) 1 (serializer_of []) (world none []) refl
      refl refl refl refl

-- A task for the object 4 with a number and a pointer to the object 5.
abbrev elements : List Element
elements = other_value ∷ pointer_to (some 5) ∷ []

-- Two threads, for one of which the queue is `tasks`.
abbrev shared : List ℕ → Shared Serializers Serializers
shared tasks = record {
  task_queue = tasks;
  serializer_queue = [];
  worker_queue = [];
  requested = tasks;
  invoked = [];
}

abbrev threads : Point → List ℕ → Threads Serializers Serializers
threads point tasks = record { points = point ∷ idle ∷ []; shared = shared tasks }

abbrev schedule : List (ℕ × Turn)
schedule =
    (0, goes_on) ∷ (1, begins_request 8) ∷ (0, goes_on) ∷ (1, goes_on) ∷ (0, begins_work) ∷ []

run_threads-IsConserved_example :
    IsConserved Serializers Serializers
      (λ x q. refl)
      (run_threads Serializers Serializers schedule (threads (pops false 0) (4 ∷ 5 ∷ [])))
run_threads-IsConserved_example =
    run_threads-IsConserved Serializers Serializers (λ x q. refl) schedule
      (threads (pops false 0) (4 ∷ 5 ∷ [])) (record { counts = λ a. omega arith })

left-IsStranded : IsStranded Serializers Serializers (threads idle (4 ∷ []))
left-IsStranded = record {
  passing = (tt, (tt, tt));
  left = record { first = 4; rest = []; waiting = refl; no_work = refl };
}

run_threads-Strands_example :
    Strands Serializers Serializers
      (threads idle (4 ∷ []))
      (run_threads Serializers Serializers schedule (threads idle (4 ∷ [])))
run_threads-Strands_example =
    run_threads-Strands Serializers Serializers schedule (threads idle (4 ∷ [])) left-IsStranded

request-overlaps_example :
    let t' =
      run_threads Serializers Serializers (asks_and_takes 1 8) (threads (invokes false 0 4) []) in
    (get_elem? t'.points 0 ≡ some (invokes false 0 4))
    × (get_elem? t'.points 1 ≡ some (invokes false 0 8))
request-overlaps_example =
    request-overlaps Serializers Serializers (λ x q. refl) 0 1 4 8 0 false
      (threads (invokes false 0 4) []) (λ e. absurd (omega (arith, e))) refl refl refl

race-loses_example :
    let t' =
      run_threads Serializers Serializers
        (race 8 ++ ((1, begins_request 9) ∷ (1, goes_on) ∷ []))
        (threads (pops false 0) (4 ∷ [])) in
    IsStranded Serializers Serializers t' × (t'.shared.invoked ≡ 4 ∷ [])
race-loses_example =
    race-loses Serializers Serializers (λ x q. refl) 4 8 0 (shared (4 ∷ [])) (omega arith) refl refl
      ((1, begins_request 9) ∷ (1, goes_on) ∷ [])
