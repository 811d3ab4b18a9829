-- ===== src/Lib.antt =====
-- Verification of braid, a server framework over io_uring in C++, and of the programs that use it.
--
-- A service (braid/src/service) accepts connections. Each connection is a session with a receive
-- buffer; an io_uring operation asks the kernel for something on a session, and its completion calls
-- the session back. A session cuts the received bytes into messages and hands each to the dispatcher,
-- whose handlers belong to the application. Handlers answer through send buffers, and may ask task
-- serializers (braid/src/task) to run tasks one after the other. Operations are objects of pools
-- (braid/src/memory). sample-server is an application, and test-client sends messages to it.
--
-- The files and what they model:
--   Common.antt              lists, bytes, 32-bit integers, and tests on numbers
--   Lockfree.antt            boost::lockfree::queue as an interface: push may fail, pop takes the
--                            oldest; lists are a value of it
--   Memory/Chunk.antt        braid/src/memory/include/braid/memory/MemoryChunk.h
--   Memory/Cache.antt        ThreadLocalCache.h, beside it
--   Memory/Pool.antt         ObjectPool.h, beside it: acquire, release and the functions under them,
--                            run by one thread from any state of the shared part
--   Memory/Threads.antt      the same, run by several threads: a step of a thread is an operation on
--                            what they share, and a schedule is any sequence of steps
--   Net/Object.antt          braid/src/service/include/braid/net/IOUringObject.h
--   Net/Uring.antt           io_uring as an interface: rings, entries and completions
--   Message/*.antt           MessageHeader.h, SendBuffer.h and MessageDispatcher.cc of braid/src/service
--   Session/Framing.antt     the loop of ServiceSession::on_received
--   Session/Connection.antt  ServiceSession.cc, Actor.cc and handle_io_completion of the operations;
--                            what a session asks of its service is returned as a list of requests
--   Session/Stream.antt      runs of receives, at sizes that the kernel chooses
--   Session/Broadcast.antt   SendMessage of MessageHeader.h
--   Service.antt             Service.cc: the queue of free sessions, the counter that spreads
--                            operations over the workers, and the requests of the sessions
--   Service/RequestQueue.antt  IORequestQueue.cc: handing the requested operations to the ring
--   Service/Routine.antt     WorkerThread::routine, IOCompletion.cc, IORequestQueue::wait_one, the
--                            request_io of the operations, and their reference counts
--   Service/Routine/Others.antt  IOOperationSend.cc, IOOperationNop.cc and the move of a completion,
--                            which the program does not use
--   Service/Workers.antt     the same worker as a thread among others: a step is an operation on what
--                            they share, or on the worker's ring, and steps come in any order
--   Service/Run.antt         Thread.cc and Service::run: the start of the threads, their loops, stop
--                            and join
--   Service/IoPool.antt      IOPool.h: the pools of operations, one for each kind
--   Service/Builder.antt     ServiceBuilder.h, the start of a service, and the main programs' chains
--   Task/RefCount.antt       RefCountable.h
--   Task/Arguments.antt      the constructors and the destructor of Task.h, on reference counts
--   Task/Serializer.antt     TaskSerializer.cc and TaskDistributor.cc, run by one thread
--   Task/Threads.antt        one serializer that several threads request tasks of and process
--   Log.antt                 LogHandler.cc and LogHandler.h
--   Log/Calls.antt           the log macros' calls
--   Sample/*.antt            the handler and the task of sample-server/SampleServer.cc
--   Client.antt              the messages and write_all of test-client/TestClient.cc
--   Client/Round.antt        its connections, and its rounds of sends
--   Client/Receive.antt      its registrations with epoll, and its reads
-- Below a file stand its laws, and the tests of a component are in its Tests.antt.
--
-- Fuel: the framing loop has a round more than there are committed bytes, since a round drops eight
-- bytes at least; the send loop of the sample has a round more than there are bytes to send; the loop
-- of flush_requests has a round more than there are operations in its queue. Calls of
-- process_task_serializer nest to the depth two, and the second call fails its assertion, so more is
-- never used.
--
-- Not modelled: the order in which threads see each other's writes: a step sees all that came before
-- it, and handling a completion is one step; acquire_ptr, which nothing calls, and the destructors of
-- the pools and of the distributor, which run at the end of the program; the reports of the programs to
-- the console. boost, io_uring, epoll, sockets, the allocator, std::thread, std::format,
-- std::to_string, std::stoll, random numbers and files enter as parameters or arguments.
pub mod Common
pub mod Lockfree
pub mod Memory
pub mod Log
pub mod Net
pub mod Message
pub mod Task
pub mod Session
pub mod Service
pub mod Sample
pub mod Client
