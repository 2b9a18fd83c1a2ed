-- ===== src/Lib.antt =====
-- tinyCoro: C++20 coroutines over io_uring, one engine to each work thread, and components by
-- which coroutines synchronise.
--
-- The parts and how they interact. A context (include/coro/context.hpp, src/context.cpp) owns an
-- engine (include/coro/engine.hpp, src/engine.cpp): a queue of coroutine handles, two counts of io
-- requests, and an eventfd by which others wake it. A mutex, an event, a wait group and a latch
-- (include/coro/comp, src/comp) suspend a coroutine by hanging its awaiter on one atomic word, and
-- wake it by handing its handle back to the context it came from; while it is suspended, the wait
-- counter of that context keeps the thread from leaving.
--
-- Where each part stands. Contexts is the interface of the contexts that the synchronisation
-- components use (register_wait, unregister_wait, submit_task), with its laws; Context.Implements
-- shows that the contexts of the code have it, and Contexts.Plain is a small instance for runs.
-- Waiters has the intrusive lists of awaiters, by addresses. Mutex models src/comp/mutex.cpp and
-- include/coro/comp/mutex.hpp, Event models src/comp/event.cpp and include/coro/comp/event.hpp,
-- WaitGroup models src/comp/wait_group.cpp, Latch models include/coro/comp/latch.hpp over Event.
-- Engine models src/engine.cpp, and Context models src/context.cpp over it, Context.Thread the
-- thread that start makes. Scheduler models src/scheduler.cpp with the round robin of
-- include/coro/dispatcher.hpp. Container models include/coro/detail/container.hpp, where
-- coroutines and events keep results, and MarkedBuffer include/coro/marked_buffer.hpp. CondVar
-- models src/comp/condition_variable.cpp over what Mutex.Spec says of the mutex, a whole call at a
-- time. Task models the ownership of coroutine frames in include/coro/task.hpp, and Timer the time
-- spec of include/coro/timer.hpp. Io models src/io/io_awaiter.cpp, the awaiter of
-- include/coro/timer.hpp and include/coro/io/base_awaiter.hpp: Io.Awaiters the constructors,
-- Io.Request the requests that they leave in the ring, Io.Result a request up to the value of its
-- co_await, and Io.Delivery a batch of completions; the callbacks are the program (Io.io_program)
-- that runs on an Engine. FixedFd models the fixed file descriptors of
-- include/coro/uring_proxy.hpp and include/coro/io/base_io_type.hpp over MarkedBuffer, and the
-- connector of include/coro/io/net/tcp/tcp.hpp, whose requests are awaiters of Io. UringProxy
-- models the constructor, init and deinit of include/coro/uring_proxy.hpp over the table of
-- FixedFd. Tcp models the server and the client of src/io/net/tcp/tcp.cpp over FixedFd, with
-- set_fd_noblock of src/utils.cpp. Await models how coroutines await tasks: the promise, the
-- awaiter and the final awaiter of include/coro/task.hpp under exec_one_task of src/engine.cpp;
-- the body of a coroutine is a tree of what it does, and a move takes one branch of it. Text
-- models the strings of include/coro/utils.hpp and src/utils.cpp, and Spinlock
-- include/coro/spinlock.hpp.
--
-- How the concurrent components are modelled. The state is the atomic words, the fields of every
-- awaiter as functions of its address, and the state of the contexts. Each coroutine has a program
-- point with its live locals (Pc), and act is its next step, with at most one access to an atomic
-- word; exec lets one coroutine make one step, so a run is any interleaving, and Reach is what the
-- runs reach from the constructor. Memory is sequentially consistent. A compare_exchange_weak may
-- fail spuriously, at the will of the run (Choice.spurious). A coroutine that was handed back to
-- its context stands behind its suspension; that its context then runs it is the work of the
-- engine. Mutex.Spec is the specification of the mutex: an owner and a first-in first-out queue;
-- every step of the code is at most one step of it.
--
-- The engine and its surroundings. AtomicQueue and liburing are not code of this repository:
-- Engine.Platform lists the operations and what the engine relies on, a queue in the order of its
-- contents and a batch of completions that is never larger than asked. What the coroutines do is
-- Engine.Program: each resumption or callback gives a list of effects, calls of submit_task,
-- add_io_submit, register_wait and unregister_wait, its own and those that other threads make
-- meanwhile. Context.Surroundings has the stop token, the callback, and the calls of other threads
-- while the thread waits for events. The logs of what was resumed and completed are added for the
-- statements. Io.Uring is what the awaiters see of liburing: entries with a request, flags and
-- user data. FixedFd.Files is the table of registered files in the kernel, and Tcp.Sockets the
-- calls on sockets; a call gives its number, and the laws say what it has done when that number
-- means success. Where a constructor ends the program, the model says how: an assertion, or exit
-- with a message.
--
-- Numbers. Counters wrap at the width of their type, written out: 2 ^ 64 for size_t and for the
-- counter of a latch, 2 ^ 32 for that of a wait group. An int is the word of 32 bits that stands
-- for it, in two's complement. Theorems about counters say within which range they hold.
--
-- Loops. The loops over lists of awaiters are single rounds of a step relation; that they end is a
-- theorem with the number of steps they take. The loop of a context runs on fuel; that one round
-- is enough to leave, when nothing is left to come, is a theorem, and what holds whenever it
-- leaves is another.
--
-- Not modelled: weaker memory orders; the destruction of an object that is in use; the size of the
-- array of completions in the engine; the older copies of the io awaiters and of tcp under
-- src/net; logging and the compile-time parts.
--
pub mod Prelude
pub mod Contexts
pub mod Waiters
pub mod Mutex
pub mod Event
pub mod WaitGroup
pub mod Latch
pub mod Engine
pub mod Context
pub mod Container
pub mod MarkedBuffer
pub mod Scheduler
pub mod CondVar
pub mod Task
pub mod Timer
pub mod UringProxy
pub mod Io
pub mod FixedFd
pub mod Tcp
pub mod Text
pub mod Spinlock
pub mod Await
