-- ===== src/Lib.antt =====
-- Verification of roo_threads, a library of threads, mutexes, condition variables, semaphores, a latch and
-- atomics for microcontrollers. The library has three implementations: over FreeRTOS, over the C++
-- library, and for a program with a single thread. The headers under src/roo_threads give the one
-- that fits the platform the names of namespace roo. The FreeRTOS implementation is code of its own, and most
-- of this development is about it.
--
-- How the parts interact. Every wait with a time goes through impl/freertos/timeutil.h. A condition
-- variable is used together with a mutex, through unique_lock; the optimized one keeps a table of
-- the tasks that wait and wakes them by task notifications, the classic one counts the waiting threads and
-- wakes them by the tokens of a semaphore. The latch is a counter with a mutex and a condition variable. A
-- thread is a task with a state on the heap, which join() frees after a handshake over a semaphore.
--
-- Base      Shared helpers: tests into Bool, lists, integers over the native numbers, families
--           with sums, division, runs of a step relation.
-- Kernel    FreeRTOS as parameters: records of operations with their documented behaviour. A theorem
--           about the code holds for every such kernel; the tests instantiate each with a concrete one, of which
--           Kernel/Concrete has those that several of them use.
-- TimeUtil  src/roo_threads/impl/freertos/timeutil.h: to_ticks is ToTicks, calculate_deadline_from_duration
--           its namesake. Durations are integers of microseconds; uint64_t and TickType_t keep
--           their moduli. Wrap is about the deadlines that condition_variable_opt.cpp compares.
-- Lock      Lock/Interface is what a mutex offers to unique_lock. Lock/UniqueLock is unique_lock and
--           lock_guard of src/roo_threads/impl/freertos/mutex.h and the assertions of mutex.cpp: lock objects
--           at addresses, so that moves and swaps may alias, and a result for each call that is
--           a value, a call that never returns, or an assertion that fails.
-- Mutex     class mutex of the same files: Mutex has the members as calls of one task, Mutex/System the
--           steps of any number of tasks through ensureInitialized, lock, try_lock and unlock, and
--           Mutex/Eager the members where ROO_THREADS_FREERTOS_LAZY_INITIALIZE is 0.
-- Semaphore src/roo_threads/impl/freertos/semaphore.h: the members as calls of one thread,
--           in Semaphore/Binary those of binary_semaphore, and in
--           Semaphore/System the steps of any number of threads that acquire and release.
-- CvOpt     src/roo_threads/impl/freertos/condition_variable_opt.h and .cpp: enqueue, dequeue, notify_one and
--           notify_all are the critical sections, CvOpt/System has the steps of any number of
--           threads through wait and wait_until_impl, with the monitor that they are one of in
--           CvOpt/System/Monitor, its events in CvOpt/System/Monitor/Events. CvOpt/WithMutex has the same threads with the steps of Mutex/System in
--           place of an owner, also inside the critical section of a wait. CvOpt/Timeout has the timed
--           loop as a function, and CvOpt/TimedWait the timed waits with a predicate over it.
-- CvClassic src/roo_threads/impl/freertos/condition_variable_classic.h and .cpp; CvClassic/Timed has the
--           timed waits as functions over Semaphore.
-- PredicateWait  The loops of the waits with a predicate, which all condition variables write out.
-- Latch     src/roo_threads/latch.h, over any condition variable, and in Latch/Composed over CvOpt/System.
-- Callable  src/roo_threads/impl/freertos/callable.h: a tuple of values of one type, its indices, and the call
--           of std::invoke on the elements. The variables of the caller are a family, from which an
--           argument is copied or moved.
-- Thread    src/roo_threads/impl/freertos/thread.cpp: start, run_thread and join as the steps of two
--           threads, in Thread/Objects the members that hand a thread from one object to another,
--           and in Thread/Sleep this_thread::sleep_until and sleep_for. Thread/Attributes and Thread/Identity
--           are classes of src/roo_threads/impl/freertos/thread.h, Thread/Create is start as a
--           function and the constructors, and Thread/Whole follows a callable from there to join.
--           Thread/Joiners are several threads that join one object.
-- CppStd    src/roo_threads/impl/cppstd: condition_variable.h and thread.h, whose limit of ten days is code
--           of the repository, and in CppStd/Mutex the unique_lock of mutex.h, which forwards to
--           std::unique_lock as CppStd/StdLock documents it. Lock/UniqueLock/Agreement compares it
--           with the one of FreeRTOS. The rest of that directory is aliases of the C++ library.
-- SingleThreaded  src/roo_threads/impl/singlethreaded: mutex.h, and below it condition_variable.h, thread.h,
--           semaphore.h and atomic.h.
-- ProducerConsumer  examples/ProducerConsumer/ProducerConsumer.ino: the members of Queue as the steps of any number
--           of threads over one mutex and the tables of two condition variables of CvOpt, with ghost
--           fields for what was put and taken; ProducerConsumer/Program has the program's threads.
-- Counter   examples/Counter/Counter.ino: the threads that increment a counter and the task that joins them.
-- Backend   src/roo_threads/impl/resolve.h, impl/freertos/config.h and condition_variable.h, and the headers of
--           namespace roo, as functions of the macros that are defined.
--
-- Threads are numbers, and their interleavings are the runs of a step relation: what runs inside
-- a critical section, or under a mutex that nobody else can have then, is one step, and any thread may
-- take the next. There is no bound on the number of threads, except that the classic condition variable
-- is given at most as many as a semaphore has tokens.
--
-- Loops that the code does not bound take fuel, and give nothing where it runs out. The fuel that is enough
-- is a hypothesis in the terms of the caller: a loop that waits for a time goes round once more at most than
-- there are microseconds, or ticks, up to it, since every round that fails takes some time; a wait
-- with a predicate goes round once more than threads can be woken.
--
-- Not modelled: memory order and the caches of the processor; interrupts and the scheduler's
-- choice of the next task, beyond what the kernel records state; the priority inheritance of mutexes; the memory
-- that an allocation may not get; std::decay and noexcept in callable.h; yield of
-- FreeRTOS, which only calls the kernel; and, of the examples, what they print, and an int that overflows.
mod Base
pub mod Kernel
pub mod TimeUtil
pub mod Lock
pub mod Mutex
pub mod Semaphore
pub mod PredicateWait
pub mod CvOpt
pub mod CvClassic
pub mod Latch
pub mod Callable
pub mod Thread
pub mod CppStd
pub mod SingleThreaded
pub mod Backend
pub mod ProducerConsumer
pub mod Counter
