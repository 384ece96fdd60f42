-- ===== src/Lib.antt =====
-- A model of hps_sf, the server framework of CollaborAtiveScheduleServer: coroutines, the
-- scheduler that runs them on threads, timers, the I/O manager that joins the three, the hooks
-- that make `sleep` wait on a timer, and the threads, locks, configuration and log that these
-- stand on.
--
-- The parts and how they interact:
--   Base        numbers, lists, 64-bit words, and `Outcome`, the result of code that may fail: a
--               failed HPS_ASSERT (hps_sf/macro.h), a null pointer, an exception.
--   OrderedSet  std::set of addresses under a comparator, as its documentation says.
--   Callback    std::function<void()>, and OnTimer of hps_sf/timer.cpp.
--   Timer       hps_sf/timer.h and timer.cpp. The timers are objects in a store `heap`, shared by
--               the manager's set and the callers' handles; one function per method of hps_Timer
--               and hps_TimerManager. The clock reading and the address that `new` returns are
--               arguments.
--   Fiber       hps_sf/fiber.h and fiber.cpp, as one thread sees them: the fibers, the
--               thread-local pointers, the process-wide counters, and for each fiber whose code
--               its context holds, which is what swapcontext changes.
--   Scheduler   hps_sf/scheduler.h and scheduler.cpp: the queue, `start`, `stop`, `stopping`; in
--               Scheduler/Worker the loop of `run`, cut where it switches into a fiber
--               (`dispatch`) and where the fiber gives the thread back (`resume`); in
--               Scheduler/System the workers together, with one worker's piece, a call of
--               `schedule` or `start`, a piece of `stop`, or a change of fiber states as a step, so
--               that every interleaving at these points is a sequence of steps. Scheduler/Fairness has
--               how long a task waits, Scheduler/Conserving what becomes of the tasks. `stop` is cut
--               where it calls the root fiber, which is a worker like the others, and before it joins
--               threads.
--   IoManager   hps_sf/iomanager.h and iomanager.cpp: the contexts of the descriptors, what the
--               kernel watches of each, and the calls of `schedule` that events lead to.
--               IoManager/Removal has delEvent, cancelEvent and cancelAll, IoManager/Idle the
--               parts of `idle` and `stopping`, which asks the Scheduler and the Timer, and
--               IoManager/Round a whole round of the loop. The round reads the timers at
--               three times with the lock free in between, so each time has its own timers;
--               IoManager/Starving is the loop when nothing else calls them.
--   Hook        hps_sf/hook.cpp: `sleep` and `usleep` on a thread with its fibers (Fiber) and its
--               I/O manager (Timer and Scheduler), and the function that the timer calls.
--   Config      hps_sf/config.h and config.cpp: the variables and the map of their names; in
--               Config/Yaml ListAllMember and LoadFromYaml, over nodes that are a parameter; in
--               Config/Casts the conversions between strings and containers. The values of all
--               types are one type.
--   Locks       hps_sf/mutex.h: the scoped locks, as the calls that they make on the lock that
--               they guard, in Locks/Guarding by several threads on a lock of pthread, and the
--               lock made of an atomic flag, between threads.
--   Threads     hps_sf/thread.h and thread.cpp: semaphores, names, `join`, and in
--               Threads/Starting the constructor of a thread beside the thread that it starts, as
--               steps in any order.
--   Log         hps_sf/log.h and log.cpp: Log/Level the levels, Log/Pattern how a pattern becomes
--               the items of a formatter, Log/Formatting what the items write and the file
--               appender, Log/Logger the loggers with their appenders and the manager's map,
--               Log/Defines the definitions of loggers and their conversions, with toYAMLString of
--               the manager in Log/Defines/Dump, Log/Listener the listener that applies them to
--               the loggers, and in Log/Listener/Dumped that string made of the loggers (addListener
--               of hps_sf/config.h stores no listener, so these are about calls of the listener
--               itself), Log/Statement the macros that log. Strings are lists of character codes.
--   Util        hps_sf/util.cpp: the clocks, and the text of a backtrace.
--
-- Conventions: an object is named by its address, a thread and a scheduler by a number; a pointer
-- that may be null is an Option. uint64_t and size_t wrap around at 2^64. A virtual call that a
-- component makes (`tickle`, `onTimerInsertedAtFront`) is a flag in its result. Whether epoll_ctl
-- fails for a reason of its own is an argument; otherwise it changes the interest list as its
-- manual says. All loops are recursive on the list or the number that they go through.
-- `Log.Logger.log` has fuel, for the loggers on the way along `m_root`: 2 is enough, since loggers that the manager
-- makes have its root, which has none. `Config.Yaml.list_all_member` has fuel for the depth of a
-- node, since the nodes are a parameter: any number above the node's height is enough
-- (`Config.Members`).
--
-- Timers are ordered by a comparator that is an order only while deadlines and addresses agree
-- (`Timer.Order.Agree`): the invariant of the manager contains that agreement, and calls that set
-- deadlines keep the invariant under the hypothesis that the new deadlines agree too.
--
-- Parameters: the functions that dlsym finds (Hook), yaml-cpp and boost::lexical_cast (Config),
-- strftime and vasprintf (Log), a lock of pthread (Locks). What is asked of yaml-cpp for the round
-- trips is `Config.Casts.RoundTrip.Laws` and `Log.Defines.RoundTrip.Laws`, what is asked of pthread
-- `Locks.Guarding.Laws`.
--
-- Not modelled: macro.h and singleton.h, which are glue; the memory of stacks and contexts; the
-- creation of the descriptors of the I/O manager; and the program's own log lines.
pub mod Base
pub mod OrderedSet
pub mod Callback
pub mod Timer
pub mod Fiber
pub mod Scheduler
pub mod IoManager
pub mod Hook
pub mod Config
pub mod Locks
pub mod Threads
pub mod Log
pub mod Util
