-- ===== src/Lib.antt =====
-- A model of launch_cpp, a C++ library that starts and supervises the processes of a robot, and
-- the properties that make its parts correct.
--
-- A launch file is parsed to a YAML value, from which the builder makes a launch description; an
-- include loads such a file when it runs. A launch description is a list of actions. LaunchService
-- visits each description: an action runs when its condition holds, and may declare or set launch
-- configurations, start a process, wait, or run further actions. Texts are substitutions, computed
-- from the context when they are needed.
-- DependencyManager orders processes with DependencyResolver and executes them in that order. A
-- process is started through the safety interfaces (executor, resource monitor, watchdog) and may
-- be started again when that fails. Events go through a queue to the handlers that match them, and
-- a thread pool runs tasks.
--
-- The files and the code they model:
--   Prelude: shared helpers: tests on numbers, lists, texts as lists of bytes, ordered maps, an
--     integer type for in-degrees, and lists compared by how often a name stands in them.
--   Resolver: include/launch_cpp/safety/dependency_resolver.hpp. resolve is validation, the
--     depth-first cycle search, then Kahn's algorithm (`kahn`, `process`, `relax`).
--   Dependencies: src/dependency_manager.cpp.
--   Errors: include/launch_cpp/error_code.hpp.
--   Context: src/launch_context_impl.hpp.
--   Substitutions: src/substitutions and the two substitutions that are headers only.
--   Conditions: src/conditions and include/launch_cpp/condition.hpp.
--   Actions: src/action.cpp, src/launch_description.cpp, and src/actions for arguments,
--     configurations, groups and timers. An include is an operation of the host.
--   Yaml: include/launch_cpp/yaml_parser.hpp and src/yaml_parser.cpp: Texts, Scalars, Streams, Rounds
--     and Parser are the parser, Builder the builder with from_yaml of src/launch_description.cpp.
--   Includes: src/actions/include_launch_description.cpp, and the host whose includes it executes.
--   Osal: the interfaces of include/launch_cpp/safety/osal.hpp that the process action uses.
--   Processes: src/actions/execute_process.cpp.
--   Supervision: the process action with the POSIX watchdog behind its interface.
--   Executor: src/safety/posix_process_executor.cpp.
--   Resources: src/safety/posix_resource_monitor.cpp.
--   Service: src/launch_service.cpp.
--   Program: src/main.cpp; Launching composes it with the parser, the builder and the actions.
--   Events: include/launch_cpp/event_queue.hpp and event_dispatcher.hpp.
--   ThreadPool: src/thread_pool.cpp.
--   Singleton: include/launch_cpp/singleton.hpp.
--   Retry: include/launch_cpp/safety/retry_policy.hpp.
--   Commands: include/launch_cpp/safety/command_builder.hpp.
--   Watchdog: src/safety/posix_watchdog.cpp and the heartbeat of include/launch_cpp/safety/osal.hpp.
--   Examples: every theorem at a concrete input, and tests.
--
-- A method that holds a lock from start to end is one function on the state. The thread pool, whose
-- submit is not, and the singleton are step relations: a step is what one thread does between two
-- points where it may wait, or between two accesses to what is shared, and the theorems hold for
-- every order of steps. A shared pointer is the number of its object, and a null pointer is `none`.
-- Processes, time, popen, file tests, `double` and the order of an unordered map are parameters, as
-- functions on an abstract world; times of the watchdog are arguments. A step of the pool's relation
-- may be taken and need not be: a worker that misses the wake-up of a shutdown is one that takes no
-- more steps, and no theorem says that the threads go on. The environment of the process is what a
-- new context is given.
--
-- Bounds: the cycle search has one more unit of fuel than the graph mentions names, since each
-- nested visit colours a white name; Kahn's loop has two units for each node, since a name enters
-- the queue once at the start and once when its in-degree reaches zero. Both are enough. In-degrees,
-- `int` in the source, do not overflow here: that takes 2 ^ 31 dependencies on one name. The retry
-- loops go by the attempts that are left; a uint32_t counter of attempts would
-- wrap around only for max_retries = 4294967295, which is left out. A polling loop has two rounds
-- more than its limit has sleeps of 10 ms, which is enough on a steady clock. The checksum and the
-- fields of a heartbeat keep their wrap-around.
--
-- The YAML parser has three units of fuel for each byte of the text, and six; each round of a loop
-- takes a line, a line of a list item has three bytes at least, and going back adds one byte at most,
-- so this is enough. A std::istringstream keeps its text, a position and two bits, and `getline`,
-- `tellg` and `seekg` do what the standard says, at the end of the text too. The parser's line counter,
-- which nothing reads, and `int` overflow of an indent are left out.
--
-- Not modelled: the mock executor, whose methods call a callback or return a constant; the node
-- action, most of whose methods have no body, like some of the command builder; the event classes,
-- which are plain data; the error handler, which is an interface only; get_uptime and
-- get_process_uptime, which nothing calls.
pub mod Prelude
pub mod Resolver
pub mod Errors
pub mod Context
pub mod Substitutions
pub mod Conditions
pub mod Actions
pub mod Service
pub mod Events
pub mod ThreadPool
pub mod Retry
pub mod Commands
pub mod Watchdog
pub mod Dependencies
pub mod Processes
pub mod Examples
pub mod Osal
pub mod Yaml
pub mod Includes
pub mod Resources
pub mod Singleton
pub mod Executor
pub mod Supervision
pub mod Program
