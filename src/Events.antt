-- ===== src/Events.antt =====
-- include/launch_cpp/event_queue.hpp, event_dispatcher.hpp and event_handler.hpp. The locks make
-- each method one step. An event and a handler's address are given by numbers.
pub mod Queue
pub mod Dispatcher
