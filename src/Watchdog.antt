-- ===== src/Watchdog.antt =====
-- include/launch_cpp/safety/osal.hpp and src/safety/posix_watchdog.cpp: heartbeats with their
-- checksum, and the watchdog that reports the nodes that stay silent. Times are nanoseconds of the
-- steady clock, an argument of the operations that read it. What the callbacks are called with is
-- returned.
pub mod Checksum
pub mod Reports
use launch_cpp.Prelude.{
  ℕ, suc, ◌+◌, ◌-◌, ◌*◌, ◌/◌, ◌%◌, ◌^◌, Bool, true, false, not, Option, none, some, List, [], ◌∷◌,
  ◌++◌, Str, codes, ◌==◌, ltb, if◌then◌else◌,
}

pub data ProcessState : Type 0 where
  not_started starting running stopping stopped crashed state_unknown : ProcessState

abbrev pub state_number : ProcessState → ℕ
state_number not_started = 0
state_number starting = 1
state_number running = 2
state_number stopping = 3
state_number stopped = 4
state_number crashed = 5
state_number state_unknown = 6

pub data OsalStatus : Type 0 where
  success error timeout resource_exhausted : OsalStatus
  permission_denied not_found invalid_argument : OsalStatus

pub record HeartbeatMessage : Type 0 where
  pub node_id : ℕ
  pub sequence : ℕ
  pub timestamp_us : ℕ
  pub state : ProcessState
  pub checksum : ℕ

abbrev pub word : ℕ
word = 4294967296

-- The sum of the fields in `uint32_t`.
unfoldable pub field_sum : HeartbeatMessage → ℕ
field_sum m =
    (m.node_id
      + m.sequence
      + m.timestamp_us % word
      + m.timestamp_us / word % word
      + state_number m.state)
    % word

-- `~sum + 1` in `uint32_t`.
unfoldable pub calculate_checksum : HeartbeatMessage → ℕ
unfolding field_sum
calculate_checksum m = (word - 1 - field_sum m + 1) % word

unfoldable pub validate_heartbeat : HeartbeatMessage → Bool
unfolding calculate_checksum
validate_heartbeat m = m.checksum == calculate_checksum m

pub record WatchdogNode : Type 0 where
  pub node_id : ℕ
  pub timeout_ms : ℕ
  -- Whether a heartbeat callback is there.
  pub heartbeat_callback : Bool
  pub last_heartbeat : ℕ
  pub registration_time : ℕ
  pub sequence : ℕ
  pub responsive : Bool
  pub last_state : ProcessState

-- `std::map<uint32_t, WatchdogNode>`, in the order of the keys.
abbrev pub Nodes : Type 0
Nodes = List (ℕ × WatchdogNode)

unfoldable pub find_node : ℕ → Nodes → Option WatchdogNode
find_node id [] = none
find_node id ((k, node) ∷ nodes) = if k == id then some node else find_node id nodes

unfoldable pub set_node : ℕ → WatchdogNode → Nodes → Nodes
set_node id node [] = (id, node) ∷ []
set_node id node ((k, old) ∷ nodes) =
    let rest = set_node id node nodes in
    if k == id
    then (id, node) ∷ nodes
    else if ltb id k
    then (id, node) ∷ (k, old) ∷ nodes
    else (k, old) ∷ rest

unfoldable pub erase_node : ℕ → Nodes → Nodes
erase_node id [] = []
erase_node id ((k, node) ∷ nodes) =
    let rest = erase_node id nodes in if k == id then rest else (k, node) ∷ rest

pub record Watchdog : Type 0 where
  pub nodes : Nodes
  -- Whether a timeout callback is there.
  pub timeout_callback : Bool
  pub is_running : Bool
  pub start_time : ℕ
  -- Whether the thread that checks is there.
  pub has_thread : Bool

abbrev pub new_watchdog : Watchdog
new_watchdog = record {
  nodes = [];
  timeout_callback = false;
  is_running = false;
  start_time = 0;
  has_thread = false;
}

abbrev pub with_nodes : Watchdog → Nodes → Watchdog
with_nodes w nodes = record {
  nodes = nodes;
  timeout_callback = w.timeout_callback;
  is_running = w.is_running;
  start_time = w.start_time;
  has_thread = w.has_thread;
}

abbrev pub new_node : (id timeout_ms : ℕ) → (callback : Bool) → (now : ℕ) → WatchdogNode
new_node id timeout_ms callback now = record {
  node_id = id;
  timeout_ms = timeout_ms;
  heartbeat_callback = callback;
  last_heartbeat = now;
  registration_time = now;
  sequence = 0;
  responsive = true;
  last_state = starting;
}

unfoldable pub register_node :
    (id timeout_ms : ℕ) → Bool → (now : ℕ) → Watchdog → OsalStatus × Watchdog
register_node id timeout_ms callback now w =
    if timeout_ms == 0 then (invalid_argument, w) else elim (find_node id w.nodes) [
      | some node ↦ (error, w)
      | none ↦ (success, with_nodes w (set_node id (new_node id timeout_ms callback now) w.nodes))
    ]

unfoldable pub unregister_node : ℕ → Watchdog → OsalStatus × Watchdog
unregister_node id w = elim (find_node id w.nodes) [
  | none ↦ (not_found, w)
  | some node ↦ (success, with_nodes w (erase_node id w.nodes))
]

abbrev pub beat : HeartbeatMessage → (now : ℕ) → WatchdogNode → WatchdogNode
beat m now node = record {
  node_id = node.node_id;
  timeout_ms = node.timeout_ms;
  heartbeat_callback = node.heartbeat_callback;
  last_heartbeat = now;
  registration_time = node.registration_time;
  sequence = m.sequence;
  responsive = true;
  last_state = m.state;
}

-- The status, the messages that callbacks get, and the watchdog afterwards.
unfoldable pub submit_heartbeat :
    HeartbeatMessage → (now : ℕ) → Watchdog → OsalStatus × List HeartbeatMessage × Watchdog
unfolding validate_heartbeat
submit_heartbeat m now w =
    if not (validate_heartbeat m)
    then (invalid_argument, [], w)
    else elim (find_node m.node_id w.nodes) [
      | none ↦ (not_found, [], w)
      | some node ↦ (
        success,
        if node.heartbeat_callback then m ∷ [] else [],
        with_nodes w (set_node m.node_id (beat m now node) w.nodes),
      )
    ]

unfoldable pub is_responsive : ℕ → Watchdog → OsalStatus × Bool
is_responsive id w = elim (find_node id w.nodes) [
  | none ↦ (not_found, false)
  | some node ↦ (success, node.responsive)
]

unfoldable pub set_timeout_callback : Bool → Watchdog → Watchdog
set_timeout_callback callback w = record {
  nodes = w.nodes;
  timeout_callback = callback;
  is_running = w.is_running;
  start_time = w.start_time;
  has_thread = w.has_thread;
}

unfoldable pub start : (now : ℕ) → Watchdog → OsalStatus × Watchdog
start now w = if w.is_running then (error, w) else (
  success,
  record {
    nodes = w.nodes;
    timeout_callback = w.timeout_callback;
    is_running = true;
    start_time = now;
    has_thread = true;
  },
)

-- The join returns, since the thread leaves its loop when it sees the flag.
unfoldable pub stop : Watchdog → OsalStatus × Watchdog
stop w = if not w.is_running then (success, w) else (
  success,
  record {
    nodes = w.nodes;
    timeout_callback = w.timeout_callback;
    is_running = false;
    start_time = w.start_time;
    has_thread = false;
  },
)

abbrev pub silent : WatchdogNode → WatchdogNode
silent node = record {
  node_id = node.node_id;
  timeout_ms = node.timeout_ms;
  heartbeat_callback = node.heartbeat_callback;
  last_heartbeat = node.last_heartbeat;
  registration_time = node.registration_time;
  sequence = node.sequence;
  responsive = false;
  last_state = node.last_state;
}

-- More milliseconds since the last heartbeat than allowed; a heartbeat later than `now` is not.
unfoldable pub is_late : (now : ℕ) → WatchdogNode → Bool
is_late now node = ltb node.timeout_ms ((now - node.last_heartbeat) / 1000000)

unfoldable pub check_nodes : (now : ℕ) → Nodes → Nodes
unfolding is_late
check_nodes now [] = []
check_nodes now ((k, node) ∷ nodes) =
    let rest = check_nodes now nodes in
    if is_late now node
    then (k, if node.responsive then silent node else node) ∷ rest
    else (k, node) ∷ rest

-- The identifiers that the timeout callback is called with, in order.
unfoldable pub report_nodes : (callback : Bool) → (now : ℕ) → Nodes → List ℕ
unfolding is_late
report_nodes callback now [] = []
report_nodes callback now ((k, node) ∷ nodes) =
    let rest = report_nodes callback now nodes in
    if is_late now node
    then if node.responsive then if callback then k ∷ rest else rest else rest
    else rest

unfoldable pub check_timeouts : (now : ℕ) → Watchdog → List ℕ × Watchdog
unfolding check_nodes report_nodes
check_timeouts now w =
    (report_nodes w.timeout_callback now w.nodes, with_nodes w (check_nodes now w.nodes))
