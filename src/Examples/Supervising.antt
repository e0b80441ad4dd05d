-- ===== src/Examples/Supervising.antt =====
-- A watchdog with one node that falls silent, and heartbeats that are damaged.
use launch_cpp.Watchdog.{set_node, submit_heartbeat}
use launch_cpp.Prelude.{
  ltb, ◌+◌, ◌*◌, ◌-◌, if◌then◌else◌, ◌≡◌, ◌≤◌, ◌<◌, ◌≢◌, refl, true, false, List, [], ◌∷◌, arith,
}
use launch_cpp.Watchdog.{
  Watchdog, HeartbeatMessage, running, new_watchdog, register_node, set_timeout_callback,
  check_timeouts, find_node, validate_heartbeat, word, success, calculate_checksum, is_responsive,
}
use launch_cpp.Watchdog.Checksum.{with_node_id, with_sequence, checksum_detects}
use launch_cpp.Watchdog.Reports.{
  Operation, registers, beats, checks, sets, reports, signs_of_life, occurrences, reports-bound,
  check_timeouts-reports,
}

-- Node 3 in state `running` at time 5, with its first number.
abbrev message : HeartbeatMessage
message = record {
  node_id = 3;
  sequence = 1;
  timestamp_us = 5;
  state = running;
  checksum = 4294967285;
}

message-valid : validate_heartbeat message ≡ true
unfolding validate_heartbeat
message-valid = refl

message_bounds : (3 < word) × (4 < word) × (1 < word) × (2 < word)
message_bounds = (omega arith, omega arith, omega arith, omega arith)

three_is_not_four : message.node_id ≢ 4
three_is_not_four e = omega arith

one_is_not_two : message.sequence ≢ 2
one_is_not_two e = omega arith

checksum_detects_example :
    (validate_heartbeat (with_node_id 4 message) ≡ false)
    × (validate_heartbeat (with_sequence 2 message) ≡ false)
checksum_detects_example =
    checksum_detects message 4 2 message_bounds.0 message_bounds.1 message_bounds.2 message_bounds.3
      three_is_not_four one_is_not_two message-valid

-- Exchanging the node and the number is not noticed.
exchanged_test : validate_heartbeat (with_node_id 1 (with_sequence 3 message)) ≡ true
unfolding validate_heartbeat with_node_id with_sequence
exchanged_test = refl

-- A timeout of 50 ms; checks after 100, 200 and 300 ms, a heartbeat before the last one.
abbrev operations : List Operation
operations =
    sets true
    ∷ registers 3 50 false 0
    ∷ checks 100000000
    ∷ checks 200000000
    ∷ beats message 210000000
    ∷ checks 300000000
    ∷ []

reports-bound_example :
    occurrences 3 (reports operations new_watchdog) ≤ signs_of_life 3 operations new_watchdog
reports-bound_example = reports-bound 3 operations

reports_test : reports operations new_watchdog ≡ 3 ∷ 3 ∷ []
unfolding reports check_timeouts register_node find_node set_timeout_callback set_node
    submit_heartbeat
reports_test = refl

abbrev watched : Watchdog
watched = (register_node 3 50 false 0 (set_timeout_callback true new_watchdog)).1

abbrev sign : HeartbeatMessage
sign = record {
  node_id = 3;
  sequence = 1;
  timestamp_us = 0;
  state = running;
  checksum =
      calculate_checksum
        (record { node_id = 3; sequence = 1; timestamp_us = 0; state = running; checksum = 0 });
}

has_callback : (set_timeout_callback true new_watchdog).timeout_callback ≡ true
unfolding set_timeout_callback
has_callback = refl

is_registered : (register_node 3 50 false 0 (set_timeout_callback true new_watchdog)).0 ≡ success
unfolding register_node find_node set_timeout_callback
is_registered = refl

is_accepted : (submit_heartbeat sign 20000000 watched).0 ≡ success
unfolding submit_heartbeat register_node find_node set_node set_timeout_callback validate_heartbeat
    calculate_checksum
is_accepted = refl

check_timeouts-reports_example :
    let checked = check_timeouts 100000000 (submit_heartbeat sign 20000000 watched).2 in
    let in_time = ltb (100000000 - 20000000) ((50 + 1) * 1000000) in
    (is_responsive 3 checked.1 ≡ (success, in_time))
    × ((if in_time then 0 else 1) ≤ occurrences 3 checked.0)
check_timeouts-reports_example =
    check_timeouts-reports 50 0 20000000 100000000 false sign
      (set_timeout_callback true new_watchdog) has_callback is_registered is_accepted
