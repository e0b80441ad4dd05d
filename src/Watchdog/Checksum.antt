-- ===== src/Watchdog/Checksum.antt =====
-- include/launch_cpp/safety/osal.hpp: what the checksum of a heartbeat detects.
use launch_cpp.Prelude.{
  Bool-cases, inl, inr, refl, ◌≢◌, ℕ, ◌+◌, ◌-◌, ◌%◌, ◌<◌, ◌≡◌, arith, ◌≢◌, true, false,
}
use launch_cpp.Watchdog.{word, validate_heartbeat, HeartbeatMessage, field_sum, calculate_checksum}

negated :
    (a b : ℕ) → a < word → b < word → (word - 1 - a + 1) % word ≡ (word - 1 - b + 1) % word → a ≡ b
negated a b ha hb e = omega arith

shifted : (a b c : ℕ) → a < word → b < word → (a + c) % word ≡ (b + c) % word → a ≡ b
shifted a b c ha hb e = omega arith

unfoldable pub with_node_id : ℕ → HeartbeatMessage → HeartbeatMessage
with_node_id id m = record {
  node_id = id;
  sequence = m.sequence;
  timestamp_us = m.timestamp_us;
  state = m.state;
  checksum = m.checksum;
}

unfoldable pub with_sequence : ℕ → HeartbeatMessage → HeartbeatMessage
with_sequence sequence m = record {
  node_id = m.node_id;
  sequence = sequence;
  timestamp_us = m.timestamp_us;
  state = m.state;
  checksum = m.checksum;
}

field_sum-bound : (m : HeartbeatMessage) → field_sum m < word
unfolding field_sum
field_sum-bound m = omega arith

valid-field_sum :
    (m n : HeartbeatMessage)
    → m.checksum ≡ n.checksum
    → validate_heartbeat m ≡ true
    → validate_heartbeat n ≡ true
    → field_sum m ≡ field_sum n
unfolding validate_heartbeat calculate_checksum
valid-field_sum m n same hm hn =
    negated (field_sum m) (field_sum n) (field_sum-bound m) (field_sum-bound n) (ground arith)

with_node_id-field_sum :
    (m : HeartbeatMessage) (id : ℕ)
    → m.node_id < word
    → id < word
    → field_sum m ≡ field_sum (with_node_id id m)
    → m.node_id ≡ id
unfolding field_sum with_node_id
with_node_id-field_sum m id hm hid e = omega arith

with_sequence-field_sum :
    (m : HeartbeatMessage) (sequence : ℕ)
    → m.sequence < word
    → sequence < word
    → field_sum m ≡ field_sum (with_sequence sequence m)
    → m.sequence ≡ sequence
unfolding field_sum with_sequence
with_sequence-field_sum m sequence hm h e = omega arith

-- A valid heartbeat whose node identifier or sequence number, both of 32 bits, is replaced by
-- another one is no longer valid.
pub checksum_detects :
    (m : HeartbeatMessage) (id sequence : ℕ)
    → m.node_id < word
    → id < word
    → m.sequence < word
    → sequence < word
    → m.node_id ≢ id
    → m.sequence ≢ sequence
    → validate_heartbeat m ≡ true
    → (validate_heartbeat (with_node_id id m) ≡ false)
      × (validate_heartbeat (with_sequence sequence m) ≡ false)
unfolding with_node_id with_sequence
checksum_detects m id sequence hm hid hs hsequence other later valid = (
  elim (Bool-cases (validate_heartbeat (with_node_id id m))) [
    | inl h ↦ absurd (
        other
          (with_node_id-field_sum m id hm hid (valid-field_sum m (with_node_id id m) refl valid h)))
    | inr h ↦ h
  ],
  elim (Bool-cases (validate_heartbeat (with_sequence sequence m))) [
    | inl h ↦ absurd (
        later (
          with_sequence-field_sum m sequence hs hsequence
            (valid-field_sum m (with_sequence sequence m) refl valid h)))
    | inr h ↦ h
  ],
)
