-- ===== src/Watchdog/Reports.antt =====
-- src/safety/posix_watchdog.cpp: when the watchdog reports a node, and how often.
use launch_cpp.Prelude.{
  refl, ◌-◌, ◌*◌, ltb, ap, ◌∙◌, ℕ, ◌+◌, ◌≤◌, ◌≡◌, Bool, true, false, not, ◌&&◌, some, List, [], ◌∷◌,
  ◌++◌, ◌==◌, if◌then◌else◌, arith, Bool-cases, Option-cases, inl, inr, ltb,
}
use launch_cpp.Watchdog.{
  Watchdog, WatchdogNode, Nodes, HeartbeatMessage, OsalStatus, success, new_watchdog, find_node,
  set_node, erase_node, new_node, beat, silent, is_late, check_nodes, report_nodes, check_timeouts,
  register_node, unregister_node, submit_heartbeat, is_responsive, set_timeout_callback, start,
  stop,
}

unfoldable pub occurrences : ℕ → List ℕ → ℕ
occurrences id [] = 0
occurrences id (k ∷ ks) = (if k == id then 1 else 0) + occurrences id ks

-- How often a node with this identifier may still be reported.
unfoldable pub pending : ℕ → Nodes → ℕ
pending id [] = 0
pending id ((k, node) ∷ nodes) = (if k == id && node.responsive then 1 else 0) + pending id nodes

pending-set_node :
    (id k : ℕ) (node : WatchdogNode) (nodes : Nodes)
    → pending id (set_node k node nodes) ≤ (if k == id then 1 else 0) + pending id nodes
unfolding pending set_node
pending-set_node id k node [] = ground arith
pending-set_node id k node ((j, old) ∷ nodes) = ground (arith, pending-set_node id k node nodes)

pending-erase_node : (id k : ℕ) (nodes : Nodes) → pending id (erase_node k nodes) ≤ pending id nodes
unfolding pending erase_node
pending-erase_node id k [] = ground arith
pending-erase_node id k ((j, old) ∷ nodes) = ground (arith, pending-erase_node id k nodes)

pending-check_nodes :
    (id : ℕ) (callback : Bool) (now : ℕ) (nodes : Nodes)
    → occurrences id (report_nodes callback now nodes) + pending id (check_nodes now nodes)
      ≤ pending id nodes
unfolding pending occurrences report_nodes check_nodes
pending-check_nodes id callback now [] = ground arith
pending-check_nodes id callback now ((k, node) ∷ nodes) =
    ground (arith, pending-check_nodes id callback now nodes)

pub data Operation : Type 0 where
  registers : (id timeout_ms : ℕ) → Bool → (now : ℕ) → Operation
  unregisters : ℕ → Operation
  beats : HeartbeatMessage → (now : ℕ) → Operation
  checks : (now : ℕ) → Operation
  sets : Bool → Operation
  starts : (now : ℕ) → Operation
  stops : Operation

abbrev pub is_success : OsalStatus → Bool
is_success success = true
is_success _ = false

-- The reports of an operation, and the watchdog after it.
unfoldable pub apply : Operation → Watchdog → List ℕ × Watchdog
apply (registers id timeout_ms callback now) w =
    ([], (register_node id timeout_ms callback now w).1)
apply (unregisters id) w = ([], (unregister_node id w).1)
apply (beats m now) w = ([], (submit_heartbeat m now w).2)
apply (checks now) w = check_timeouts now w
apply (sets callback) w = ([], set_timeout_callback callback w)
apply (starts now) w = ([], (start now w).1)
apply stops w = ([], (stop w).1)

-- 1 for a registration of the node and for a heartbeat of it that the watchdog accepts.
unfoldable pub sign_of_life : ℕ → Operation → Watchdog → ℕ
sign_of_life id (registers k timeout_ms callback now) w =
    if k == id && is_success (register_node k timeout_ms callback now w).0 then 1 else 0
sign_of_life id (beats m now) w =
    if m.node_id == id && is_success (submit_heartbeat m now w).0 then 1 else 0
sign_of_life id _ w = 0

unfoldable pub reports : List Operation → Watchdog → List ℕ
unfolding apply
reports [] w = []
reports (op ∷ ops) w = (apply op w).0 ++ reports ops (apply op w).1

unfoldable pub signs_of_life : ℕ → List Operation → Watchdog → ℕ
unfolding apply sign_of_life
signs_of_life id [] w = 0
signs_of_life id (op ∷ ops) w = sign_of_life id op w + signs_of_life id ops (apply op w).1

occurrences-append :
    (id : ℕ) (xs ys : List ℕ) → occurrences id (xs ++ ys) ≡ occurrences id xs + occurrences id ys
unfolding occurrences
occurrences-append id [] ys = omega arith
occurrences-append id (x ∷ xs) ys = ground (arith, occurrences-append id xs ys)

pending-apply :
    (id : ℕ) (op : Operation) (w : Watchdog)
    → occurrences id (apply op w).0 + pending id (apply op w).1.nodes
      ≤ sign_of_life id op w + pending id w.nodes
unfolding apply sign_of_life occurrences register_node unregister_node submit_heartbeat
    check_timeouts set_timeout_callback start stop
pending-apply id (registers k timeout_ms callback now) w =
    ground (arith, pending-set_node id k (new_node k timeout_ms callback now) w.nodes)
pending-apply id (unregisters k) w = ground (arith, pending-erase_node id k w.nodes)
pending-apply id (beats m now) w = elim (Option-cases (find_node m.node_id w.nodes)) [
  | inl missing ↦ rw missing (ground arith)
  | inr (node, found) ↦
      rw found (ground (arith, pending-set_node id m.node_id (beat m now node) w.nodes))
]
pending-apply id (checks now) w =
    ground (arith, pending-check_nodes id w.timeout_callback now w.nodes)
pending-apply id (sets callback) w = ground arith
pending-apply id (starts now) w = ground arith
pending-apply id stops w = ground arith

reports-pending :
    (id : ℕ) (ops : List Operation) (w : Watchdog)
    → occurrences id (reports ops w) ≤ signs_of_life id ops w + pending id w.nodes
unfolding reports signs_of_life occurrences
reports-pending id [] w = omega arith
reports-pending id (op ∷ ops) w = ground (
  arith,
  occurrences-append id (apply op w).0 (reports ops (apply op w).1),
  pending-apply id op w,
  reports-pending id ops (apply op w).1,
)

-- Whatever is called on a new watchdog, in whatever order and at whatever times, a node is
-- reported at most as often as it is registered or sends an accepted heartbeat.
pub reports-bound :
    (id : ℕ) (ops : List Operation)
    → occurrences id (reports ops new_watchdog) ≤ signs_of_life id ops new_watchdog
unfolding pending
reports-bound id ops = ground (arith, reports-pending id ops new_watchdog)

find_node-check_nodes :
    (id now : ℕ) (node : WatchdogNode) (nodes : Nodes)
    → find_node id nodes ≡ some node
    → find_node id (check_nodes now nodes)
      ≡ some (if is_late now node then if node.responsive then silent node else node else node)
unfolding find_node check_nodes
find_node-check_nodes id now node [] h = ground arith
find_node-check_nodes id now node ((k, other) ∷ nodes) h =
    ground (arith, find_node-check_nodes id now node nodes)

-- After a check, a registered node counts as responsive exactly when it did before and its last
-- heartbeat is not older than its timeout.
pub is_responsive-check_timeouts :
    (id now : ℕ) (node : WatchdogNode) (w : Watchdog)
    → find_node id w.nodes ≡ some node
    → is_responsive id (check_timeouts now w).1
      ≡ (success, node.responsive && not (is_late now node))
unfolding is_responsive check_timeouts
is_responsive-check_timeouts id now node w h =
    rw (is_responsive, find_node-check_nodes id now node w.nodes h) (ground arith)

occurrences-report_nodes :
    (id now : ℕ) (node : WatchdogNode) (nodes : Nodes)
    → find_node id nodes ≡ some node
    → is_late now node ≡ true
    → node.responsive ≡ true
    → 1 ≤ occurrences id (report_nodes true now nodes)
unfolding find_node report_nodes occurrences
occurrences-report_nodes id now node [] h late responsive = ground arith
occurrences-report_nodes id now node ((k, other) ∷ nodes) h late responsive =
    elim (Bool-cases (k == id)) [
      | inl here ↦ ground arith
      | inr there ↦ ground (arith, occurrences-report_nodes id now node nodes)
    ]

find_node-set_node :
    (id : ℕ) (node : WatchdogNode) (nodes : Nodes)
    → find_node id (set_node id node nodes) ≡ some node
unfolding find_node set_node
find_node-set_node id node [] = ground arith
find_node-set_node id node ((k, other) ∷ nodes) = ground (arith, find_node-set_node id node nodes)

find_node-register_node :
    (id period : ℕ) (callback : Bool) (t : ℕ) (w : Watchdog)
    → (register_node id period callback t w).0 ≡ success
    → find_node id (register_node id period callback t w).1.nodes
      ≡ some (new_node id period callback t)
unfolding register_node
find_node-register_node id period callback t w h =
    ground (arith, find_node-set_node id (new_node id period callback t) w.nodes)

find_node-submit_heartbeat :
    (m : HeartbeatMessage) (t : ℕ) (w : Watchdog) (node : WatchdogNode)
    → find_node m.node_id w.nodes ≡ some node
    → (submit_heartbeat m t w).0 ≡ success
    → find_node m.node_id (submit_heartbeat m t w).2.nodes ≡ some (beat m t node)
unfolding submit_heartbeat
find_node-submit_heartbeat m t w node found h =
    ground (arith, find_node-set_node m.node_id (beat m t node) w.nodes)

callback-register_node :
    (id period : ℕ) (callback : Bool) (t : ℕ) (w : Watchdog)
    → (register_node id period callback t w).1.timeout_callback ≡ w.timeout_callback
unfolding register_node
callback-register_node id period callback t w = ground arith

callback-submit_heartbeat :
    (m : HeartbeatMessage) (t : ℕ) (w : Watchdog)
    → (submit_heartbeat m t w).2.timeout_callback ≡ w.timeout_callback
unfolding submit_heartbeat
callback-submit_heartbeat m t w = ground arith

in_time-is_late :
    (period registered beaten now : ℕ) (callback : Bool) (m : HeartbeatMessage)
    → not (is_late now (beat m beaten (new_node m.node_id period callback registered)))
      ≡ ltb (now - beaten) ((period + 1) * 1000000)
unfolding is_late
in_time-is_late period registered beaten now callback m = ground arith

reports_of :
    {n : ℕ} {in_time : Bool} (late : Bool)
    → not late ≡ in_time
    → (late ≡ true → 1 ≤ n)
    → (if in_time then 0 else 1) ≤ n
reports_of {n} {in_time} late e h = ground arith

-- With a timeout callback, a node is registered and then sends a heartbeat that is accepted. The
-- next check finds it responsive exactly when the time since the heartbeat, in nanoseconds, is less
-- than one millisecond above the timeout of the registration, and reports it otherwise; how long
-- ago it was registered makes no difference.
pub check_timeouts-reports :
    (period registered beaten now : ℕ) (callback : Bool) (m : HeartbeatMessage) (w : Watchdog)
    → w.timeout_callback ≡ true
    → (register_node m.node_id period callback registered w).0 ≡ success
    → let watched = (register_node m.node_id period callback registered w).1 in
      (submit_heartbeat m beaten watched).0 ≡ success
      → let checked = check_timeouts now (submit_heartbeat m beaten watched).2 in
        let in_time = ltb (now - beaten) ((period + 1) * 1000000) in
        (is_responsive m.node_id checked.1 ≡ (success, in_time))
        × ((if in_time then 0 else 1) ≤ occurrences m.node_id checked.0)
unfolding check_timeouts
check_timeouts-reports period registered beaten now callback m w h r b =
    let watched = (register_node m.node_id period callback registered w).1 in
    let node = new_node m.node_id period callback registered in
    let heard = (submit_heartbeat m beaten watched).2 in
    let found : find_node m.node_id heard.nodes ≡ some (beat m beaten node) =
      find_node-submit_heartbeat m beaten watched node
        (find_node-register_node m.node_id period callback registered w r) b in
    let on : heard.timeout_callback ≡ true =
      callback-submit_heartbeat m beaten watched
      ∙ callback-register_node m.node_id period callback registered w
      ∙ h in
    (
      is_responsive-check_timeouts m.node_id now (beat m beaten node) heard found
          ∙ ap (λ x. (success, x)) (in_time-is_late period registered beaten now callback m),
      reports_of (is_late now (beat m beaten node))
          (in_time-is_late period registered beaten now callback m)
          (λ late. rw on (
            occurrences-report_nodes m.node_id now (beat m beaten node) heard.nodes found late
              refl)),
    )
