-- ===== src/Supervision/Registration.antt =====
-- A started process is watched, and no longer watched after the clean-up before a retry.
use mathlib.Core.Path.{subst, sym}
use launch_cpp.Prelude.{
  ap, ◌==◌, List, Str, Option-cases, inl, inr, ◌∙◌, ℕ, ◌≡◌, refl, Bool, true, false, none, some,
  List, [], ◌∷◌, Str, ◌==◌, ltb, arith,
}
use launch_cpp.Osal.{Osal, OsalResult, done, failed}
use launch_cpp.Watchdog.{
  register_node, unregister_node, with_nodes, success, Watchdog, WatchdogNode, Nodes, find_node,
  set_node, erase_node, new_node,
}
use mathlib.Core.Path.{subst, sym}
use launch_cpp.Processes.Identity.{execute_single_attempt-started}
use launch_cpp.Processes.{
  check_resources, command_line, process_options, execute_single_attempt, cleanup_before_retry,
  stop_leftover, unregister,
}
use launch_cpp.Processes.{
  ExecuteProcess, check_resources, command_line, process_options, started, execute_single_attempt,
  cleanup_before_retry, register_with_watchdog, warn_unless_done, limit_resources, wait_for_screen,
  stop_leftover, unregister,
}
use launch_cpp.Processes.Identity.{execute_single_attempt-started}
use launch_cpp.Supervision.{supervised}

find_node-set_node :
    (id : ℕ) (node : WatchdogNode) (nodes : Nodes)
    → find_node id (set_node id node nodes) ≡ some node
unfolding find_node set_node
find_node-set_node id node [] = ground arith
find_node-set_node id node ((k, old) ∷ nodes) = ground (arith, find_node-set_node id node nodes)

find_node-erase_node : (id : ℕ) (nodes : Nodes) → find_node id (erase_node id nodes) ≡ none
unfolding find_node erase_node
find_node-erase_node id [] = refl
find_node-erase_node id ((k, old) ∷ nodes) = ground (arith, find_node-erase_node id nodes)

register_node-fresh :
    (id period now : ℕ) (callback : Bool) (d : Watchdog)
    → ltb 0 period ≡ true
    → find_node id d.nodes ≡ none
    → register_node id period callback now d
      ≡ (success, with_nodes d (set_node id (new_node id period callback now) d.nodes))
unfolding register_node
register_node-fresh id period now callback d positive fresh =
    rw (register_node, fresh) (ground arith)

unregister_node-find_node :
    (id : ℕ) (d : Watchdog) → find_node id (unregister_node id d).1.nodes ≡ none
unfolding unregister_node
unregister_node-find_node id d = elim (Option-cases (find_node id d.nodes)) [
  | inl missing ↦ rw (unregister_node, missing) missing
  | inr (node, found) ↦ rw (unregister_node, found) (find_node-erase_node id d.nodes)
]

module _ (base : Osal) (now : base.World → ℕ) where
  abbrev osal : Osal
  osal = supervised base now

  warn_unless_done-watchdog :
      (r : OsalResult (Unit {0}) × osal.World) → (warn_unless_done osal r).1 ≡ r.1.1
  unfolding warn_unless_done
  warn_unless_done-watchdog (done u, (w, d)) = refl
  warn_unless_done-watchdog (failed m, (w, d)) = refl

  register_with_watchdog-find_node :
      (p : ExecuteProcess osal) (id : ℕ) (w : base.World) (d : Watchdog)
      → p.watchdog ≡ true
      → ltb 0 p.options.watchdog_timeout_ms ≡ true
      → find_node id d.nodes ≡ none
      → find_node id (register_with_watchdog osal p id (w, d)).1.nodes
        ≡ some (new_node id p.options.watchdog_timeout_ms false (now w))
  unfolding register_with_watchdog
  register_with_watchdog-find_node p id w d watched positive fresh =
      let period = p.options.watchdog_timeout_ms in
      let active : register_with_watchdog osal p id (w, d)
          ≡ warn_unless_done osal (osal.register_node id period (w, d)) =
        ground arith in
      ap (λ s. find_node id s.1.nodes) active
      ∙ ap (λ d. find_node id d.nodes)
          (warn_unless_done-watchdog (osal.register_node id period (w, d)))
      ∙ ap (λ r. find_node id r.1.nodes)
          (register_node-fresh id period (now w) false d positive fresh)
      ∙ find_node-set_node id (new_node id period false (now w)) d.nodes

  limit_resources-watchdog :
      (p : ExecuteProcess osal) (id : ℕ) (s : osal.World) → (limit_resources osal p id s).1 ≡ s.1
  unfolding limit_resources
  limit_resources-watchdog p id (w, d) = ground arith

  wait_for_screen-watchdog :
      (p : ExecuteProcess osal) (id : ℕ) (s : osal.World)
      → (wait_for_screen osal p.options id s).1 ≡ s.1
  unfolding wait_for_screen
  wait_for_screen-watchdog p id (w, d) = ground arith

  started-watchdog :
      (p : ExecuteProcess osal) (id : ℕ) (s : osal.World)
      → (started osal p (done id, s)).1.1.1 ≡ (register_with_watchdog osal p id s).1
  unfolding started
  started-watchdog p id s =
      wait_for_screen-watchdog p id (limit_resources osal p id (register_with_watchdog osal p id s))
      ∙ limit_resources-watchdog p id (register_with_watchdog osal p id s)

  cleanup_before_retry-find_node :
      (q : ExecuteProcess osal) (s : osal.World)
      → q.watchdog ≡ true
      → q.process_id == 0 ≡ false
      → find_node q.process_id (cleanup_before_retry osal (q, s)).1.1.nodes ≡ none
  unfolding cleanup_before_retry unregister
  cleanup_before_retry-find_node q s watched positive =
      let stopped = stop_leftover osal q.process s in
      let active : unregister osal q stopped ≡ osal.unregister_node q.process_id stopped =
        ground arith in
      ap (λ s. find_node q.process_id s.1.nodes) active
      ∙ unregister_node-find_node q.process_id stopped.1

  started-Watched :
      (p : ExecuteProcess osal) (v : base.World) (d : Watchdog) (id : ℕ)
      → p.watchdog ≡ true
      → ltb 0 p.options.watchdog_timeout_ms ≡ true
      → find_node id d.nodes ≡ none
      → id == 0 ≡ false
      → (find_node id (started osal p (done id, (v, d))).1.1.1.nodes
          ≡ some (new_node id p.options.watchdog_timeout_ms false (now v)))
        × (find_node id (cleanup_before_retry osal (started osal p (done id, (v, d))).1).1.1.nodes
            ≡ none)
  unfolding started
  started-Watched p v d id watched positive fresh numbered = (
    ap (λ d. find_node id d.nodes) (started-watchdog p id (v, d))
        ∙ register_with_watchdog-find_node p id v d watched positive fresh,
    cleanup_before_retry-find_node (started osal p (done id, (v, d))).1.0
        (started osal p (done id, (v, d))).1.1 watched numbered,
  )

  -- In safety mode, with an executor, enough resources, a watchdog and a timeout above 0, when the
  -- executor starts a process whose number is not 0 and not watched yet, the attempt leaves it
  -- watched with that timeout from that moment, and the clean-up before a retry ends the watching.
  pub execute_single_attempt-find_node :
      (cmd : List Str) (p : ExecuteProcess osal) (w v : base.World) (d : Watchdog) (id : ℕ)
      → p.options.enable_safety ≡ true
      → p.process_executor ≡ true
      → (check_resources osal (p, (w, d))).0 ≡ true
      → osal.start
          (command_line cmd)
          (process_options osal p.options)
          (check_resources osal (p, (w, d))).1
        ≡ (done id, (v, d))
      → p.watchdog ≡ true
      → ltb 0 p.options.watchdog_timeout_ms ≡ true
      → find_node id d.nodes ≡ none
      → id == 0 ≡ false
      → let after = execute_single_attempt osal cmd (p, (w, d)) in
        (find_node id after.1.1.1.nodes
          ≡ some (new_node id p.options.watchdog_timeout_ms false (now v)))
        × (find_node id (cleanup_before_retry osal after.1).1.1.nodes ≡ none)
  execute_single_attempt-find_node cmd p w v d id safe executor enough starts watched positive fresh
        numbered =
      subst
        (λ after.
          (find_node id after.1.1.1.nodes
            ≡ some (new_node id p.options.watchdog_timeout_ms false (now v)))
          × (find_node id (cleanup_before_retry osal after.1).1.1.nodes ≡ none))
        (sym (
          execute_single_attempt-started osal cmd p (w, d) (done id, (v, d)) safe executor enough
            starts))
        (started-Watched p v d id watched positive fresh numbered)
