-- ===== src/Executor/Limits.antt =====
-- src/safety/posix_process_executor.cpp: what the limits of wait and terminate mean.
use launch_cpp.Prelude.{
  ℕ, zero, suc, ◌-◌, ◌*◌, ◌≤◌, ◌<◌, ◌≡◌, Option, none, some, Str, arith, Option-cases, inl, inr,
  ◌∙◌, ap,
}
use launch_cpp.Osal.{sigterm}
use launch_cpp.Watchdog.{timeout}
use launch_cpp.Executor.Polling.{IsSteady, terminate_total}
use launch_cpp.Osal.{sigkill}
use launch_cpp.Osal.{sigterm}
use launch_cpp.Executor.{
  Sent, sent, no_process, not_permitted, send_failed, succeed, terminate_sent, terminate, rounds,
  terminate_from, answer, Answer,
}
use launch_cpp.Executor.{
  Posix, Answer, answer, refusal, Sent, sent, no_process, not_permitted, send_failed, Polled, ended,
  alive, poll_failed, waited, wait_round, wait_from, rounds, wait, force, terminate_round,
  terminate_from, succeed, terminate_sent, terminate,
}

module _ (posix : Posix) where
  open posix use {World, now}

  wait_round-timeout :
      (pid start limit : ℕ) (polled : Polled × World) (m : Str) (v : World)
      → wait_round posix pid start limit polled ≡ some (refusal timeout m, v)
      → limit * 1000000 ≤ now v - start
  unfolding wait_round waited
  wait_round-timeout pid start limit (ended status, w) m v h = ground arith
  wait_round-timeout pid start limit (alive, w) m v h = ground arith
  wait_round-timeout pid start limit (poll_failed e, w) m v h = ground arith

  wait_from-timeout :
      (fuel pid start limit : ℕ) (w : World) (m : Str) (v : World)
      → wait_from posix fuel pid start limit w ≡ some (refusal timeout m, v)
      → limit * 1000000 ≤ now v - start
  unfolding wait_from
  wait_from-timeout zero pid start limit w m v h = ground arith
  wait_from-timeout (suc fuel) pid start limit w m v h =
      elim (Option-cases (wait_round posix pid start limit (posix.poll pid w))) [
        | inr (r, e) ↦ wait_round-timeout pid start limit (posix.poll pid w) m v (ground arith)
        | inl e ↦
            wait_from-timeout fuel pid start limit (posix.sleep 10 (posix.poll pid w).1) m v
              (ground arith)
      ]

  -- With a limit above 0, `wait` reports a timeout only when the limit has passed on the clock.
  pub wait-timeout :
      (pid limit : ℕ) (w : World) (m : Str) (v : World)
      → 0 < limit
      → wait posix pid limit w ≡ some (refusal timeout m, v)
      → limit * 1000000 ≤ now v - now w
  unfolding wait
  wait-timeout pid limit w m v positive h =
      wait_from-timeout (rounds posix limit) pid (now w) limit w m v (ground arith)

  -- The process does not end by itself.
  abbrev pub IsStubborn : ℕ → Type 0
  IsStubborn pid = (w : World) → (posix.poll pid w).0 ≡ alive

  terminate_round-stubborn :
      (pid start limit : ℕ) (polled : Polled × World) (v : World)
      → polled.0 ≡ alive
      → terminate_round posix pid start limit polled ≡ some v
      → (v ≡ force posix pid polled.1) × (limit * 1000000 ≤ now polled.1 - start)
  unfolding terminate_round
  terminate_round-stubborn pid start limit (ended status, w) v a h = ground arith
  terminate_round-stubborn pid start limit (alive, w) v a h = (ground arith, ground arith)
  terminate_round-stubborn pid start limit (poll_failed e, w) v a h = ground arith

  terminate_from-stubborn :
      (fuel pid start limit : ℕ) (w v : World)
      → IsStubborn pid
      → terminate_from posix fuel pid start limit w ≡ some v
      → (u : World) × (v ≡ force posix pid u) × (limit * 1000000 ≤ now u - start)
  unfolding terminate_from
  terminate_from-stubborn zero pid start limit w v a h = ground arith
  terminate_from-stubborn (suc fuel) pid start limit w v a h =
      elim (Option-cases (terminate_round posix pid start limit (posix.poll pid w))) [
        | inr (r, e) ↦
            let both =
              terminate_round-stubborn pid start limit (posix.poll pid w) v (a w) (ground arith) in
            ((posix.poll pid w).1, both.0, both.1)
        | inl e ↦
            terminate_from-stubborn fuel pid start limit (posix.sleep 10 (posix.poll pid w).1) v a
              (ground arith)
      ]

  pair_path :
      {r r' : Answer (Unit {0})} {v v' : World}
      → r ≡ r'
      → v ≡ v'
      → ◌≡◌ {A = Answer (Unit {0}) × World} (r, v) (r', v')
  pair_path p q = cc

  succeed-some :
      (o : Option World) (r : Answer (Unit {0})) (v : World)
      → succeed posix o ≡ some (r, v)
      → (o ≡ some v) × (r ≡ answer tt)
  succeed-some none r v h = ground arith
  succeed-some (some w) r v h = (ground arith, ground arith)

  terminate_sent-stubborn :
      (pid limit : ℕ) (result : Sent × World) (r : Answer (Unit {0})) (v : World)
      → IsStubborn pid
      → result.0 ≡ sent
      → terminate_sent posix pid limit result ≡ some (r, v)
      → (r ≡ answer tt)
        × ((u : World) × (v ≡ force posix pid u) × (limit * 1000000 ≤ now u - now result.1))
  unfolding terminate_sent
  terminate_sent-stubborn pid limit (sent, w) r v a e h =
      let both =
        succeed-some (terminate_from posix (rounds posix limit) pid (now w) limit w) r v h in
      (both.1, terminate_from-stubborn (rounds posix limit) pid (now w) limit w v a both.0)
  terminate_sent-stubborn pid limit (no_process m, w) r v a e h = cc
  terminate_sent-stubborn pid limit (not_permitted m, w) r v a e h = cc
  terminate_sent-stubborn pid limit (send_failed m, w) r v a e h = cc

  -- When the clock is steady, SIGTERM is delivered and the process does not end by itself,
  -- `terminate` returns a success, and the last thing it does is to send SIGKILL and to wait for
  -- the process, in a world in which the limit has passed since SIGTERM.
  pub terminate_forces :
      (pid limit : ℕ) (w : World)
      → IsSteady posix
      → IsStubborn pid
      → (posix.send pid (some sigterm) w).0 ≡ sent
      → (u : World) × (terminate posix pid limit w
          ≡ some (answer tt, (posix.wait pid (posix.send pid (some sigkill) u).1).1))
        × (limit * 1000000 ≤ now u - now (posix.send pid (some sigterm) w).1)
  unfolding terminate force
  terminate_forces pid limit w steady a e = elim (Option-cases (terminate posix pid limit w)) [
    | inl stuck ↦ ground (arith, terminate_total posix steady pid limit w)
    | inr ((r, v), h) ↦
        let (done, (u, killed, late)) =
          terminate_sent-stubborn pid limit (posix.send pid (some sigterm) w) r v a e h in
        (u, h ∙ ap (λ x. some x) (pair_path done killed), late)
  ]
