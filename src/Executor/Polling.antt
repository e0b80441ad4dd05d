-- ===== src/Executor/Polling.antt =====
-- src/safety/posix_process_executor.cpp: the polling loops of wait and terminate end, and what
-- their limits mean.
use launch_cpp.Prelude.{
  none, ℕ, zero, suc, ◌+◌, ◌*◌, ◌/◌, ◌≤◌, ◌≡◌, refl, true, ltb, arith, is_some, Option-cases,
  Bool-cases, inl, inr,
}
use launch_cpp.Osal.{sigterm}
use launch_cpp.Executor.{
  no_process, not_permitted, send_failed, Sent, sent, succeed, terminate_sent, terminate, rounds,
  Posix, Polled, ended, alive, poll_failed, wait_round, wait_from, wait, terminate_round,
  terminate_from, Option, some, sigterm,
}

-- The steady clock does not go back while `waitpid` runs, and a sleep takes at least its time.
pub record IsSteady (posix : Posix) : Type 0 where
  pub polls : (pid : ℕ) (w : posix.World) → posix.now w ≤ posix.now (posix.poll pid w).1
  pub sleeps :
      (period : ℕ) (w : posix.World)
      → posix.now w + period * 1000000 ≤ posix.now (posix.sleep period w)

module _ (posix : Posix) where
  open posix use {World, now}

  wait_round-some :
      (pid start limit : ℕ) (polled : Polled × World)
      → limit * 1000000 + start ≤ now polled.1
      → is_some (wait_round posix pid start limit polled) ≡ true
  unfolding wait_round
  wait_round-some pid start limit (ended status, w) h = refl
  wait_round-some pid start limit (alive, w) h = ground arith
  wait_round-some pid start limit (poll_failed m, w) h = refl

  terminate_round-some :
      (pid start limit : ℕ) (polled : Polled × World)
      → limit * 1000000 + start ≤ now polled.1
      → is_some (terminate_round posix pid start limit polled) ≡ true
  unfolding terminate_round
  terminate_round-some pid start limit (ended status, w) h = refl
  terminate_round-some pid start limit (alive, w) h = ground arith
  terminate_round-some pid start limit (poll_failed m, w) h = refl

  module _ (steady : IsSteady posix) where
    wait_from-some :
        (fuel pid start limit : ℕ) (w : World)
        → limit * 1000000 + start ≤ now w + fuel * 10000000
        → is_some (wait_from posix (suc fuel) pid start limit w) ≡ true
    unfolding wait_from
    wait_from-some zero pid start limit w h =
        elim (Option-cases (wait_round posix pid start limit (posix.poll pid w))) [
          | inr (r, e) ↦ rw (wait_from, e) refl
          | inl e ↦
              ground (arith, steady.polls pid w, wait_round-some pid start limit (posix.poll pid w))
        ]
    wait_from-some (suc fuel) pid start limit w h =
        elim (Option-cases (wait_round posix pid start limit (posix.poll pid w))) [
          | inr (r, e) ↦ rw (wait_from, e) refl
          | inl e ↦
              rw (wait_from, e)
                (wait_from-some fuel pid start limit (posix.sleep 10 (posix.poll pid w).1)
                  (omega (arith, steady.polls pid w, steady.sleeps 10 (posix.poll pid w).1)))
        ]

    terminate_from-some :
        (fuel pid start limit : ℕ) (w : World)
        → limit * 1000000 + start ≤ now w + fuel * 10000000
        → is_some (terminate_from posix (suc fuel) pid start limit w) ≡ true
    unfolding terminate_from
    terminate_from-some zero pid start limit w h =
        elim (Option-cases (terminate_round posix pid start limit (posix.poll pid w))) [
          | inr (r, e) ↦ rw (terminate_from, e) refl
          | inl e ↦
              ground
                (arith, steady.polls pid w, terminate_round-some pid start limit (posix.poll pid w))
        ]
    terminate_from-some (suc fuel) pid start limit w h =
        elim (Option-cases (terminate_round posix pid start limit (posix.poll pid w))) [
          | inr (r, e) ↦ rw (terminate_from, e) refl
          | inl e ↦
              rw (terminate_from, e)
                (terminate_from-some fuel pid start limit (posix.sleep 10 (posix.poll pid w).1)
                  (omega (arith, steady.polls pid w, steady.sleeps 10 (posix.poll pid w).1)))
        ]

    -- When the clock is steady, `wait` returns, whatever the process does: the fuel is enough.
    pub wait_total : (pid limit : ℕ) (w : World) → is_some (wait posix pid limit w) ≡ true
    unfolding wait
    wait_total pid limit w = elim (Bool-cases (ltb 0 limit)) [
      | inl h ↦ rw (wait, h) (wait_from-some (suc (limit / 10)) pid (now w) limit w (omega arith))
      | inr h ↦ rw (wait, h) refl
    ]

    is_some-succeed : (o : Option World) → is_some o ≡ true → is_some (succeed posix o) ≡ true
    is_some-succeed none h = h
    is_some-succeed (some w) h = refl

    terminate_sent-some :
        (pid limit : ℕ) (result : Sent × World)
        → is_some (terminate_sent posix pid limit result) ≡ true
    unfolding terminate_sent
    terminate_sent-some pid limit (sent, w) =
        is_some-succeed (terminate_from posix (rounds posix limit) pid (now w) limit w)
          (terminate_from-some (suc (limit / 10)) pid (now w) limit w (omega arith))
    terminate_sent-some pid limit (no_process m, w) = refl
    terminate_sent-some pid limit (not_permitted m, w) = refl
    terminate_sent-some pid limit (send_failed m, w) = refl

    -- When the clock is steady, `terminate` returns, whatever the process does: the fuel is enough.
    pub terminate_total : (pid limit : ℕ) (w : World) → is_some (terminate posix pid limit w) ≡ true
    unfolding terminate
    terminate_total pid limit w = terminate_sent-some pid limit (posix.send pid (some sigterm) w)
