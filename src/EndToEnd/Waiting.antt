-- ===== src/EndToEnd/Waiting.antt =====
-- `waitFor` of ci/cap/main.go ends, and what it ends with.
use captcha_protect.Base.{
  ℕ, zero, suc, ◌+◌, ◌*◌, ◌≡◌, ◌≤◌, ◌<◌, Bool, true, false, codes, ltb, if◌then◌else◌, Result, ok,
  err, refl, arith, inl, inr, Bool-cases,
}
use captcha_protect.Verify.{second}
use captcha_protect.EndToEnd.{
  Outer, IsClocked, Driver, Failure, exit, Run, next, ◌>>◌, pure, outside,
}
use captcha_protect.EndToEnd.Helpers.{poll_loop, wait_for}

module _ {O : Outer} where
  -- A sleep between two polls.
  abbrev pub rested : Driver O → Driver O
  rested s = record s { world = O.sleep (2 * second) s.world }

  -- What a driver that polls until a deadline ends with, after a number of polls: it is late, a poll
  -- said yes, a poll failed, or a poll said no and it went on after a sleep.
  pub data IsPolled (deadline : ℕ) (poll : Run O Bool)
      : ℕ → Driver O → Result Failure (Unit {0}) × Driver O → Type 0 where
    late :
        (s : Driver O)
        → deadline ≤ O.now s.world
        → IsPolled deadline poll 0 s (err (exit (codes "timed out waiting")), s)
    found :
        (s s' : Driver O)
        → O.now s.world < deadline
        → poll s ≡ (ok true, s')
        → IsPolled deadline poll 1 s (ok tt, s')
    broken :
        (s s' : Driver O) (e : Failure)
        → O.now s.world < deadline
        → poll s ≡ (err e, s')
        → IsPolled deadline poll 1 s (err e, s')
    again :
        (s s' : Driver O) (n : ℕ) (r : Result Failure (Unit {0}) × Driver O)
        → O.now s.world < deadline
        → poll s ≡ (ok false, s')
        → IsPolled deadline poll n (rested s') r
        → IsPolled deadline poll (suc n) s r

  module _ (C : IsClocked O) (poll : Run O Bool)
      (forward : (s : Driver O) → O.now s.world ≤ O.now (poll s).1.world) where
    -- What is left to do after a poll, given what happens after a sleep.
    poll-IsPolled :
        (turns deadline : ℕ) (s : Driver O) (r : Result Failure Bool × Driver O)
        → O.now s.world < deadline
        → poll s ≡ r
        → ((s' : Driver O)
            → O.now r.1.world ≤ O.now s'.world
            → (n : ℕ) × (n ≤ turns)
              × IsPolled deadline poll n
                  (rested s')
                  (poll_loop O (suc turns) deadline poll (rested s')))
        → (n : ℕ) × (n ≤ suc turns)
          × IsPolled deadline poll n s (
              next r (λ done.
                if done
                then pure tt
                else outside (λ w. (tt, O.sleep (2 * second) w))
                  >> poll_loop O (suc turns) deadline poll))
    poll-IsPolled turns deadline s (err e, s') early polled more =
        (1, omega arith, broken s s' e early polled)
    poll-IsPolled turns deadline s (ok true, s') early polled more =
        (1, omega arith, found s s' early polled)
    poll-IsPolled turns deadline s (ok false, s') early polled more =
        let (n, few, rest) = more s' (omega arith) in
        (suc n, omega arith, again s s' n _ early polled rest)

    poll_loop-IsPolled :
        (turns deadline : ℕ) (s : Driver O)
        → deadline ≤ O.now s.world + turns * (2 * second)
        → (n : ℕ) × (n ≤ turns)
          × IsPolled deadline poll n s (poll_loop O (suc turns) deadline poll s)
    unfolding poll_loop
    poll_loop-IsPolled zero deadline s enough =
        let out : ltb (O.now s.world) deadline ≡ false = ground arith in
        rw out (0, omega arith, late s (omega arith))
    poll_loop-IsPolled (suc turns) deadline s enough =
        elim (Bool-cases (ltb (O.now s.world) deadline)) [
          | inl e ↦ rw e (
              poll-IsPolled turns deadline s (poll s) (ground arith) refl (λ s' later.
                poll_loop-IsPolled turns deadline (rested s')
                  (omega (arith, enough, forward s, later, C.slept (2 * second) s'.world))))
          | inr e ↦ rw e (0, omega arith, late s (ground arith))
        ]

    -- Where the clock never goes back, not even in a poll, and a sleep takes its time, `waitFor` ends
    -- after at most 60 polls, all of them before the deadline of 120 seconds: it succeeds at the
    -- first poll that says yes, fails where a poll fails, and has timed out if the deadline has passed
    -- and every poll said no. The turns of its loop are enough.
    pub wait_for-IsPolled :
        (s : Driver O)
        → (n : ℕ) × (n ≤ 60) × IsPolled (O.now s.world + 120 * second) poll n s (wait_for O poll s)
    unfolding wait_for
    wait_for-IsPolled s = poll_loop-IsPolled 60 (O.now s.world + 120 * second) s (omega arith)
