-- ===== src/Wait/Meets.antt =====
-- `_wait_for` of nugpgpu_drv.h sees a condition that comes true in time.
use nugpgpu.Prelude.{ℕ, zero, suc, ◌+◌, ◌%◌, ◌^◌, ◌≤◌, ◌<◌, ◌≡◌, refl, Bool, true, false, arith}
use nugpgpu.Platform.{Platform, ClockRuns}
use nugpgpu.Machine.{State, M}
use nugpgpu.Wait.{met, pause, poll, wait_until}
use nugpgpu.Wait.Rules.{pause-lt}

module _ {W : Type 0} ⦃p : Platform W⦄ where
  -- The state before try `n` of a condition, with a pause after each try.
  abbrev pub before_try : M W Bool → ℕ → ℕ → State W → State W
  before_try cond ms zero s = s
  before_try cond ms (suc n) s = before_try cond ms n (pause ms (cond s).1).1

  -- The condition holds at try `n`, and before it at none, and none of the tries before it ends
  -- after the deadline.
  abbrev pub HoldsAt : M W Bool → ℕ → ℕ → ℕ → State W → Type 0
  HoldsAt cond timeout ms zero s = (cond s).0 ≡ true
  HoldsAt cond timeout ms (suc n) s =
      ((cond s).0 ≡ false)
      × (p.time_after (p.jiffies (cond s).1.world) timeout ≡ false)
      × HoldsAt cond timeout ms n (pause ms (cond s).1).1

  module _ (runs : ClockRuns p) (cond : M W Bool)
      (keeps : (d : ℕ) (s : State W) → p.patience d (cond s).1.world ≤ p.patience d s.world) where
    poll-meets :
        (fuel timeout ms n : ℕ) (s : State W)
        → p.patience timeout s.world < fuel
        → HoldsAt cond timeout ms n s
        → poll fuel cond timeout ms s ≡ (met, (cond (before_try cond ms n s)).1)
    unfolding poll
    poll-meets zero timeout ms n s h holds = elim h [ ]
    poll-meets (suc fuel) timeout ms zero s h holds = rw (holds, poll) refl
    poll-meets (suc fuel) timeout ms (suc n) s h (no_yet, early, later) =
        rw (no_yet, poll, early, poll)
          (poll-meets fuel timeout ms n _
            (omega (arith, keeps timeout s, pause-lt runs cond keeps timeout ms (cond s).1 early))
            later)

    -- While the clock runs and the condition does not set it back: if the condition holds at its
    -- try `n`, at none before, and none of the tries before ends past the deadline, then
    -- `_wait_for` answers 0, and try `n` is its last act.
    pub wait_until-meets :
        (ms w n : ℕ) (s : State W)
        → HoldsAt cond ((p.jiffies s.world + p.msecs_to_jiffies ms + 1) % 2 ^ 64) w n s
        → wait_until cond ms w s ≡ (met, (cond (before_try cond w n s)).1)
    unfolding wait_until
    wait_until-meets ms w n s holds = poll-meets _ _ w n s (omega arith) holds
