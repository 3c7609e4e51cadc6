-- ===== src/Wait/Rules.antt =====
-- `_wait_for`: what its condition and its pauses keep, it keeps; and it returns.
use nugpgpu.Prelude.{
  ℕ, zero, suc, ◌+◌, ◌%◌, ◌^◌, ◌≤◌, ◌<◌, ◌≡◌, ◌≢◌, refl, Bool, true, false, arith, Bool-cases, inl,
  inr, ◌==◌,
}
use nugpgpu.Platform.{Platform, ClockRuns}
use nugpgpu.Machine.{State, M}
use nugpgpu.Wait.{Waited, met, timed_out, unfinished, pause, poll, wait_until}

module _ {W : Type 0} ⦃p : Platform W⦄ where
  module _ (R : State W → State W → Type 0) (R-refl : (s : State W) → R s s)
      (R-trans : (s t u : State W) → R s t → R t u → R s u)
      (R-pause : (ms : ℕ) (s : State W) → R s (pause ms s).1) (cond : M W Bool)
      (R-cond : (s : State W) → R s (cond s).1) where
    poll_rel : (fuel timeout ms : ℕ) (s : State W) → R s (poll fuel cond timeout ms s).1
    unfolding poll
    poll_rel zero timeout ms s = R-refl s
    poll_rel (suc fuel) timeout ms s = elim (Bool-cases (cond s).0) [
      | inl e ↦ rw (e, poll) (R-cond s)
      | inr e ↦
          rw (e, poll)
            (elim (Bool-cases (p.time_after (p.jiffies (cond s).1.world) timeout)) [
              | inl l ↦ rw (l, poll) (R-trans s (cond s).1 _ (R-cond s) (R-cond (cond s).1))
              | inr l ↦
                  rw (l, poll)
                    (R-trans s (cond s).1 _ (R-cond s) (
                      R-trans (cond s).1 (pause ms (cond s).1).1 _ (R-pause ms (cond s).1)
                        (poll_rel fuel timeout ms (pause ms (cond s).1).1)))
            ])
    ]

    pub wait_until_rel : (ms w : ℕ) (s : State W) → R s (wait_until cond ms w s).1
    unfolding wait_until
    wait_until_rel ms w s = poll_rel _ _ w s

  -- A condition that does no more than read does not set the clock back.
  module _ (runs : ClockRuns p) (cond : M W Bool)
      (cond-le : (d : ℕ) (s : State W) → p.patience d (cond s).1.world ≤ p.patience d s.world) where
    pub pause-lt :
        (d ms : ℕ) (s : State W)
        → p.time_after (p.jiffies s.world) d ≡ false
        → p.patience d (pause ms s).1.world < p.patience d s.world
    unfolding pause
    pause-lt d ms s late = elim (Bool-cases (ms == 0)) [
      | inl e ↦ rw e (runs.cpu_relax_nearer d s.world late)
      | inr e ↦ rw e (runs.msleep_nearer d ms s.world late)
    ]

    poll-finishes :
        (fuel timeout ms : ℕ) (s : State W)
        → p.patience timeout s.world < fuel
        → (poll fuel cond timeout ms s).0 ≢ unfinished
    unfolding poll
    poll-finishes zero timeout ms s h = elim h [ ]
    poll-finishes (suc fuel) timeout ms s h = elim (Bool-cases (cond s).0) [
      | inl e ↦ rw (e, poll) (λ q. cc)
      | inr e ↦
          rw (e, poll)
            (elim (Bool-cases (p.time_after (p.jiffies (cond s).1.world) timeout)) [
              | inl l ↦
                  rw (l, poll)
                    (elim (Bool-cases (cond (cond s).1).0) [
                      | inl c ↦ rw (c, poll) (λ q. cc)
                      | inr c ↦ rw (c, poll) (λ q. cc)
                    ])
              | inr l ↦
                  rw (l, poll)
                    (poll-finishes fuel timeout ms (pause ms (cond s).1).1
                      (omega (arith, cond-le timeout s, pause-lt timeout ms (cond s).1 l)))
            ])
    ]

    pub wait_until-finishes : (ms w : ℕ) (s : State W) → (wait_until cond ms w s).0 ≢ unfinished
    unfolding wait_until
    wait_until-finishes ms w s = poll-finishes _ _ w s (omega arith)

  -- What each answer of a wait for `cond` up to `timeout` means for the state `u` it ends in: `met`
  -- ends with a try of `cond` that holds, and `timed_out` with two that do not, the first of which
  -- ended after the deadline.
  abbrev pub Answered : M W Bool → ℕ → Waited × State W → Type 0
  Answered cond timeout r = elim r.0 [
    | met ↦ (t : State W) × ((cond t).0 ≡ true) × (r.1 ≡ (cond t).1)
    | timed_out ↦
        (t : State W) × ((cond t).0 ≡ false)
        × (p.time_after (p.jiffies (cond t).1.world) timeout ≡ true)
        × ((cond (cond t).1).0 ≡ false)
        × (r.1 ≡ (cond (cond t).1).1)
    | unfinished ↦ Unit {0}
  ]

  poll-Answered :
      (cond : M W Bool) (fuel timeout ms : ℕ) (s : State W)
      → Answered cond timeout (poll fuel cond timeout ms s)
  unfolding poll
  poll-Answered cond zero timeout ms s = tt
  poll-Answered cond (suc fuel) timeout ms s = elim (Bool-cases (cond s).0) [
    | inl e ↦ rw (e, poll) (s, e, refl)
    | inr e ↦
        rw (e, poll)
          (elim (Bool-cases (p.time_after (p.jiffies (cond s).1.world) timeout)) [
            | inl l ↦
                rw (l, poll)
                  (elim (Bool-cases (cond (cond s).1).0) [
                    | inl c ↦ rw (c, poll) ((cond s).1, c, refl)
                    | inr c ↦ rw (c, poll) (s, e, l, c, refl)
                  ])
            | inr l ↦ rw (l, poll) (poll-Answered cond fuel timeout ms (pause ms (cond s).1).1)
          ])
  ]

  -- While the clock runs and the condition does not set it back, `_wait_for` ends. It answers 0
  -- only after a try of the condition that holds and that is its last act, and ETIMEDOUT only after
  -- a try that does not hold and that ends past the deadline, followed by one more that does not
  -- hold.
  pub wait_until_lem :
      (runs : ClockRuns p) (cond : M W Bool)
      → ((d : ℕ) (s : State W) → p.patience d (cond s).1.world ≤ p.patience d s.world)
      → (ms w : ℕ) (s : State W)
      → ((wait_until cond ms w s).0 ≢ unfinished)
        × Answered cond
            ((p.jiffies s.world + p.msecs_to_jiffies ms + 1) % 2 ^ 64)
            (wait_until cond ms w s)
  unfolding wait_until
  wait_until_lem runs cond keeps ms w s =
      (wait_until-finishes runs cond keeps ms w s, poll-Answered cond _ _ w s)
