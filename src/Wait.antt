-- ===== src/Wait.antt =====
-- The `_wait_for` macro of nugpgpu_drv.h and its three users.
pub mod Rules
pub mod Meets
use nugpgpu.Prelude.{ℕ, zero, suc, ◌+◌, ◌%◌, ◌^◌, Bool, true, false, if◌then◌else◌, ◌==◌}
use nugpgpu.Platform.{Platform}
use nugpgpu.Machine.{State, M}

-- `ret__` is 0 or -ETIMEDOUT; `unfinished` says that the fuel ran out first.
pub data Waited : Type 0 where
  met timed_out unfinished : Waited

module _ {W : Type 0} ⦃p : Platform W⦄ where
  -- `if (W) msleep(W); else cpu_relax();`
  unfoldable pub pause : ℕ → M W (Unit {0})
  pause ms s =
      (tt, record s { world = if ms == 0 then p.cpu_relax s.world else p.msleep ms s.world })

  -- The loop of `_wait_for`, with `timeout__` and `W`.
  unfoldable pub poll : ℕ → M W Bool → ℕ → ℕ → M W Waited
  poll zero cond timeout ms s = (unfinished, s)
  poll (suc fuel) cond timeout ms s =
      let r = cond s in
      elim r.0 [
        | true ↦ (met, r.1)
        | false ↦ elim (p.time_after (p.jiffies r.1.world) timeout) [
          | true ↦ let q = cond r.1 in (if q.0 then met else timed_out, q.1)
          | false ↦ poll fuel cond timeout ms (pause ms r.1).1
        ]
      ]

  unfoldable pub wait_until : M W Bool → ℕ → ℕ → M W Waited
  wait_until cond ms pause_ms s =
      let timeout = (p.jiffies s.world + p.msecs_to_jiffies ms + 1) % 2 ^ 64 in
      poll (p.patience timeout s.world + 1) cond timeout pause_ms s

  unfoldable pub wait_for : M W Bool → ℕ → M W Waited
  wait_for cond ms = wait_until cond ms 1

  unfoldable pub wait_for_atomic : M W Bool → ℕ → M W Waited
  wait_for_atomic cond ms = wait_until cond ms 0

  unfoldable pub wait_for_atomic_us : M W Bool → ℕ → M W Waited
  wait_for_atomic_us cond us = wait_until cond (p.div_round_up us 1000) 0
