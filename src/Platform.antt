-- ===== src/Platform.antt =====
-- What the driver takes from the kernel and from the hardware to reach a register: the accessors of
-- asm-generic/io.h and the clock of linux/jiffies.h and linux/delay.h. `W` is the state of all that
-- is outside the driver; an access or a pause moves it on.
use nugpgpu.Prelude.{ℕ, ◌≤◌, ◌<◌, ◌≡◌, Bool, false}

-- The `x` of `readx` and `writex`: 8, 16, 32 or 64 bits.
pub data Width : Type 0 where
  w8 w16 w32 w64 : Width

pub record Platform (W : Type 0) : Type 0 where
  pub read : Width → ℕ → W → ℕ × W
  pub write : Width → ℕ → ℕ → W → W
  pub jiffies : W → ℕ
  pub msecs_to_jiffies : ℕ → ℕ
  pub time_after : ℕ → ℕ → Bool
  pub div_round_up : ℕ → ℕ → ℕ
  pub msleep : ℕ → W → W
  pub cpu_relax : W → W
  -- how many pauses may pass before `jiffies` is after the given time
  pub patience : ℕ → W → ℕ

-- The clock runs: nothing sets it back, and each pause before the deadline brings it nearer.
pub record ClockRuns {W : Type 0} (p : Platform W) : Type 0 where
  pub read_keeps :
      (d : ℕ) (w : Width) (a : ℕ) (x : W) → p.patience d (p.read w a x).1 ≤ p.patience d x
  pub write_keeps :
      (d : ℕ) (w : Width) (a v : ℕ) (x : W) → p.patience d (p.write w a v x) ≤ p.patience d x
  pub msleep_keeps : (d ms : ℕ) (x : W) → p.patience d (p.msleep ms x) ≤ p.patience d x
  pub cpu_relax_keeps : (d : ℕ) (x : W) → p.patience d (p.cpu_relax x) ≤ p.patience d x
  pub msleep_nearer :
      (d ms : ℕ) (x : W)
      → p.time_after (p.jiffies x) d ≡ false
      → p.patience d (p.msleep ms x) < p.patience d x
  pub cpu_relax_nearer :
      (d : ℕ) (x : W)
      → p.time_after (p.jiffies x) d ≡ false
      → p.patience d (p.cpu_relax x) < p.patience d x
