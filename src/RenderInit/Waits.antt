-- ===== src/RenderInit/Waits.antt =====
-- The wait for the ring to start comes to an end, as all other waits of the driver do.
use nugpgpu.RingRegisters.{ring_valid}
use nugpgpu.Prelude.{ℕ, ◌+◌, ◌≢◌, Bool, true, false, arith, bit_and, nonzero, ◌==◌}
use nugpgpu.Platform.{Platform, ClockRuns, w32}
use nugpgpu.Machine.{State}
use nugpgpu.Wait.{unfinished, wait_for, wait_for_atomic, wait_for_atomic_us}
use nugpgpu.Wait.Rules.{wait_until-finishes}
use nugpgpu.Regrw.{gpu_read, bits_clear, bits_set}
use nugpgpu.Regrw.Waits.{Nearer, gpu_read-Nearer, forcewake_waits-finish}
use nugpgpu.Ring.{nugpgpu_ring_render_stop, flushtlb}
use nugpgpu.Ring.Waits.{ring_waits-finish}
use nugpgpu.RenderInit.{head_is_zero, start_is_set, ctl_is_valid, ring_is_running}

module _ {W : Type 0} ⦃p : Platform W⦄ (runs : ClockRuns p) (d : ℕ) where
  start_is_set-Nearer :
      (base gva : ℕ) (set : Bool) (s : State W) → Nearer runs d s (start_is_set base gva set s).1
  unfolding start_is_set head_is_zero
  start_is_set-Nearer base gva true s = gpu_read-Nearer runs d w32 (base + 0x34) s
  start_is_set-Nearer base gva false s = omega arith

  ctl_is_valid-Nearer :
      (base gva : ℕ) (valid : Bool) (s : State W)
      → Nearer runs d s (ctl_is_valid base gva valid s).1
  unfolding ctl_is_valid
  ctl_is_valid-Nearer base gva true s =
      let (start, t) = gpu_read w32 (base + 0x38) s in
      omega (
        arith,
        gpu_read-Nearer runs d w32 (base + 0x38) s,
        start_is_set-Nearer base gva (start == gva) t,
      )
  ctl_is_valid-Nearer base gva false s = omega arith

  ring_is_running-Nearer :
      (base gva : ℕ) (s : State W) → Nearer runs d s (ring_is_running base gva s).1
  unfolding ring_is_running
  ring_is_running-Nearer base gva s =
      let (ctl, t) = gpu_read w32 (base + 0x3c) s in
      omega (
        arith,
        gpu_read-Nearer runs d w32 (base + 0x3c) s,
        ctl_is_valid-Nearer base gva (nonzero (bit_and ctl ring_valid)) t,
      )

module _ {W : Type 0} ⦃p : Platform W⦄ (runs : ClockRuns p) where
  start_wait-finishes :
      (base gva : ℕ) (s : State W) → (wait_for (ring_is_running base gva) 50 s).0 ≢ unfinished
  unfolding wait_for
  start_wait-finishes base gva s =
      wait_until-finishes runs (ring_is_running base gva)
        (λ d t. ring_is_running-Nearer runs d base gva t) 50 1 s

  -- While the clock runs, every wait of the driver ends, with the bits as wanted or past its deadline:
  -- those of `forcewake_get`, whatever register, mask and time they are called with,
  -- `nugpgpu_ring_render_stop`, `flushtlb`, and the wait of `nugpgpu_ringbuffer_render_init` for the
  -- ring to start, whatever the ring's registers and address.
  pub waits-finish :
      (reg mask time base gva : ℕ) (s : State W)
      → ((wait_for_atomic (bits_clear reg mask) time s).0 ≢ unfinished)
        × ((wait_for_atomic (bits_set reg mask) time s).0 ≢ unfinished)
        × ((wait_for_atomic_us (bits_clear reg mask) time s).0 ≢ unfinished)
        × ((nugpgpu_ring_render_stop s).0 ≢ unfinished)
        × ((flushtlb s).0 ≢ unfinished)
        × ((wait_for (ring_is_running base gva) 50 s).0 ≢ unfinished)
  waits-finish reg mask time base gva s =
      let (clear, set, clear_us) = forcewake_waits-finish runs reg mask time s in
      let (stopped, flushed) = ring_waits-finish runs s in
      (clear, set, clear_us, stopped, flushed, start_wait-finishes base gva s)
