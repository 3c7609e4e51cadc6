-- ===== src/Ring/Waits.antt =====
-- The waits of the ring's functions come to an end.
use nugpgpu.RingRegisters.{instpm_sync_flush, ring_instpm_reg}
use nugpgpu.Prelude.{◌≢◌, bit_and, ◌==◌}
use nugpgpu.Platform.{Platform, ClockRuns, w32}
use nugpgpu.Machine.{State, ◌>>=◌, pure}
use nugpgpu.Wait.{unfinished, wait_for}
use nugpgpu.Wait.Rules.{wait_until-finishes}
use nugpgpu.Regrw.{nugpgpu_read}
use nugpgpu.Regrw.Waits.{gpu_read-Nearer}
use nugpgpu.Ring.{nugpgpu_ring_render_stop, flushtlb, is_idle}

module _ {W : Type 0} ⦃p : Platform W⦄ (runs : ClockRuns p) where
  -- While the clock runs, `nugpgpu_ring_render_stop` and `flushtlb` end, with the hardware's answer
  -- or past their deadlines.
  pub ring_waits-finish :
      (s : State W) → ((nugpgpu_ring_render_stop s).0 ≢ unfinished) × ((flushtlb s).0 ≢ unfinished)
  unfolding nugpgpu_ring_render_stop flushtlb wait_for
  ring_waits-finish s = (
    wait_until-finishes runs (is_idle s.ring.mmio_base) (λ d t. gpu_read-Nearer runs d w32 _ t)
        10000 1 _,
    wait_until-finishes runs
        (do
          v ← nugpgpu_read (ring_instpm_reg s.ring.mmio_base)
          pure (bit_and v instpm_sync_flush == 0))
        (λ d t. gpu_read-Nearer runs d w32 _ t) 1000 1 _,
  )
