-- ===== src/Tests/Registers.antt =====
-- The theorems on the registers and the waits, on a machine at rest.
use nugpgpu.Prelude.{
  ltb, Bool, ℕ, ◌+◌, ◌-◌, ◌^◌, ◌%◌, ◌≡◌, ◌≢◌, refl, arith, true, false, List, [], ◌∷◌, ◌++◌, some,
}
use nugpgpu.Platform.{w8, w16, w32, w64}
use nugpgpu.Machine.{State, Event, rd, acquire, release}
use nugpgpu.Machine.Log.{held, effects, lock_state}
use nugpgpu.Wait.{met, pause, wait_until, unfinished}
use nugpgpu.Wait.Rules.{Answered, wait_until_lem}
use nugpgpu.Wait.Meets.{before_try, HoldsAt, wait_until-meets}
use nugpgpu.Regrw.{gpu_read, gpu_forcewake_put, nugpgpu_regrw_init, bits_set}
use nugpgpu.Dump.{nugpgpu_dump, pcie_registers, mmio_registers}
use nugpgpu.Dump.Reads.{ReadsInTurn, nugpgpu_dump-reads}
use nugpgpu.Regrw.Power.{is_awake, IsPowered}
use nugpgpu.Regrw.Wake.{gpu_read-awake, gpu_forcewake_put-underflow, nugpgpu_regrw_init-IsPowered}
use nugpgpu.Regrw.Clients.{Call, run_calls, run_calls-holders}
use nugpgpu.Tests.{World, machine, machine-ClockRuns, idle}

pub idle-IsPowered : IsPowered idle
idle-IsPowered = record { counted = refl; unlocked = refl; small = omega arith }

-- A register that sleeps is read with nobody holding the hardware.
abbrev a_register : ℕ
a_register = 0x2030

abbrev some_calls : List Call
some_calls =
    Call.get
    ∷ Call.read w32 0x2034
    ∷ Call.get
    ∷ Call.write w32 0x2030 8
    ∷ Call.put
    ∷ Call.work
    ∷ Call.get
    ∷ []

run_calls-holders_example :
    IsPowered (run_calls some_calls idle) × ((run_calls some_calls idle).forcewake_count ≡ 1)
run_calls-holders_example = run_calls-holders some_calls idle 1 idle-IsPowered refl

gpu_read-awake_example :
    (t : State World) × (is_awake t ≡ true)
    × (lock_state t.log ≡ held)
    × ((new : List Event) × (t.log ≡ new ++ idle.log))
    × ((gpu_read w32 a_register idle).0 ≡ (machine.read w32 (idle.regs + a_register) t.world).0)
    × ((after : List Event) × ((gpu_read w32 a_register idle).1.log
          ≡ after ++ (rd w32 (idle.regs + a_register) (gpu_read w32 a_register idle).0 ∷ t.log)))
gpu_read-awake_example = gpu_read-awake w32 a_register idle refl idle-IsPowered

nugpgpu_regrw_init-IsPowered_example :
    let t = (nugpgpu_regrw_init idle).1 in
    IsPowered t
    × (t.forcewake_count ≡ 0)
    × (t.mmio_funcs ≡ record {
      mmio_readb = some w8;
      mmio_readw = some w16;
      mmio_readl = some w32;
      mmio_readq = some w64;
      mmio_writeb = some w8;
      mmio_writew = some w16;
      mmio_writel = some w32;
      mmio_writeq = some w64;
    })
nugpgpu_regrw_init-IsPowered_example = nugpgpu_regrw_init-IsPowered idle refl

gpu_forcewake_put-underflow_example :
    let t = (gpu_forcewake_put idle).1 in
    (t.forcewake_count ≡ 2 ^ 32 - 1)
    × (is_awake t ≡ false)
    × (effects (gpu_read w32 a_register t).1.log ≡ release ∷ acquire ∷ effects t.log)
gpu_forcewake_put-underflow_example =
    gpu_forcewake_put-underflow idle w32 a_register idle-IsPowered refl

wait_until_lem_example :
    ((wait_until (bits_set 0x2030 1) 50 1 idle).0 ≢ unfinished)
    × Answered
        (bits_set 0x2030 1)
        ((0 + 50 + 1) % 2 ^ 64)
        (wait_until (bits_set 0x2030 1) 50 1 idle)
wait_until_lem_example =
    wait_until_lem machine-ClockRuns (bits_set 0x2030 1) (λ d s. omega arith) 50 1 idle

-- A condition that comes true when the clock is past 3.
abbrev late_enough : State World → Bool × State World
late_enough s = (ltb 3 s.world.clock, s)

late_enough-HoldsAt : HoldsAt late_enough ((0 + 50 + 1) % 2 ^ 64) 1 2 idle
unfolding pause
late_enough-HoldsAt = (refl, refl, (refl, refl, refl))

wait_until-meets_example :
    wait_until late_enough 50 1 idle ≡ (met, (late_enough (before_try late_enough 1 2 idle)).1)
wait_until-meets_example =
    wait_until-meets machine-ClockRuns late_enough (λ d s. omega arith) 50 1 2 idle
      late_enough-HoldsAt

nugpgpu_dump-reads_example :
    let t = (nugpgpu_dump idle).1 in
    ReadsInTurn (pcie_registers ++ mmio_registers) idle.regs [] t.log
    × IsPowered t
    × (t.forcewake_count ≡ 0)
    × (t.gtt ≡ idle.gtt)
    × (t.gtt_entry ≡ 1)
    × (t.ring ≡ idle.ring)
    × (t.debug ≡ 1)
nugpgpu_dump-reads_example = nugpgpu_dump-reads idle idle-IsPowered
