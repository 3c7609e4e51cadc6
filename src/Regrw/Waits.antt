-- ===== src/Regrw/Waits.antt =====
-- The waits of nugpgpu_regrw.c come to an end, and no access or wait sets the clock back.
use nugpgpu.Prelude.{
  ℕ, ◌+◌, ◌%◌, ◌^◌, ◌≤◌, ◌≢◌, Bool, true, false, arith, Bool-cases, inl, inr, ◌==◌, nonzero,
  bit_and,
}
use nugpgpu.Platform.{Platform, ClockRuns, Width, w32}
use nugpgpu.Machine.{State, M, when, trace_in, spin_lock}
use nugpgpu.Wait.{unfinished, pause, wait_until, wait_for_atomic, wait_for_atomic_us}
use nugpgpu.Wait.Rules.{wait_until_rel, wait_until-finishes}
use nugpgpu.Regrw.{
  raw_gpu_read, raw_gpu_write, bits_clear, bits_set, forcewake_get_now, forcewake_get,
  forcewake_put_now, forcewake_put, gpu_read, gpu_write, gpu_unclaimed_reg_debug, forcewake_ack_hsw,
  forcewake_kernel, forcewake_ack_timeout_ms, ecobus, gtfifodbg, gen6_gt_thread_status_reg,
  gen6_gt_thread_status_core_mask_hsw, forcewake_mt, masked_bit_enable, masked_bit_disable,
  fpga_dbg, fpga_dbg_rm_noclaim, gt_fifo_cpu_error_mask,
}

module _ {W : Type 0} ⦃p : Platform W⦄ (runs : ClockRuns p) (d : ℕ) where
  -- From `s` to `t` the deadline `d` has come no farther away.
  abbrev pub Nearer : State W → State W → Type 0
  Nearer s t = p.patience d t.world ≤ p.patience d s.world

  pub pause-Nearer : (ms : ℕ) (s : State W) → Nearer s (pause ms s).1
  unfolding pause
  pause-Nearer ms s = elim (Bool-cases (ms == 0)) [
    | inl e ↦ rw e (runs.cpu_relax_keeps d s.world)
    | inr e ↦ rw e (runs.msleep_keeps d ms s.world)
  ]

  pub wait_until-Nearer :
      (cond : M W Bool)
      → ((s : State W) → Nearer s (cond s).1)
      → (ms w : ℕ) (s : State W) → Nearer s (wait_until cond ms w s).1
  wait_until-Nearer cond cond-Nearer ms w s =
      wait_until_rel Nearer (λ s. omega arith) (λ s t u x y. omega arith) pause-Nearer cond
        cond-Nearer ms w s

  when-Nearer :
      (b : Bool) (m : M W (Unit {0}))
      → ((s : State W) → Nearer s (m s).1)
      → (s : State W) → Nearer s (when b m s).1
  when-Nearer true m keeps s = keeps s
  when-Nearer false m keeps s = omega arith

  bits_clear-Nearer : (reg mask : ℕ) (s : State W) → Nearer s (bits_clear reg mask s).1
  bits_clear-Nearer reg mask s = runs.read_keeps d w32 _ s.world

  bits_set-Nearer : (reg mask : ℕ) (s : State W) → Nearer s (bits_set reg mask s).1
  bits_set-Nearer reg mask s = runs.read_keeps d w32 _ s.world

  forcewake_get_now-Nearer : (s : State W) → Nearer s (forcewake_get_now s).1
  unfolding forcewake_get_now wait_for_atomic wait_for_atomic_us
  forcewake_get_now-Nearer s =
      let ack : M W Bool = bits_clear forcewake_ack_hsw forcewake_kernel in
      let a = (wait_until ack forcewake_ack_timeout_ms 0 s).1 in
      let b = (raw_gpu_write w32 forcewake_mt (masked_bit_enable forcewake_kernel) a).1 in
      let c = (raw_gpu_read w32 ecobus b).1 in
      let set : M W Bool = bits_set forcewake_ack_hsw forcewake_kernel in
      let e = (wait_until set forcewake_ack_timeout_ms 0 c).1 in
      let thread : M W Bool =
        bits_clear gen6_gt_thread_status_reg gen6_gt_thread_status_core_mask_hsw in
      omega (
        arith,
        wait_until-Nearer ack (bits_clear-Nearer _ _) forcewake_ack_timeout_ms 0 s,
        runs.write_keeps d w32 (a.regs + forcewake_mt) (masked_bit_enable forcewake_kernel) a.world,
        runs.read_keeps d w32 (b.regs + ecobus) b.world,
        wait_until-Nearer set (bits_set-Nearer _ _) forcewake_ack_timeout_ms 0 c,
        wait_until-Nearer thread (bits_clear-Nearer _ _) (p.div_round_up 500 1000) 0 e,
      )

  forcewake_get-Nearer :
      (reg : ℕ) (force : Bool) (s : State W) → Nearer s (forcewake_get reg force s).1
  unfolding forcewake_get
  forcewake_get-Nearer reg force s =
      when-Nearer _ forcewake_get_now forcewake_get_now-Nearer (trace_in s).1

  raw_gpu_read-Nearer : (w : Width) (reg : ℕ) (s : State W) → Nearer s (raw_gpu_read w reg s).1
  raw_gpu_read-Nearer w reg s = runs.read_keeps d w (s.regs + reg) s.world

  raw_gpu_write-Nearer :
      (w : Width) (reg val : ℕ) (s : State W) → Nearer s (raw_gpu_write w reg val s).1
  raw_gpu_write-Nearer w reg val s = runs.write_keeps d w (s.regs + reg) val s.world

  forcewake_put_now-Nearer : (s : State W) → Nearer s (forcewake_put_now s).1
  unfolding forcewake_put_now
  forcewake_put_now-Nearer s =
      let a = (raw_gpu_write w32 forcewake_mt (masked_bit_disable forcewake_kernel) s).1 in
      let b = (raw_gpu_read w32 ecobus a).1 in
      let c = (raw_gpu_read w32 gtfifodbg b).1 in
      omega (
        arith,
        raw_gpu_write-Nearer w32 forcewake_mt (masked_bit_disable forcewake_kernel) s,
        raw_gpu_read-Nearer w32 ecobus a,
        raw_gpu_read-Nearer w32 gtfifodbg b,
        when-Nearer (nonzero (bit_and (raw_gpu_read w32 gtfifodbg b).0 gt_fifo_cpu_error_mask))
            (raw_gpu_write w32 gtfifodbg gt_fifo_cpu_error_mask)
            (raw_gpu_write-Nearer w32 gtfifodbg gt_fifo_cpu_error_mask) c,
      )

  forcewake_put-Nearer :
      (reg : ℕ) (force : Bool) (s : State W) → Nearer s (forcewake_put reg force s).1
  unfolding forcewake_put
  forcewake_put-Nearer reg force s =
      when-Nearer _ forcewake_put_now forcewake_put_now-Nearer (trace_in s).1

  gpu_unclaimed_reg_debug-Nearer : (s : State W) → Nearer s (gpu_unclaimed_reg_debug s).1
  unfolding gpu_unclaimed_reg_debug
  gpu_unclaimed_reg_debug-Nearer s =
      let a = (raw_gpu_read w32 fpga_dbg s).1 in
      omega (
        arith,
        raw_gpu_read-Nearer w32 fpga_dbg s,
        when-Nearer (nonzero (bit_and (raw_gpu_read w32 fpga_dbg s).0 fpga_dbg_rm_noclaim))
            (raw_gpu_write w32 fpga_dbg fpga_dbg_rm_noclaim)
            (raw_gpu_write-Nearer w32 fpga_dbg fpga_dbg_rm_noclaim) a,
      )

  pub gpu_read-Nearer : (w : Width) (reg : ℕ) (s : State W) → Nearer s (gpu_read w reg s).1
  unfolding gpu_read
  gpu_read-Nearer w reg s =
      let a = (spin_lock (trace_in s).1).1 in
      let b = (when (a.forcewake_count == 0) (forcewake_get (reg % 2 ^ 32) false) a).1 in
      let c = (raw_gpu_read w reg b).1 in
      omega (
        arith,
        when-Nearer (a.forcewake_count == 0) (forcewake_get (reg % 2 ^ 32) false)
            (forcewake_get-Nearer (reg % 2 ^ 32) false) a,
        raw_gpu_read-Nearer w reg b,
        when-Nearer (c.forcewake_count == 0) (forcewake_put (reg % 2 ^ 32) false)
            (forcewake_put-Nearer (reg % 2 ^ 32) false) c,
      )

  pub gpu_write-Nearer :
      (w : Width) (reg val : ℕ) (s : State W) → Nearer s (gpu_write w reg val s).1
  unfolding gpu_write
  gpu_write-Nearer w reg val s =
      let a = (spin_lock (trace_in s).1).1 in
      let b = (gpu_unclaimed_reg_debug a).1 in
      let c = (raw_gpu_write w reg val b).1 in
      omega (
        arith,
        gpu_unclaimed_reg_debug-Nearer a,
        raw_gpu_write-Nearer w reg val b,
        gpu_unclaimed_reg_debug-Nearer c,
      )

module _ {W : Type 0} ⦃p : Platform W⦄ (runs : ClockRuns p) where
  -- While the clock runs, each of the waits of `forcewake_get` for bits of a register ends, with the
  -- bits as wanted or past its deadline, whatever register, mask and time it is called with.
  pub forcewake_waits-finish :
      (reg mask time : ℕ) (s : State W)
      → ((wait_for_atomic (bits_clear reg mask) time s).0 ≢ unfinished)
        × ((wait_for_atomic (bits_set reg mask) time s).0 ≢ unfinished)
        × ((wait_for_atomic_us (bits_clear reg mask) time s).0 ≢ unfinished)
  unfolding wait_for_atomic wait_for_atomic_us
  forcewake_waits-finish reg mask time s = (
    wait_until-finishes runs (bits_clear reg mask) (λ d t. bits_clear-Nearer runs d reg mask t) time
        0 s,
    wait_until-finishes runs (bits_set reg mask) (λ d t. bits_set-Nearer runs d reg mask t) time 0
        s,
    wait_until-finishes runs (bits_clear reg mask) (λ d t. bits_clear-Nearer runs d reg mask t)
        (p.div_round_up time 1000) 0 s,
  )
