-- ===== src/Regrw/Effects.antt =====
-- What each register function does to the hardware, access by access, and to the driver's state.
use nugpgpu.Prelude.{
  ℕ, ◌+◌, ◌≡◌, refl, ap, Bool, true, false, List, [], ◌∷◌, ◌++◌, if◌then◌else◌, ◌||◌,
}
use nugpgpu.Platform.{Width, w32, Platform}
use nugpgpu.Machine.{State, M, Event, wr, when, trace_in}
use nugpgpu.Machine.Log.{LockState, held, effects}
use nugpgpu.Machine.Log.Touches.{
  Touches, Touches-refl, Touches-trans, Touches-after, traced-Touches, io_read-Touches,
}
use nugpgpu.Wait.{pause, wait_until, wait_for_atomic, wait_for_atomic_us}
use nugpgpu.Wait.Rules.{wait_until_rel}
use nugpgpu.Regrw.{
  fpga_dbg, fpga_dbg_rm_noclaim, gtfifodbg, gt_fifo_cpu_error_mask, ecobus, forcewake_mt,
  forcewake_kernel, forcewake_ack_hsw, forcewake_ack_timeout_ms, gen6_gt_thread_status_reg,
  gen6_gt_thread_status_core_mask_hsw, masked_bit_enable, masked_bit_disable, needs_forcewake,
  raw_gpu_read, raw_gpu_write, gpu_unclaimed_reg_debug, bits_clear, bits_set, forcewake_get_now,
  forcewake_get, forcewake_put_now, forcewake_put,
}

-- The event of waking the hardware, and those of letting it sleep; a FIFO error is cleared if one
-- is found. The newest stands first.
abbrev pub wake_events : ℕ → List Event
wake_events regs = wr w32 (regs + forcewake_mt) (masked_bit_enable forcewake_kernel) ∷ []

abbrev pub fifo_events : ℕ → Bool → List Event
fifo_events regs error = if error then wr w32 (regs + gtfifodbg) gt_fifo_cpu_error_mask ∷ [] else []

abbrev pub sleep_events : ℕ → Bool → List Event
sleep_events regs error =
    fifo_events regs error
    ++ (wr w32 (regs + forcewake_mt) (masked_bit_disable forcewake_kernel) ∷ [])

abbrev pub claim_events : ℕ → Bool → List Event
claim_events regs unclaimed =
    if unclaimed then wr w32 (regs + fpga_dbg) fpga_dbg_rm_noclaim ∷ [] else []

module _ {W : Type 0} ⦃p : Platform W⦄ where
  pub pause-Touches : {l : LockState} (ms : ℕ) (s : State W) → Touches l [] s (pause ms s).1
  unfolding pause
  pause-Touches ms s = record {
    regs = refl;
    mmio_funcs = refl;
    forcewake_count = refl;
    gtt = refl;
    ring = refl;
    gtt_entry = refl;
    debug = refl;
    depth = λ _. refl;
    new = [];
    grows = refl;
    log = refl;
    lock = λ e. e;
  }

  pub raw_gpu_read-Touches :
      (w : Width) (reg : ℕ) (s : State W) → Touches held [] s (raw_gpu_read w reg s).1
  raw_gpu_read-Touches w reg s = io_read-Touches w (s.regs + reg) s

  pub raw_gpu_write-Touches :
      (w : Width) (reg val : ℕ) (s : State W) {regs : ℕ}
      → s.regs ≡ regs
      → Touches held (wr w (regs + reg) val ∷ []) s (raw_gpu_write w reg val s).1
  raw_gpu_write-Touches w reg val s e = record {
    regs = refl;
    mmio_funcs = refl;
    forcewake_count = refl;
    gtt = refl;
    ring = refl;
    gtt_entry = refl;
    debug = refl;
    depth = λ _. refl;
    new = wr w (s.regs + reg) val ∷ [];
    grows = refl;
    log = ap (λ r. wr w (r + reg) val ∷ effects s.log) e;
    lock = λ h. rw h;
  }

  wait_until-Touches :
      (cond : M W Bool)
      → ((s : State W) → Touches held [] s (cond s).1)
      → (ms w : ℕ) (s : State W) → Touches held [] s (wait_until cond ms w s).1
  wait_until-Touches cond h =
      wait_until_rel (Touches held []) Touches-refl (λ s t u. Touches-trans) pause-Touches cond h

  wait_for_atomic-Touches :
      (cond : M W Bool)
      → ((s : State W) → Touches held [] s (cond s).1)
      → (ms : ℕ) (s : State W) → Touches held [] s (wait_for_atomic cond ms s).1
  unfolding wait_for_atomic
  wait_for_atomic-Touches cond h ms s = wait_until-Touches cond h ms 0 s

  wait_for_atomic_us-Touches :
      (cond : M W Bool)
      → ((s : State W) → Touches held [] s (cond s).1)
      → (us : ℕ) (s : State W) → Touches held [] s (wait_for_atomic_us cond us s).1
  unfolding wait_for_atomic_us
  wait_for_atomic_us-Touches cond h us s = wait_until-Touches cond h _ 0 s

  forcewake_get_now-Touches :
      (s : State W) → Touches held (wake_events s.regs) s (forcewake_get_now s).1
  unfolding forcewake_get_now
  forcewake_get_now-Touches s =
      let a =
        wait_for_atomic-Touches (bits_clear forcewake_ack_hsw forcewake_kernel)
          (raw_gpu_read-Touches w32 forcewake_ack_hsw) forcewake_ack_timeout_ms s in
      let b = Touches-trans a (raw_gpu_write-Touches w32 forcewake_mt _ _ a.regs) in
      let c = Touches-trans b (raw_gpu_read-Touches w32 ecobus _) in
      let d = Touches-trans c (
        wait_for_atomic-Touches (bits_set forcewake_ack_hsw forcewake_kernel)
          (raw_gpu_read-Touches w32 forcewake_ack_hsw) forcewake_ack_timeout_ms _) in
      Touches-trans d (
        wait_for_atomic_us-Touches
          (bits_clear gen6_gt_thread_status_reg gen6_gt_thread_status_core_mask_hsw)
          (raw_gpu_read-Touches w32 gen6_gt_thread_status_reg) 500 _)

  when_write-Touches :
      (b : Bool) (reg val : ℕ) (s : State W) {regs : ℕ}
      → s.regs ≡ regs
      → Touches held
          (if b then wr w32 (regs + reg) val ∷ [] else [])
          s
          (when b (raw_gpu_write w32 reg val) s).1
  when_write-Touches true reg val s e = raw_gpu_write-Touches w32 reg val s e
  when_write-Touches false reg val s e = Touches-refl s

  forcewake_put_now-Touches :
      (s : State W)
      → (error : Bool) × Touches held (sleep_events s.regs error) s (forcewake_put_now s).1
  unfolding forcewake_put_now
  forcewake_put_now-Touches s =
      let a = raw_gpu_write-Touches w32 forcewake_mt (masked_bit_disable forcewake_kernel) s refl in
      let b = Touches-trans a (raw_gpu_read-Touches w32 ecobus _) in
      let c = Touches-trans b (raw_gpu_read-Touches w32 gtfifodbg _) in
      (_, Touches-trans c (when_write-Touches _ gtfifodbg gt_fifo_cpu_error_mask _ c.regs))

  pub gpu_unclaimed_reg_debug-Touches :
      (s : State W) {regs : ℕ}
      → s.regs ≡ regs
      → (unclaimed : Bool) × Touches held
          (claim_events regs unclaimed)
          s
          (gpu_unclaimed_reg_debug s).1
  unfolding gpu_unclaimed_reg_debug
  gpu_unclaimed_reg_debug-Touches s e =
      let a = raw_gpu_read-Touches w32 fpga_dbg s in
      (_, Touches-after a (when_write-Touches _ fpga_dbg fpga_dbg_rm_noclaim _ e))

  -- Behind its test `forcewake_get` wakes the hardware, and else it leaves it alone.
  pub forcewake_get-Touches :
      (reg : ℕ) (force : Bool) (s : State W)
      → Touches held
          (if force || needs_forcewake reg then wake_events s.regs else [])
          s
          (forcewake_get reg force s).1
  unfolding forcewake_get
  forcewake_get-Touches reg force s = traced-Touches s _ (choose (force || needs_forcewake reg))
    where
      choose :
          (b : Bool)
          → Touches held
              (if b then wake_events s.regs else [])
              (trace_in s).1
              (when b forcewake_get_now (trace_in s).1).1
      choose true = forcewake_get_now-Touches (trace_in s).1
      choose false = Touches-refl (trace_in s).1

  -- Behind its test `forcewake_put` lets the hardware sleep, and else it leaves it alone.
  pub forcewake_put-Touches :
      (reg : ℕ) (force : Bool) (s : State W)
      → (error : Bool) × Touches held
          (if force || needs_forcewake reg then sleep_events s.regs error else [])
          s
          (forcewake_put reg force s).1
  unfolding forcewake_put
  forcewake_put-Touches reg force s =
      let (error, h) = choose (force || needs_forcewake reg) in (error, traced-Touches s _ h)
    where
      choose :
          (b : Bool)
          → (error : Bool) × Touches held
              (if b then sleep_events s.regs error else [])
              (trace_in s).1
              (when b forcewake_put_now (trace_in s).1).1
      choose true = forcewake_put_now-Touches (trace_in s).1
      choose false = (false, Touches-refl (trace_in s).1)
