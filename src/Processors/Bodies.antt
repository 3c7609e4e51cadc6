-- ===== src/Processors/Bodies.antt =====
-- The code of a processor that nobody interferes with does what the register functions do.
use nugpgpu.Prelude.{
  ℕ, zero, suc, ◌%◌, ◌^◌, ◌≡◌, ◌∙◌, refl, ap, Bool, true, false, ◌||◌, bit_and, nonzero, ◌==◌,
  Bool-cases, inl, inr,
}
use nugpgpu.Platform.{Width, w32, Platform}
use nugpgpu.Machine.{State, M, when, spin_lock, spin_unlock, trace_in}
use nugpgpu.Wait.{poll, wait_until, wait_for_atomic, wait_for_atomic_us}
use nugpgpu.Regrw.{
  count_up, count_down, count_is_zero, needs_forcewake, raw_gpu_read, forcewake_get, forcewake_put,
  forcewake_get_now, forcewake_put_now, gpu_unclaimed_reg_debug, gpu_forcewake_get,
  gpu_forcewake_put, forcewake_work, gpu_read, gpu_write, gt_fifo_cpu_error_mask,
  fpga_dbg_rm_noclaim, gtfifodbg, ecobus, forcewake_mt, masked_bit_disable, forcewake_kernel,
  fpga_dbg, raw_gpu_write,
}
use nugpgpu.Regrw.Clients.{Call, run_call}
use nugpgpu.Processors.{
  Code, finish, when_steps, poll_steps, wait_steps, forcewake_get_now_steps, forcewake_get_steps,
  forcewake_put_now_steps, forcewake_put_steps, unclaimed_steps, get_steps, put_steps, work_steps,
  awake_steps, read_steps, write_steps, body, act, test, done, bump, one_out,
}
use nugpgpu.Processors.Alike.{core, Alike, finish-Alike, body-IsBlind}

module _ {W : Type 0} ⦃p : Platform W⦄ where
  abbrev condition : ℕ → (ℕ → Bool) → M W Bool
  condition reg good s = let r = raw_gpu_read w32 reg s in (good r.0, r.1)

  finish-when :
      (b : Bool) (steps : Code W → Code W) (m : M W (Unit {0})) (k : Code W) (s : State W)
      → finish (steps k) s ≡ finish k (m s).1
      → finish (when_steps b steps k) s ≡ finish k (when b m s).1
  finish-when true steps m k s e = e
  finish-when false steps m k s e = refl

  finish-poll :
      (fuel reg : ℕ) (good : ℕ → Bool) (timeout : ℕ) (k : Code W) (s : State W)
      → finish (poll_steps fuel reg good timeout k) s
        ≡ finish k (poll fuel (condition reg good) timeout 0 s).1
  unfolding poll_steps poll finish
  finish-poll zero reg good timeout k s = refl
  finish-poll (suc fuel) reg good timeout k s =
      let r = raw_gpu_read w32 reg s in
      elim (Bool-cases (good r.0)) [
        | inl e ↦ rw (e, poll, poll_steps, finish) refl
        | inr e ↦
            rw (e, poll, poll_steps, finish)
              (elim (Bool-cases (p.time_after (p.jiffies r.1.world) timeout)) [
                | inl l ↦ rw (l, poll, finish) refl
                | inr l ↦ rw (l, poll, finish) (finish-poll fuel reg good timeout k _)
              ])
      ]

  finish-wait :
      (reg : ℕ) (good : ℕ → Bool) (ms : ℕ) (k : Code W) (s : State W)
      → finish (wait_steps reg good ms k) s ≡ finish k (wait_until (condition reg good) ms 0 s).1
  unfolding wait_steps wait_until finish
  finish-wait reg good ms k s = finish-poll _ reg good _ k s

  finish-forcewake_get :
      (reg : ℕ) (force : Bool) (k : Code W) (s : State W)
      → finish (forcewake_get_steps reg force k) s
        ≡ let t = (forcewake_get reg force s).1 in finish k t
  unfolding forcewake_get_steps forcewake_get_now_steps finish forcewake_get forcewake_get_now
      wait_for_atomic wait_for_atomic_us
  finish-forcewake_get reg force k s =
      finish-when (force || needs_forcewake reg) forcewake_get_now_steps forcewake_get_now _ _
        (finish-wait _ _ _ _ _ ∙ finish-wait _ _ _ _ _ ∙ finish-wait _ _ _ _ _)

  finish-forcewake_put :
      (reg : ℕ) (force : Bool) (k : Code W) (s : State W)
      → finish (forcewake_put_steps reg force k) s ≡ finish k (forcewake_put reg force s).1
  unfolding forcewake_put_steps forcewake_put_now_steps finish forcewake_put forcewake_put_now
  finish-forcewake_put reg force k s =
      finish-when (force || needs_forcewake reg) forcewake_put_now_steps forcewake_put_now _ _ (
        let t =
          (raw_gpu_read w32 gtfifodbg
            (raw_gpu_read w32 ecobus
              (raw_gpu_write w32 forcewake_mt (masked_bit_disable forcewake_kernel)
                (trace_in s).1).1).1) in
        finish-when (nonzero (bit_and t.0 gt_fifo_cpu_error_mask))
          (act (raw_gpu_write w32 gtfifodbg gt_fifo_cpu_error_mask))
          (raw_gpu_write w32 gtfifodbg gt_fifo_cpu_error_mask) (bump one_out k) t.1 refl)

  finish-unclaimed :
      (k : Code W) (s : State W)
      → finish (unclaimed_steps k) s ≡ finish k (gpu_unclaimed_reg_debug s).1
  unfolding unclaimed_steps finish gpu_unclaimed_reg_debug
  finish-unclaimed k s =
      let t = raw_gpu_read w32 fpga_dbg s in
      finish-when (nonzero (bit_and t.0 fpga_dbg_rm_noclaim))
        (act (raw_gpu_write w32 fpga_dbg fpga_dbg_rm_noclaim))
        (raw_gpu_write w32 fpga_dbg fpga_dbg_rm_noclaim) k t.1 refl

  finish-test :
      (m : M W Bool) (k : Bool → Code W) (s : State W)
      → finish (test m k) s ≡ finish (k (m s).0) (m s).1
  unfolding finish
  finish-test m k s = elim (Bool-cases (m s).0) [
    | inl e ↦ rw (e, finish) refl
    | inr e ↦ rw (e, finish) refl
  ]

  finish-test_get :
      (m : M W Bool) (reg : ℕ) (force : Bool) (k : Code W) (s : State W)
      → finish (test m (λ b. when_steps b (forcewake_get_steps reg force) k)) s
        ≡ finish k (when (m s).0 (forcewake_get reg force) (m s).1).1
  finish-test_get m reg force k s =
      finish-test m (λ b. when_steps b (forcewake_get_steps reg force) k) s
      ∙ finish-when (m s).0 (forcewake_get_steps reg force) (forcewake_get reg force) k (m s).1
          (finish-forcewake_get reg force k (m s).1)

  finish-test_put :
      (m : M W Bool) (reg : ℕ) (force : Bool) (k : Code W) (s : State W)
      → finish (test m (λ b. when_steps b (forcewake_put_steps reg force) k)) s
        ≡ finish k (when (m s).0 (forcewake_put reg force) (m s).1).1
  finish-test_put m reg force k s =
      finish-test m (λ b. when_steps b (forcewake_put_steps reg force) k) s
      ∙ finish-when (m s).0 (forcewake_put_steps reg force) (forcewake_put reg force) k (m s).1
          (finish-forcewake_put reg force k (m s).1)

  -- What `gpu_read` does after its wake.
  finish-awake :
      (w : Width) (reg : ℕ) (s : State W)
      → let r = raw_gpu_read w reg s in
        finish (awake_steps w reg) s
        ≡ (r.0, (when (r.1.forcewake_count == 0) (forcewake_put (reg % 2 ^ 32) false) r.1).1)
  unfolding awake_steps finish
  finish-awake w reg s =
      let r = raw_gpu_read w reg s in
      finish-test_put count_is_zero (reg % 2 ^ 32) false (done r.0) r.1

  -- What a call returns; 0 where it returns nothing.
  abbrev pub returned : Call → State W → ℕ
  returned Call.get s = 0
  returned Call.put s = 0
  returned Call.work s = 0
  returned (Call.read w reg) s = (gpu_read w reg s).0
  returned (Call.write w reg val) s = 0

  unlock-Alike : (s t : State W) → Alike s t → Alike (spin_unlock s).1 (spin_unlock t).1
  unlock-Alike s t e = ap (λ (u : State W). (spin_unlock u).1) e

  -- From the lock to the unlock, when TRACE_IN is behind.
  traced_lem :
      (c : Call) (s : State W) {v : ℕ} {t : State W}
      → finish (body c) (spin_lock (trace_in s).1).1 ≡ (v, t)
      → let r = finish (body c) (spin_lock s).1 in
        Alike (spin_unlock r.1).1 (spin_unlock t).1 × (r.0 ≡ v)
  traced_lem c s {v} {t} e =
      let (value, after) =
        finish-Alike (body c) (spin_lock s).1 (spin_lock (trace_in s).1).1 (body-IsBlind W c)
          refl in
      (
        unlock-Alike (finish (body c) (spin_lock s).1).1 t (after ∙ ap (λ r. core r.1) e),
        value ∙ ap (λ r. r.0) e,
      )

  -- Alone, the code of a call does what the call does, and returns what it returns.
  pub body_lem :
      (c : Call) (s : State W)
      → let r = finish (body c) (spin_lock s).1 in
        Alike (spin_unlock r.1).1 (run_call c s) × (r.0 ≡ returned c s)
  unfolding get_steps put_steps work_steps read_steps write_steps gpu_forcewake_get
      gpu_forcewake_put forcewake_work gpu_read gpu_write finish
  body_lem Call.get s =
      traced_lem Call.get s (finish-test_get count_up 0 true (done 0) (spin_lock (trace_in s).1).1)
  body_lem Call.put s =
      traced_lem Call.put s
        (finish-test_put count_down 0 true (done 0) (spin_lock (trace_in s).1).1)
  body_lem Call.work s =
      let e = finish-test_put count_down 0 true (done 0) (spin_lock s).1 in
      let r = count_down (spin_lock s).1 in
      (
        unlock-Alike (finish (body Call.work) (spin_lock s).1).1
            (when r.0 (forcewake_put 0 true) r.1).1 (ap (λ r. core r.1) e),
        ap (λ r. r.0) e,
      )
  body_lem (Call.read w reg) s = traced_lem (Call.read w reg) s (
      finish-test_get count_is_zero (reg % 2 ^ 32) false (awake_steps w reg)
        (spin_lock (trace_in s).1).1
      ∙ finish-awake w reg _)
  body_lem (Call.write w reg val) s = traced_lem (Call.write w reg val) s (
      finish-unclaimed (act (raw_gpu_write w reg val) (unclaimed_steps (done 0)))
        (spin_lock (trace_in s).1).1
      ∙ finish-unclaimed (done 0) _)
