-- ===== src/Processors.antt =====
-- The register functions of nugpgpu_regrw.c on several processors at once, one access at a time,
-- with the spin lock that they share and with `depth`, which TRACE_IN and TRACE_OUT load and store
-- without a lock.
pub mod Alike
pub mod Bodies
pub mod History
pub mod Rules
pub mod Taken
pub mod Linear
pub mod Runs
pub mod Ends
pub mod Progress
pub mod Holders
use nugpgpu.Prelude.{
  ℕ, zero, suc, ◌+◌, ◌-◌, ◌*◌, ◌/◌, ◌%◌, ◌^◌, Bool, true, false, ◌||◌, not, bit_and, List, [], ◌∷◌,
  Option, none, some, if◌then◌else◌, ◌==◌, nonzero,
}
use nugpgpu.Platform.{Width, w32, Platform}
use nugpgpu.Machine.{State, M, spin_lock, spin_unlock}
use nugpgpu.Wait.{pause}
use nugpgpu.Regrw.{
  fpga_dbg, fpga_dbg_rm_noclaim, gtfifodbg, gt_fifo_cpu_error_mask, ecobus, forcewake_mt,
  forcewake_ack_hsw, forcewake_kernel, forcewake_ack_timeout_ms, gen6_gt_thread_status_reg,
  gen6_gt_thread_status_core_mask_hsw, masked_bit_enable, masked_bit_disable, needs_forcewake,
  raw_gpu_read, raw_gpu_write, count_up, count_down, count_is_zero,
}
use nugpgpu.Regrw.Clients.{Call}

-- What a processor has yet to do before it gives the lock back: to return, to make an access and go
-- on with the value, to count `depth` up or down, or to store what it has made of `depth`. `spent` is
-- a wait whose fuel has run out with its deadline still to come: the processor stays there.
pub data Code (W : Type 0) : Type 0 where
  done : ℕ → Code W
  access : M W ℕ → (ℕ → Code W) → Code W
  bump : (ℕ → ℕ) → Code W → Code W
  store_depth : ℕ → Code W → Code W
  spent : Code W → Code W

-- Where a processor stands: between two calls, in TRACE_IN after its load, before the lock, behind
-- it, before TRACE_OUT, in TRACE_OUT after its load.
pub data Point (W : Type 0) : Type 0 where
  idle : Point W
  entering : ℕ → Point W
  spinning : Point W
  inside : Call → Code W → Point W
  leaving : Point W
  left : ℕ → Point W

-- A processor with the calls for which it has not had the lock yet, and what those before have
-- returned, the newest first.
pub record Cpu (W : Type 0) : Type 0 where
  pub calls : List Call
  pub point : Point W
  pub results : List ℕ

-- The processors over the state that they share. `owner` has the lock. `history` has the calls in
-- the order in which they got it, the newest first.
pub record System (W : Type 0) : Type 0 where
  pub state : State W
  pub owner : Option ℕ
  pub cpus : ℕ → Cpu W
  pub history : List (ℕ × Call)

-- TRACE_IN and TRACE_OUT
abbrev pub one_in : ℕ → ℕ
one_in d = (d + 1) % 2 ^ 32

abbrev pub one_out : ℕ → ℕ
one_out d = (d + 2 ^ 32 - 1) % 2 ^ 32

-- `forcewake_work` has no TRACE_IN and no TRACE_OUT.
abbrev pub traced : Call → Bool
traced Call.work = false
traced Call.get = true
traced Call.put = true
traced (Call.read w reg) = true
traced (Call.write w reg val) = true

module _ {W : Type 0} where
  -- The code when nobody interferes. A wait whose fuel has run out is left, as `poll` leaves it.
  unfoldable pub finish : Code W → M W ℕ
  finish (done v) s = (v, s)
  finish (access m k) s = let r = m s in finish (k r.0) r.1
  finish (bump f c) s = finish c (record s { depth = f s.depth })
  finish (store_depth d c) s = finish c (record s { depth = d })
  finish (spent c) s = finish c s

  abbrev pub when_steps : Bool → (Code W → Code W) → Code W → Code W
  when_steps b m k = if b then m k else k

  -- An access whose value is not looked at.
  abbrev pub act : M W (Unit {0}) → Code W → Code W
  act m k = access (λ s. (0, (m s).1)) (λ _. k)

  -- A test of the count.
  abbrev pub test : M W Bool → (Bool → Code W) → Code W
  test m k = access (λ s. let r = m s in (if r.0 then 1 else 0, r.1)) (λ v. k (nonzero v))

module _ {W : Type 0} ⦃p : Platform W⦄ where
  -- The loop of `_wait_for` on a register.
  unfoldable pub poll_steps : ℕ → ℕ → (ℕ → Bool) → ℕ → Code W → Code W
  poll_steps zero reg good timeout k = spent k
  poll_steps (suc fuel) reg good timeout k = access (raw_gpu_read w32 reg) (λ v.
      if good v
      then k
      else access (λ s. (p.jiffies s.world, s))
          (λ now.
            if p.time_after now timeout
            then access (raw_gpu_read w32 reg) (λ _. k)
            else act (pause 0) (poll_steps fuel reg good timeout k)))

  -- wait_for_atomic and wait_for_atomic_us; the second access measures out the fuel.
  unfoldable pub wait_steps : ℕ → (ℕ → Bool) → ℕ → Code W → Code W
  wait_steps reg good ms k =
      access (λ s. ((p.jiffies s.world + p.msecs_to_jiffies ms + 1) % 2 ^ 64, s))
        (λ timeout.
          access (λ s. (p.patience timeout s.world + 1, s))
            (λ fuel. poll_steps fuel reg good timeout k))

  unfoldable pub forcewake_get_now_steps : Code W → Code W
  forcewake_get_now_steps k =
      wait_steps forcewake_ack_hsw (λ v. bit_and v forcewake_kernel == 0) forcewake_ack_timeout_ms
        (act (raw_gpu_write w32 forcewake_mt (masked_bit_enable forcewake_kernel)) (
          access (raw_gpu_read w32 ecobus) (λ _.
            wait_steps forcewake_ack_hsw (λ v. nonzero (bit_and v forcewake_kernel))
              forcewake_ack_timeout_ms
              (wait_steps gen6_gt_thread_status_reg
                (λ v. bit_and v gen6_gt_thread_status_core_mask_hsw == 0) (p.div_round_up 500 1000)
                k))))

  unfoldable pub forcewake_get_steps : ℕ → Bool → Code W → Code W
  forcewake_get_steps reg force k =
      bump one_in
        (when_steps (force || needs_forcewake reg) forcewake_get_now_steps (bump one_out k))

  unfoldable pub forcewake_put_now_steps : Code W → Code W
  forcewake_put_now_steps k =
      act (raw_gpu_write w32 forcewake_mt (masked_bit_disable forcewake_kernel)) (
        access (raw_gpu_read w32 ecobus) (λ _. access (raw_gpu_read w32 gtfifodbg) (λ dbg.
          when_steps (nonzero (bit_and dbg gt_fifo_cpu_error_mask))
            (act (raw_gpu_write w32 gtfifodbg gt_fifo_cpu_error_mask)) k)))

  unfoldable pub forcewake_put_steps : ℕ → Bool → Code W → Code W
  forcewake_put_steps reg force k =
      bump one_in
        (when_steps (force || needs_forcewake reg) forcewake_put_now_steps (bump one_out k))

  unfoldable pub unclaimed_steps : Code W → Code W
  unclaimed_steps k = access (raw_gpu_read w32 fpga_dbg) (λ v.
      when_steps (nonzero (bit_and v fpga_dbg_rm_noclaim))
        (act (raw_gpu_write w32 fpga_dbg fpga_dbg_rm_noclaim)) k)

  -- Between the lock and the unlock of each function.
  unfoldable pub get_steps : Code W
  get_steps = test count_up (λ first. when_steps first (forcewake_get_steps 0 true) (done 0))

  unfoldable pub put_steps : Code W
  put_steps = test count_down (λ last. when_steps last (forcewake_put_steps 0 true) (done 0))

  unfoldable pub work_steps : Code W
  work_steps = test count_down (λ last. when_steps last (forcewake_put_steps 0 true) (done 0))

  -- What `gpu_read` does after its first test.
  unfoldable pub awake_steps : Width → ℕ → Code W
  awake_steps w reg = access (raw_gpu_read w reg) (λ val.
      test count_is_zero
        (λ sleeping. when_steps sleeping (forcewake_put_steps (reg % 2 ^ 32) false) (done val)))

  unfoldable pub read_steps : Width → ℕ → Code W
  read_steps w reg = test count_is_zero (λ sleeping.
      when_steps sleeping (forcewake_get_steps (reg % 2 ^ 32) false) (awake_steps w reg))

  unfoldable pub write_steps : Width → ℕ → ℕ → Code W
  write_steps w reg val = unclaimed_steps (act (raw_gpu_write w reg val) (unclaimed_steps (done 0)))

  abbrev pub body : Call → Code W
  body Call.get = get_steps
  body Call.put = put_steps
  body Call.work = work_steps
  body (Call.read w reg) = read_steps w reg
  body (Call.write w reg val) = write_steps w reg val

  abbrev pub update : ℕ → Cpu W → (ℕ → Cpu W) → ℕ → Cpu W
  update i c cpus j = if j == i then c else cpus j

  abbrev pub move : ℕ → Point W → State W → System W → System W
  move i at s k = record k { state = s; cpus = update i (record (k.cpus i) { point = at }) k.cpus }

  abbrev pub with_depth : ℕ → State W → State W
  with_depth d s = record s { depth = d }

  -- The lock is had at once if it is free; else the processor spins on.
  abbrev pub take : ℕ → Call → List Call → Option ℕ → System W → System W
  take i c rest (some j) k = k
  take i c rest none k = record {
    state = (spin_lock k.state).1;
    owner = some i;
    cpus = update i (record (k.cpus i) { calls = rest; point = inside c (body c) }) k.cpus;
    history = (i, c) ∷ k.history;
  }

  abbrev pub give : ℕ → Call → ℕ → System W → System W
  give i c v k = record {
    state = (spin_unlock k.state).1;
    owner = none;
    cpus =
        update i
          (record (k.cpus i) {
            point = if traced c then leaving else idle;
            results = v ∷ (k.cpus i).results;
          })
          k.cpus;
    history = k.history;
  }

  -- The next step of processor `i`.
  unfoldable pub turn_at : ℕ → Point W → List Call → System W → System W
  turn_at i idle [] k = k
  turn_at i idle (c ∷ cs) k =
      move i (if traced c then entering k.state.depth else spinning) k.state k
  turn_at i (entering d) cs k = move i spinning (with_depth (one_in d) k.state) k
  turn_at i spinning [] k = k
  turn_at i spinning (c ∷ cs) k = take i c cs k.owner k
  turn_at i (inside c (done v)) cs k = give i c v k
  turn_at i (inside c (access m f)) cs k = let r = m k.state in move i (inside c (f r.0)) r.1 k
  turn_at i (inside c (bump f b)) cs k =
      move i (inside c (store_depth (f k.state.depth) b)) k.state k
  turn_at i (inside c (store_depth d b)) cs k = move i (inside c b) (with_depth d k.state) k
  turn_at i (inside c (spent b)) cs k = k
  turn_at i leaving cs k = move i (left k.state.depth) k.state k
  turn_at i (left d) cs k = move i idle (with_depth (one_out d) k.state) k

  abbrev pub turn : ℕ → System W → System W
  turn i k = turn_at i (k.cpus i).point (k.cpus i).calls k

  -- The processors take steps in the given order.
  abbrev pub run : List ℕ → System W → System W
  run [] k = k
  run (i ∷ is) k = run is (turn i k)

  -- Every processor before its first call.
  abbrev pub start : (ℕ → List Call) → State W → System W
  start programs s = record {
    state = s;
    owner = none;
    cpus = λ i. record { calls = programs i; point = idle; results = [] };
    history = [];
  }
