-- ===== src/Regrw.antt =====
-- nugpgpu_regrw.c and nugpgpu_regrw.h: register reads and writes under the lock, and the reference
-- count that keeps the hardware awake.
pub mod Effects
pub mod Access
pub mod Holds
pub mod Power
pub mod Wake
pub mod Clients
pub mod Waits
pub mod Frame
pub mod Kept
use nugpgpu.Prelude.{
  ℕ, ◌+◌, ◌-◌, ◌*◌, ◌%◌, ◌^◌, Bool, true, false, ◌&&◌, ◌||◌, not, bit_and, bit_or, ltb, ◌==◌,
  nonzero, some,
}
use nugpgpu.Platform.{Width, w8, w16, w32, w64, Platform}
use nugpgpu.Machine.{
  State, M, ◌>>=◌, ◌>>◌, pure, when, trace_in, trace_out, spin_lock, spin_unlock, spin_lock_init,
  io_read, io_write, MmioFuncs,
}
use nugpgpu.Wait.{wait_for_atomic, wait_for_atomic_us}

abbrev pub fpga_dbg : ℕ
fpga_dbg = 0x42300

abbrev pub fpga_dbg_rm_noclaim : ℕ
fpga_dbg_rm_noclaim = 2 ^ 31

abbrev pub gtfifodbg : ℕ
gtfifodbg = 0x120000

abbrev pub gt_fifo_cpu_error_mask : ℕ
gt_fifo_cpu_error_mask = 7

abbrev pub hsw_err_int : ℕ
hsw_err_int = 0x44040

abbrev pub ecobus : ℕ
ecobus = 0xA180

abbrev pub forcewake_mt : ℕ
forcewake_mt = 0xA188

abbrev pub forcewake : ℕ
forcewake = 0xA18C

abbrev pub forcewake_ack_hsw : ℕ
forcewake_ack_hsw = 0x130044

abbrev pub forcewake_kernel : ℕ
forcewake_kernel = 1

abbrev pub forcewake_ack_timeout_ms : ℕ
forcewake_ack_timeout_ms = 2

abbrev pub gen6_gt_thread_status_reg : ℕ
gen6_gt_thread_status_reg = 0x13805c

abbrev pub gen6_gt_thread_status_core_mask_hsw : ℕ
gen6_gt_thread_status_core_mask_hsw = bit_or 0x7 (0x07 * 2 ^ 16)

-- `_MASKED_BIT_ENABLE` and `_MASKED_BIT_DISABLE`; the result is used as a `u32`.
abbrev pub masked_bit_enable : ℕ → ℕ
masked_bit_enable a = bit_or (a * 2 ^ 16 % 2 ^ 32) a

abbrev pub masked_bit_disable : ℕ → ℕ
masked_bit_disable a = a * 2 ^ 16 % 2 ^ 32

abbrev pub needs_forcewake : ℕ → Bool
needs_forcewake reg = ltb reg 0x40000 && not (reg == forcewake)

module _ {W : Type 0} ⦃p : Platform W⦄ where
  abbrev pub raw_gpu_read : Width → ℕ → M W ℕ
  raw_gpu_read w reg s = io_read w (s.regs + reg) s

  abbrev pub raw_gpu_write : Width → ℕ → ℕ → M W (Unit {0})
  raw_gpu_write w reg val s = io_write w (s.regs + reg) val s

  -- The message's text depends on `reg`, `read` and `before`; what is done does not.
  unfoldable pub gpu_unclaimed_reg_debug : M W (Unit {0})
  gpu_unclaimed_reg_debug = do
    v ← raw_gpu_read w32 fpga_dbg
    when (nonzero (bit_and v fpga_dbg_rm_noclaim)) (raw_gpu_write w32 fpga_dbg fpga_dbg_rm_noclaim)

  abbrev pub bits_clear : ℕ → ℕ → M W Bool
  bits_clear reg mask = do v ← raw_gpu_read w32 reg; pure (bit_and v mask == 0)

  abbrev pub bits_set : ℕ → ℕ → M W Bool
  bits_set reg mask = do v ← raw_gpu_read w32 reg; pure (nonzero (bit_and v mask))

  -- The body of `forcewake_get` behind its test.
  unfoldable pub forcewake_get_now : M W (Unit {0})
  forcewake_get_now = do
    _ ← wait_for_atomic (bits_clear forcewake_ack_hsw forcewake_kernel) forcewake_ack_timeout_ms
    raw_gpu_write w32 forcewake_mt (masked_bit_enable forcewake_kernel)
    _ ← raw_gpu_read w32 ecobus
    _ ← wait_for_atomic (bits_set forcewake_ack_hsw forcewake_kernel) forcewake_ack_timeout_ms
    _ ←
        wait_for_atomic_us
          (bits_clear gen6_gt_thread_status_reg gen6_gt_thread_status_core_mask_hsw) 500
    pure tt

  unfoldable pub forcewake_get : ℕ → Bool → M W (Unit {0})
  forcewake_get reg force = do
    trace_in
    when (force || needs_forcewake reg) forcewake_get_now
    trace_out

  -- The body of `forcewake_put` behind its test.
  unfoldable pub forcewake_put_now : M W (Unit {0})
  forcewake_put_now = do
    raw_gpu_write w32 forcewake_mt (masked_bit_disable forcewake_kernel)
    _ ← raw_gpu_read w32 ecobus
    dbg ← raw_gpu_read w32 gtfifodbg
    when (nonzero (bit_and dbg gt_fifo_cpu_error_mask))
        (raw_gpu_write w32 gtfifodbg gt_fifo_cpu_error_mask)

  unfoldable pub forcewake_put : ℕ → Bool → M W (Unit {0})
  forcewake_put reg force = do
    trace_in
    when (force || needs_forcewake reg) forcewake_put_now
    trace_out

  -- `gpu_priv->forcewake_count++ == 0`: the counter is unsigned.
  abbrev pub count_up : M W Bool
  count_up s =
      (s.forcewake_count == 0, record s { forcewake_count = (s.forcewake_count + 1) % 2 ^ 32 })

  -- `--gpu_priv->forcewake_count == 0`
  abbrev pub count_down : M W Bool
  count_down s =
      let n = (s.forcewake_count + 2 ^ 32 - 1) % 2 ^ 32 in
      (n == 0, record s { forcewake_count = n })

  unfoldable pub forcewake_work : M W (Unit {0})
  forcewake_work = do spin_lock; last ← count_down; when last (forcewake_put 0 true); spin_unlock

  unfoldable pub gpu_forcewake_get : M W (Unit {0})
  gpu_forcewake_get = do
    trace_in
    spin_lock
    first ← count_up
    when first (forcewake_get 0 true)
    spin_unlock
    trace_out

  unfoldable pub gpu_forcewake_put : M W (Unit {0})
  gpu_forcewake_put = do
    trace_in
    spin_lock
    last ← count_down
    when last (forcewake_put 0 true)
    spin_unlock
    trace_out

  abbrev pub count_is_zero : M W Bool
  count_is_zero s = (s.forcewake_count == 0, s)

  -- `gpu_read8` to `gpu_read64`; `forcewake_get` takes the offset as a `uint32_t`.
  unfoldable pub gpu_read : Width → ℕ → M W ℕ
  gpu_read w reg = do
    trace_in
    spin_lock
    idle ← count_is_zero
    when idle (forcewake_get (reg % 2 ^ 32) false)
    val ← raw_gpu_read w reg
    idle' ← count_is_zero
    when idle' (forcewake_put (reg % 2 ^ 32) false)
    spin_unlock
    trace_out
    pure val

  -- `gpu_write8` to `gpu_write64`
  unfoldable pub gpu_write : Width → ℕ → ℕ → M W (Unit {0})
  gpu_write w reg val = do
    trace_in
    spin_lock
    gpu_unclaimed_reg_debug
    raw_gpu_write w reg val
    gpu_unclaimed_reg_debug
    spin_unlock
    trace_out

  -- The last call before the pointers are set; none of its accesses is made under the lock.
  pub nugpgpu_uncore_early_sanitize : M W (Unit {0})
  nugpgpu_uncore_early_sanitize = do
    trace_in
    raw_gpu_write w32 fpga_dbg fpga_dbg_rm_noclaim
    raw_gpu_write w32 forcewake 0
    _ ← raw_gpu_read w32 ecobus
    raw_gpu_write w32 forcewake_mt (masked_bit_disable 0xffff)
    _ ← raw_gpu_read w32 ecobus
    trace_out

  abbrev pub set_mmio_funcs : MmioFuncs → M W (Unit {0})
  set_mmio_funcs f s = (tt, record s { mmio_funcs = f })

  pub nugpgpu_regrw_init : M W (Unit {0})
  nugpgpu_regrw_init = do
    trace_in
    nugpgpu_uncore_early_sanitize
    spin_lock_init
    set_mmio_funcs (record {
      mmio_readb = some w8;
      mmio_readw = some w16;
      mmio_readl = some w32;
      mmio_readq = some w64;
      mmio_writeb = some w8;
      mmio_writew = some w16;
      mmio_writel = some w32;
      mmio_writeq = some w64;
    })
    trace_out

  -- NUGPGPU_READ and NUGPGPU_WRITE, through the pointers that `nugpgpu_regrw_init` sets.
  abbrev pub nugpgpu_read : ℕ → M W ℕ
  nugpgpu_read reg = gpu_read w32 reg

  abbrev pub nugpgpu_write : ℕ → ℕ → M W (Unit {0})
  nugpgpu_write reg val = gpu_write w32 reg val

  -- NUGPGPU_READQ and NUGPGPU_WRITEQ, which nobody uses.
  abbrev pub nugpgpu_readq : ℕ → M W ℕ
  nugpgpu_readq reg = gpu_read w64 reg

  abbrev pub nugpgpu_writeq : ℕ → ℕ → M W (Unit {0})
  nugpgpu_writeq reg val = gpu_write w64 reg val

  pub nugpgpu_regrw_sanitize : M W (Unit {0})
  nugpgpu_regrw_sanitize = do
    trace_in
    _ ← nugpgpu_read fpga_dbg
    _ ← nugpgpu_read gtfifodbg
    _ ← nugpgpu_read hsw_err_int
    dbg ← nugpgpu_read fpga_dbg
    nugpgpu_write fpga_dbg dbg
    fifo ← nugpgpu_read gtfifodbg
    nugpgpu_write gtfifodbg fifo
    err ← nugpgpu_read hsw_err_int
    nugpgpu_write hsw_err_int err
    _ ← nugpgpu_read fpga_dbg
    _ ← nugpgpu_read gtfifodbg
    _ ← nugpgpu_read hsw_err_int
    trace_out
