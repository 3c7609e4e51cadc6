-- ===== src/RenderInit.antt =====
-- nugpgpu_ringbuffer_render_init, the second half of nugpgpu_ringbuffer.c: the status page and the
-- ring are allocated, entered in the page table and mapped, and the ring is started. The `1` of its
-- error returns is `failure`. Its error returns do not pass TRACE_OUT.
pub mod Controls
pub mod Grown
pub mod Wrote
pub mod Order
pub mod Window
pub mod Storeless
pub mod Entered
pub mod Mapped
pub mod Steps
pub mod Holders
pub mod Waits
use nugpgpu.RingRegisters.{
  async_flip_perf_disable, gfx_replay_mode, gfx_tlb_invalidate_always, instpm_force_ordering,
  render_hws_pga_gen7, render_ring_base, ring_head_addr, ring_nr_pages, ring_read_ctl,
  ring_read_head, ring_read_start, ring_read_tail, ring_tail_addr, ring_valid, ring_write_ctl,
  ring_write_head, ring_write_instpm, ring_write_mode, ring_write_mode_gen7, ring_write_start,
  ring_write_tail, vs_timer_dispatch,
}
use nugpgpu.Prelude.{ℕ, ◌+◌, ◌-◌, ◌*◌, ◌%◌, ◌^◌, Bool, true, false, bit_and, bit_or, ◌==◌, nonzero}
use nugpgpu.Platform.{Platform}
use nugpgpu.Services.{Services}
use nugpgpu.Machine.{
  KernelCall, M, ◌>>=◌, ◌>>◌, pure, when, trace_in, trace_out, Status, success, failure, eio,
}
use nugpgpu.Wait.{wait_for, Waited, met, timed_out, unfinished}
use nugpgpu.Regrw.{
  nugpgpu_read, nugpgpu_write, gpu_forcewake_get, gpu_forcewake_put, masked_bit_enable,
  masked_bit_disable,
}
use nugpgpu.Gtt.{ask, tell, get_gtt, is_error, page_size, nugpgpu_gtt_insert}
use nugpgpu.Memmgr.{allocate_object}
use nugpgpu.Ring.{get_ring, set_ring, ring_space, flushtlb}
use nugpgpu.Selftest.{table_of, cache_llc, check_dword_temp}

abbrev pub ring_pages : ℕ
ring_pages = 32

module _ {W : Type 0} ⦃p : Platform W⦄ where
  -- From `gpu_forcewake_get` to the clearing of the ring's registers.
  pub clear_ring : M W (Unit {0})
  clear_ring = do
    gpu_forcewake_get
    r ← get_ring
    nugpgpu_write render_hws_pga_gen7 r.gva_status
    _ ← nugpgpu_read render_hws_pga_gen7
    _ ← flushtlb
    ring_write_ctl r.mmio_base 0
    ring_write_head r.mmio_base 0
    ring_write_tail r.mmio_base 0

  -- The printing of the four registers of a ring whose head does not go to zero, in the order in
  -- which they are printed.
  pub report_head : ℕ → M W (Unit {0})
  report_head base = do
    _ ← ring_read_ctl base
    _ ← ring_read_head base
    _ ← ring_read_tail base
    _ ← ring_read_start base
    pure tt

  pub retry_head : ℕ → M W (Unit {0})
  retry_head base = do
    ring_write_head base 0
    head ← ring_read_head base
    when (nonzero (bit_and head ring_head_addr)) (report_head base)

  -- The condition of the last wait: each register is read only if those before it are right.
  pub head_is_zero : ℕ → M W Bool
  head_is_zero base = do head ← ring_read_head base; pure (bit_and head ring_head_addr == 0)

  pub start_is_set : ℕ → ℕ → Bool → M W Bool
  start_is_set base gva false = pure false
  start_is_set base gva true = head_is_zero base

  pub ctl_is_valid : ℕ → ℕ → Bool → M W Bool
  ctl_is_valid base gva false = pure false
  ctl_is_valid base gva true = do start ← ring_read_start base; start_is_set base gva (start == gva)

  pub ring_is_running : ℕ → ℕ → M W Bool
  ring_is_running base gva = do
    ctl ← ring_read_ctl base
    ctl_is_valid base gva (nonzero (bit_and ctl ring_valid))

module _ {W : Type 0} ⦃p : Platform W⦄ ⦃k : Services W⦄ where
  -- From `gpu_forcewake_put` to the end.
  pub settle_ring : ℕ → M W Status
  settle_ring base = do
    gpu_forcewake_put
    ring_write_mode base (masked_bit_enable vs_timer_dispatch)
    ring_write_mode base (masked_bit_enable async_flip_perf_disable)
    ring_write_mode_gen7 base
        (bit_or (masked_bit_disable gfx_tlb_invalidate_always) (masked_bit_enable gfx_replay_mode))
    ring_write_instpm base (masked_bit_enable instpm_force_ordering)
    check_dword_temp
    trace_out
    pure success

  -- What follows the last wait, by its result.
  pub ring_started : Waited → M W Status
  ring_started met = do
    r ← get_ring
    head ← ring_read_head r.mmio_base
    r' ← get_ring
    set_ring (record r' { head = head })
    tail ← ring_read_tail r.mmio_base
    r'' ← get_ring
    set_ring (record r'' { tail = bit_and tail ring_tail_addr })
    q ← get_ring
    set_ring (record q { space = ring_space q })
    settle_ring r.mmio_base
  ring_started timed_out = pure eio
  ring_started unfinished = pure eio

  -- From `gpu_forcewake_get` on.
  pub start_ring : M W Status
  start_ring = do
    clear_ring
    r ← get_ring
    head ← ring_read_head r.mmio_base
    when (nonzero (bit_and head ring_head_addr)) (retry_head r.mmio_base)
    _ ← ring_read_head r.mmio_base
    ring_write_start r.mmio_base r.gva_ringbuffer
    ring_write_ctl r.mmio_base
        (bit_or (bit_and ((r.size + 2 ^ 32 - page_size) % 2 ^ 32) ring_nr_pages) ring_valid)
    waited ← wait_for (ring_is_running r.mmio_base r.gva_ringbuffer) 50
    ring_started waited

  -- Each of the following is what comes after one call, by whether that failed; the last first.
  pub start_mapped : Bool → M W Status
  start_mapped true = pure failure
  start_mapped false = start_ring

  pub ring_mapped : Bool → M W Status
  ring_mapped true = pure failure
  ring_mapped false = do
    g ← get_gtt
    r ← get_ring
    start ←
        ask (k.ioremap_wc (g.mappable_base + page_size) r.size)
          (KernelCall.ioremap_wc (g.mappable_base + page_size) r.size)
    set_ring (record r { virtual_start = start })
    start_mapped (start == 0)

  pub ring_inserted : Bool → M W Status
  ring_inserted true = pure failure
  ring_inserted false = do
    r ← get_ring
    page ← ask (k.kmap (table_of r.ringbuf_obj)) KernelCall.kmap
    set_ring (record r { page_ringbuffer = page })
    ring_mapped (page == 0)

  pub ring_allocated : Bool → M W Status
  ring_allocated true = pure failure
  ring_allocated false = do
    r ← get_ring
    gva ← nugpgpu_gtt_insert (table_of r.ringbuf_obj) cache_llc
    r' ← get_ring
    set_ring (record r' { gva_ringbuffer = gva })
    ring_inserted (gva == 2 ^ 32 - 1)

  pub status_mapped : Bool → M W Status
  status_mapped true = pure failure
  status_mapped false = do
    r ← get_ring
    tell (k.memset_page r.page_status) (KernelCall.memset_page r.page_status)
    done ← allocate_object r.ringbuf_obj ring_pages
    r' ← get_ring
    set_ring (record r' { ringbuf_obj = done.1 })
    ring_allocated (is_error done.0)

  pub status_inserted : Bool → M W Status
  status_inserted true = pure failure
  status_inserted false = do
    r ← get_ring
    page ← ask (k.kmap (table_of r.status_obj)) KernelCall.kmap
    set_ring (record r { page_status = page })
    status_mapped (page == 0)

  pub status_allocated : Bool → M W Status
  status_allocated true = pure failure
  status_allocated false = do
    r ← get_ring
    gva ← nugpgpu_gtt_insert (table_of r.status_obj) cache_llc
    r' ← get_ring
    set_ring (record r' { gva_status = gva })
    status_inserted (gva == 2 ^ 32 - 1)

  pub nugpgpu_ringbuffer_render_init : M W Status
  nugpgpu_ringbuffer_render_init = do
    trace_in
    r ← get_ring
    set_ring (record r { mmio_base = render_ring_base; size = page_size * ring_pages })
    done ← allocate_object r.status_obj 1
    r' ← get_ring
    set_ring (record r' { status_obj = done.1 })
    status_allocated (is_error done.0)
