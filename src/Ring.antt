-- ===== src/Ring.antt =====
-- nugpgpu_ringbuffer.c and nugpgpu_ringbuffer.h: the ring through which the GPU takes its commands.
-- There is one ring, `nugpgpu_render_ring`, and every function is called with it.
pub mod Space
pub mod Commands
pub mod Batches
pub mod Overrun
pub mod Waits
pub mod Frame
use nugpgpu.RingRegisters.{
  instpm_sync_flush, instpm_tlb_invalidate, mode_idle, ring_free_space, ring_head_addr,
  ring_read_instpm, ring_read_mode, ring_write_instpm, ring_write_mode, ring_write_tail, stop_ring,
}
use nugpgpu.Prelude.{
  ℕ, ◌+◌, ◌-◌, ◌*◌, ◌/◌, ◌%◌, ◌^◌, Bool, true, false, ◌||◌, ◌&&◌, not, bit_and, bit_or, ltb, leb,
  ◌==◌, nonzero, List, [], ◌∷◌, if◌then◌else◌,
}
use nugpgpu.Platform.{Platform}
use nugpgpu.Machine.{
  State, Ring, M, ◌>>=◌, ◌>>◌, pure, trace_in, trace_out, mem_write, Status, success,
}
use nugpgpu.Wait.{wait_for, Waited}
use nugpgpu.Regrw.{nugpgpu_read, nugpgpu_write, masked_bit_enable}

-- MI_INSTR
abbrev pub mi_instr : ℕ → ℕ → ℕ
mi_instr opcode flags = bit_or (opcode * 2 ^ 23) flags

abbrev pub mi_noop : ℕ
mi_noop = mi_instr 0 0

abbrev pub mi_store_dword_index : ℕ
mi_store_dword_index = mi_instr 0x21 1

abbrev pub mi_batch_buffer_start : ℕ
mi_batch_buffer_start = mi_instr 0x31 0

abbrev pub mi_batch_buffer_end : ℕ
mi_batch_buffer_end = mi_instr 0x0a 0

-- An `int` is kept as its bit pattern; this is `x < 0`.
abbrev pub is_negative : ℕ → Bool
is_negative x = leb (2 ^ 31) x

-- `ring_space`; whatever ring it is given, it reads RING.
pub ring_space : Ring → ℕ
ring_space r =
    let space =
      (bit_and r.head ring_head_addr + 2 ^ 32 - (r.tail + ring_free_space) % 2 ^ 32) % 2 ^ 32 in
    if is_negative space then (space + r.size) % 2 ^ 32 else space

abbrev pub get_ring : {W : Type 0} → M W Ring
get_ring s = (s.ring, s)

abbrev pub set_ring : {W : Type 0} → Ring → M W (Unit {0})
set_ring r s = (tt, record s { ring = r })

-- `space` is an `int`: the bytes are taken off without a test.
unfoldable pub nugpgpu_ring_begin : {W : Type 0} → ℕ → M W Status
nugpgpu_ring_begin num_dwords = do
  trace_in
  r ← get_ring
  set_ring (record r { space = (r.space + 2 ^ 32 - num_dwords * 4 % 2 ^ 32) % 2 ^ 32 })
  trace_out
  pure success

module _ {W : Type 0} ⦃p : Platform W⦄ where
  unfoldable pub ring_emit : ℕ → M W (Unit {0})
  ring_emit word = do
    r ← get_ring
    mem_write (r.virtual_start + r.tail) word
    set_ring (record r { tail = (r.tail + 4) % 2 ^ 32 })

  unfoldable pub nugpgpu_ring_advance : M W (Unit {0})
  nugpgpu_ring_advance = do
    r ← get_ring
    let tail = bit_and r.tail ((r.size + 2 ^ 32 - 1) % 2 ^ 32)
    set_ring (record r { tail = tail })
    ring_write_tail r.mmio_base tail

  -- What follows `nugpgpu_ring_begin`, by whether it failed.
  abbrev pub dispatch_begun : ℕ → Status → M W Status
  dispatch_begun offset success = do
    ring_emit mi_batch_buffer_start
    ring_emit offset
    nugpgpu_ring_advance
    pure success
  dispatch_begun offset failed = pure failed

  pub ring_dispatch : ℕ → M W Status
  ring_dispatch offset = do ret ← nugpgpu_ring_begin 2; dispatch_begun offset ret

  abbrev pub is_idle : ℕ → M W Bool
  is_idle base = do v ← ring_read_mode base; pure (nonzero (bit_and v mode_idle))

  pub nugpgpu_ring_render_stop : M W Waited
  nugpgpu_ring_render_stop = do
    r ← get_ring
    ring_write_mode r.mmio_base (masked_bit_enable stop_ring)
    wait_for (is_idle r.mmio_base) 10000

  unfoldable pub flushtlb : M W Waited
  flushtlb = do
    r ← get_ring
    ring_write_instpm r.mmio_base
        (masked_bit_enable (bit_or instpm_tlb_invalidate instpm_sync_flush))
    wait_for (do v ← ring_read_instpm r.mmio_base; pure (bit_and v instpm_sync_flush == 0)) 1000
