-- ===== src/RingRegisters.antt =====
-- The registers of a ring and their bits, and the macros that read and write them
-- (nugpgpu_ringbuffer.h).
use nugpgpu.Prelude.{ℕ, ◌+◌, ◌^◌}
use nugpgpu.Platform.{Platform}
use nugpgpu.Machine.{M}
use nugpgpu.Regrw.{nugpgpu_read, nugpgpu_write}

abbrev pub ring_free_space : ℕ
ring_free_space = 64

abbrev pub ring_head_addr : ℕ
ring_head_addr = 0x001FFFFC

abbrev pub ring_tail_reg : ℕ → ℕ
ring_tail_reg base = base + 0x30

abbrev pub ring_mi_mode_reg : ℕ → ℕ
ring_mi_mode_reg base = base + 0x9c

abbrev pub ring_instpm_reg : ℕ → ℕ
ring_instpm_reg base = base + 0xc0

abbrev pub stop_ring : ℕ
stop_ring = 2 ^ 8

abbrev pub mode_idle : ℕ
mode_idle = 2 ^ 9

abbrev pub instpm_tlb_invalidate : ℕ
instpm_tlb_invalidate = 2 ^ 9

abbrev pub instpm_sync_flush : ℕ
instpm_sync_flush = 2 ^ 5

abbrev pub render_ring_base : ℕ
render_ring_base = 0x02000

abbrev pub render_hws_pga_gen7 : ℕ
render_hws_pga_gen7 = 0x04080

abbrev pub ring_nr_pages : ℕ
ring_nr_pages = 0x001FF000

abbrev pub ring_tail_addr : ℕ
ring_tail_addr = 0x001FFFF8

abbrev pub ring_valid : ℕ
ring_valid = 1

abbrev pub ring_head_reg : ℕ → ℕ
ring_head_reg base = base + 0x34

abbrev pub ring_start_reg : ℕ → ℕ
ring_start_reg base = base + 0x38

abbrev pub ring_acthd_reg : ℕ → ℕ
ring_acthd_reg base = base + 0x74

abbrev pub ring_ctl_reg : ℕ → ℕ
ring_ctl_reg base = base + 0x3c

abbrev pub ring_mode_gen7_reg : ℕ → ℕ
ring_mode_gen7_reg base = base + 0x29c

abbrev pub vs_timer_dispatch : ℕ
vs_timer_dispatch = 2 ^ 6

abbrev pub async_flip_perf_disable : ℕ
async_flip_perf_disable = 2 ^ 14

abbrev pub instpm_force_ordering : ℕ
instpm_force_ordering = 2 ^ 7

abbrev pub gfx_tlb_invalidate_always : ℕ
gfx_tlb_invalidate_always = 2 ^ 13

abbrev pub gfx_replay_mode : ℕ
gfx_replay_mode = 2 ^ 11

module _ {W : Type 0} ⦃p : Platform W⦄ where
  -- RING_READ_INSTPM and the like take the ring for the base of its registers.
  abbrev pub ring_read_mode : ℕ → M W ℕ
  ring_read_mode base = nugpgpu_read (ring_mi_mode_reg base)

  abbrev pub ring_read_instpm : ℕ → M W ℕ
  ring_read_instpm base = nugpgpu_read (ring_instpm_reg base)

  abbrev pub ring_write_tail : ℕ → ℕ → M W (Unit {0})
  ring_write_tail base val = nugpgpu_write (ring_tail_reg base) val

  abbrev pub ring_write_mode : ℕ → ℕ → M W (Unit {0})
  ring_write_mode base val = nugpgpu_write (ring_mi_mode_reg base) val

  abbrev pub ring_write_instpm : ℕ → ℕ → M W (Unit {0})
  ring_write_instpm base val = nugpgpu_write (ring_instpm_reg base) val

  abbrev pub ring_read_ctl : ℕ → M W ℕ
  ring_read_ctl base = nugpgpu_read (ring_ctl_reg base)

  abbrev pub ring_read_head : ℕ → M W ℕ
  ring_read_head base = nugpgpu_read (ring_head_reg base)

  abbrev pub ring_read_tail : ℕ → M W ℕ
  ring_read_tail base = nugpgpu_read (ring_tail_reg base)

  abbrev pub ring_read_start : ℕ → M W ℕ
  ring_read_start base = nugpgpu_read (ring_start_reg base)

  abbrev pub ring_read_acthd : ℕ → M W ℕ
  ring_read_acthd base = nugpgpu_read (ring_acthd_reg base)

  abbrev pub ring_write_ctl : ℕ → ℕ → M W (Unit {0})
  ring_write_ctl base val = nugpgpu_write (ring_ctl_reg base) val

  abbrev pub ring_write_head : ℕ → ℕ → M W (Unit {0})
  ring_write_head base val = nugpgpu_write (ring_head_reg base) val

  abbrev pub ring_write_start : ℕ → ℕ → M W (Unit {0})
  ring_write_start base val = nugpgpu_write (ring_start_reg base) val

  abbrev pub ring_write_mode_gen7 : ℕ → ℕ → M W (Unit {0})
  ring_write_mode_gen7 base val = nugpgpu_write (ring_mode_gen7_reg base) val
