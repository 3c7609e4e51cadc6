-- ===== src/Selftest/Frame.antt =====
-- The self-test as a step of the driver: it gives up and takes no hold of the hardware.
use nugpgpu.RingRegisters.{ring_tail_reg}
use nugpgpu.Prelude.{
  ℕ, zero, suc, ◌+◌, ◌*◌, ◌≡◌, refl, Bool, true, false, ◌==◌, Bool-cases, inl, inr, List, [], ◌∷◌,
  none,
}
use nugpgpu.Platform.{Platform, w32}
use nugpgpu.Services.{Services}
use nugpgpu.Machine.{State, Obj, KernelCall, mem_read}
use nugpgpu.Regrw.Frame.{Frame, trace_in-rel, mem_read-rel, mem_write-rel, gpu_read-rel}
use nugpgpu.Gtt.Frame.{ask-rel, tell-rel, gtt_insert-rel}
use nugpgpu.Memmgr.Frame.{allocate_object-rel}
use nugpgpu.Ring.{mi_batch_buffer_end}
use nugpgpu.Ring.Frame.{ring_begin-rel, ring_emit-rel, ring_advance-rel}
use nugpgpu.Dump.{
  read_all, set_debug, nugpgpu_dump, my915_pcie_dump, my915_mmio_dump, pcie_registers,
  mmio_registers,
}
use nugpgpu.Selftest.{
  cache_llc, status_shift, poll_limit, table_of, load_byte, scan_page, emit_all, spin, mark_slot,
  watch_slot, temp_words, temp_mapped, temp_inserted, temp_allocated, check_dword_temp,
}
use nugpgpu.Gtt.{page_size, gfx_flsh_cntl_hsw}

module _ {W : Type 0} ⦃p : Platform W⦄ (f : Frame W) {s : State W} where
  read_all-rel : (regs : List ℕ) {t : State W} → f.rel s t → f.rel s (read_all regs t).1
  unfolding read_all
  read_all-rel [] h = h
  read_all-rel (reg ∷ rest) h = read_all-rel rest (gpu_read-rel f h w32 reg)

  nugpgpu_dump-rel : {t : State W} → f.rel s t → f.rel s (nugpgpu_dump t).1
  unfolding nugpgpu_dump my915_pcie_dump my915_mmio_dump
  nugpgpu_dump-rel {t} h =
      let a = f.unseen (set_debug 0 t).1 h refl refl refl refl in
      let b = read_all-rel mmio_registers (read_all-rel pcie_registers a) in
      f.unseen (nugpgpu_dump t).1 b refl refl refl refl

module _ {W : Type 0} ⦃p : Platform W⦄ ⦃k : Services W⦄ (f : Frame W) {s : State W} where
  scan_page-rel : (left a : ℕ) {t : State W} → f.rel s t → f.rel s (scan_page left a t).1
  unfolding scan_page
  scan_page-rel zero a h = h
  scan_page-rel (suc left) a {t} h =
      scan_page-rel left (a + 1) (f.unseen (load_byte a t).1 h refl refl refl refl)

  spin-rel : (left slot old : ℕ) {t : State W} → f.rel s t → f.rel s (spin left slot old t).1
  unfolding spin
  spin-rel zero slot old h = h
  spin-rel (suc left) slot old {t} h = elim (Bool-cases ((mem_read slot t).0 == old)) [
    | inl e ↦ rw (e, spin) (spin-rel left slot old (mem_read-rel f h slot))
    | inr e ↦ rw (e, spin) (mem_read-rel f h slot)
  ]

  emit_all-rel : (words : List ℕ) {t : State W} → f.rel s t → f.rel s (emit_all words t).1
  emit_all-rel [] h = h
  emit_all-rel (word ∷ rest) h = emit_all-rel rest (ring_emit-rel f word h)

  mark_slot-rel : {t : State W} → f.rel s t → f.rel s (mark_slot t).1
  mark_slot-rel {t} h =
      let slot = t.ring.page_status + 4 * status_shift in
      let a = mem_read-rel f (mem_read-rel f (mem_write-rel f h slot 0x0a0a0a0a) slot) (slot + 4) in
      scan_page-rel page_size _ (nugpgpu_dump-rel f a)

  watch_slot-rel : (old : ℕ) {t : State W} → f.rel s t → f.rel s (watch_slot old t).1
  watch_slot-rel old {t} h =
      let slot = t.ring.page_status + 4 * status_shift in
      let a = spin-rel poll_limit slot old h in
      nugpgpu_dump-rel f (mem_read-rel f (mem_read-rel f (mem_read-rel f a slot) slot) (slot + 4))

  module _ (flush : f.allowed gfx_flsh_cntl_hsw) (tail : f.allowed (ring_tail_reg 0x2000))
      (at : s.ring.mmio_base ≡ 0x2000) where
    temp_mapped-rel :
        (gfx_addr virt_addr : ℕ) (failed : Bool) {t : State W}
        → f.rel s t
        → f.rel s (temp_mapped gfx_addr virt_addr failed t).1
    unfolding temp_mapped
    temp_mapped-rel gfx_addr virt_addr true h = h
    temp_mapped-rel gfx_addr virt_addr false h =
        let a = tell-rel f h (k.memset_page virt_addr) (KernelCall.memset_page virt_addr) in
        let b = mark_slot-rel (mem_write-rel f a (virt_addr + 4 * 256) mi_batch_buffer_end) in
        let c = emit_all-rel (temp_words gfx_addr) (ring_begin-rel f 8 b) in
        watch_slot-rel _ (ring_advance-rel f tail at c)

    temp_inserted-rel :
        (obj : Obj) (gfx_addr : ℕ) (failed : Bool) {t : State W}
        → f.rel s t
        → f.rel s (temp_inserted obj gfx_addr failed t).1
    unfolding temp_inserted
    temp_inserted-rel obj gfx_addr true h = h
    temp_inserted-rel obj gfx_addr false h =
        temp_mapped-rel gfx_addr _ _ (ask-rel f h (k.kmap (table_of obj)) KernelCall.kmap)

    temp_allocated-rel :
        (obj : Obj) (failed : Bool) {t : State W}
        → f.rel s t
        → f.rel s (temp_allocated obj failed t).1
    unfolding temp_allocated
    temp_allocated-rel obj true h = h
    temp_allocated-rel obj false h =
        temp_inserted-rel obj _ _ (gtt_insert-rel f flush (table_of obj) cache_llc h)

    pub check_dword_temp-rel : {t : State W} → f.rel s t → f.rel s (check_dword_temp t).1
    unfolding check_dword_temp
    check_dword_temp-rel h =
        temp_allocated-rel _ _
          (allocate_object-rel f (record { pg_list = none }) 1 (trace_in-rel f h))
