-- ===== src/Selftest/Tail.antt =====
-- Where the self-test leaves the ring: it reserves eight words and emits nine.
use mathlib.Core.Path.{subst}
use nugpgpu.RingRegisters.{ring_tail_reg}
use nugpgpu.Prelude.{
  ℕ, zero, suc, ◌+◌, ◌-◌, ◌*◌, ◌%◌, ◌^◌, ◌<◌, ◌≡◌, ◌∙◌, refl, ap, arith, bit_and, false, ◌==◌, ◌++◌,
  some, Bool-cases, inl, inr, List, [], ◌∷◌, length,
}
use nugpgpu.Prelude.Bits.{and_mask}
use nugpgpu.Platform.{Platform, w32}
use nugpgpu.Services.{Services}
use nugpgpu.Machine.{State, Ring, KernelCall, mem_read, mem_write}
use nugpgpu.Regrw.Access.{gpu_read-Touches, gpu_write-Touches}
use nugpgpu.Gtt.{page_size, tell}
use nugpgpu.Ring.{nugpgpu_ring_begin, ring_emit, nugpgpu_ring_advance, mi_batch_buffer_end}
use nugpgpu.Ring.Commands.{ring_bytes, IsReady}
use nugpgpu.Ring.Batches.{dispatch_all}
use nugpgpu.Ring.Overrun.{dispatch_all-overruns}
use nugpgpu.Gtt.Table.{last_store}
use nugpgpu.Dump.{
  read_all, nugpgpu_dump, my915_pcie_dump, my915_mmio_dump, pcie_registers, mmio_registers,
}
use nugpgpu.Selftest.{
  load_byte, scan_page, spin, mark_slot, watch_slot, temp_words, temp_mapped, emit_all, poll_limit,
}

module _ {W : Type 0} ⦃p : Platform W⦄ where
  ring-read_all : (regs : List ℕ) (t : State W) → (read_all regs t).1.ring ≡ t.ring
  unfolding read_all
  ring-read_all [] t = refl
  ring-read_all (reg ∷ rest) t =
      let (error, touched) = gpu_read-Touches w32 reg t in ring-read_all rest _ ∙ touched.ring

  ring-nugpgpu_dump : (t : State W) → (nugpgpu_dump t).1.ring ≡ t.ring
  unfolding nugpgpu_dump my915_pcie_dump my915_mmio_dump
  ring-nugpgpu_dump t = ring-read_all mmio_registers _ ∙ ring-read_all pcie_registers _

  ring-ring_advance :
      (t : State W)
      → t.ring.size ≡ ring_bytes
      → (nugpgpu_ring_advance t).1.ring ≡ record (t.ring) { tail = t.ring.tail % ring_bytes }
  unfolding nugpgpu_ring_advance
  ring-ring_advance t size =
      let tail = bit_and t.ring.tail ((t.ring.size + 2 ^ 32 - 1) % 2 ^ 32) in
      let mask : (t.ring.size + 2 ^ 32 - 1) % 2 ^ 32 ≡ 2 ^ 17 - 1 = omega arith in
      let wrapped : tail ≡ t.ring.tail % ring_bytes =
        ap (bit_and t.ring.tail) mask ∙ and_mask 17 t.ring.tail in
      let (before, after, touched) =
        gpu_write-Touches w32 (ring_tail_reg t.ring.mmio_base) tail
          (record t { ring = record (t.ring) { tail = tail } }) in
      touched.ring ∙ ap (λ (n : ℕ). record (t.ring) { tail = n }) wrapped

module _ {W : Type 0} ⦃p : Platform W⦄ ⦃k : Services W⦄ where
  ring-scan_page : (left a : ℕ) (t : State W) → (scan_page left a t).1.ring ≡ t.ring
  unfolding scan_page
  ring-scan_page zero a t = refl
  ring-scan_page (suc left) a t = ring-scan_page left (a + 1) (load_byte a t).1

  ring-spin : (left slot old : ℕ) (t : State W) → (spin left slot old t).1.ring ≡ t.ring
  unfolding spin
  ring-spin zero slot old t = refl
  ring-spin (suc left) slot old t = elim (Bool-cases ((mem_read slot t).0 == old)) [
    | inl e ↦ rw (e, spin) (ring-spin left slot old (mem_read slot t).1)
    | inr e ↦ rw (e, spin)
  ]

  ring-mark_slot : (t : State W) → (mark_slot t).1.ring ≡ t.ring
  ring-mark_slot t = ring-scan_page page_size _ _ ∙ ring-nugpgpu_dump _

  ring-watch_slot : (old : ℕ) (t : State W) → (watch_slot old t).1.ring ≡ t.ring
  ring-watch_slot old t = ring-nugpgpu_dump _ ∙ ring-spin poll_limit _ old t

  ring-emit_all :
      (words : List ℕ) (t : State W)
      → t.ring.tail + 4 * length words < 2 ^ 32
      → (emit_all words t).1.ring ≡ record (t.ring) { tail = t.ring.tail + 4 * length words }
  unfolding ring_emit
  ring-emit_all [] t small = ap (λ (n : ℕ). record (t.ring) { tail = n }) (omega arith)
  ring-emit_all (word ∷ rest) t small =
      ring-emit_all rest (ring_emit word t).1 (omega arith)
      ∙ ap (λ (n : ℕ). record (t.ring) { tail = n }) (omega arith)

  -- The ring that the test leaves.
  ring-temp_mapped :
      (gfx_addr virt_addr : ℕ) (t : State W)
      → t.ring.size ≡ ring_bytes
      → t.ring.tail < ring_bytes
      → (temp_mapped gfx_addr virt_addr false t).1.ring ≡ record (t.ring) {
        tail = (t.ring.tail + 36) % ring_bytes;
        space = (t.ring.space + 2 ^ 32 - 32) % 2 ^ 32;
      }
  unfolding temp_mapped nugpgpu_ring_begin
  ring-temp_mapped gfx_addr virt_addr t size tail_in =
      let t0 =
        (mem_write (virt_addr + 4 * 256) mi_batch_buffer_end
          (tell (k.memset_page virt_addr) (KernelCall.memset_page virt_addr) t).1).1 in
      let (old, m) = mark_slot t0 in
      let b = (nugpgpu_ring_begin 8 m).1 in
      let c = (emit_all (temp_words gfx_addr) b).1 in
      let d = (nugpgpu_ring_advance c).1 in
      let marked : m.ring ≡ t.ring = ring-mark_slot t0 in
      let inside : m.ring.tail < ring_bytes = rw marked tail_in in
      let emitted : c.ring ≡ record (b.ring) { tail = b.ring.tail + 36 } =
        ring-emit_all (temp_words gfx_addr) b (omega arith) in
      let whole : c.ring.size ≡ ring_bytes =
        ap (λ (r : Ring). r.size) emitted ∙ ap (λ (r : Ring). r.size) marked ∙ size in
      ring-watch_slot old d
      ∙ ring-ring_advance c whole
      ∙ ap (λ (r : Ring). record r { tail = r.tail % ring_bytes }) emitted
      ∙ ap
          (λ (r : Ring). record r {
            tail = (r.tail + 36) % ring_bytes;
            space = (r.space + 2 ^ 32 - 32) % 2 ^ 32;
          })
          marked

  -- Once its page is mapped, `check_dword_temp` on a ready ring moves the tail 36 bytes on, round the
  -- end of the ring, to an odd word, and takes 32 bytes off the space.
  pub temp_mapped-tail :
      (gfx_addr virt_addr : ℕ) (t : State W)
      → IsReady t.ring
      → let u = (temp_mapped gfx_addr virt_addr false t).1 in
        (u.ring.tail ≡ (t.ring.tail + 36) % ring_bytes)
        × (u.ring.tail % 8 ≡ 4)
        × (u.ring.space ≡ (t.ring.space + 2 ^ 32 - 32) % 2 ^ 32)
  temp_mapped-tail gfx_addr virt_addr t h =
      let left = ring-temp_mapped gfx_addr virt_addr t h.size h.tail_in in
      let tail = ap (λ (r : Ring). r.tail) left in
      (tail, omega (arith, tail, h.tail_aligned), ap (λ (r : Ring). r.space) left)

  -- When the page of the self-test has been allocated, entered and mapped, and the rest of
  -- `check_dword_temp`, from the test of `kmap` on, runs on a ready ring, and `ring_dispatch` after it
  -- for as many batches as there are whole pairs of words from the tail to the end of the ring, the
  -- call for the next batch stores the batch's address in the word past the end of the ring.
  pub temp_mapped-overruns :
      (gfx_addr virt_addr : ℕ) (offsets : List ℕ) (offset : ℕ) (t : State W)
      → IsReady t.ring
      → t.ring.tail + 40 + 8 * length offsets ≡ ring_bytes
      → let u = (temp_mapped gfx_addr virt_addr false t).1 in
        last_store (t.ring.virtual_start + ring_bytes) (dispatch_all (offsets ++ offset ∷ []) u).log
        ≡ some offset
  temp_mapped-overruns gfx_addr virt_addr offsets offset t h last =
      let u = (temp_mapped gfx_addr virt_addr false t).1 in
      let left = ring-temp_mapped gfx_addr virt_addr t h.size h.tail_in in
      subst
        (λ (v : ℕ).
          last_store (v + ring_bytes) (dispatch_all (offsets ++ offset ∷ []) u).log ≡ some offset)
        (ap (λ (r : Ring). r.virtual_start) left)
        (dispatch_all-overruns offsets offset u (ap (λ (r : Ring). r.size) left ∙ h.size)
          (omega (arith, ap (λ (r : Ring). r.tail) left)))
