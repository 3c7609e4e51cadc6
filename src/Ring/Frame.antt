-- ===== src/Ring/Frame.antt =====
-- The ring's functions as steps of a driver that holds the hardware, on the render ring, whose
-- registers are at 0x2000.
use mathlib.Core.Path.{subst}
use nugpgpu.RingRegisters.{instpm_sync_flush, instpm_tlb_invalidate, ring_instpm_reg, ring_tail_reg}
use nugpgpu.Prelude.{sym, ℕ, ◌+◌, ◌-◌, ◌%◌, ◌^◌, ◌≡◌, ◌∙◌, refl, bit_and, bit_or, ◌==◌}
use nugpgpu.Platform.{Platform, w32}
use nugpgpu.Machine.{State, ◌>>=◌, pure}
use nugpgpu.Wait.{wait_for}
use nugpgpu.Regrw.{nugpgpu_read, masked_bit_enable}
use nugpgpu.Regrw.Frame.{Frame, gpu_read-rel, gpu_write-rel, wait_until-rel}
use nugpgpu.Ring.{set_ring, nugpgpu_ring_begin, ring_emit, nugpgpu_ring_advance, flushtlb}

module _ {W : Type 0} ⦃p : Platform W⦄ (f : Frame W) {s : State W} where
  pub ring_begin-rel : (n : ℕ) {t : State W} → f.rel s t → f.rel s (nugpgpu_ring_begin n t).1
  unfolding nugpgpu_ring_begin
  ring_begin-rel n {t} h = f.unseen (nugpgpu_ring_begin n t).1 h refl refl refl refl

  pub ring_emit-rel : (word : ℕ) {t : State W} → f.rel s t → f.rel s (ring_emit word t).1
  unfolding ring_emit
  ring_emit-rel word {t} h = f.unseen (ring_emit word t).1 h refl refl refl refl

  pub ring_advance-rel :
      {t : State W}
      → f.allowed (ring_tail_reg 0x2000)
      → s.ring.mmio_base ≡ 0x2000
      → f.rel s t
      → f.rel s (nugpgpu_ring_advance t).1
  unfolding nugpgpu_ring_advance
  ring_advance-rel {t} ok at h =
      let tail = bit_and t.ring.tail ((t.ring.size + 2 ^ 32 - 1) % 2 ^ 32) in
      let moved = f.unseen (set_ring (record (t.ring) { tail = tail }) t).1 h refl refl refl refl in
      let here : t.ring.mmio_base ≡ 0x2000 = f.based h ∙ at in
      gpu_write-rel f moved w32 (ring_tail_reg t.ring.mmio_base) tail
        (subst (λ b. f.allowed (ring_tail_reg b)) (sym here) ok)

  pub flushtlb-rel :
      {t : State W}
      → f.allowed (ring_instpm_reg 0x2000)
      → s.ring.mmio_base ≡ 0x2000
      → f.rel s t
      → f.rel s (flushtlb t).1
  unfolding flushtlb wait_for
  flushtlb-rel {t} ok at h =
      let here : t.ring.mmio_base ≡ 0x2000 = f.based h ∙ at in
      let asked =
        gpu_write-rel f h w32 (ring_instpm_reg t.ring.mmio_base)
          (masked_bit_enable (bit_or instpm_tlb_invalidate instpm_sync_flush))
          (subst (λ b. f.allowed (ring_instpm_reg b)) (sym here) ok) in
      wait_until-rel f asked
        (do
          v ← nugpgpu_read (ring_instpm_reg t.ring.mmio_base)
          pure (bit_and v instpm_sync_flush == 0))
        (λ u. gpu_read-rel f (f.rel_refl u) w32 (ring_instpm_reg t.ring.mmio_base)) 1000 1
