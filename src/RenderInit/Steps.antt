-- ===== src/RenderInit/Steps.antt =====
-- The stages of the ring's start as steps that keep a `Frame`, and as steps of a driver that holds the
-- hardware.
use nugpgpu.RingRegisters.{render_hws_pga_gen7}
use nugpgpu.Prelude.{ℕ, ◌+◌, ◌<◌, ◌≡◌, arith, Bool, true, false}
use nugpgpu.Platform.{Platform, w32}
use nugpgpu.Machine.{State}
use nugpgpu.Wait.{wait_for}
use nugpgpu.Regrw.{nugpgpu_write, gpu_forcewake_get}
use nugpgpu.Regrw.Frame.{Frame, gpu_read-rel, gpu_write-rel, wait_until-rel, when-rel}
use nugpgpu.Regrw.Kept.{Kept, Kept-refl, kept}
use nugpgpu.Ring.Frame.{flushtlb-rel}
use nugpgpu.RenderInit.{
  clear_ring, report_head, retry_head, head_is_zero, start_is_set, ctl_is_valid, ring_is_running,
}

module _ {W : Type 0} ⦃p : Platform W⦄ (f : Frame W) {s : State W} where
  pub report_head-rel : (base : ℕ) {t : State W} → f.rel s t → f.rel s (report_head base t).1
  unfolding report_head
  report_head-rel base h =
      let a = gpu_read-rel f (gpu_read-rel f h w32 (base + 0x3c)) w32 (base + 0x34) in
      gpu_read-rel f (gpu_read-rel f a w32 (base + 0x30)) w32 (base + 0x38)

  head_is_zero-rel : (base : ℕ) {t : State W} → f.rel s t → f.rel s (head_is_zero base t).1
  unfolding head_is_zero
  head_is_zero-rel base h = gpu_read-rel f h w32 (base + 0x34)

  start_is_set-rel :
      (base gva : ℕ) (b : Bool) {t : State W} → f.rel s t → f.rel s (start_is_set base gva b t).1
  unfolding start_is_set
  start_is_set-rel base gva true h = head_is_zero-rel base h
  start_is_set-rel base gva false h = h

  ctl_is_valid-rel :
      (base gva : ℕ) (b : Bool) {t : State W} → f.rel s t → f.rel s (ctl_is_valid base gva b t).1
  unfolding ctl_is_valid
  ctl_is_valid-rel base gva true h =
      start_is_set-rel base gva _ (gpu_read-rel f h w32 (base + 0x38))
  ctl_is_valid-rel base gva false h = h

  ring_is_running-rel :
      (base gva : ℕ) {t : State W} → f.rel s t → f.rel s (ring_is_running base gva t).1
  unfolding ring_is_running
  ring_is_running-rel base gva h = ctl_is_valid-rel base gva _ (gpu_read-rel f h w32 (base + 0x3c))

module _ {W : Type 0} ⦃p : Platform W⦄ (f : Frame W) {s : State W} where
  pub run_wait-rel :
      (base gva : ℕ) {t : State W}
      → f.rel s t
      → f.rel s (wait_for (ring_is_running base gva) 50 t).1
  unfolding wait_for
  run_wait-rel base gva h =
      wait_until-rel f h (ring_is_running base gva)
        (λ u. ring_is_running-rel f base gva (f.rel_refl u)) 50 1

module _ {W : Type 0} ⦃p : Platform W⦄ {s : State W} where
  pub write_at-Kept :
      (base offset val : ℕ) {t : State W}
      → base ≡ 0x2000
      → offset < 0x8000
      → Kept s t
      → Kept s (nugpgpu_write (base + offset) val t).1
  write_at-Kept base offset val at near h =
      gpu_write-rel kept h w32 (base + offset) val (omega arith)

  pub retry_head-Kept :
      (base : ℕ) {t : State W} → base ≡ 0x2000 → Kept s t → Kept s (retry_head base t).1
  unfolding retry_head
  retry_head-Kept base at h =
      let a = gpu_read-rel kept (write_at-Kept base 0x34 0 at (omega arith) h) w32 (base + 0x34) in
      when-rel kept a _ (report_head base) (report_head-rel kept base a)

module _ {W : Type 0} ⦃p : Platform W⦄ (t : State W) where
  -- After the taking of the hardware, with which it begins.
  pub clear_ring-Kept :
      (gpu_forcewake_get t).1.ring.mmio_base ≡ 0x2000
      → Kept (gpu_forcewake_get t).1 (clear_ring t).1
  unfolding clear_ring
  clear_ring-Kept at =
      let g = (gpu_forcewake_get t).1 in
      let base = g.ring.mmio_base in
      let a =
        gpu_write-rel kept (Kept-refl g) w32 render_hws_pga_gen7 g.ring.gva_status (omega arith) in
      let b = flushtlb-rel kept (omega arith) at (gpu_read-rel kept a w32 render_hws_pga_gen7) in
      let c = write_at-Kept base 0x3c 0 at (omega arith) b in
      let d = write_at-Kept base 0x34 0 at (omega arith) c in
      write_at-Kept base 0x30 0 at (omega arith) d
