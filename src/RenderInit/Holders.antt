-- ===== src/RenderInit/Holders.antt =====
-- `nugpgpu_ringbuffer_render_init`: who holds the hardware awake after it.
use nugpgpu.RingRegisters.{render_ring_base, ring_head_addr, ring_nr_pages, ring_valid}
use nugpgpu.Prelude.{
  ℕ, ◌+◌, ◌-◌, ◌*◌, ◌%◌, ◌^◌, ◌<◌, ◌≡◌, ◌∙◌, refl, ap, arith, bit_and, bit_or, Bool, true, false,
  nonzero,
}
use nugpgpu.Platform.{Platform, w32}
use nugpgpu.Services.{Services}
use nugpgpu.Machine.{
  State, Ring, KernelCall, Status, success, failure, enomem, einval, eio, enospc, trace_in,
}
use nugpgpu.Wait.{Waited, met, timed_out, unfinished}
use nugpgpu.Regrw.{
  gpu_read, gpu_forcewake_get, gpu_forcewake_put, masked_bit_enable, masked_bit_disable,
}
use nugpgpu.Regrw.Holds.{gpu_forcewake_get-Touches, gpu_forcewake_put-Touches}
use nugpgpu.Regrw.Power.{IsPowered, gpu_forcewake_get-IsPowered, gpu_forcewake_put-IsPowered}
use nugpgpu.Regrw.Frame.{gpu_read-rel, when-rel, trace_out-rel}
use nugpgpu.Regrw.Kept.{Kept, Kept-refl, Kept-unseen, kept}
use nugpgpu.Gtt.{page_size}
use nugpgpu.Gtt.Frame.{ask-rel, tell-rel, gtt_insert-rel}
use nugpgpu.Memmgr.Frame.{allocate_object-rel}
use nugpgpu.Ring.{set_ring}
use nugpgpu.Selftest.{table_of, cache_llc}
use nugpgpu.Selftest.Frame.{check_dword_temp-rel}
use nugpgpu.RenderInit.{
  clear_ring, retry_head, settle_ring, ring_started, start_ring, ring_pages, start_mapped,
  ring_mapped, ring_inserted, ring_allocated, status_mapped, status_inserted, status_allocated,
  nugpgpu_ringbuffer_render_init,
}
use nugpgpu.RenderInit.Steps.{write_at-Kept, retry_head-Kept, run_wait-rel, clear_ring-Kept}

-- The holders after a function that `n` entered with: EIO leaves one more.
abbrev pub holders_left : Status → ℕ → ℕ
holders_left eio n = n + 1
holders_left success n = n
holders_left failure n = n
holders_left enomem n = n
holders_left einval n = n
holders_left enospc n = n

-- The invariant of the register functions, and the holders.
abbrev pub Ends : {W : Type 0} → ℕ → Status × State W → Type 0
Ends n r = IsPowered r.1 × (r.1.forcewake_count ≡ holders_left r.0 n)

module _ {W : Type 0} ⦃p : Platform W⦄ ⦃k : Services W⦄ where
  -- From the giving up of the hardware on.
  module _ (n : ℕ) (g : State W) (v : IsPowered g) (count : g.forcewake_count ≡ n + 1)
      (small : n + 1 < 2 ^ 32) (at : g.ring.mmio_base ≡ 0x2000) where
    settle_ring-Ends :
        (base : ℕ) (q : State W) → base ≡ 0x2000 → Kept g q → Ends n (settle_ring base q)
    unfolding settle_ring
    settle_ring-Ends base q at_base h =
        let holders : q.forcewake_count ≡ n + 1 = h.count ∙ count in
        let z = (gpu_forcewake_put q).1 in
        let powered = gpu_forcewake_put-IsPowered q (omega (arith, holders)) (h.powered v) in
        let (error, put) = gpu_forcewake_put-Touches q in
        let at_z : z.ring.mmio_base ≡ 0x2000 =
          ap (λ (r : Ring). r.mmio_base) put.ring ∙ h.base ∙ at in
        let given_up : z.forcewake_count ≡ n = put.forcewake_count ∙ omega (arith, holders) in
        let d =
          write_at-Kept base 0x9c (masked_bit_enable (2 ^ 6)) at_base (omega arith) (Kept-refl z) in
        let e = write_at-Kept base 0x9c (masked_bit_enable (2 ^ 14)) at_base (omega arith) d in
        let f =
          write_at-Kept base 0x29c
            (bit_or (masked_bit_disable (2 ^ 13)) (masked_bit_enable (2 ^ 11))) at_base
            (omega arith) e in
        let i = write_at-Kept base 0xc0 (masked_bit_enable (2 ^ 7)) at_base (omega arith) f in
        let done =
          trace_out-rel kept (check_dword_temp-rel kept (omega arith) (omega arith) at_z i) in
        (done.powered powered, done.count ∙ given_up)

    ring_started-Ends : (w : Waited) (u : State W) → Kept g u → Ends n (ring_started w u)
    unfolding ring_started
    ring_started-Ends timed_out u h = (h.powered v, h.count ∙ count)
    ring_started-Ends unfinished u h = (h.powered v, h.count ∙ count)
    ring_started-Ends met u h =
        let base = u.ring.mmio_base in
        let (head, u1) = gpu_read w32 (base + 0x34) u in
        let u2 = (set_ring (record (u1.ring) { head = head }) u1).1 in
        let a = Kept-unseen u2 (gpu_read-rel kept h w32 (base + 0x34)) refl refl refl refl in
        settle_ring-Ends base _ (h.base ∙ at)
          (Kept-unseen _ (gpu_read-rel kept a w32 (base + 0x30)) refl refl refl refl)

  module _ (s : State W) (v : IsPowered s) (small : s.forcewake_count + 1 < 2 ^ 32)
      (at : s.ring.mmio_base ≡ 0x2000) where
    start_ring-Ends : (t : State W) → Kept s t → Ends s.forcewake_count (start_ring t)
    unfolding start_ring
    start_ring-Ends t h =
        let n = s.forcewake_count in
        let g = (gpu_forcewake_get t).1 in
        let touched = gpu_forcewake_get-Touches t in
        let room : t.forcewake_count + 1 < 2 ^ 32 = omega (arith, h.count) in
        let powered = gpu_forcewake_get-IsPowered t room (h.powered v) in
        let count : g.forcewake_count ≡ n + 1 = touched.forcewake_count ∙ omega (arith, h.count) in
        let at_g : g.ring.mmio_base ≡ 0x2000 =
          ap (λ (r : Ring). r.mmio_base) touched.ring ∙ h.base ∙ at in
        let u = (clear_ring t).1 in
        let a = clear_ring-Kept t at_g in
        let base = u.ring.mmio_base in
        let at_u : base ≡ 0x2000 = a.base ∙ at_g in
        let b = gpu_read-rel kept a w32 (base + 0x34) in
        let c =
          when-rel kept b (nonzero (bit_and (gpu_read w32 (base + 0x34) u).0 ring_head_addr))
            (retry_head base) (retry_head-Kept base at_u b) in
        let d = gpu_read-rel kept c w32 (base + 0x34) in
        let e = write_at-Kept base 0x38 u.ring.gva_ringbuffer at_u (omega arith) d in
        let f =
          write_at-Kept base 0x3c
            (bit_or (bit_and ((u.ring.size + 2 ^ 32 - page_size) % 2 ^ 32) ring_nr_pages)
              ring_valid)
            at_u (omega arith) e in
        ring_started-Ends n g powered count small at_g _ _
          (run_wait-rel kept base u.ring.gva_ringbuffer f)

    failed-Ends : (t : State W) → Kept s t → Ends s.forcewake_count (failure, t)
    failed-Ends t h = (h.powered v, h.count)

    start_mapped-Ends :
        (failed : Bool) (t : State W) → Kept s t → Ends s.forcewake_count (start_mapped failed t)
    unfolding start_mapped
    start_mapped-Ends true t h = failed-Ends t h
    start_mapped-Ends false t h = start_ring-Ends t h

    ring_mapped-Ends :
        (failed : Bool) (t : State W) → Kept s t → Ends s.forcewake_count (ring_mapped failed t)
    unfolding ring_mapped
    ring_mapped-Ends true t h = failed-Ends t h
    ring_mapped-Ends false t h =
        let at_start = t.gtt.mappable_base + page_size in
        start_mapped-Ends _ _ (
          Kept-unseen _
            (ask-rel kept h (k.ioremap_wc at_start t.ring.size)
              (KernelCall.ioremap_wc at_start t.ring.size))
            refl refl refl refl)

    ring_inserted-Ends :
        (failed : Bool) (t : State W) → Kept s t → Ends s.forcewake_count (ring_inserted failed t)
    unfolding ring_inserted
    ring_inserted-Ends true t h = failed-Ends t h
    ring_inserted-Ends false t h = ring_mapped-Ends _ _ (
        Kept-unseen _ (ask-rel kept h (k.kmap (table_of t.ring.ringbuf_obj)) KernelCall.kmap) refl
          refl refl refl)

    ring_allocated-Ends :
        (failed : Bool) (t : State W) → Kept s t → Ends s.forcewake_count (ring_allocated failed t)
    unfolding ring_allocated
    ring_allocated-Ends true t h = failed-Ends t h
    ring_allocated-Ends false t h = ring_inserted-Ends _ _ (
        Kept-unseen _ (gtt_insert-rel kept (omega arith) (table_of t.ring.ringbuf_obj) cache_llc h)
          refl refl refl refl)

    status_mapped-Ends :
        (failed : Bool) (t : State W) → Kept s t → Ends s.forcewake_count (status_mapped failed t)
    unfolding status_mapped
    status_mapped-Ends true t h = failed-Ends t h
    status_mapped-Ends false t h =
        let page = t.ring.page_status in
        let cleared = tell-rel kept h (k.memset_page page) (KernelCall.memset_page page) in
        ring_allocated-Ends _ _ (
          Kept-unseen _ (allocate_object-rel kept t.ring.ringbuf_obj ring_pages cleared) refl refl
            refl refl)

    status_inserted-Ends :
        (failed : Bool) (t : State W) → Kept s t → Ends s.forcewake_count (status_inserted failed t)
    unfolding status_inserted
    status_inserted-Ends true t h = failed-Ends t h
    status_inserted-Ends false t h = status_mapped-Ends _ _ (
        Kept-unseen _ (ask-rel kept h (k.kmap (table_of t.ring.status_obj)) KernelCall.kmap) refl
          refl refl refl)

    status_allocated-Ends :
        (failed : Bool) (t : State W)
        → Kept s t
        → Ends s.forcewake_count (status_allocated failed t)
    unfolding status_allocated
    status_allocated-Ends true t h = failed-Ends t h
    status_allocated-Ends false t h = status_inserted-Ends _ _ (
        Kept-unseen _ (gtt_insert-rel kept (omega arith) (table_of t.ring.status_obj) cache_llc h)
          refl refl refl refl)

  -- Let the hardware be awake exactly while the count of its holders is above zero, the lock be free
  -- and the count have room for one more. Then after `nugpgpu_ringbuffer_render_init` the hardware is
  -- again awake exactly while the count is above zero, and the lock free; the count is as it was, but
  -- if EIO is returned it is one higher.
  pub render_init-holders :
      (s : State W)
      → IsPowered s
      → s.forcewake_count + 1 < 2 ^ 32
      → let (ret, t) = nugpgpu_ringbuffer_render_init s in
        IsPowered t × (t.forcewake_count ≡ holders_left ret s.forcewake_count)
  unfolding nugpgpu_ringbuffer_render_init
  render_init-holders s v small =
      let t = (trace_in s).1 in
      let u =
        (set_ring (record (t.ring) { mmio_base = render_ring_base; size = page_size * ring_pages })
          t).1 in
      let at_u : IsPowered u = record {
        counted = v.counted;
        unlocked = v.unlocked;
        small = v.small;
      } in
      status_allocated-Ends u at_u small refl _ _ (
        Kept-unseen _ (allocate_object-rel kept u.ring.status_obj 1 (Kept-refl u)) refl refl refl
          refl)
