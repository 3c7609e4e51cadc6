-- ===== src/RenderInit/Window.antt =====
-- Where nugpgpu_ringbuffer_render_init puts the ring in the graphics address space, and where it maps
-- it for the processor.
use mathlib.Core.Path.{subst}
use nugpgpu.RingRegisters.{render_ring_base}
use nugpgpu.Prelude.{
  ℕ, ◌+◌, ◌*◌, ◌^◌, ◌<◌, ◌≡◌, ◌⊎◌, inl, inr, ◌∙◌, refl, sym, ap, arith, Bool, true, false, length,
}
use nugpgpu.Platform.{Platform}
use nugpgpu.Services.{Services}
use nugpgpu.Machine.{State, Ring, GpuGtt, KernelCall, Status, failure, trace_in}
use nugpgpu.Regrw.Frame.{Place, place}
use nugpgpu.Gtt.{page_size, tell}
use nugpgpu.Gtt.Insert.{gtt_insert-keeps}
use nugpgpu.Gtt.Fields.{gtt_insert-fields}
use nugpgpu.Memmgr.{allocate_object}
use nugpgpu.Memmgr.Fields.{allocate_object-SameFields}
use nugpgpu.Ring.{set_ring}
use nugpgpu.Selftest.{table_of, cache_llc}
use nugpgpu.RenderInit.{
  ring_pages, start_mapped, ring_mapped, ring_inserted, ring_allocated, status_mapped,
  status_inserted, status_allocated, nugpgpu_ringbuffer_render_init,
}
use nugpgpu.RenderInit.Order.{start_ring-placed}

module _ (W : Type 0) ⦃p : Platform W⦄ ⦃k : Services W⦄ (e base : ℕ) where
  -- The status page is the entry `e`, the ring begins with the next, and the processor's window on
  -- the ring is one page above the base of the aperture.
  abbrev IsWindowed : Place → Type 0
  IsWindowed x =
      (x.gva_status ≡ e * page_size)
      × (x.gva_ringbuffer ≡ (e + 1) * page_size)
      × (w : W) × (x.virtual_start ≡ (k.ioremap_wc (base + page_size) (page_size * ring_pages) w).0)

  abbrev Ends : Status × State W → Type 0
  Ends r = (r.0 ≡ failure) ⊎ IsWindowed (place r.1.ring)

  -- The state on the way: the cursor is counted only while it is still used.
  record Underway (t : State W) : Type 0 where
    at : t.ring.mmio_base ≡ 0x2000
    size : t.ring.size ≡ page_size * ring_pages
    aperture : t.gtt.mappable_base ≡ base

  start_mapped-Ends :
      (failed : Bool) (t : State W)
      → t.ring.mmio_base ≡ 0x2000
      → IsWindowed (place t.ring)
      → Ends (start_mapped failed t)
  unfolding start_mapped
  start_mapped-Ends true t at h = inl refl
  start_mapped-Ends false t at h = inr (subst IsWindowed (sym (start_ring-placed t at)) h)

  ring_mapped-Ends :
      (failed : Bool) (t : State W)
      → Underway t
      → t.ring.gva_status ≡ e * page_size
      → t.ring.gva_ringbuffer ≡ (e + 1) * page_size
      → Ends (ring_mapped failed t)
  unfolding ring_mapped
  ring_mapped-Ends true t h status ring = inl refl
  ring_mapped-Ends false t h status ring = start_mapped-Ends _ _ h.at (
    status,
    ring,
    t.world,
    ap (λ (b : ℕ). (k.ioremap_wc (b + page_size) t.ring.size t.world).0) h.aperture
        ∙ ap (λ (n : ℕ). (k.ioremap_wc (base + page_size) n t.world).0) h.size,
  )

  ring_inserted-Ends :
      (failed : Bool) (t : State W)
      → Underway t
      → t.ring.gva_status ≡ e * page_size
      → t.ring.gva_ringbuffer ≡ (e + 1) * page_size
      → Ends (ring_inserted failed t)
  unfolding ring_inserted
  ring_inserted-Ends true t h status ring = inl refl
  ring_inserted-Ends false t h status ring =
      ring_mapped-Ends _ _ (record { at = h.at; size = h.size; aperture = h.aperture }) status ring

  ring_allocated-Ends :
      (failed : Bool) (t : State W)
      → Underway t
      → t.ring.gva_status ≡ e * page_size
      → t.gtt_entry ≡ e + 1
      → e + 1 < 2 ^ 20
      → Ends (ring_allocated failed t)
  unfolding ring_allocated
  ring_allocated-Ends true t h status cursor room = inl refl
  ring_allocated-Ends false t h status cursor room =
      let (va, same, ring) = gtt_insert-fields (table_of t.ring.ringbuf_obj) cache_llc t in
      ring_inserted-Ends _ _
        (record {
          at = ap (λ (r : Ring). r.mmio_base) ring ∙ h.at;
          size = ap (λ (r : Ring). r.size) ring ∙ h.size;
          aperture = ap (λ (g : GpuGtt). g.mappable_base) same ∙ h.aperture;
        })
        (ap (λ (r : Ring). r.gva_status) ring ∙ status) (va ∙ omega (arith, cursor))

  status_mapped-Ends :
      (failed : Bool) (t : State W)
      → Underway t
      → t.ring.gva_status ≡ e * page_size
      → t.gtt_entry ≡ e + 1
      → e + 1 < 2 ^ 20
      → Ends (status_mapped failed t)
  unfolding status_mapped
  status_mapped-Ends true t h status cursor room = inl refl
  status_mapped-Ends false t h status cursor room =
      let u =
        (tell (k.memset_page t.ring.page_status) (KernelCall.memset_page t.ring.page_status) t).1 in
      let (same, next, ring, _) = allocate_object-SameFields t.ring.ringbuf_obj ring_pages u in
      ring_allocated-Ends _ _
        (record {
          at = ap (λ (r : Ring). r.mmio_base) ring ∙ h.at;
          size = ap (λ (r : Ring). r.size) ring ∙ h.size;
          aperture = ap (λ (g : GpuGtt). g.mappable_base) same ∙ h.aperture;
        })
        (ap (λ (r : Ring). r.gva_status) ring ∙ status) (next ∙ cursor) room

  status_inserted-Ends :
      (failed : Bool) (t : State W)
      → Underway t
      → t.ring.gva_status ≡ e * page_size
      → t.gtt_entry ≡ e + 1
      → e + 1 < 2 ^ 20
      → Ends (status_inserted failed t)
  unfolding status_inserted
  status_inserted-Ends true t h status cursor room = inl refl
  status_inserted-Ends false t h status cursor room =
      status_mapped-Ends _ _ (record { at = h.at; size = h.size; aperture = h.aperture }) status
        cursor room

  status_allocated-Ends :
      (failed : Bool) (t : State W)
      → Underway t
      → t.gtt_entry ≡ e
      → length (k.sg_page_dma_addresses (table_of t.ring.status_obj) t.world) ≡ 1
      → e + 1 < 2 ^ 20
      → Ends (status_allocated failed t)
  unfolding status_allocated
  status_allocated-Ends true t h cursor one room = inl refl
  status_allocated-Ends false t h cursor one room =
      let st = table_of t.ring.status_obj in
      let (va, same, ring) = gtt_insert-fields st cache_llc t in
      let (_, next, _) =
        gtt_insert-keeps st cache_llc t (omega (arith, cursor)) (omega (arith, cursor, one))
          (2 ^ 20) (inr (omega (arith, cursor, one))) in
      status_inserted-Ends _ _
        (record {
          at = ap (λ (r : Ring). r.mmio_base) ring ∙ h.at;
          size = ap (λ (r : Ring). r.size) ring ∙ h.size;
          aperture = ap (λ (g : GpuGtt). g.mappable_base) same ∙ h.aperture;
        })
        (va ∙ omega (arith, cursor)) (next ∙ omega (arith, cursor, one)) room

module _ {W : Type 0} ⦃p : Platform W⦄ ⦃k : Services W⦄ where
  -- Let the cursor of the page table have room for one more entry, and the table of the status object
  -- have one page after the object's allocation. Then `nugpgpu_ringbuffer_render_init` either returns 1, or enters the
  -- status page at the cursor and the ring right after it, and maps the ring for the processor one
  -- page above the base of the aperture, wherever the cursor was.
  pub render_init-window :
      (s : State W)
      → s.gtt_entry + 1 < 2 ^ 20
      → let u =
          (set_ring
            (record (s.ring) { mmio_base = render_ring_base; size = page_size * ring_pages })
            (trace_in s).1).1 in
        let ((err, obj), v) = allocate_object u.ring.status_obj 1 u in
        length (k.sg_page_dma_addresses (table_of obj) v.world) ≡ 1
        → let (ret, t) = nugpgpu_ringbuffer_render_init s in
          (ret ≡ failure)
          ⊎ ((t.ring.gva_status ≡ s.gtt_entry * page_size)
              × (t.ring.gva_ringbuffer ≡ (s.gtt_entry + 1) * page_size)
              × (w : W) × (t.ring.virtual_start
                  ≡ (k.ioremap_wc (s.gtt.mappable_base + page_size) (page_size * ring_pages) w).0))
  unfolding nugpgpu_ringbuffer_render_init
  render_init-window s room one =
      let u =
        (set_ring (record (s.ring) { mmio_base = render_ring_base; size = page_size * ring_pages })
          (trace_in s).1).1 in
      let (same, next, ring, _) = allocate_object-SameFields u.ring.status_obj 1 u in
      status_allocated-Ends W s.gtt_entry s.gtt.mappable_base _ _
        (record {
          at = ap (λ (r : Ring). r.mmio_base) ring;
          size = ap (λ (r : Ring). r.size) ring;
          aperture = ap (λ (g : GpuGtt). g.mappable_base) same;
        })
        next one room
