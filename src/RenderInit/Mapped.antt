-- ===== src/RenderInit/Mapped.antt =====
-- What the GPU finds in the page table when nugpgpu_ringbuffer_render_init starts the ring.
use mathlib.Core.Path.{subst}
use nugpgpu.RingRegisters.{render_ring_base}
use nugpgpu.Prelude.{ℕ, ◌+◌, ◌*◌, ◌^◌, ◌<◌, ◌≡◌, ◌⊎◌, inl, inr, sym, ap, arith, [], ◌∷◌, length}
use nugpgpu.Platform.{Platform}
use nugpgpu.Services.{Services, SgTable}
use nugpgpu.Machine.{State, GpuGtt, failure, trace_in}
use nugpgpu.Wait.{Waited}
use nugpgpu.Gtt.{page_size}
use nugpgpu.Gtt.Sequence.{IsMapped, AllMapped}
use nugpgpu.Memmgr.Fields.{SameFields, allocate_object-SameFields}
use nugpgpu.Ring.{set_ring}
use nugpgpu.Selftest.{table_of}
use nugpgpu.RenderInit.Storeless.{start_ring-SameFields}
use nugpgpu.RenderInit.{ring_pages, start_ring, ring_started, nugpgpu_ringbuffer_render_init}
use nugpgpu.RenderInit.Entered.{
  pages_of, object_pages, object_pages-allocated, IsCounted, status_allocated-Starts,
}

module _ {W : Type 0} ⦃p : Platform W⦄ ⦃k : Services W⦄ where
  -- Let frame numbers fit an `unsigned long`, the driver be told, of a table whose `nents` is the
  -- number of its entries, the physical addresses of all its pages as their DMA addresses, and the
  -- cursor of the page table have room for 33 pages and one more. Then
  -- `nugpgpu_ringbuffer_render_init` either returns 1, or comes to start the ring in a state in which
  -- the object of the status page has one page and that of the ring 32, the status page is entered
  -- at the cursor and the ring right after it, and the GPU finds every byte of these 33 pages, of
  -- which each is below 2 ^ 39, at its graphics address, in their order. At the end of the last wait,
  -- after the ring has been enabled, the driver's records of the page table and of the ring, the
  -- cursor, and the value last stored at every address are the same still, so the GPU finds the pages
  -- there then too.
  pub render_init-mapped :
      (s : State W)
      → ((page : ℕ) → k.page_to_pfn page + 1 < 2 ^ 64)
      → ((st : SgTable) (w : W) → IsCounted st → k.sg_page_dma_addresses st w ≡ pages_of st)
      → s.gtt_entry + 33 < 2 ^ 20
      → ((nugpgpu_ringbuffer_render_init s).0 ≡ failure)
        ⊎ ((u : State W) × (nugpgpu_ringbuffer_render_init s ≡ start_ring u)
            × ((w : Waited) × (v : State W) × (start_ring u ≡ ring_started w v) × SameFields u v)
            × (u.ring.gva_status ≡ s.gtt_entry * page_size)
            × (u.ring.gva_ringbuffer ≡ (s.gtt_entry + 1) * page_size)
            × (length (object_pages u.ring.status_obj) ≡ 1)
            × (length (object_pages u.ring.ringbuf_obj) ≡ ring_pages)
            × AllMapped pages_of s.gtt.gsm u.log s.gtt_entry
                (table_of u.ring.status_obj ∷ table_of u.ring.ringbuf_obj ∷ []))
  unfolding nugpgpu_ringbuffer_render_init
  render_init-mapped s fits direct room =
      let u =
        (set_ring (record (s.ring) { mmio_base = render_ring_base; size = page_size * ring_pages })
          (trace_in s).1).1 in
      let (same, next, ring, stored) = allocate_object-SameFields u.ring.status_obj 1 u in
      elim (status_allocated-Starts fits direct s.gtt.gsm s.gtt_entry room _ _
        (ap (λ (g : GpuGtt). g.gsm) same) next
        (object_pages-allocated fits u.ring.status_obj 1 u (omega arith))) [
          | inl failed ↦ inl failed
          | inr (t, begins, (table, at, one, found), (ring_at, many, ring_found)) ↦ inr (
            t,
            begins,
            start_ring-SameFields t,
            at,
            ring_at,
            one,
            many,
            (
              found,
              (
                subst
                    (λ (n : ℕ).
                      IsMapped pages_of s.gtt.gsm t.log (s.gtt_entry + n)
                        (table_of t.ring.ringbuf_obj))
                    (sym one) ring_found,
                tt,
              ),
            ),
          )
        ]
