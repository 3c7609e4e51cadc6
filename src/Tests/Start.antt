-- ===== src/Tests/Start.antt =====
-- The theorems on the start of the ring and on the self-test, on a machine at rest.
use nugpgpu.RingRegisters.{render_ring_base}
use nugpgpu.Prelude.{
  ◌+◌, ◌-◌, ◌^◌, ◌≡◌, ◌≢◌, ◌∙◌, refl, ap, arith, false, [], ◌∷◌, ◌++◌, some, length, ◌*◌, ℕ, Bool,
  List, ◌⊎◌, if◌then◌else◌,
}
use nugpgpu.Machine.{State, success, failure, trace_in}
use nugpgpu.Gtt.{page_size}
use nugpgpu.Memmgr.{
  allocate_object, alloc_table, fill_table, pages_loop, add_page, map_object, map_result,
}
use nugpgpu.Ring.{set_ring, nugpgpu_ring_render_stop, flushtlb}
use nugpgpu.Gtt.Sequence.{AllMapped}
use nugpgpu.RenderInit.Entered.{pages_of, object_pages}
use nugpgpu.RenderInit.Mapped.{render_init-mapped}
use nugpgpu.Memmgr.Fields.{SameFields}
use nugpgpu.RenderInit.Window.{render_init-window}
use nugpgpu.RenderInit.Controls.{control_writes}
use nugpgpu.RenderInit.Grown.{AllOf}
use nugpgpu.RenderInit.Wrote.{ctl, head, tail, start}
use nugpgpu.RenderInit.Order.{ctl_value, IsTail, start_ring-controls}
use nugpgpu.Gtt.Table.{last_store}
use nugpgpu.Ring.Batches.{dispatch_all}
use nugpgpu.Regrw.Power.{IsPowered}
use nugpgpu.Ring.Commands.{IsReady, ring_bytes}
use nugpgpu.Selftest.{temp_mapped, table_of}
use nugpgpu.Selftest.Tail.{temp_mapped-overruns}
use nugpgpu.Regrw.{bits_set, bits_clear}
use nugpgpu.Wait.{wait_for, wait_for_atomic, wait_for_atomic_us, unfinished, Waited}
use nugpgpu.RenderInit.{
  nugpgpu_ringbuffer_render_init, ring_is_running, start_ring, ring_pages, ring_started,
}
use nugpgpu.RenderInit.Waits.{waits-finish}
use nugpgpu.RenderInit.Holders.{holders_left, render_init-holders}
use nugpgpu.Tests.{
  World, machine, machine-ClockRuns, dma_addresses, take, take-length, kernel, idle, a_ring,
}

start-IsPowered : IsPowered idle
start-IsPowered = record { counted = refl; unlocked = refl; small = omega arith }

start-IsReady : IsReady a_ring
start-IsReady = record { size = refl; tail_in = omega arith; tail_aligned = refl }

render_init-holders_example :
    let (ret, t) = nugpgpu_ringbuffer_render_init idle in
    IsPowered t × (t.forcewake_count ≡ holders_left ret 0)
render_init-holders_example = render_init-holders idle start-IsPowered (omega arith)

waits-finish_example :
    ((wait_for_atomic (bits_clear 0x130044 1) 2 idle).0 ≢ unfinished)
    × ((wait_for_atomic (bits_set 0x130044 1) 2 idle).0 ≢ unfinished)
    × ((wait_for_atomic_us (bits_clear 0x130044 1) 2 idle).0 ≢ unfinished)
    × ((nugpgpu_ring_render_stop idle).0 ≢ unfinished)
    × ((flushtlb idle).0 ≢ unfinished)
    × ((wait_for (ring_is_running 0x2000 4096) 50 idle).0 ≢ unfinished)
waits-finish_example = waits-finish machine-ClockRuns 0x130044 1 2 0x2000 4096 idle

-- The tail is 56 bytes before the end, and three batches follow the test: the third does not fit.
abbrev near_end : State World
near_end = record idle { ring = record a_ring { tail = 2 ^ 17 - 56 } }

temp_mapped-overruns_example :
    let u = (temp_mapped 0x5000 77 false near_end).1 in
    last_store
      (a_ring.virtual_start + ring_bytes)
      (dispatch_all ((0x3000 ∷ 0x4000 ∷ []) ++ 0x6000 ∷ []) u).log
    ≡ some 0x6000
temp_mapped-overruns_example =
    temp_mapped-overruns 0x5000 77 (0x3000 ∷ 0x4000 ∷ []) 0x6000 near_end
      (record { size = refl; tail_in = omega arith; tail_aligned = omega arith }) (omega arith)

start_ring-controls_example :
    let (ret, t) = start_ring idle in
    (again : Bool) × (tails : List (ℕ × ℕ)) × (control_writes (2 ^ 36) t.log
      ≡ tails
        ++ ((ctl, ctl_value (2 ^ 17))
            ∷ (start, a_ring.gva_ringbuffer)
            ∷ ((if again then (head, 0) ∷ [] else []) ++ ((tail, 0) ∷ (head, 0) ∷ (ctl, 0) ∷ []))))
    × AllOf IsTail tails
    × ((ret ≡ success) ⊎ (tails ≡ []))
start_ring-controls_example = start_ring-controls idle refl

-- The state in which the status page is allocated.
abbrev sized : State World
sized =
    (set_ring (record a_ring { mmio_base = render_ring_base; size = page_size * ring_pages })
      (trace_in idle).1).1

sized-one_page :
    let ((err, obj), v) = allocate_object a_ring.status_obj 1 sized in
    length (kernel.sg_page_dma_addresses (table_of obj) v.world) ≡ 1
unfolding allocate_object alloc_table fill_table pages_loop add_page map_object map_result
sized-one_page = refl

render_init-window_example :
    let (ret, t) = nugpgpu_ringbuffer_render_init idle in
    (ret ≡ failure)
    ⊎ ((t.ring.gva_status ≡ 1 * page_size)
        × (t.ring.gva_ringbuffer ≡ (1 + 1) * page_size)
        × (w : World) × (t.ring.virtual_start
            ≡ (kernel.ioremap_wc
                (idle.gtt.mappable_base + page_size)
                (page_size * ring_pages)
                w).0))
render_init-window_example = render_init-window idle (omega arith) sized-one_page

render_init-mapped_example :
    ((nugpgpu_ringbuffer_render_init idle).0 ≡ failure)
    ⊎ ((u : State World) × (nugpgpu_ringbuffer_render_init idle ≡ start_ring u)
        × ((w : Waited) × (v : State World) × (start_ring u ≡ ring_started w v) × SameFields u v)
        × (u.ring.gva_status ≡ 1 * page_size)
        × (u.ring.gva_ringbuffer ≡ (1 + 1) * page_size)
        × (length (object_pages u.ring.status_obj) ≡ 1)
        × (length (object_pages u.ring.ringbuf_obj) ≡ ring_pages)
        × AllMapped pages_of
            (2 ^ 37)
            u.log
            1
            (table_of u.ring.status_obj ∷ table_of u.ring.ringbuf_obj ∷ []))
render_init-mapped_example =
    render_init-mapped idle (λ page. omega arith)
      (λ st w counted.
        ap (λ n. dma_addresses (take n st.sgl)) counted ∙ ap dma_addresses (take-length st.sgl))
      (omega arith)
