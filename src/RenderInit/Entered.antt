-- ===== src/RenderInit/Entered.antt =====
-- The stages of nugpgpu_ringbuffer_render_init up to the start of the ring, with what each leaves for
-- the GPU to find.
use mathlib.Core.Path.{subst}
use nugpgpu.Prelude.{
  ℕ, ◌+◌, ◌*◌, ◌^◌, ◌<◌, ◌≤◌, ◌≡◌, ◌⊎◌, inl, inr, ◌∙◌, refl, sym, ap, arith, Bool, true, false,
  List, length, length-reverse, Option,
}
use nugpgpu.Platform.{Platform}
use nugpgpu.Services.{Services, SgTable}
use nugpgpu.Machine.{State, Ring, GpuGtt, Obj, KernelCall, Status, success, failure}
use nugpgpu.Gtt.{page_size, tell, is_error, nugpgpu_gtt_insert}
use nugpgpu.Gtt.Fields.{gtt_insert-fields}
use nugpgpu.Gtt.Table.{entry_at}
use nugpgpu.Gtt.Sequence.{IsMapped, IsMapped-entries, inserted}
use nugpgpu.Memmgr.{allocate_object}
use nugpgpu.Memmgr.Fields.{allocate_object-SameFields}
use nugpgpu.Memmgr.Object.{allocate_object-IsAllocated}
use nugpgpu.Memmgr.Pages.{frames_of}
use nugpgpu.Memmgr.Visible.{addresses_of, length-addresses_of}
use nugpgpu.Selftest.{table_of, cache_llc}
use nugpgpu.RenderInit.{
  ring_pages, start_ring, start_mapped, ring_mapped, ring_inserted, ring_allocated, status_mapped,
  status_inserted, status_allocated,
}

-- The physical addresses of the pages of a table, and of an object's.
abbrev pub pages_of : SgTable → List ℕ
pages_of st = addresses_of (frames_of st.sgl)

abbrev pub object_pages : Obj → List ℕ
object_pages obj = pages_of (table_of obj)

-- An object of `num` pages, of whose table all entries that are set are counted in `nents`.
abbrev pub IsCounted : SgTable → Type 0
IsCounted st = st.nents ≡ length st.sgl

abbrev pub HasPages : ℕ → Obj → Type 0
HasPages num obj = (length (object_pages obj) ≡ num) × IsCounted (table_of obj)

is_error_lem : (ret : Status) → is_error ret ≡ false → ret ≡ success
is_error_lem ret e = ground arith

module _ {W : Type 0} ⦃p : Platform W⦄ ⦃k : Services W⦄
    (fits : (page : ℕ) → k.page_to_pfn page + 1 < 2 ^ 64) where
  pub object_pages-allocated :
      (obj : Obj) (num : ℕ) (s : State W)
      → num * page_size < 2 ^ 32
      → is_error (allocate_object obj num s).0.0 ≡ false
      → HasPages num (allocate_object obj num s).0.1
  object_pages-allocated obj num s small done =
      let (st, listed, (ps, taken, all, frames), runs, counted, few) =
        allocate_object-IsAllocated obj num s fits small (is_error_lem _ done) in
      subst (λ (o : Option SgTable). HasPages num (record { pg_list = o })) (sym listed)
        (
          length-addresses_of (frames_of st.sgl) ∙ ap length frames ∙ length-reverse ps ∙ all,
          counted,
        )

  module _
      (direct : (st : SgTable) (w : W) → IsCounted st → k.sg_page_dma_addresses st w ≡ pages_of st)
      (gsm e : ℕ) (room : e + 33 < 2 ^ 20) where
    -- The status page is entered, in the entry `e`.
    abbrev pub StatusIn : State W → Type 0
    StatusIn t =
        (t.gtt.gsm ≡ gsm)
        × (t.ring.gva_status ≡ e * page_size)
        × (length (object_pages t.ring.status_obj) ≡ 1)
        × IsMapped pages_of gsm t.log e (table_of t.ring.status_obj)

    -- So is the ring, in the 32 entries after it.
    abbrev pub RingIn : State W → Type 0
    RingIn t =
        (t.ring.gva_ringbuffer ≡ (e + 1) * page_size)
        × (length (object_pages t.ring.ringbuf_obj) ≡ ring_pages)
        × IsMapped pages_of gsm t.log (e + 1) (table_of t.ring.ringbuf_obj)

    abbrev pub Starts : Status × State W → Type 0
    Starts r = (r.0 ≡ failure) ⊎ ((u : State W) × (r ≡ start_ring u) × StatusIn u × RingIn u)

    start_mapped-Starts :
        (failed : Bool) (t : State W) → StatusIn t → RingIn t → Starts (start_mapped failed t)
    unfolding start_mapped
    start_mapped-Starts true t h g = inl refl
    start_mapped-Starts false t h g = inr (t, refl, h, g)

    ring_mapped-Starts :
        (failed : Bool) (t : State W) → StatusIn t → RingIn t → Starts (ring_mapped failed t)
    unfolding ring_mapped
    ring_mapped-Starts true t h g = inl refl
    ring_mapped-Starts false t h g = start_mapped-Starts _ _ h g

    ring_inserted-Starts :
        (failed : Bool) (t : State W) → StatusIn t → RingIn t → Starts (ring_inserted failed t)
    unfolding ring_inserted
    ring_inserted-Starts true t h g = inl refl
    ring_inserted-Starts false t h g = ring_mapped-Starts _ _ h g

    -- A table that was entered is found as well after a step that leaves its entries alone.
    IsMapped-kept :
        (first bound : ℕ) (t u : State W) (st st' : SgTable)
        → st' ≡ st
        → first + length (pages_of st) ≤ bound
        → ((index : ℕ) → index < bound → entry_at gsm index u.log ≡ entry_at gsm index t.log)
        → IsMapped pages_of gsm t.log first st
        → IsMapped pages_of gsm u.log first st'
    IsMapped-kept first bound t u st st' same few keeps h =
        subst (IsMapped pages_of gsm u.log first) (sym same) (
          IsMapped-entries pages_of gsm first t.log u.log st
            (λ index low. keeps index (omega arith)) h)

    ring_allocated-Starts :
        (failed : Bool) (t : State W)
        → t.gtt_entry ≡ e + 1
        → StatusIn t
        → (failed ≡ false → HasPages ring_pages t.ring.ringbuf_obj)
        → Starts (ring_allocated failed t)
    unfolding ring_allocated
    ring_allocated-Starts true t cursor h many = inl refl
    ring_allocated-Starts false t cursor (table, at, one, found) many =
        let st = table_of t.ring.ringbuf_obj in
        let (all, counted) = many refl in
        let u = (nugpgpu_gtt_insert st cache_llc t).1 in
        let (_, same, ring) = gtt_insert-fields st cache_llc t in
        let (va, next, gsm_kept, keeps, mapped) =
          inserted pages_of cache_llc st t (λ w. direct st w counted)
            (omega (arith, all, cursor)) in
        ring_inserted-Starts _ _
          (
            gsm_kept ∙ table,
            ap (λ (r : Ring). r.gva_status) ring ∙ at,
            ap (λ (r : Ring). length (object_pages r.status_obj)) ring ∙ one,
            IsMapped-kept e t.gtt_entry t u (table_of t.ring.status_obj) _
                (ap (λ (r : Ring). table_of r.status_obj) ring) (omega (arith, one, cursor))
                (subst
                  (λ (g : ℕ).
                    (index : ℕ)
                    → index < t.gtt_entry
                    → entry_at g index u.log ≡ entry_at g index t.log)
                  table keeps)
                found,
          )
          (
            va ∙ ap (λ (n : ℕ). n * page_size) cursor,
            ap (λ (r : Ring). length (object_pages r.ringbuf_obj)) ring ∙ all,
            subst (λ (r : Ring). IsMapped pages_of gsm u.log (e + 1) (table_of r.ringbuf_obj))
                (sym ring)
                (subst (λ (g : ℕ). IsMapped pages_of g u.log (e + 1) st) table
                  (subst (λ (n : ℕ). IsMapped pages_of t.gtt.gsm u.log n st) cursor mapped)),
          )

    status_mapped-Starts :
        (failed : Bool) (t : State W)
        → t.gtt_entry ≡ e + 1
        → StatusIn t
        → Starts (status_mapped failed t)
    unfolding status_mapped
    status_mapped-Starts true t cursor h = inl refl
    status_mapped-Starts false t cursor (table, at, one, found) =
        let u =
          (tell (k.memset_page t.ring.page_status) (KernelCall.memset_page t.ring.page_status)
            t).1 in
        let v = (allocate_object t.ring.ringbuf_obj ring_pages u).1 in
        let (same, next, ring, stored) =
          allocate_object-SameFields t.ring.ringbuf_obj ring_pages u in
        ring_allocated-Starts _ _ (next ∙ cursor)
          (
            ap (λ (g : GpuGtt). g.gsm) same ∙ table,
            ap (λ (r : Ring). r.gva_status) ring ∙ at,
            ap (λ (r : Ring). length (object_pages r.status_obj)) ring ∙ one,
            IsMapped-kept e (e + 1) t v (table_of t.ring.status_obj) _
                (ap (λ (r : Ring). table_of r.status_obj) ring) (omega (arith, one))
                (λ index low. stored (gsm + 4 * index)) found,
          )
          (object_pages-allocated t.ring.ringbuf_obj ring_pages u (omega arith))

    status_inserted-Starts :
        (failed : Bool) (t : State W)
        → t.gtt_entry ≡ e + 1
        → StatusIn t
        → Starts (status_inserted failed t)
    unfolding status_inserted
    status_inserted-Starts true t cursor h = inl refl
    status_inserted-Starts false t cursor h = status_mapped-Starts _ _ cursor h

    pub status_allocated-Starts :
        (failed : Bool) (t : State W)
        → t.gtt.gsm ≡ gsm
        → t.gtt_entry ≡ e
        → (failed ≡ false → HasPages 1 t.ring.status_obj)
        → Starts (status_allocated failed t)
    unfolding status_allocated
    status_allocated-Starts true t table cursor one = inl refl
    status_allocated-Starts false t table cursor one =
        let st = table_of t.ring.status_obj in
        let (all, counted) = one refl in
        let u = (nugpgpu_gtt_insert st cache_llc t).1 in
        let (_, same, ring) = gtt_insert-fields st cache_llc t in
        let (va, next, gsm_kept, keeps, mapped) =
          inserted pages_of cache_llc st t (λ w. direct st w counted)
            (omega (arith, all, cursor)) in
        status_inserted-Starts _ _ (omega (arith, next, cursor, all)) (
          gsm_kept ∙ table,
          va ∙ ap (λ (n : ℕ). n * page_size) cursor,
          ap (λ (r : Ring). length (object_pages r.status_obj)) ring ∙ all,
          subst (λ (r : Ring). IsMapped pages_of gsm u.log e (table_of r.status_obj)) (sym ring)
              (subst (λ (g : ℕ). IsMapped pages_of g u.log e st) table
                (subst (λ (n : ℕ). IsMapped pages_of t.gtt.gsm u.log n st) cursor mapped)),
        )
