-- ===== src/Memmgr/Frame.antt =====
-- `allocate_object` as a step that keeps a `Frame`.
use nugpgpu.Prelude.{
  ℕ, zero, suc, ◌+◌, Bool, true, false, ◌==◌, Bool-cases, inl, inr, Option, none, some, [],
}
use mathlib.Core.List.{reverse}
use nugpgpu.Platform.{Platform}
use nugpgpu.Services.{Services, SgTable}
use nugpgpu.Machine.{State, Obj, KernelCall}
use nugpgpu.Regrw.Frame.{Frame, trace_in-rel, trace_out-rel}
use nugpgpu.Gtt.Frame.{ask-rel}
use nugpgpu.Memmgr.{
  Building, add_page, pages_loop, map_result, map_object, fill_table, alloc_table, allocate_object,
}

module _ {W : Type 0} ⦃p : Platform W⦄ ⦃k : Services W⦄ (f : Frame W) {s : State W} where
  pages_loop-rel :
      (left i : ℕ) (b : Building) {t : State W} → f.rel s t → f.rel s (pages_loop left i b t).1
  unfolding pages_loop
  pages_loop-rel zero i b h = h
  pages_loop-rel (suc left) i b {t} h =
      let page = (k.alloc_pages t.world).0 in
      let a = ask-rel f h k.alloc_pages KernelCall.alloc_pages in
      elim (Bool-cases (page == 0)) [
        | inl e ↦ rw (e, pages_loop) a
        | inr e ↦
            rw (e, pages_loop) (pages_loop-rel left (i + 1) (add_page i (k.page_to_pfn page) b) a)
      ]

  map_result-rel :
      (obj : Obj) (st : SgTable) (failed : Bool) {t : State W}
      → f.rel s t
      → f.rel s (map_result obj st failed t).1
  unfolding map_result
  map_result-rel obj st true h = h
  map_result-rel obj st false h = trace_out-rel f h

  map_object-rel :
      (obj : Obj) (built : Option Building) {t : State W}
      → f.rel s t
      → f.rel s (map_object obj built t).1
  unfolding map_object
  map_object-rel obj none h = h
  map_object-rel obj (some b) h = map_result-rel obj _ _ (
      ask-rel f h (k.dma_map_sg (record { sgl = reverse b.entries; nents = b.nents }))
        KernelCall.dma_map_sg)

  fill_table-rel :
      (obj : Obj) (num : ℕ) (refused : Bool) {t : State W}
      → f.rel s t
      → f.rel s (fill_table obj num refused t).1
  unfolding fill_table
  fill_table-rel obj num true h = h
  fill_table-rel obj num false h =
      map_object-rel obj _
        (pages_loop-rel num 0 (record { entries = []; nents = 0; last_pfn = 0 }) h)

  alloc_table-rel :
      (obj : Obj) (num : ℕ) (failed : Bool) {t : State W}
      → f.rel s t
      → f.rel s (alloc_table obj num failed t).1
  unfolding alloc_table
  alloc_table-rel obj num true h = h
  alloc_table-rel obj num false h =
      fill_table-rel obj num _ (ask-rel f h (k.sg_alloc_table num) KernelCall.sg_alloc_table)

  pub allocate_object-rel :
      (obj : Obj) (num : ℕ) {t : State W} → f.rel s t → f.rel s (allocate_object obj num t).1
  unfolding allocate_object
  allocate_object-rel obj num h =
      alloc_table-rel obj num _ (ask-rel f (trace_in-rel f h) k.kmalloc KernelCall.kmalloc)
