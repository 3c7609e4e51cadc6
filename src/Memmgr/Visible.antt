-- ===== src/Memmgr/Visible.antt =====
-- An object that is allocated and then entered in the page table, as the ring's memory is.
use mathlib.Core.Option.{some-injective}
use nugpgpu.Prelude.{
  ℕ, zero, suc, ◌+◌, ◌*◌, ◌^◌, ◌<◌, ◌≤◌, ◌≡◌, ◌∙◌, refl, sym, ap, arith, List, [], ◌∷◌, length,
  length-reverse, get_elem?, some,
}
use nugpgpu.Platform.{Platform}
use nugpgpu.Services.{Services, SgTable}
use nugpgpu.Machine.{State, Obj, success}
use nugpgpu.Gtt.{page_size, nugpgpu_gtt_insert}
use nugpgpu.Gtt.Table.{translate}
use nugpgpu.Gtt.Insert.{gtt_insert-translate}
use nugpgpu.Memmgr.{allocate_object}
use nugpgpu.Memmgr.Pages.{frames_of}
use nugpgpu.Memmgr.Object.{IsAllocated, allocate_object-IsAllocated}

-- The addresses of the pages of frames.
abbrev pub addresses_of : List ℕ → List ℕ
addresses_of [] = []
addresses_of (frame ∷ rest) = frame * page_size ∷ addresses_of rest

pub length-addresses_of : (frames : List ℕ) → length (addresses_of frames) ≡ length frames
length-addresses_of [] = refl
length-addresses_of (frame ∷ rest) = ap suc (length-addresses_of rest)

get_elem?-addresses_of :
    (frames : List ℕ) (j frame : ℕ)
    → get_elem? frames j ≡ some frame
    → get_elem? (addresses_of frames) j ≡ some (frame * page_size)
get_elem?-addresses_of [] j frame e = ground (arith, e)
get_elem?-addresses_of (f ∷ rest) zero frame e =
    ap (λ (n : ℕ). some (n * page_size)) (some-injective f frame e)
get_elem?-addresses_of (f ∷ rest) (suc j) frame e = get_elem?-addresses_of rest j frame e

module _ {W : Type 0} ⦃p : Platform W⦄ ⦃k : Services W⦄ where
  length-allocated :
      (num : ℕ) (st : SgTable) (s : State W) (obj : Obj)
      → IsAllocated s num (allocate_object obj num s)
      → (allocate_object obj num s).0.1.pg_list ≡ some st
      → length (frames_of st.sgl) ≡ num
  length-allocated num st s obj (st', listed, (ps, taken, all, frames), runs, counted, few) table =
      ap (λ t. length (frames_of t.sgl)) (some-injective st st' (sym table ∙ listed))
      ∙ ap length frames
      ∙ length-reverse ps
      ∙ all

  -- Let frame numbers fit an `unsigned long`, `num` pages fit the `unsigned` length of an entry, and
  -- `allocate_object` for `num` pages succeed with the table `st`, whose pages have their physical
  -- addresses as DMA addresses. If the `num` entries from `gtt_entry` on lie within a 32-bit graphics
  -- address space, then after `nugpgpu_gtt_insert` of the table the GPU finds each byte of its `j`-th
  -- frame, if that is below 2 ^ 27, in the `j`-th page from the address returned.
  pub object-translate :
      (obj : Obj) (num level : ℕ) (st : SgTable) (s : State W)
      → ((page : ℕ) → k.page_to_pfn page + 1 < 2 ^ 64)
      → num * page_size < 2 ^ 32
      → (allocate_object obj num s).0.0 ≡ success
      → (allocate_object obj num s).0.1.pg_list ≡ some st
      → k.sg_page_dma_addresses st (allocate_object obj num s).1.world
        ≡ addresses_of (frames_of st.sgl)
      → (allocate_object obj num s).1.gtt_entry < 2 ^ 20
      → (allocate_object obj num s).1.gtt_entry + num ≤ 2 ^ 20
      → (j frame offset : ℕ) → get_elem? (frames_of st.sgl) j ≡ some frame
      → frame < 2 ^ 27
      → offset < page_size
      → let t = (allocate_object obj num s).1 in
        let (va, u) = nugpgpu_gtt_insert st level t in
        translate t.gtt.gsm u.log (va + page_size * j + offset) ≡ some (frame * page_size + offset)
  object-translate obj num level st s fits small done table direct inside room j frame offset at_j
        low within =
      let t = (allocate_object obj num s).1 in
      let all =
        length-allocated num st s obj (allocate_object-IsAllocated obj num s fits small done)
          table in
      let count : length (k.sg_page_dma_addresses st t.world) ≡ num =
        ap length direct ∙ length-addresses_of (frames_of st.sgl) ∙ all in
      gtt_insert-translate st level t inside (omega (arith, count)) j (frame * page_size) offset
        (ap (λ l. get_elem? l j) direct ∙ get_elem?-addresses_of (frames_of st.sgl) j frame at_j)
        (omega arith) (omega arith) within
