-- ===== src/Memmgr.antt =====
-- nugpgpu_memmgr.c and nugpgpu_memmgr.h: pages for an object of the GPU, as a scatterlist.
pub mod Pages
pub mod Outcome
pub mod Object
pub mod Visible
pub mod Frame
pub mod Fields
use mathlib.Core.List.{reverse}
use nugpgpu.Prelude.{
  ℕ, zero, suc, ◌+◌, ◌*◌, ◌%◌, ◌^◌, Bool, true, false, ◌||◌, not, ◌==◌, nonzero, List, [], ◌∷◌,
  Option, none, some, if◌then◌else◌,
}
use nugpgpu.Platform.{Platform}
use nugpgpu.Services.{Services, SgTable, ScatterEntry}
use nugpgpu.Machine.{
  State, Obj, KernelCall, M, ◌>>=◌, ◌>>◌, pure, trace_in, trace_out, Status, success, enomem,
  enospc,
}
use nugpgpu.Gtt.{ask, page_size}

-- The entries that are set, the newest first, `nents` and `last_pfn`.
pub record Building : Type 0 where
  pub entries : List ScatterEntry
  pub nents : ℕ
  pub last_pfn : ℕ

-- `sg->length += PAGE_SIZE` on the newest entry; `length` is an `unsigned int`.
abbrev pub grow_last : List ScatterEntry → List ScatterEntry
grow_last [] = []
grow_last (e ∷ rest) = record e { length = (e.length + page_size) % 2 ^ 32 } ∷ rest

-- A page whose frame number is `pfn`, in round `i`: a new entry, or a longer last one.
unfoldable pub add_page : ℕ → ℕ → Building → Building
add_page i pfn b =
    if (i == 0) || not (pfn == (b.last_pfn + 1) % 2 ^ 64)
    then record {
      entries = record { pfn = pfn; length = page_size } ∷ b.entries;
      nents = (b.nents + 1) % 2 ^ 32;
      last_pfn = pfn;
    }
    else record { entries = grow_last b.entries; nents = b.nents; last_pfn = pfn }

module _ {W : Type 0} ⦃p : Platform W⦄ ⦃k : Services W⦄ where
  -- The loop over the pages, with `left` of them to go; `none` if the allocator has no page.
  unfoldable pub pages_loop : ℕ → ℕ → Building → M W (Option Building)
  pages_loop zero i b s = (some b, s)
  pages_loop (suc left) i b s =
      let r = ask k.alloc_pages KernelCall.alloc_pages s in
      elim (r.0 == 0) [
        | true ↦ (none, r.1)
        | false ↦ pages_loop left (i + 1) (add_page i (k.page_to_pfn r.0) b) r.1
      ]

  -- The end of `allocate_object`, by whether the mapping failed. The error returns of this function
  -- and of the next do not pass TRACE_OUT.
  unfoldable pub map_result : Obj → SgTable → Bool → M W (Status × Obj)
  map_result obj st true = pure (enospc, obj)
  map_result obj st false = do trace_out; pure (success, record { pg_list = some st })

  unfoldable pub map_object : Obj → Option Building → M W (Status × Obj)
  map_object obj none = pure (enomem, obj)
  map_object obj (some b) = do
    let st : SgTable = record { sgl = reverse b.entries; nents = b.nents }
    mapped ← ask (k.dma_map_sg st) KernelCall.dma_map_sg
    map_result obj st (mapped == 0)

  -- From the loop on, by whether `sg_alloc_table` failed.
  unfoldable pub fill_table : Obj → ℕ → Bool → M W (Status × Obj)
  fill_table obj num true = pure (enomem, obj)
  fill_table obj num false = do
    built ← pages_loop num 0 (record { entries = []; nents = 0; last_pfn = 0 })
    map_object obj built

  -- From `sg_alloc_table` on, by whether `kmalloc` failed.
  unfoldable pub alloc_table : Obj → ℕ → Bool → M W (Status × Obj)
  alloc_table obj num true = pure (enomem, obj)
  alloc_table obj num false = do
    refused ← ask (k.sg_alloc_table num) KernelCall.sg_alloc_table
    fill_table obj num (nonzero refused)

  unfoldable pub allocate_object : Obj → ℕ → M W (Status × Obj)
  allocate_object obj num = do
    trace_in
    st ← ask k.kmalloc KernelCall.kmalloc
    alloc_table obj num (st == 0)
