-- ===== src/Tests/Table.antt =====
-- The theorems on the page table and on the allocation of objects, on a machine with pages to give.
use nugpgpu.Prelude.{
  ℕ, ◌<◌, ◌+◌, ◌-◌, ◌*◌, ◌/◌, ◌^◌, ◌%◌, ◌≡◌, ◌≢◌, ◌⊎◌, inr, refl, arith, true, false, List, [], ◌∷◌,
  some,
}
use nugpgpu.Services.{SgTable}
use nugpgpu.Machine.{State, Event, KernelCall, call, trace_in, success, enomem, enospc}
use nugpgpu.Gtt.{
  nugpgpu_gtt_insert, nugpgpu_pte_encode, nugpgpu_gtt_probe, probe_and_map, set_dma_masks,
  scratchpage_setup, is_error, page_size,
}
use nugpgpu.Gtt.Pte.{read_entry, read_entry-pte_encode, layout, pte_encode-eq-layout}
use nugpgpu.Gtt.Table.{translate, entry_at}
use nugpgpu.Gtt.Insert.{gtt_insert-translate, gtt_insert-keeps, gtt_insert-ne-error}
use nugpgpu.Gtt.Sequence.{insert_all, addresses_from, AllMapped, insert_all-AllMapped}
use nugpgpu.Gtt.Probe.{control_word, gtt_probe-sizes, gtt_probe-leaves_unmapped}
use nugpgpu.Memmgr.{
  allocate_object, alloc_table, fill_table, pages_loop, add_page, map_object, map_result,
}
use nugpgpu.Memmgr.Object.{IsAllocated, allocate_object-IsAllocated}
use nugpgpu.Memmgr.Outcome.{allocate_object-Returned}
use nugpgpu.Tests.{World, idle, kernel, machine, no_object}

-- Two runs, of two pages and of one.
abbrev a_table : SgTable
a_table = record {
  sgl = record { pfn = 0x345; length = 8192 } ∷ record { pfn = 0x1234567; length = 4096 } ∷ [];
  nents = 2;
}

-- The allocator of pages has none left.
abbrev no_pages : State World
no_pages = record idle { world = record { clock = 0; cells = []; next_page = 0 } }

abbrev table_pages : SgTable → List ℕ
table_pages st = kernel.sg_page_dma_addresses st idle.world

gtt_insert-translate_example :
    let (va, t) = nugpgpu_gtt_insert a_table 1 idle in
    translate (2 ^ 37) t.log (va + page_size * 2 + 17) ≡ some (0x1234567 * 4096 + 17)
gtt_insert-translate_example =
    gtt_insert-translate a_table 1 idle (omega arith) (omega arith) 2 (0x1234567 * 4096) 17 refl
      refl (omega arith) (omega arith)

gtt_insert-keeps_example :
    let (va, t) = nugpgpu_gtt_insert a_table 1 idle in
    (va ≡ 1 * page_size) × (t.gtt_entry ≡ 4) × (entry_at (2 ^ 37) 4 t.log ≡ entry_at (2 ^ 37) 4 [])
gtt_insert-keeps_example =
    gtt_insert-keeps a_table 1 idle (omega arith) (omega arith) 4 (inr (omega arith))

insert_all-AllMapped_example :
    let (vas, t) = insert_all 1 (a_table ∷ a_table ∷ []) idle in
    (vas ≡ addresses_from table_pages 1 (a_table ∷ a_table ∷ []))
    × (t.gtt_entry ≡ 7)
    × AllMapped table_pages (2 ^ 37) t.log 1 (a_table ∷ a_table ∷ [])
    × ((index : ℕ) → index < 1 → entry_at (2 ^ 37) index t.log ≡ entry_at (2 ^ 37) index [])
insert_all-AllMapped_example =
    insert_all-AllMapped table_pages (λ st w. refl) 1 (a_table ∷ a_table ∷ []) idle (omega arith)

gtt_insert-ne-error_example : (nugpgpu_gtt_insert a_table 1 idle).0 ≢ 2 ^ 32 - 1
gtt_insert-ne-error_example = gtt_insert-ne-error a_table 1 idle

read_entry-pte_encode_example :
    read_entry (nugpgpu_pte_encode (0x5412345 * 4096) 1 true)
    ≡ record { valid = true; cacheability = 2; address = 0x5412345 * 4096 }
read_entry-pte_encode_example = read_entry-pte_encode (0x5412345 * 4096) 1 refl (omega arith)

pte_encode-eq-layout_example :
    nugpgpu_pte_encode (0x85412345 * 4096) 1 false ≡ layout (0x85412345 * 4096) 1 false
pte_encode-eq-layout_example = pte_encode-eq-layout (0x85412345 * 4096) 1 false refl

gtt_probe-sizes_example :
    let t = (nugpgpu_gtt_probe idle).1 in
    let ctl = control_word (trace_in idle).1 in
    (t.gtt.stolen_size ≡ ctl / 2 ^ 3 % 2 ^ 5 * 2 ^ 25)
    × (t.gtt.total_size ≡ ctl / 2 ^ 8 % 2 ^ 2 * 2 ^ 30)
    × (t.gtt.mappable_base ≡ kernel.pci_resource_start 2)
    × (t.gtt.mappable_end ≡ kernel.pci_resource_len 2)
gtt_probe-sizes_example = gtt_probe-sizes idle

no_pages-fails : is_error (nugpgpu_gtt_probe no_pages).0 ≡ true
unfolding nugpgpu_gtt_probe probe_and_map scratchpage_setup set_dma_masks
no_pages-fails = refl

gtt_probe-leaves_unmapped_example :
    let t = (nugpgpu_gtt_probe no_pages).1 in
    (l : List Event) × (t.log ≡ call (KernelCall.iounmap t.gtt.gsm) ∷ l)
gtt_probe-leaves_unmapped_example = gtt_probe-leaves_unmapped no_pages no_pages-fails

three_pages-succeed : (allocate_object no_object 3 idle).0.0 ≡ success
unfolding allocate_object alloc_table fill_table pages_loop add_page map_object map_result
three_pages-succeed = refl

allocate_object-IsAllocated_example : IsAllocated idle 3 (allocate_object no_object 3 idle)
allocate_object-IsAllocated_example =
    allocate_object-IsAllocated no_object 3 idle (λ page. omega arith) (omega arith)
      three_pages-succeed

allocate_object-Returned_example :
    let ((ret, obj), t) = allocate_object no_object 3 no_pages in
    ((ret ≡ success) × (t.depth ≡ 0))
    ⊎ (((ret ≡ enomem) ⊎ (ret ≡ enospc)) × (obj ≡ no_object) × (t.depth ≡ 1))
allocate_object-Returned_example = allocate_object-Returned no_object 3 no_pages (omega arith)
