-- ===== src/Services.antt =====
-- What nugpgpu_gtt.c, nugpgpu_memmgr.c and nugpgpu_ringbuffer.c take from the kernel: the PCI core,
-- the page allocator, the DMA API and the mapping of memory. `W` is the state outside the driver. A
-- pointer is its address, and NULL is 0; an `int` result is 0 on success.
use nugpgpu.Prelude.{ℕ, List, Bool}

-- An entry of a scatterlist: the frame number of its first page, its length in bytes.
pub record ScatterEntry : Type 0 where
  pub pfn : ℕ
  pub length : ℕ

-- `struct sg_table` as the driver uses it: the entries that are set, in order, and `nents`.
pub record SgTable : Type 0 where
  pub sgl : List ScatterEntry
  pub nents : ℕ

pub record Services (W : Type 0) : Type 0 where
  pub pci_resource_start : ℕ → ℕ
  pub pci_resource_len : ℕ → ℕ
  pub pci_read_config : ℕ → W → ℕ × W
  pub pci_set_dma_mask : ℕ → W → ℕ × W
  pub pci_set_consistent_dma_mask : ℕ → W → ℕ × W
  pub ioremap_wc : ℕ → ℕ → W → ℕ × W
  pub iounmap : ℕ → W → W
  pub io_mapping_create_wc : ℕ → ℕ → W → ℕ × W
  pub devm_request_mem_region : ℕ → ℕ → W → ℕ × W
  pub alloc_page : W → ℕ × W
  pub get_page : ℕ → W → W
  pub set_pages_uc : ℕ → W → W
  pub pci_map_page : ℕ → W → ℕ × W
  pub pci_dma_mapping_error : ℕ → Bool
  -- the DMA addresses that `for_each_sg_page` visits in a mapped table, one for each page of its
  -- first `nents` entries
  pub sg_page_dma_addresses : SgTable → W → List ℕ
  pub kmalloc : W → ℕ × W
  pub sg_alloc_table : ℕ → W → ℕ × W
  pub alloc_pages : W → ℕ × W
  pub page_to_pfn : ℕ → ℕ
  -- the number of entries that are mapped, 0 on failure
  pub dma_map_sg : SgTable → W → ℕ × W
  -- `kmap(sg_page(st->sgl))`, and `memset(ptr, 0, PAGE_SIZE)`
  pub kmap : SgTable → W → ℕ × W
  pub memset_page : ℕ → W → W
