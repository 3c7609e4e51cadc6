-- ===== src/Gtt.antt =====
-- nugpgpu_gtt.c, nugpgpu_gtt.h and nugpgpu_pcioffset.h: the page table of the GPU.
pub mod Pte
pub mod Table
pub mod Insert
pub mod Probe
pub mod Frame
pub mod Fields
pub mod Sequence
use nugpgpu.Prelude.{
  ℕ, ◌+◌, ◌-◌, ◌*◌, ◌/◌, ◌%◌, ◌^◌, Bool, true, false, ◌||◌, not, bit_and, bit_or, ltb, ◌==◌,
  nonzero, List, [], ◌∷◌, if◌then◌else◌,
}
use nugpgpu.Platform.{Platform}
use nugpgpu.Services.{Services, SgTable}
use nugpgpu.Machine.{
  State, GpuGtt, KernelCall, M, ◌>>=◌, ◌>>◌, pure, when, trace_in, trace_out, mem_read, mem_write,
  call, Status, success, enomem, einval,
}
use nugpgpu.Regrw.{nugpgpu_read, nugpgpu_write}

-- PAGE_SIZE of x86
abbrev pub page_size : ℕ
page_size = 4096

abbrev pub pte_valid : ℕ
pte_valid = 1

abbrev pub gfx_flsh_cntl_hsw : ℕ
gfx_flsh_cntl_hsw = 0x101008

abbrev pub gfx_flsh_cntl_en : ℕ
gfx_flsh_cntl_en = 1

abbrev pub page_fault_reg : ℕ
page_fault_reg = 0x4090

abbrev pub page_fault_bit : ℕ
page_fault_bit = 14

abbrev pub hsw_gmch_ctrl : ℕ
hsw_gmch_ctrl = 0x50

-- PTE_ADDR_ENCODE
abbrev pub pte_addr_encode : ℕ → Bool → ℕ
pte_addr_encode addr valid =
    bit_or (if valid then pte_valid else 0) (bit_or addr (bit_and (addr / 2 ^ 28) 0x7f0))

-- HSW_CACHEABILITY_CONTROL
abbrev pub hsw_cacheability_control : ℕ → ℕ
hsw_cacheability_control bits = bit_or (bit_and bits 0x7 * 2 ^ 1) (bit_and bits 0x8 * 2 ^ 8)

-- `dma_addr_t` is 64 bits wide, and a `nugpgpu_gtt_pte_t` 32.
pub nugpgpu_pte_encode : ℕ → ℕ → Bool → ℕ
nugpgpu_pte_encode addr level valid =
    let pte : ℕ = if valid then pte_valid else 0 in
    let pte' = bit_or pte (pte_addr_encode addr valid) % 2 ^ 32 in
    if nonzero level then bit_or pte' (hsw_cacheability_control 0x2) else pte'

-- The fields of HSW_GMCH_CTRL, a `u16`: the size of the stolen memory, and that of the table.
abbrev pub stolen_of : ℕ → ℕ
stolen_of ctl = bit_and (ctl / 2 ^ 3) 0x1f * 2 ^ 25

abbrev pub gtt_size_of : ℕ → ℕ
gtt_size_of ctl = bit_and (ctl / 2 ^ 8) 0x3 * 2 ^ 20

abbrev pub is_error : Status → Bool
is_error success = false
is_error _ = true

module _ {W : Type 0} ⦃p : Platform W⦄ ⦃k : Services W⦄ where
  -- A call of a service, with what it answers and the record of it in the log.
  abbrev pub ask : (W → ℕ × W) → (ℕ → KernelCall) → M W ℕ
  ask f c s = let r = f s.world in (r.0, record s { world = r.1; log = call (c r.0) ∷ s.log })

  abbrev pub tell : (W → W) → KernelCall → M W (Unit {0})
  tell f c s = (tt, record s { world = f s.world; log = call c ∷ s.log })

  -- A read of PCI configuration space.
  abbrev pub read_config : ℕ → M W ℕ
  read_config offset s = let r = k.pci_read_config offset s.world in (r.0, record s { world = r.1 })

  abbrev pub set_gtt : GpuGtt → M W (Unit {0})
  set_gtt g s = (tt, record s { gtt = g })

  abbrev pub get_gtt : M W GpuGtt
  get_gtt s = (s.gtt, s)

  unfoldable pub scratchpage_setup : M W Status
  scratchpage_setup = do
    trace_in
    page ← ask k.alloc_page KernelCall.alloc_page
    g ← get_gtt
    set_gtt (record g { scratch_page = page })
    mapped ← elim (page == 0) [
      | true ↦ do trace_out; pure enomem
      | false ↦ do
        tell (k.get_page page) (KernelCall.get_page page)
        tell (k.set_pages_uc page) (KernelCall.set_pages_uc page)
        addr ← ask (k.pci_map_page page) (KernelCall.pci_map_page page)
        h ← get_gtt
        set_gtt (record h { scratch_addr = addr })
        trace_out
        pure (if k.pci_dma_mapping_error addr then einval else success)
    ]
    pure mapped

  -- `pci_set_dma_mask` is 0 on success.
  unfoldable pub set_dma_masks : M W (Unit {0})
  set_dma_masks = do
    refused ← ask (k.pci_set_dma_mask 40) (λ _. KernelCall.pci_set_dma_mask 40)
    when (refused == 0) (do
      _ ← ask (k.pci_set_consistent_dma_mask 40) (λ _. KernelCall.pci_set_consistent_dma_mask 40)
      pure tt)

  -- The part of `nugpgpu_gtt_probe` up to the mapping of the table, which it returns.
  unfoldable pub probe_and_map : M W ℕ
  probe_and_map = do
    g ← get_gtt
    set_gtt
        (record g { mappable_base = k.pci_resource_start 2; mappable_end = k.pci_resource_len 2 })
    set_dma_masks
    word ← read_config hsw_gmch_ctrl
    let hsw_gmch_ctl = word % 2 ^ 16
    let gtt_size = gtt_size_of hsw_gmch_ctl
    h ← get_gtt
    set_gtt (record h { stolen_size = stolen_of hsw_gmch_ctl; total_size = gtt_size / 4 * 2 ^ 12 })
    let gtt_phys_addr = k.pci_resource_start 0 + k.pci_resource_len 0 / 2
    gsm ← ask (k.ioremap_wc gtt_phys_addr gtt_size) (KernelCall.ioremap_wc gtt_phys_addr gtt_size)
    j ← get_gtt
    set_gtt (record j { gsm = gsm })
    pure gsm

  unfoldable pub nugpgpu_gtt_probe : M W Status
  nugpgpu_gtt_probe = do
    trace_in
    gsm ← probe_and_map
    ret ← scratchpage_setup
    when (is_error ret) (tell (k.iounmap gsm) (KernelCall.iounmap gsm))
    trace_out
    pure ret

  -- `base &= ~((1 << 20) - 1)`, in 32 bits
  pub nugpgpu_check_stolen : M W (Unit {0})
  nugpgpu_check_stolen = do
    dword ← read_config 0x5c
    let base = bit_and dword (2 ^ 32 - 2 ^ 20)
    g ← get_gtt
    _ ←
        ask (k.devm_request_mem_region base g.stolen_size)
          (λ _. KernelCall.devm_request_mem_region base g.stolen_size)
    pure tt

  -- IS_PAGE_FAULT_ENABLE
  abbrev pub is_page_fault_enable : M W Bool
  is_page_fault_enable = do
    v ← nugpgpu_read page_fault_reg
    pure (nonzero (v / 2 ^ page_fault_bit % 2))

  pub nugpgpu_gtt_init : M W Status
  nugpgpu_gtt_init = do
    trace_in
    ret ← nugpgpu_gtt_probe
    g ← get_gtt
    let apperture_size = g.mappable_end % 2 ^ 32
    m ←
        ask (k.io_mapping_create_wc g.mappable_base apperture_size)
          (KernelCall.io_mapping_create_wc g.mappable_base apperture_size)
    set_gtt (record g { mappable = m })
    nugpgpu_check_stolen
    _ ← is_page_fault_enable
    trace_out
    pure ret

  -- The loop of `nugpgpu_gtt_insert_entries`, from `i`; `addr` is what the variable holds. It
  -- returns both as the loop leaves them.
  pub insert_loop : ℕ → ℕ → List ℕ → ℕ → ℕ → M W (ℕ × ℕ)
  insert_loop gtt_entries level [] i addr s = ((i, addr), s)
  insert_loop gtt_entries level (a ∷ rest) i addr s =
      insert_loop gtt_entries level rest ((i + 1) % 2 ^ 32) a
        (mem_write (gtt_entries + 4 * i) (nugpgpu_pte_encode a level true) s).1

  abbrev pub page_addresses : SgTable → M W (List ℕ)
  page_addresses st s = (k.sg_page_dma_addresses st s.world, s)

  pub nugpgpu_gtt_insert_entries : SgTable → ℕ → ℕ → M W ℕ
  nugpgpu_gtt_insert_entries st entry level = do
    g ← get_gtt
    let gtt_entries = g.gsm + 4 * entry
    trace_in
    addrs ← page_addresses st
    r ← insert_loop gtt_entries level addrs 0 0
    when (nonzero r.0) (do _ ← mem_read (gtt_entries + 4 * (r.0 - 1)); pure tt)
    nugpgpu_write gfx_flsh_cntl_hsw gfx_flsh_cntl_en
    _ ← nugpgpu_read gfx_flsh_cntl_hsw
    trace_out
    pure ((r.0 + entry) % 2 ^ 32)

  abbrev pub get_gtt_entry : M W ℕ
  get_gtt_entry s = (s.gtt_entry, s)

  abbrev pub set_gtt_entry : ℕ → M W (Unit {0})
  set_gtt_entry e s = (tt, record s { gtt_entry = e })

  pub nugpgpu_gtt_insert : SgTable → ℕ → M W ℕ
  nugpgpu_gtt_insert st level = do
    entry ← get_gtt_entry
    let gfx_addr = entry * page_size % 2 ^ 32
    trace_in
    entry' ← nugpgpu_gtt_insert_entries st entry level
    set_gtt_entry entry'
    trace_out
    pure gfx_addr
