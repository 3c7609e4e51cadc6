-- ===== src/Machine.antt =====
-- The state that the driver's functions share (nugpgpu_drv.h, and the globals of nugpgpu_dbg.c,
-- nugpgpu_gtt.c and nugpgpu_ringbuffer.c), the log of what it does to the hardware, and the
-- functions by which it does so.
pub mod Log
use nugpgpu.Prelude.{ℕ, ◌+◌, ◌-◌, ◌%◌, ◌^◌, Bool, List, ◌∷◌, Option}
use nugpgpu.Platform.{Width, w32, Platform}
use nugpgpu.Services.{SgTable}

-- The kernel's services that give or take a resource, with their arguments and what they returned.
pub data KernelCall : Type 0 where
  pci_set_dma_mask pci_set_consistent_dma_mask : ℕ → KernelCall
  ioremap_wc io_mapping_create_wc : ℕ → ℕ → ℕ → KernelCall
  iounmap alloc_page get_page set_pages_uc kmalloc sg_alloc_table alloc_pages : ℕ → KernelCall
  dma_map_sg kmap memset_page : ℕ → KernelCall
  pci_map_page : ℕ → ℕ → KernelCall
  devm_request_mem_region : ℕ → ℕ → KernelCall

-- `rd` and `wr` are accesses of registers, `load` and `store` are those of other mapped memory, 32
-- bits wide: an address, then the value.
-- What the driver has done, as the hardware sees it; the newest event stands first in a log.
pub data Event : Type 0 where
  rd : Width → ℕ → ℕ → Event
  wr : Width → ℕ → ℕ → Event
  load store : ℕ → ℕ → Event
  acquire release lock_init : Event
  call : KernelCall → Event

-- `struct gpu_gtt`; a pointer is its address, and NULL is 0.
pub record GpuGtt : Type 0 where
  pub mappable_end : ℕ
  pub mappable : ℕ
  pub mappable_base : ℕ
  pub stolen_size : ℕ
  pub total_size : ℕ
  pub gsm : ℕ
  pub scratch_addr : ℕ
  pub scratch_page : ℕ

-- `struct nugpgpu_obj`, whose other fields nobody sets.
pub record Obj : Type 0 where
  pub pg_list : Option SgTable

-- `struct nugpgpu_ring`, less `gpu_priv` and `effective_size`, which nobody sets.
pub record Ring : Type 0 where
  pub mmio_base : ℕ
  pub size : ℕ
  pub virtual_start : ℕ
  pub page_ringbuffer : ℕ
  pub page_status : ℕ
  pub gva_ringbuffer : ℕ
  pub gva_status : ℕ
  pub status_obj : Obj
  pub ringbuf_obj : Obj
  pub head : ℕ
  pub tail : ℕ
  pub space : ℕ

-- The function pointers of `struct gpu_mmio_funcs`: NULL, or the accessor of some width.
pub record MmioFuncs : Type 0 where
  pub mmio_readb : Option Width
  pub mmio_readw : Option Width
  pub mmio_readl : Option Width
  pub mmio_readq : Option Width
  pub mmio_writeb : Option Width
  pub mmio_writew : Option Width
  pub mmio_writel : Option Width
  pub mmio_writeq : Option Width

-- The part of `struct nugpgpu_private` and the globals that the hardware side of the driver uses:
-- `depth` and `debug` of nugpgpu_dbg.c, `gtt_entry` of nugpgpu_gtt.c, `nugpgpu_render_ring`.
pub record State (W : Type 0) : Type 0 where
  pub regs : ℕ
  pub mmio_funcs : MmioFuncs
  pub forcewake_count : ℕ
  pub gtt : GpuGtt
  pub ring : Ring
  pub gtt_entry : ℕ
  pub depth : ℕ
  pub debug : ℕ
  pub world : W
  pub log : List Event

-- What an `int` function returns: 0, 1 or a negated error number.
pub data Status : Type 0 where
  success failure enomem einval eio enospc : Status

-- A function of the driver: from the state to its result and the state that it leaves.
abbrev pub M : Type 0 → Type 0 → Type 0
M W A = State W → A × State W

infixl 5 ◌>>=◌ ◌>>◌
abbrev pub ◌>>=◌ : {W A B : Type 0} → M W A → (A → M W B) → M W B
◌>>=◌ m f s = let r = m s in f r.0 r.1

abbrev pub ◌>>◌ : {W B : Type 0} → M W (Unit {0}) → M W B → M W B
◌>>◌ m k s = k (m s).1

abbrev pub pure : {W A : Type 0} → A → M W A
pure a s = (a, s)

-- `if (b) m;`
abbrev pub when : {W : Type 0} → Bool → M W (Unit {0}) → M W (Unit {0})
when b m s = elim b [ Bool.true ↦ m s | Bool.false ↦ (tt, s) ]

-- TRACE_IN and TRACE_OUT: `depth` is an `int`, kept as its bit pattern.
abbrev pub trace_in : {W : Type 0} → M W (Unit {0})
trace_in s = (tt, record s { depth = (s.depth + 1) % 2 ^ 32 })

abbrev pub trace_out : {W : Type 0} → M W (Unit {0})
trace_out s = (tt, record s { depth = (s.depth + 2 ^ 32 - 1) % 2 ^ 32 })

-- spin_lock_irqsave and spin_unlock_irqrestore on `mmio_funcs.lock`
abbrev pub spin_lock : {W : Type 0} → M W (Unit {0})
spin_lock s = (tt, record s { log = acquire ∷ s.log })

abbrev pub spin_unlock : {W : Type 0} → M W (Unit {0})
spin_unlock s = (tt, record s { log = release ∷ s.log })

abbrev pub spin_lock_init : {W : Type 0} → M W (Unit {0})
spin_lock_init s = (tt, record s { log = lock_init ∷ s.log })

module _ {W : Type 0} ⦃p : Platform W⦄ where
  -- `readx(addr)`
  abbrev pub io_read : Width → ℕ → M W ℕ
  io_read w a s =
      let r = p.read w a s.world in (r.0, record s { world = r.1; log = rd w a r.0 ∷ s.log })

  -- A load of 32 bits from mapped memory that is no register, and a store.
  abbrev pub mem_read : ℕ → M W ℕ
  mem_read a s =
      let r = p.read w32 a s.world in (r.0, record s { world = r.1; log = load a r.0 ∷ s.log })

  abbrev pub mem_write : ℕ → ℕ → M W (Unit {0})
  mem_write a v s = (tt, record s { world = p.write w32 a v s.world; log = store a v ∷ s.log })

  -- `writex(val, addr)`
  abbrev pub io_write : Width → ℕ → ℕ → M W (Unit {0})
  io_write w a v s = (tt, record s { world = p.write w a v s.world; log = wr w a v ∷ s.log })
