-- ===== src/Tests.antt =====
-- A machine on which the theorems are tried: memory keeps what is written, a pause moves the clock
-- on, the allocator hands out pages one after the other.
mod Registers
mod Processors
mod Table
mod Commands
mod Start
mod Registry
mod Load
mod Devices
mod Dumps
use nugpgpu.Prelude.{
  ℕ, zero, suc, ◌+◌, ◌-◌, ◌*◌, ◌/◌, ◌%◌, ◌^◌, Bool, true, false, ltb, ◌==◌, List, [], ◌∷◌, ◌++◌,
  Option, none, some, ◌≡◌, refl, ap, length, arith, if◌then◌else◌,
}
use nugpgpu.Platform.{Width, Platform, ClockRuns}
use nugpgpu.Services.{ScatterEntry, SgTable, Services}
use nugpgpu.Memmgr.Pages.{frames_of}
use nugpgpu.Memmgr.Visible.{addresses_of}
use nugpgpu.Machine.{State, Ring, GpuGtt, MmioFuncs, Obj}

-- `next_page` is what the allocator gives next.
pub record World : Type 0 where
  pub clock : ℕ
  pub cells : List (ℕ × ℕ)
  pub next_page : ℕ

abbrev pub value_at : ℕ → List (ℕ × ℕ) → ℕ
value_at a [] = 0
value_at a ((b, v) ∷ rest) = let earlier = value_at a rest in if b == a then v else earlier

instance abbrev pub machine : Platform World
machine = record {
  read = λ w a x. (value_at a x.cells, x);
  write = λ w a v x. record x { cells = (a, v) ∷ x.cells };
  jiffies = λ x. x.clock;
  msecs_to_jiffies = λ ms. ms;
  time_after = λ a b. ltb b a;
  div_round_up = λ n m. (n + m - 1) / m;
  msleep = λ ms x. record x { clock = x.clock + ms + 1 };
  cpu_relax = λ x. record x { clock = x.clock + 1 };
  patience = λ d x. d + 1 - x.clock;
}

pub machine-ClockRuns : ClockRuns machine
machine-ClockRuns = record {
  read_keeps = λ d w a x. omega arith;
  write_keeps = λ d w a v x. omega arith;
  msleep_keeps = λ d ms x. omega arith;
  cpu_relax_keeps = λ d x. omega arith;
  msleep_nearer = λ d ms x late. ground arith;
  cpu_relax_nearer = λ d x late. ground arith;
}

abbrev pub dma_addresses : List ScatterEntry → List ℕ
dma_addresses entries = addresses_of (frames_of entries)

abbrev pub take : ℕ → List ScatterEntry → List ScatterEntry
take zero l = []
take (suc n) [] = []
take (suc n) (x ∷ l) = x ∷ take n l

pub take-length : (l : List ScatterEntry) → take (length l) l ≡ l
take-length [] = refl
take-length (x ∷ l) = ap (λ m. x ∷ m) (take-length l)

abbrev pub take_page : World → ℕ × World
take_page x = (x.next_page, record x { next_page = x.next_page + 1 })

-- The word 0x0158 of HSW_GMCH_CTRL: 352 MB of stolen memory, and 1 MB of table.
instance abbrev pub kernel : Services World
kernel = record {
  pci_resource_start = λ n. (n + 1) * 2 ^ 28;
  pci_resource_len = λ n. 2 ^ 22;
  pci_read_config = λ offset x. (0x0158, x);
  pci_set_dma_mask = λ bits x. (0, x);
  pci_set_consistent_dma_mask = λ bits x. (0, x);
  ioremap_wc = λ a n x. (a, x);
  iounmap = λ a x. x;
  io_mapping_create_wc = λ a n x. (a, x);
  devm_request_mem_region = λ a n x. (1, x);
  alloc_page = take_page;
  get_page = λ page x. x;
  set_pages_uc = λ page x. x;
  pci_map_page = λ page x. (page * 4096, x);
  pci_dma_mapping_error = λ a. a == 0;
  sg_page_dma_addresses = λ st x. dma_addresses (take st.nents st.sgl);
  kmalloc = λ x. (1, x);
  sg_alloc_table = λ n x. (0, x);
  alloc_pages = take_page;
  page_to_pfn = λ page. page % 2 ^ 52;
  dma_map_sg = λ st x. (st.nents, x);
  kmap = λ st x. (1, x);
  memset_page = λ a x. x;
}

abbrev pub no_object : Obj
no_object = record { pg_list = none }

abbrev pub a_ring : Ring
a_ring = record {
  mmio_base = 0x2000;
  size = 2 ^ 17;
  virtual_start = 2 ^ 40;
  page_ringbuffer = 2 ^ 41;
  page_status = 2 ^ 42;
  gva_ringbuffer = 4096;
  gva_status = 0;
  status_obj = no_object;
  ringbuf_obj = no_object;
  head = 0;
  tail = 2 ^ 17 - 8;
  space = 2 ^ 17 - 64;
}

-- The driver loaded, with nobody holding the hardware awake.
abbrev pub idle : State World
idle = record {
  regs = 2 ^ 36;
  mmio_funcs = record {
    mmio_readb = none;
    mmio_readw = none;
    mmio_readl = none;
    mmio_readq = none;
    mmio_writeb = none;
    mmio_writew = none;
    mmio_writel = none;
    mmio_writeq = none;
  };
  forcewake_count = 0;
  gtt = record {
    mappable_end = 2 ^ 28;
    mappable = 0;
    mappable_base = 2 ^ 30;
    stolen_size = 0;
    total_size = 0;
    gsm = 2 ^ 37;
    scratch_addr = 0;
    scratch_page = 0;
  };
  ring = a_ring;
  gtt_entry = 1;
  depth = 0;
  debug = 1;
  world = record { clock = 0; cells = []; next_page = 7 };
  log = [];
}
