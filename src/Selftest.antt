-- ===== src/Selftest.antt =====
-- nugpgpu_tests.c and nugpgpu_tests.h: the driver's check that the GPU takes commands from the ring.
-- What it prints is not modelled. `page_status` and `virt_addr` are arrays of `u32`.
pub mod Frame
pub mod Tail
use nugpgpu.Prelude.{
  ℕ, zero, suc, ◌+◌, ◌-◌, ◌*◌, ◌^◌, Bool, true, false, List, [], ◌∷◌, ◌==◌, none, some,
}
use nugpgpu.Platform.{Platform, w8}
use nugpgpu.Services.{Services, SgTable}
use nugpgpu.Machine.{Obj, KernelCall, load, M, ◌>>=◌, ◌>>◌, pure, trace_in, mem_read, mem_write}
use nugpgpu.Gtt.{ask, tell, is_error, page_size, nugpgpu_gtt_insert}
use nugpgpu.Memmgr.{allocate_object}
use nugpgpu.Ring.{
  get_ring, nugpgpu_ring_begin, ring_emit, nugpgpu_ring_advance, mi_noop, mi_store_dword_index,
  mi_batch_buffer_start, mi_batch_buffer_end,
}
use nugpgpu.Dump.{nugpgpu_dump}

abbrev pub cache_llc : ℕ
cache_llc = 1

abbrev pub status_shift : ℕ
status_shift = 0x30

-- `shift << MI_STORE_DWORD_INDEX_SHIFT`
abbrev pub emit_shift : ℕ
emit_shift = status_shift * 2 ^ 2

abbrev pub poll_limit : ℕ
poll_limit = 100000

-- The nine words of `check_dword_temp`.
abbrev pub temp_words : ℕ → List ℕ
temp_words gfx_addr =
    mi_noop ∷ mi_noop ∷ mi_batch_buffer_start ∷ gfx_addr ∷ mi_noop ∷ mi_store_dword_index
    ∷ emit_shift ∷ 0xdeadbeef ∷ mi_noop ∷ []

-- The table of an object that `allocate_object` has filled in; before that `pg_list` is not used.
abbrev pub table_of : Obj → SgTable
table_of obj = elim obj.pg_list [ none ↦ record { sgl = []; nents = 0 } | some st ↦ st ]

module _ {W : Type 0} ⦃p : Platform W⦄ ⦃k : Services W⦄ where
  abbrev pub load_byte : ℕ → M W (Unit {0})
  load_byte a s =
      let r = p.read w8 a s.world in (tt, record s { world = r.1; log = load a r.0 ∷ s.log })

  -- The loop of `check_page_status`, with `left` bytes to go.
  pub scan_page : ℕ → ℕ → M W (Unit {0})
  scan_page zero a s = (tt, s)
  scan_page (suc left) a s = scan_page left (a + 1) (load_byte a s).1

  abbrev pub check_page_status : ℕ → M W (Unit {0})
  check_page_status page = scan_page page_size page

  abbrev pub emit_all : List ℕ → M W (Unit {0})
  emit_all [] = pure tt
  emit_all (word ∷ rest) = do ring_emit word; emit_all rest

  abbrev pub status_slot : M W ℕ
  status_slot s = (s.ring.page_status + 4 * status_shift, s)

  -- The loop that waits for the GPU to change the slot, with `left` turns to go.
  pub spin : ℕ → ℕ → ℕ → M W (Unit {0})
  spin zero slot old_value s = (tt, s)
  spin (suc left) slot old_value s =
      let r = mem_read slot s in
      elim (r.0 == old_value) [ true ↦ spin left slot old_value r.1 | false ↦ (tt, r.1) ]

  -- What both tests do before the commands.
  abbrev pub mark_slot : M W ℕ
  mark_slot = do
    slot ← status_slot
    mem_write slot 0x0a0a0a0a
    old_value ← mem_read slot
    _ ← mem_read (slot + 4)
    nugpgpu_dump
    r ← get_ring
    check_page_status r.page_status
    pure old_value

  -- What both tests do after them.
  abbrev pub watch_slot : ℕ → M W (Unit {0})
  watch_slot old_value = do
    slot ← status_slot
    spin poll_limit slot old_value
    _ ← mem_read slot
    _ ← mem_read slot
    _ ← mem_read (slot + 4)
    nugpgpu_dump

  pub check_dword_hws : M W (Unit {0})
  check_dword_hws = do
    old_value ← mark_slot
    _ ← nugpgpu_ring_begin 4
    emit_all (mi_store_dword_index ∷ emit_shift ∷ 0xdeadbeef ∷ mi_noop ∷ [])
    nugpgpu_ring_advance
    watch_slot old_value

  -- From `kmap` on, by whether it failed.
  pub temp_mapped : ℕ → ℕ → Bool → M W (Unit {0})
  temp_mapped gfx_addr virt_addr true = pure tt
  temp_mapped gfx_addr virt_addr false = do
    tell (k.memset_page virt_addr) (KernelCall.memset_page virt_addr)
    mem_write (virt_addr + 4 * 256) mi_batch_buffer_end
    old_value ← mark_slot
    _ ← nugpgpu_ring_begin 8
    emit_all (temp_words gfx_addr)
    nugpgpu_ring_advance
    watch_slot old_value

  -- From `nugpgpu_gtt_insert` on, by whether it failed.
  pub temp_inserted : Obj → ℕ → Bool → M W (Unit {0})
  temp_inserted obj gfx_addr true = pure tt
  temp_inserted obj gfx_addr false = do
    virt_addr ← ask (k.kmap (table_of obj)) KernelCall.kmap
    temp_mapped gfx_addr virt_addr (virt_addr == 0)

  -- From `allocate_object` on, by whether it failed.
  pub temp_allocated : Obj → Bool → M W (Unit {0})
  temp_allocated obj true = pure tt
  temp_allocated obj false = do
    gfx_addr ← nugpgpu_gtt_insert (table_of obj) cache_llc
    temp_inserted obj gfx_addr (gfx_addr == 2 ^ 32 - 1)

  -- `obj` is an uninitialized local. No return of this function passes a TRACE_OUT.
  pub check_dword_temp : M W (Unit {0})
  check_dword_temp = do
    trace_in
    r ← allocate_object (record { pg_list = none }) 1
    temp_allocated r.1 (is_error r.0)
