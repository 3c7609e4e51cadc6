-- ===== src/Gtt/Insert.antt =====
-- `nugpgpu_gtt_insert`: which entries it writes, and what the GPU then finds there.
use mathlib.Core.Option
use mathlib.Core.Path.{subst}
use mathlib.Core.List.{append_assoc}
use native.Mathlib.Nat.{zero-add}
use nugpgpu.Prelude.{
  ℕ, ◌+◌, ◌-◌, ◌*◌, ◌/◌, ◌%◌, ◌^◌, ◌<◌, ◌≤◌, ◌≡◌, ◌≢◌, ◌⊎◌, ◌∙◌, refl, sym, ap, Bool, true, false,
  arith, List, [], ◌∷◌, ◌++◌, Option, some, length, get_elem?,
}
use nugpgpu.Platform.{Platform, w32}
use nugpgpu.Services.{Services, SgTable}
use nugpgpu.Machine.{State, Event, trace_in, mem_read, mem_write, when, pure, ◌>>=◌}
use nugpgpu.Machine.Log.{LockState, free, effects}
use nugpgpu.Machine.Log.Touches.{
  Touches, Touches-refl, Touches-trans, traced-Touches, mem_read-Touches, mem_write-Touches,
}
use nugpgpu.Regrw.Access.{
  locked, read_events, write_events, gpu_read-Touches_at, gpu_write-Touches_at,
}
use nugpgpu.Gtt.{
  page_size, gfx_flsh_cntl_hsw, gfx_flsh_cntl_en, nugpgpu_pte_encode, insert_loop,
  nugpgpu_gtt_insert_entries, nugpgpu_gtt_insert,
}
use nugpgpu.Gtt.Pte.{read_entry, Entry, read_entry-pte_encode}
use nugpgpu.Gtt.Table.{
  last_store, last_store-effects, last_store-append, entry_at, translate, pte_stores,
  entry_at-pte_stores_in, entry_at-pte_stores_out,
}

-- The flush of the GPU's TLB: a write and a read of its register.
abbrev pub flush_events : ℕ → ℕ → Bool → Bool → Bool → List Event
flush_events regs count before after error =
    locked (read_events regs count gfx_flsh_cntl_hsw error)
    ++ locked (write_events regs w32 gfx_flsh_cntl_hsw gfx_flsh_cntl_en before after)

last_store-flush_events :
    (a regs count : ℕ) (before after error : Bool) (l : List Event)
    → last_store a (flush_events regs count before after error ++ l) ≡ last_store a l
last_store-flush_events a regs count true true true l = ground arith
last_store-flush_events a regs count true true false l = ground arith
last_store-flush_events a regs count true false true l = ground arith
last_store-flush_events a regs count true false false l = ground arith
last_store-flush_events a regs count false true true l = ground arith
last_store-flush_events a regs count false true false l = ground arith
last_store-flush_events a regs count false false true l = ground arith
last_store-flush_events a regs count false false false l = ground arith

module _ {W : Type 0} ⦃p : Platform W⦄ ⦃k : Services W⦄ where
  insert_loop-Touches :
      {l : LockState} (gtt_entries level : ℕ) (addrs : List ℕ) (i addr : ℕ) (s : State W)
      → i + length addrs < 2 ^ 32
      → Touches l
          (pte_stores gtt_entries level addrs i)
          s
          (insert_loop gtt_entries level addrs i addr s).1
        × ((insert_loop gtt_entries level addrs i addr s).0.0 ≡ i + length addrs)
  unfolding insert_loop
  insert_loop-Touches gtt_entries level [] i addr s h = (Touches-refl s, omega arith)
  insert_loop-Touches gtt_entries level (a ∷ rest) i addr s h =
      let next : (i + 1) % 2 ^ 32 ≡ i + 1 = omega arith in
      let t = (mem_write (gtt_entries + 4 * i) (nugpgpu_pte_encode a level true) s).1 in
      let total : i + 1 + length rest ≡ i + length (a ∷ rest) = omega arith in
      let (done, count) = insert_loop-Touches gtt_entries level rest (i + 1) a t (omega arith) in
      rw (next, insert_loop)
        (
          Touches-trans
              (mem_write-Touches (gtt_entries + 4 * i) (nugpgpu_pte_encode a level true) s) done,
          count ∙ total,
        )

  when_read-Touches :
      (b : Bool) (a : ℕ) (s : State W) → Touches free [] s (when b (do _ ← mem_read a; pure tt) s).1
  when_read-Touches true a s = mem_read-Touches a s
  when_read-Touches false a s = Touches-refl s

  -- What `nugpgpu_gtt_insert_entries` does at the entry `entry`.
  pub insert_entries-Touches :
      (st : SgTable) (entry level : ℕ) (s : State W)
      → length (k.sg_page_dma_addresses st s.world) < 2 ^ 32
      → (before after error : Bool) × Touches free
          (flush_events s.regs s.forcewake_count before after error
            ++ pte_stores (s.gtt.gsm + 4 * entry) level (k.sg_page_dma_addresses st s.world) 0)
          s
          (nugpgpu_gtt_insert_entries st entry level s).1
        × ((nugpgpu_gtt_insert_entries st entry level s).0
            ≡ (length (k.sg_page_dma_addresses st s.world) + entry) % 2 ^ 32)
  unfolding nugpgpu_gtt_insert_entries
  insert_entries-Touches st entry level s small =
      let addrs = k.sg_page_dma_addresses st s.world in
      let gtt_entries = s.gtt.gsm + 4 * entry in
      let (stored, count) =
        insert_loop-Touches {l = free} gtt_entries level addrs 0 0 (trace_in s).1 (omega arith) in
      let checked = Touches-trans stored (when_read-Touches _ _ _) in
      let (before, after, written) =
        gpu_write-Touches_at w32 gfx_flsh_cntl_hsw gfx_flsh_cntl_en checked in
      let (error, read) = gpu_read-Touches_at w32 gfx_flsh_cntl_hsw written in
      (
        before,
        after,
        error,
        subst (λ evs. Touches free evs s (nugpgpu_gtt_insert_entries st entry level s).1)
            (sym (
              append_assoc (locked (read_events s.regs s.forcewake_count gfx_flsh_cntl_hsw error))
                (locked (write_events s.regs w32 gfx_flsh_cntl_hsw gfx_flsh_cntl_en before after))
                (pte_stores gtt_entries level addrs 0)))
            (traced-Touches s _ read),
        ap (λ (i : ℕ). (i + entry) % 2 ^ 32) (count ∙ zero-add (length addrs)),
      )

  -- What `nugpgpu_gtt_insert` does: the stores at `gtt_entry`, which it moves on, and the flush.
  pub gtt_insert-Touches :
      (st : SgTable) (level : ℕ) (s : State W)
      → length (k.sg_page_dma_addresses st s.world) < 2 ^ 32
      → let addrs = k.sg_page_dma_addresses st s.world in
        (before after error : Bool) × Touches free
          (flush_events s.regs s.forcewake_count before after error
            ++ pte_stores (s.gtt.gsm + 4 * s.gtt_entry) level addrs 0)
          (record s { gtt_entry = (length addrs + s.gtt_entry) % 2 ^ 32 })
          (nugpgpu_gtt_insert st level s).1
        × ((nugpgpu_gtt_insert st level s).0 ≡ s.gtt_entry * page_size % 2 ^ 32)
  unfolding nugpgpu_gtt_insert
  gtt_insert-Touches st level s small =
      let (before, after, error, h, count) =
        insert_entries-Touches st s.gtt_entry level (trace_in s).1 small in
      (
        before,
        after,
        error,
        record {
          regs = h.regs;
          mmio_funcs = h.mmio_funcs;
          forcewake_count = h.forcewake_count;
          gtt = h.gtt;
          ring = h.ring;
          gtt_entry = count;
          debug = h.debug;
          depth = λ small'. omega (arith, h.depth);
          new = h.new;
          grows = h.grows;
          log = h.log;
          lock = h.lock;
        },
        refl,
      )

  entry_at-gtt_insert :
      (st : SgTable) (level index : ℕ) (s : State W)
      → length (k.sg_page_dma_addresses st s.world) < 2 ^ 32
      → entry_at s.gtt.gsm index (nugpgpu_gtt_insert st level s).1.log
        ≡ entry_at s.gtt.gsm index (
            pte_stores (s.gtt.gsm + 4 * s.gtt_entry) level (k.sg_page_dma_addresses st s.world) 0
            ++ s.log)
  entry_at-gtt_insert st level index s small =
      let (before, after, error, h, _) = gtt_insert-Touches st level s small in
      let a = s.gtt.gsm + 4 * index in
      let flush = flush_events s.regs s.forcewake_count before after error in
      let stores =
        pte_stores (s.gtt.gsm + 4 * s.gtt_entry) level (k.sg_page_dma_addresses st s.world) 0 in
      sym (last_store-effects a (nugpgpu_gtt_insert st level s).1.log)
      ∙ ap (last_store a) (h.log ∙ append_assoc flush stores (effects s.log))
      ∙ last_store-flush_events a s.regs s.forcewake_count before after error
          (stores ++ effects s.log)
      ∙ last_store-append a stores (effects s.log) s.log (last_store-effects a s.log)

  translate-gtt_insert :
      (st : SgTable) (level : ℕ) (s : State W)
      → length (k.sg_page_dma_addresses st s.world) < 2 ^ 32
      → (j a offset va : ℕ) → get_elem? (k.sg_page_dma_addresses st s.world) j ≡ some a
      → a % page_size ≡ 0
      → a < 2 ^ 39
      → va / page_size ≡ s.gtt_entry + 0 + j
      → va % page_size ≡ offset
      → translate s.gtt.gsm (nugpgpu_gtt_insert st level s).1.log va ≡ some (a + offset)
  translate-gtt_insert st level s small j a offset va at_j aligned low page rest =
      let l = (nugpgpu_gtt_insert st level s).1.log in
      let find : Option ℕ → Option ℕ =
        Option.map (λ pte. (read_entry pte).address + va % page_size) in
      ap (λ (n : ℕ). find (entry_at s.gtt.gsm n l)) page
      ∙ ap find (
          entry_at-gtt_insert st level (s.gtt_entry + 0 + j) s small
          ∙ entry_at-pte_stores_in s.gtt.gsm s.gtt_entry level (k.sg_page_dma_addresses st s.world)
              0 j a s.log at_j)
      ∙ ap (λ (e : Entry). some (e.address + va % page_size))
          (read_entry-pte_encode a level aligned low)
      ∙ ap (λ (n : ℕ). some (a + n)) rest

  pub insert_va :
      (st : SgTable) (level : ℕ) (s : State W)
      → s.gtt_entry < 2 ^ 20
      → length (k.sg_page_dma_addresses st s.world) < 2 ^ 32
      → (nugpgpu_gtt_insert st level s).0 ≡ s.gtt_entry * page_size
  insert_va st level s inside small =
      let (before, after, error, h, va) = gtt_insert-Touches st level s small in omega (arith, va)

  -- If `for_each_sg_page` visits `n` pages, and `gtt_entry` and the `n` entries from it on lie
  -- within the 2 ^ 20 entries of a 32-bit graphics address space, then the GPU finds each byte of
  -- page `j`, whose DMA address is aligned and below 2 ^ 39, 4096 * j bytes after the graphics
  -- address that `nugpgpu_gtt_insert` returns, plus the byte's offset in the page.
  pub gtt_insert-translate :
      (st : SgTable) (level : ℕ) (s : State W)
      → s.gtt_entry < 2 ^ 20
      → s.gtt_entry + length (k.sg_page_dma_addresses st s.world) ≤ 2 ^ 20
      → (j a offset : ℕ) → get_elem? (k.sg_page_dma_addresses st s.world) j ≡ some a
      → a % page_size ≡ 0
      → a < 2 ^ 39
      → offset < page_size
      → let (va, t) = nugpgpu_gtt_insert st level s in
        translate s.gtt.gsm t.log (va + page_size * j + offset) ≡ some (a + offset)
  gtt_insert-translate st level s inside fits j a offset at_j aligned low within =
      let small : length (k.sg_page_dma_addresses st s.world) < 2 ^ 32 = omega arith in
      let va = insert_va st level s inside small in
      translate-gtt_insert st level s small j a offset _ at_j aligned low (omega (arith, va))
        (omega (arith, va))

  -- If `for_each_sg_page` visits `n` pages, and `gtt_entry` and the `n` entries from it on lie
  -- within the 2 ^ 20 entries of a 32-bit graphics address space, then `nugpgpu_gtt_insert` returns
  -- the graphics address of the entry `gtt_entry`, moves `gtt_entry` past the `n` entries, and
  -- leaves every entry outside them as it was.
  pub gtt_insert-keeps :
      (st : SgTable) (level : ℕ) (s : State W)
      → s.gtt_entry < 2 ^ 20
      → s.gtt_entry + length (k.sg_page_dma_addresses st s.world) ≤ 2 ^ 20
      → (index : ℕ)
      → (index < s.gtt_entry) ⊎ (s.gtt_entry + length (k.sg_page_dma_addresses st s.world) ≤ index)
      → let (va, t) = nugpgpu_gtt_insert st level s in
        (va ≡ s.gtt_entry * page_size)
        × (t.gtt_entry ≡ s.gtt_entry + length (k.sg_page_dma_addresses st s.world))
        × (entry_at s.gtt.gsm index t.log ≡ entry_at s.gtt.gsm index s.log)
  gtt_insert-keeps st level s inside fits index out =
      let addrs = k.sg_page_dma_addresses st s.world in
      let small : length addrs < 2 ^ 32 = omega arith in
      let (before, after, error, h, va) = gtt_insert-Touches st level s small in
      (
        insert_va st level s inside small,
        omega (arith, h.gtt_entry),
        entry_at-gtt_insert st level index s small
            ∙ entry_at-pte_stores_out s.gtt.gsm s.gtt_entry level addrs 0 index s.log (omega arith),
      )

  -- `nugpgpu_gtt_insert` never returns the `(unsigned int) -1` that its callers test for, whatever
  -- the table and the state.
  pub gtt_insert-ne-error :
      (st : SgTable) (level : ℕ) (s : State W) → (nugpgpu_gtt_insert st level s).0 ≢ 2 ^ 32 - 1
  unfolding nugpgpu_gtt_insert
  gtt_insert-ne-error st level s = omega arith
