-- ===== src/Gtt/Fields.antt =====
-- `nugpgpu_gtt_insert` of nugpgpu_gtt.c leaves the fields of the page table and the ring alone, and
-- answers by the cursor, whatever the table.
use nugpgpu.Prelude.{
  ℕ, ◌+◌, ◌-◌, ◌*◌, ◌%◌, ◌^◌, ◌≡◌, ◌∙◌, refl, Bool, true, false, List, [], ◌∷◌, nonzero,
}
use nugpgpu.Platform.{Platform, w32}
use nugpgpu.Services.{Services, SgTable}
use nugpgpu.Machine.{State, when, ◌>>=◌, pure, trace_in, mem_read, mem_write}
use nugpgpu.Regrw.{gpu_write}
use nugpgpu.Regrw.Access.{gpu_read-Touches, gpu_write-Touches}
use nugpgpu.Gtt.{
  page_size, nugpgpu_gtt_insert, nugpgpu_gtt_insert_entries, insert_loop, nugpgpu_pte_encode,
  gfx_flsh_cntl_hsw, gfx_flsh_cntl_en,
}

module _ {W : Type 0} ⦃p : Platform W⦄ ⦃k : Services W⦄ where
  insert_loop-fields :
      (gtt_entries level : ℕ) (addrs : List ℕ) (i addr : ℕ) (t : State W)
      → let u = (insert_loop gtt_entries level addrs i addr t).1 in
        (u.gtt ≡ t.gtt) × (u.ring ≡ t.ring)
  unfolding insert_loop
  insert_loop-fields gtt_entries level [] i addr t = (refl, refl)
  insert_loop-fields gtt_entries level (a ∷ rest) i addr t =
      insert_loop-fields gtt_entries level rest ((i + 1) % 2 ^ 32) a
        (mem_write (gtt_entries + 4 * i) (nugpgpu_pte_encode a level true) t).1

  verify-fields :
      (b : Bool) (a : ℕ) (t : State W)
      → let u = (when b (do _ ← mem_read a; pure tt) t).1 in (u.gtt ≡ t.gtt) × (u.ring ≡ t.ring)
  verify-fields true a t = (refl, refl)
  verify-fields false a t = (refl, refl)

  insert_entries-fields :
      (st : SgTable) (entry level : ℕ) (t : State W)
      → let u = (nugpgpu_gtt_insert_entries st entry level t).1 in
        (u.gtt ≡ t.gtt) × (u.ring ≡ t.ring)
  unfolding nugpgpu_gtt_insert_entries
  insert_entries-fields st entry level t =
      let gtt_entries = t.gtt.gsm + 4 * entry in
      let addrs = k.sg_page_dma_addresses st t.world in
      let ((i, addr), u) = insert_loop gtt_entries level addrs 0 0 (trace_in t).1 in
      let (a_gtt, a_ring) = insert_loop-fields gtt_entries level addrs 0 0 (trace_in t).1 in
      let (b_gtt, b_ring) = verify-fields (nonzero i) (gtt_entries + 4 * (i - 1)) u in
      let v = (when (nonzero i) (do _ ← mem_read (gtt_entries + 4 * (i - 1)); pure tt) u).1 in
      let (before, after, c) = gpu_write-Touches w32 gfx_flsh_cntl_hsw gfx_flsh_cntl_en v in
      let (error, d) =
        gpu_read-Touches w32 gfx_flsh_cntl_hsw
          (gpu_write w32 gfx_flsh_cntl_hsw gfx_flsh_cntl_en v).1 in
      (d.gtt ∙ c.gtt ∙ b_gtt ∙ a_gtt, d.ring ∙ c.ring ∙ b_ring ∙ a_ring)

  pub gtt_insert-fields :
      (st : SgTable) (level : ℕ) (t : State W)
      → let (va, u) = nugpgpu_gtt_insert st level t in
        (va ≡ t.gtt_entry * page_size % 2 ^ 32) × (u.gtt ≡ t.gtt) × (u.ring ≡ t.ring)
  unfolding nugpgpu_gtt_insert
  gtt_insert-fields st level t =
      let (same, ring) = insert_entries-fields st t.gtt_entry level (trace_in t).1 in
      (refl, same, ring)
