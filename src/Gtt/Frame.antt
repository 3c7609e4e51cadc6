-- ===== src/Gtt/Frame.antt =====
-- `nugpgpu_gtt_insert` and the calls of the kernel's services, as steps that keep a `Frame`.
use nugpgpu.Prelude.{
  ℕ, ◌+◌, ◌-◌, ◌*◌, ◌%◌, ◌^◌, refl, List, [], ◌∷◌, nonzero, true, Bool-cases, inl, inr, ◌==◌,
}
use nugpgpu.Platform.{Platform, w32}
use nugpgpu.Services.{Services, SgTable}
use nugpgpu.Machine.{State, KernelCall, ◌>>=◌, pure, trace_in, mem_read}
use nugpgpu.Regrw.Frame.{
  Frame, trace_in-rel, trace_out-rel, mem_read-rel, mem_write-rel, gpu_read-rel, gpu_write-rel,
  when-rel,
}
use nugpgpu.Gtt.{
  ask, tell, set_gtt, is_error, page_fault_reg, set_dma_masks, probe_and_map, scratchpage_setup,
  nugpgpu_gtt_probe, nugpgpu_check_stolen, nugpgpu_gtt_init, nugpgpu_gtt_insert,
  nugpgpu_gtt_insert_entries, insert_loop, nugpgpu_pte_encode, gfx_flsh_cntl_hsw, gfx_flsh_cntl_en,
}

module _ {W : Type 0} ⦃p : Platform W⦄ ⦃k : Services W⦄ (f : Frame W) {s : State W} where
  pub ask-rel :
      {t : State W}
      → f.rel s t
      → (answer : W → ℕ × W) (c : ℕ → KernelCall) → f.rel s (ask answer c t).1
  ask-rel {t} h answer c = f.unseen (ask answer c t).1 h refl refl refl refl

  pub tell-rel :
      {t : State W} → f.rel s t → (change : W → W) (c : KernelCall) → f.rel s (tell change c t).1
  tell-rel {t} h change c = f.unseen (tell change c t).1 h refl refl refl refl

  insert_loop-rel :
      (gtt_entries level : ℕ) (addrs : List ℕ) (i addr : ℕ) {t : State W}
      → f.rel s t
      → f.rel s (insert_loop gtt_entries level addrs i addr t).1
  unfolding insert_loop
  insert_loop-rel gtt_entries level [] i addr h = h
  insert_loop-rel gtt_entries level (a ∷ rest) i addr h =
      insert_loop-rel gtt_entries level rest ((i + 1) % 2 ^ 32) a
        (mem_write-rel f h (gtt_entries + 4 * i) (nugpgpu_pte_encode a level true))

  insert_entries-rel :
      f.allowed gfx_flsh_cntl_hsw
      → (st : SgTable) (entry level : ℕ) {t : State W} → f.rel s t
      → f.rel s (nugpgpu_gtt_insert_entries st entry level t).1
  unfolding nugpgpu_gtt_insert_entries
  insert_entries-rel flush st entry level {t} h =
      let gtt_entries = t.gtt.gsm + 4 * entry in
      let addrs = k.sg_page_dma_addresses st t.world in
      let ((i, addr), u) = insert_loop gtt_entries level addrs 0 0 (trace_in t).1 in
      let a = insert_loop-rel gtt_entries level addrs 0 0 (trace_in-rel f h) in
      let b =
        when-rel f a (nonzero i) (do _ ← mem_read (gtt_entries + 4 * (i - 1)); pure tt)
          (mem_read-rel f a (gtt_entries + 4 * (i - 1))) in
      let c = gpu_write-rel f b w32 gfx_flsh_cntl_hsw gfx_flsh_cntl_en flush in
      trace_out-rel f (gpu_read-rel f c w32 gfx_flsh_cntl_hsw)

  pub gtt_insert-rel :
      f.allowed gfx_flsh_cntl_hsw
      → (st : SgTable) (level : ℕ) {t : State W} → f.rel s t
      → f.rel s (nugpgpu_gtt_insert st level t).1
  unfolding nugpgpu_gtt_insert
  gtt_insert-rel flush st level {t} h =
      f.unseen (nugpgpu_gtt_insert st level t).1
        (insert_entries-rel flush st t.gtt_entry level (trace_in-rel f h)) refl refl refl refl

  set_dma_masks-rel : {t : State W} → f.rel s t → f.rel s (set_dma_masks t).1
  unfolding set_dma_masks
  set_dma_masks-rel {t} h =
      let a = ask-rel h (k.pci_set_dma_mask 40) (λ _. KernelCall.pci_set_dma_mask 40) in
      when-rel f a ((k.pci_set_dma_mask 40 t.world).0 == 0)
        (do
          _ ←
              ask (k.pci_set_consistent_dma_mask 40)
                (λ _. KernelCall.pci_set_consistent_dma_mask 40)
          pure tt)
        (ask-rel a (k.pci_set_consistent_dma_mask 40)
          (λ _. KernelCall.pci_set_consistent_dma_mask 40))

  probe_and_map-rel : {t : State W} → f.rel s t → f.rel s (probe_and_map t).1
  unfolding probe_and_map
  probe_and_map-rel {t} h =
      let g = record (t.gtt) {
        mappable_base = k.pci_resource_start 2;
        mappable_end = k.pci_resource_len 2;
      } in
      let a = set_dma_masks-rel (f.unseen (set_gtt g t).1 h refl refl refl refl) in
      f.unseen (probe_and_map t).1 a refl refl refl refl

  scratchpage_setup-rel : {t : State W} → f.rel s t → f.rel s (scratchpage_setup t).1
  unfolding scratchpage_setup
  scratchpage_setup-rel {t} h = elim (Bool-cases ((k.alloc_page t.world).0 == 0)) [
    | inl e ↦ rw (e, scratchpage_setup) (f.unseen _ h refl refl refl refl)
    | inr e ↦ rw (e, scratchpage_setup) (f.unseen _ h refl refl refl refl)
  ]

  gtt_probe-rel : {t : State W} → f.rel s t → f.rel s (nugpgpu_gtt_probe t).1
  unfolding nugpgpu_gtt_probe
  gtt_probe-rel {t} h =
      let (gsm, mapped) = probe_and_map (trace_in t).1 in
      let a = scratchpage_setup-rel (probe_and_map-rel (trace_in-rel f h)) in
      trace_out-rel f (
        when-rel f a (is_error (scratchpage_setup mapped).0)
          (tell (k.iounmap gsm) (KernelCall.iounmap gsm))
          (tell-rel a (k.iounmap gsm) (KernelCall.iounmap gsm)))

  pub gtt_init-rel : {t : State W} → f.rel s t → f.rel s (nugpgpu_gtt_init t).1
  unfolding nugpgpu_gtt_init nugpgpu_check_stolen
  gtt_init-rel {t} h =
      let (ret, u) = nugpgpu_gtt_probe (trace_in t).1 in
      let mapped =
        ask (k.io_mapping_create_wc u.gtt.mappable_base (u.gtt.mappable_end % 2 ^ 32))
          (KernelCall.io_mapping_create_wc u.gtt.mappable_base (u.gtt.mappable_end % 2 ^ 32)) u in
      let checked =
        (nugpgpu_check_stolen (set_gtt (record (u.gtt) { mappable = mapped.0 }) mapped.1).1).1 in
      let a = f.unseen checked (gtt_probe-rel (trace_in-rel f h)) refl refl refl refl in
      trace_out-rel f (gpu_read-rel f a w32 page_fault_reg)
