-- ===== src/Gtt/Probe.antt =====
-- `nugpgpu_gtt_probe`: the sizes that it reads, and what it leaves when the scratch page fails.
use nugpgpu.Prelude.{
  ℕ, ◌*◌, ◌/◌, ◌%◌, ◌^◌, ◌≡◌, ◌≢◌, ◌∙◌, refl, sym, ap, ◌↔◌, true, false, arith, List, ◌∷◌,
}
use nugpgpu.Prelude.Bits.{and_mask}
use nugpgpu.Platform.{Platform}
use nugpgpu.Services.{Services}
use nugpgpu.Machine.{
  State, Event, GpuGtt, trace_in, KernelCall, call, when, Status, success, enomem,
}
use nugpgpu.Gtt.{
  stolen_of, gtt_size_of, is_error, scratchpage_setup, nugpgpu_gtt_probe, tell, probe_and_map,
  set_dma_masks, set_dma_masks, hsw_gmch_ctrl,
}

-- The control word's fields: bits 7:3 count 32 MB of stolen memory, and bits 9:8 count MB of table,
-- of which each maps 1 GB.
sizes_lem :
    (ctl : ℕ)
    → (stolen_of ctl ≡ ctl / 2 ^ 3 % 2 ^ 5 * 2 ^ 25)
      × (gtt_size_of ctl / 4 * 2 ^ 12 ≡ ctl / 2 ^ 8 % 2 ^ 2 * 2 ^ 30)
sizes_lem ctl = (
  ap (λ (t : ℕ). t * 2 ^ 25) (and_mask 5 (ctl / 2 ^ 3)),
  ap (λ (t : ℕ). t * 2 ^ 20 / 4 * 2 ^ 12) (and_mask 2 (ctl / 2 ^ 8)) ∙ omega arith,
)

module _ {W : Type 0} ⦃p : Platform W⦄ ⦃k : Services W⦄ where
  scratchpage_setup-gtt :
      (s : State W)
      → let t = (scratchpage_setup s).1 in
        (t.gtt.stolen_size ≡ s.gtt.stolen_size)
        × (t.gtt.total_size ≡ s.gtt.total_size)
        × (t.gtt.mappable_base ≡ s.gtt.mappable_base)
        × (t.gtt.mappable_end ≡ s.gtt.mappable_end)
        × (t.gtt.gsm ≡ s.gtt.gsm)
        × (t.gtt_entry ≡ s.gtt_entry)
  unfolding scratchpage_setup
  scratchpage_setup-gtt s = ground arith

  -- What follows `scratchpage_setup`: its failure unmaps the table, and `gsm` keeps the address.
  unmap-gtt :
      (ret : Status) (gsm : ℕ) (s : State W)
      → (when (is_error ret) (tell (k.iounmap gsm) (KernelCall.iounmap gsm)) s).1.gtt ≡ s.gtt
  unmap-gtt success gsm s = refl
  unmap-gtt _ gsm s = refl

  unmap-log :
      (ret : Status) (gsm : ℕ) (s : State W)
      → is_error ret ≡ true
      → (when (is_error ret) (tell (k.iounmap gsm) (KernelCall.iounmap gsm)) s).1.log
        ≡ call (KernelCall.iounmap gsm) ∷ s.log
  unmap-log ret gsm s e = rw (e, when)

  set_dma_masks-gtt : (s : State W) → (set_dma_masks s).1.gtt ≡ s.gtt
  unfolding set_dma_masks
  set_dma_masks-gtt s = ground arith

  -- The word that HSW_GMCH_CTRL holds when the probe reads it, after it has set the DMA masks.
  abbrev pub control_word : State W → ℕ
  control_word s =
      let masked = set_dma_masks (record s {
        gtt = record (s.gtt) {
          mappable_base = k.pci_resource_start 2;
          mappable_end = k.pci_resource_len 2;
        };
      }) in
      (k.pci_read_config hsw_gmch_ctrl masked.1.world).0 % 2 ^ 16

  probe_and_map-gtt :
      (s : State W)
      → let (gsm, t) = probe_and_map s in
        let ctl = control_word s in
        (t.gtt.stolen_size ≡ ctl / 2 ^ 3 % 2 ^ 5 * 2 ^ 25)
        × (t.gtt.total_size ≡ ctl / 2 ^ 8 % 2 ^ 2 * 2 ^ 30)
        × (t.gtt.mappable_base ≡ k.pci_resource_start 2)
        × (t.gtt.mappable_end ≡ k.pci_resource_len 2)
        × (t.gtt.gsm ≡ gsm)
  unfolding probe_and_map
  probe_and_map-gtt s =
      let set = set_dma_masks-gtt (record s {
        gtt = record (s.gtt) {
          mappable_base = k.pci_resource_start 2;
          mappable_end = k.pci_resource_len 2;
        };
      }) in
      (
        (sizes_lem (control_word s)).0,
        (sizes_lem (control_word s)).1,
        ap (λ (g : GpuGtt). g.mappable_base) set,
        ap (λ (g : GpuGtt). g.mappable_end) set,
        refl,
      )

  -- `nugpgpu_gtt_probe` fills in the sizes from one word of configuration space, on success and on
  -- failure alike, the word that HSW_GMCH_CTRL holds once the DMA masks are set: its bits 7:3 count
  -- 32 MB of stolen memory and its bits 9:8 count GB of mapped memory. The aperture is the PCI
  -- resource 2.
  pub gtt_probe-sizes :
      (s : State W)
      → let t = (nugpgpu_gtt_probe s).1 in
        let ctl = control_word (trace_in s).1 in
        (t.gtt.stolen_size ≡ ctl / 2 ^ 3 % 2 ^ 5 * 2 ^ 25)
        × (t.gtt.total_size ≡ ctl / 2 ^ 8 % 2 ^ 2 * 2 ^ 30)
        × (t.gtt.mappable_base ≡ k.pci_resource_start 2)
        × (t.gtt.mappable_end ≡ k.pci_resource_len 2)
  unfolding nugpgpu_gtt_probe
  gtt_probe-sizes s =
      let (gsm, mapped) = probe_and_map (trace_in s).1 in
      let (stolen, total, base, end, _) = probe_and_map-gtt (trace_in s).1 in
      let (ret, scratched) = scratchpage_setup mapped in
      let kept = scratchpage_setup-gtt mapped in
      let same = unmap-gtt ret gsm scratched in
      (
        ap (λ (g : GpuGtt). g.stolen_size) same ∙ kept.0 ∙ stolen,
        ap (λ (g : GpuGtt). g.total_size) same ∙ kept.1 ∙ total,
        ap (λ (g : GpuGtt). g.mappable_base) same ∙ kept.2 ∙ base,
        ap (λ (g : GpuGtt). g.mappable_end) same ∙ kept.3 ∙ end,
      )

  -- When `nugpgpu_gtt_probe` fails, the last thing it has done is to unmap the page table, and
  -- `gtt.gsm`, through which entries are written, still holds the unmapped address.
  pub gtt_probe-leaves_unmapped :
      (s : State W)
      → is_error (nugpgpu_gtt_probe s).0 ≡ true
      → let t = (nugpgpu_gtt_probe s).1 in
        (l : List Event) × (t.log ≡ call (KernelCall.iounmap t.gtt.gsm) ∷ l)
  unfolding nugpgpu_gtt_probe
  gtt_probe-leaves_unmapped s failed =
      let (gsm, mapped) = probe_and_map (trace_in s).1 in
      let (_, _, _, _, held) = probe_and_map-gtt (trace_in s).1 in
      let (ret, scratched) = scratchpage_setup mapped in
      let same = unmap-gtt ret gsm scratched in
      let at_gsm = ap (λ (g : GpuGtt). g.gsm) same ∙ (scratchpage_setup-gtt mapped).4 ∙ held in
      (
        scratched.log,
        unmap-log ret gsm scratched failed
            ∙ ap (λ (a : ℕ). call (KernelCall.iounmap a) ∷ scratched.log) (sym at_gsm),
      )

  -- `scratchpage_setup` stores the page that the allocator gives, succeeds exactly if that is a page
  -- and its mapping has no error, and fails with ENOMEM exactly if it is none.
  pub scratchpage_setup_lem :
      (s : State W)
      → let (page, w) = k.alloc_page s.world in
        let (ret, t) = scratchpage_setup s in
        ((ret ≡ success) ↔ ((page ≢ 0) × (k.pci_dma_mapping_error t.gtt.scratch_addr ≡ false)))
        × (t.gtt.scratch_page ≡ page)
        × ((ret ≡ enomem) ↔ (page ≡ 0))
  unfolding scratchpage_setup
  scratchpage_setup_lem s = ground arith
