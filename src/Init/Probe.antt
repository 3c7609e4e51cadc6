-- ===== src/Init/Probe.antt =====
-- `nugpgpu_pci_probe`: the state of the hardware after a probe that succeeds, and what is registered
-- after one that fails.
use nugpgpu.Prelude.{ℕ, ◌≡◌, ◌⊎◌, inl, inr, ◌∙◌, refl, ap, arith, Bool, true, false, nonzero}
use nugpgpu.Platform.{Platform, w32}
use nugpgpu.Services.{Services}
use nugpgpu.Machine.{State, Status, success, failure, enomem, einval, eio, enospc}
use nugpgpu.Regrw.{nugpgpu_regrw_init}
use nugpgpu.Regrw.Power.{IsPowered}
use nugpgpu.Regrw.Wake.{nugpgpu_regrw_init-IsPowered}
use nugpgpu.Regrw.Frame.{trace_in-rel, trace_out-rel, gpu_read-rel, gpu_write-rel}
use nugpgpu.Regrw.Kept.{Kept, Kept-refl, Kept-unseen, kept}
use nugpgpu.Gtt.{nugpgpu_gtt_init}
use nugpgpu.Gtt.Frame.{gtt_init-rel}
use nugpgpu.RenderInit.{nugpgpu_ringbuffer_render_init}
use nugpgpu.RenderInit.Holders.{holders_left, render_init-holders}
use nugpgpu.Fops.{Registries, nugpgpu_fops_init}
use nugpgpu.Init.{
  Bus, Driver, mi_predicate_result_2, perform, mmio_mapped, nugpgpu_mmio_map, nugpgpu_hw_init,
  start_hardware, fops_made, device_enabled, struct_allocated, nugpgpu_pci_probe, zero_fields,
  device_of,
}

holders_left-cases : (ret : Status) → (holders_left ret 0 ≡ 0) ⊎ (holders_left ret 0 ≡ 1)
holders_left-cases success = inl refl
holders_left-cases failure = inl refl
holders_left-cases enomem = inl refl
holders_left-cases einval = inl refl
holders_left-cases eio = inr refl
holders_left-cases enospc = inl refl

-- The hardware at rest, or held by the ring that did not start.
abbrev pub IsStarted : {W : Type 0} → State W → Type 0
IsStarted t = IsPowered t × ((t.forcewake_count ≡ 0) ⊎ (t.forcewake_count ≡ 1))

module _ {W : Type 0} ⦃p : Platform W⦄ ⦃k : Services W⦄ ⦃b : Bus W⦄ where
  forcewake_count-mmio_mapped :
      (failed : Bool) (s : State W) → (mmio_mapped failed s).1.forcewake_count ≡ s.forcewake_count
  unfolding mmio_mapped
  forcewake_count-mmio_mapped true s = refl
  forcewake_count-mmio_mapped false s = refl

  forcewake_count-mmio_map :
      (s : State W) → (nugpgpu_mmio_map s).1.forcewake_count ≡ s.forcewake_count
  unfolding nugpgpu_mmio_map
  forcewake_count-mmio_map s = forcewake_count-mmio_mapped _ _

  hw_init-Kept : {s t : State W} → Kept s t → Kept s (nugpgpu_hw_init t).1
  unfolding nugpgpu_hw_init
  hw_init-Kept h =
      let a = gpu_read-rel kept (trace_in-rel kept h) w32 mi_predicate_result_2 in
      let c = gpu_write-rel kept a w32 mi_predicate_result_2 0 (omega arith) in
      trace_out-rel kept (gpu_read-rel kept c w32 mi_predicate_result_2)

  start_hardware-IsStarted : (s : State W) → s.forcewake_count ≡ 0 → IsStarted (start_hardware s).1
  unfolding start_hardware
  start_hardware-IsStarted s e =
      let mapped = (nugpgpu_mmio_map s).1 in
      let r = (nugpgpu_regrw_init mapped).1 in
      let (powered, none_held, _) =
        nugpgpu_regrw_init-IsPowered mapped (forcewake_count-mmio_map s ∙ e) in
      let a = gtt_init-rel kept (Kept-refl r) in
      let m = (perform b.pci_set_master (nugpgpu_gtt_init r).1).1 in
      let c = hw_init-Kept (Kept-unseen m a refl refl refl refl) in
      let h = (nugpgpu_hw_init m).1 in
      let held : h.forcewake_count ≡ 0 = c.count ∙ none_held in
      let (ret, t) = nugpgpu_ringbuffer_render_init h in
      let (done, count) = render_init-holders h (c.powered powered) (omega arith) in
      let left : t.forcewake_count ≡ holders_left ret 0 = count ∙ ap (holders_left ret) held in
      let end = trace_out-rel kept (Kept-refl t) in
      (
        end.powered done,
        elim (holders_left-cases ret) [ inl zero ↦ inl (left ∙ zero) | inr one ↦ inr (left ∙ one) ],
      )

  module _ ⦃g : Registries W⦄ where
    fops_made-IsStarted :
        (ret : ℕ) (failed : Bool) (d : Driver W)
        → nonzero ret ≡ failed
        → d.hw.forcewake_count ≡ 0
        → (fops_made ret failed d).0 ≡ 0
        → IsStarted (fops_made ret failed d).1.hw
    unfolding fops_made
    fops_made-IsStarted ret true d e none_held done = absurd (ground arith)
    fops_made-IsStarted ret false d e none_held done = start_hardware-IsStarted _ none_held

    device_enabled-IsStarted :
        (ret : ℕ) (failed : Bool) (d : Driver W)
        → nonzero ret ≡ failed
        → d.hw.forcewake_count ≡ 0
        → (device_enabled ret failed d).0 ≡ 0
        → IsStarted (device_enabled ret failed d).1.hw
    unfolding device_enabled
    device_enabled-IsStarted ret true d e none_held done = absurd (ground arith)
    device_enabled-IsStarted ret false d e none_held done =
        fops_made-IsStarted (nugpgpu_fops_init (device_of d)).0 _ _ refl none_held done

    struct_allocated-IsStarted :
        (failed : Bool) (d : Driver W)
        → (struct_allocated failed d).0 ≡ 0
        → IsStarted (struct_allocated failed d).1.hw
    unfolding struct_allocated
    struct_allocated-IsStarted true d done = absurd (ground arith)
    struct_allocated-IsStarted false d done =
        device_enabled-IsStarted (b.pci_enable_device (zero_fields d).hw.world).0 _ _ refl refl done

    -- After a `nugpgpu_pci_probe` that returns 0, whatever the mapping of the registers, the page
    -- table and the ring came to, the lock is free and the hardware is awake exactly while the count
    -- of its holders is above zero; the count is 0, or 1.
    pub pci_probe-IsStarted :
        (d : Driver W)
        → (nugpgpu_pci_probe d).0 ≡ 0
        → let t = (nugpgpu_pci_probe d).1.hw in
          IsPowered t × ((t.forcewake_count ≡ 0) ⊎ (t.forcewake_count ≡ 1))
    unfolding nugpgpu_pci_probe
    pci_probe-IsStarted d done = struct_allocated-IsStarted _ _ done
