-- ===== src/Init/Registration.antt =====
-- `nugpgpu_pci_probe` and `nugpgpu_pci_remove` of nugpgpu_init.c: what is registered with the kernel
-- after each.
use nugpgpu.Prelude.{ℕ, ◌≡◌, ◌≢◌, ◌⊎◌, inl, inr, refl, arith, Bool, true, false, nonzero}
use nugpgpu.Platform.{Platform}
use nugpgpu.Services.{Services}
use nugpgpu.Fops.{Device, Registries}
use nugpgpu.Fops.Release.{registered, nothing_registered, IsTracked, fops_finish-releases}
use nugpgpu.Fops.Init.{IsDocumented, AllOrNothing, fops_init-AllOrNothing}
use nugpgpu.Init.{
  Bus, Driver, device_of, enter, with_device, fops_made, device_enabled, struct_allocated,
  nugpgpu_pci_probe, nugpgpu_pci_remove,
}

-- The whole character device, with its fields set.
abbrev pub IsRegistered : {W : Type 0} → (ℕ → Bool) → Driver W → Type 0
IsRegistered is_err d = IsTracked is_err true true true true (device_of d)

-- Nothing that the kernel still knows of.
abbrev pub IsUnregistered : {W : Type 0} → (ℕ → Bool) → Driver W → Type 0
IsUnregistered is_err d = registered is_err d.registry ≡ nothing_registered

-- The outcomes of a probe.
abbrev pub BoundOrRefused : {W : Type 0} → (ℕ → Bool) → ℕ × Driver W → Type 0
BoundOrRefused is_err r =
    ((r.0 ≡ 0) × IsRegistered is_err r.1) ⊎ ((r.0 ≢ 0) × IsUnregistered is_err r.1)

module _ {W : Type 0} ⦃p : Platform W⦄ ⦃k : Services W⦄ ⦃b : Bus W⦄ ⦃g : Registries W⦄ where
  fops_made-BoundOrRefused :
      (ret : ℕ) (failed : Bool) (d : Driver W) (v : Device W)
      → nonzero ret ≡ failed
      → AllOrNothing g.is_err (ret, v)
      → BoundOrRefused g.is_err (fops_made ret failed (with_device d v))
  unfolding fops_made
  fops_made-BoundOrRefused ret true d v e (inl (zero, tracked)) = absurd (ground arith)
  fops_made-BoundOrRefused ret true d v e (inr (ne, r, no_dev, no_class, no_device)) = inr (ne, r)
  fops_made-BoundOrRefused ret false d v e (inl (zero, tracked)) = inl (refl, tracked)
  fops_made-BoundOrRefused ret false d v e (inr (ne, r, no_dev, no_class, no_device)) =
      absurd (ground arith)

  module _ (doc : IsDocumented g) where
    device_enabled-BoundOrRefused :
        (ret : ℕ) (failed : Bool) (d : Driver W)
        → nonzero ret ≡ failed
        → IsUnregistered g.is_err d
        → d.dev ≡ 0
        → d.dev_class ≡ 0
        → d.dev_device ≡ 0
        → BoundOrRefused g.is_err (device_enabled ret failed d)
    unfolding device_enabled
    device_enabled-BoundOrRefused ret true d e r no_dev no_class no_device = inr (ground arith, r)
    device_enabled-BoundOrRefused ret false d e r no_dev no_class no_device =
        fops_made-BoundOrRefused _ _ d _ refl
          (fops_init-AllOrNothing doc (device_of d) r no_dev no_class no_device)

    struct_allocated-BoundOrRefused :
        (failed : Bool) (d : Driver W)
        → IsUnregistered g.is_err d
        → BoundOrRefused g.is_err (struct_allocated failed d)
    unfolding struct_allocated
    struct_allocated-BoundOrRefused true d r = inr (omega arith, r)
    struct_allocated-BoundOrRefused false d r =
        device_enabled-BoundOrRefused _ _ _ refl r refl refl refl

    -- If the kernel's registries are as documented and nothing is registered, then
    -- `nugpgpu_pci_probe` either returns 0, with the whole character device registered and its
    -- fields set, or returns another number, with nothing registered, whichever call failed.
    pub pci_probe-BoundOrRefused :
        (d : Driver W) → IsUnregistered g.is_err d → BoundOrRefused g.is_err (nugpgpu_pci_probe d)
    unfolding nugpgpu_pci_probe
    pci_probe-BoundOrRefused d r = struct_allocated-BoundOrRefused _ _ r

  -- After `nugpgpu_pci_remove` on a device that is wholly registered, nothing is registered.
  pub pci_remove-IsUnregistered :
      (d : Driver W) → IsRegistered g.is_err d → IsUnregistered g.is_err (nugpgpu_pci_remove d)
  unfolding nugpgpu_pci_remove
  pci_remove-IsUnregistered d r =
      (fops_finish-releases g.is_err true true true true (device_of (enter d)) r).0
