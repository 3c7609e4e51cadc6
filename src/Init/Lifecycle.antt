-- ===== src/Init/Lifecycle.antt =====
-- The life of a device, as the PCI core and the users of the character device drive nugpgpu_init.c
-- and nugpgpu_ioctl.c.
use nugpgpu.Prelude.{ℕ, ◌≡◌, ◌≢◌, inl, inr, Bool, true, false, ◌==◌}
use nugpgpu.Platform.{Platform}
use nugpgpu.Services.{Services}
use nugpgpu.Fops.{
  Device, Registries, nuioctl_exm_new, exm_new, deeper, shallower, nugpgpu_fops_open,
  nugpgpu_fops_ioctl,
}
use nugpgpu.Fops.Init.{IsDocumented}
use nugpgpu.Init.{Bus, Driver, device_of, with_device, nugpgpu_pci_probe, nugpgpu_pci_remove}
use nugpgpu.Init.Probe.{IsStarted, pci_probe-IsStarted}
use nugpgpu.Init.Registration.{
  IsRegistered, IsUnregistered, pci_probe-BoundOrRefused, pci_remove-IsUnregistered,
}

-- What the PCI core knows of the device: whether the driver has it.
pub data Phase : Type 0 where
  unbound bound : Phase

-- A user's call of the character device.
abbrev pub on_device : {W : Type 0} → (Device W → ℕ × Device W) → Driver W → Driver W
on_device call d = with_device d (call (device_of d)).1

module _ {W : Type 0} ⦃p : Platform W⦄ ⦃k : Services W⦄ ⦃b : Bus W⦄ ⦃g : Registries W⦄ where
  -- One call: the core probes a device that no driver has, and keeps it unbound when the answer is
  -- not 0; it removes a device that is bound, and users open and ioctl one.
  pub data Step : Phase → Driver W → Phase → Driver W → Type 0 where
    probe :
        (d : Driver W) → (nugpgpu_pci_probe d).0 ≡ 0 → Step unbound d bound (nugpgpu_pci_probe d).1
    refuse :
        (d : Driver W)
        → (nugpgpu_pci_probe d).0 ≢ 0
        → Step unbound d unbound (nugpgpu_pci_probe d).1
    user_open : (d : Driver W) → Step bound d bound (on_device nugpgpu_fops_open d)
    user_ioctl :
        (num param : ℕ) (d : Driver W)
        → Step bound d bound (on_device (nugpgpu_fops_ioctl num param) d)
    remove : (d : Driver W) → Step bound d unbound (nugpgpu_pci_remove d)

  -- From the load of the driver, with the struct and the hardware in any state.
  pub data Reach (start : Driver W) : Phase → Driver W → Type 0 where
    loaded : Reach start unbound start
    later : {x y : Phase} {d e : Driver W} → Reach start x d → Step x d y e → Reach start y e

  -- What is registered is what the phase says, and bound hardware is started.
  abbrev pub Sound : Phase → Driver W → Type 0
  Sound unbound d = IsUnregistered g.is_err d
  Sound bound d = IsRegistered g.is_err d × IsStarted d.hw

  -- A user's call does not touch the hardware.
  on_device-Sound :
      (d : Driver W) (depth : ℕ)
      → Sound bound d
      → Sound bound (with_device d (record (device_of d) { depth = depth }))
  on_device-Sound d depth (tracked, (h, count)) =
      (tracked, (record { counted = h.counted; unlocked = h.unlocked; small = h.small }, count))

  ioctl-Sound :
      (new : Bool) (param : ℕ) (d : Driver W)
      → Sound bound d
      → Sound bound (with_device d (shallower (exm_new new param (deeper (device_of d)))))
  ioctl-Sound true param d (tracked, started) =
      let (same, after) = on_device-Sound d _ (tracked, started) in (same, after)
  ioctl-Sound false param d r = on_device-Sound d _ r

  module _ (doc : IsDocumented g) where
    Step-Sound : {x y : Phase} {d e : Driver W} → Step x d y e → Sound x d → Sound y e
    Step-Sound (probe d done) r = elim (pci_probe-BoundOrRefused doc d r) [
      | inl (zero, tracked) ↦ (tracked, pci_probe-IsStarted d done)
      | inr (ne, none) ↦ absurd (ne done)
    ]
    Step-Sound (refuse d ne) r = elim (pci_probe-BoundOrRefused doc d r) [
      | inl (zero, tracked) ↦ absurd (ne zero)
      | inr (ne, none) ↦ none
    ]
    Step-Sound (user_open d) r = on_device-Sound d _ r
    Step-Sound (user_ioctl num param d) r = ioctl-Sound (num == nuioctl_exm_new) param d r
    Step-Sound (remove d) (tracked, started) = pci_remove-IsUnregistered d tracked

    -- If the kernel's registries are as documented and nothing is registered at first, then after
    -- any sequence of probes, refused or not, of opens and ioctls of a bound device and of removes:
    -- nothing is registered while the device is unbound, however often it was bound before; and
    -- while it is bound the whole character device is registered, the lock is free, the hardware is
    -- awake exactly while the count of its holders is above zero, and the count is 0 or 1.
    pub lifecycle-Sound :
        {start d : Driver W} {x : Phase}
        → IsUnregistered g.is_err start
        → Reach start x d
        → Sound x d
    lifecycle-Sound r loaded = r
    lifecycle-Sound r (later h step) = Step-Sound step (lifecycle-Sound r h)
