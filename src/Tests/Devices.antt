-- ===== src/Tests/Devices.antt =====
-- The theorem on the table of devices, on two ids of drm/i915_pciids.h.
use nugpgpu.Prelude.{ℕ, ◌-◌, ◌^◌, ◌≡◌, refl, [], ◌∷◌, Option, some}
use nugpgpu.Vendor.{IntelDeviceInfo, PciDeviceId, IdLists, nugpgpu_id_list, nugpgpu_pci_idlist}
use nugpgpu.Vendor.Ids.{ids_read, AllSupported, id_list-AllSupported}

-- INTEL_VGA_DEVICE
abbrev vga_device : ℕ → Option IntelDeviceInfo → PciDeviceId
vga_device id info = record {
  vendor = 0x8086;
  device = id;
  subvendor = 2 ^ 32 - 1;
  subdevice = 2 ^ 32 - 1;
  class = 0x030000;
  class_mask = 0xff0000;
  driver_data = info;
}

abbrev two_lists : IdLists
two_lists = record {
  intel_hsw_d_ids = λ i. vga_device 0x0402 i ∷ vga_device 0x0412 i ∷ [];
  intel_hsw_m_ids = λ i. vga_device 0x0416 i ∷ [];
}

id_list-AllSupported_example :
    (ids_read (nugpgpu_id_list two_lists) ≡ some (nugpgpu_pci_idlist two_lists))
    × AllSupported (nugpgpu_pci_idlist two_lists)
id_list-AllSupported_example =
    id_list-AllSupported two_lists
      (record { d_ids = λ i. (refl, refl, (refl, refl, tt)); m_ids = λ i. (refl, refl, tt) })
