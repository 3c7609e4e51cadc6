-- ===== src/Tests/Load.antt =====
-- The theorem on the probe, on a kernel that gives the driver what it asks for.
use nugpgpu.Prelude.{◌-◌, ◌%◌, ◌^◌, ◌≡◌, ◌⊎◌, refl, leb, ltb, ◌&&◌, arith, []}
use nugpgpu.Regrw.Power.{IsPowered}
use nugpgpu.Fops.Init.{IsDocumented}
use nugpgpu.Fops.{
  nugpgpu_fops_open, Registries, nugpgpu_fops_init, region_made, cdev_made, class_made, device_made,
}
use nugpgpu.Init.{Bus, Driver, nugpgpu_pci_probe, struct_allocated, device_enabled, fops_made}
use nugpgpu.Init.Probe.{pci_probe-IsStarted}
use nugpgpu.Init.Registration.{BoundOrRefused, pci_probe-BoundOrRefused}
use nugpgpu.Init.Lifecycle.{
  bound, on_device, probe, user_open, Reach, loaded, later, Sound, lifecycle-Sound,
}
use nugpgpu.Tests.{World, machine, kernel, idle}

instance abbrev bus : Bus World
bus = record {
  kzalloc = λ w. (0x1000, w);
  pci_enable_device = λ w. (0, w);
  pci_disable_device = λ w. w;
  pci_get_bus_and_slot = λ w. (0x2000, w);
  pci_iomap = λ bar size w. (2 ^ 36, w);
  pci_iounmap = λ a w. w;
  pci_set_master = λ w. w;
  pci_register_driver = λ w. (0, w);
  pci_unregister_driver = λ w. w;
}

instance abbrev device_registries : Registries World
device_registries = record {
  alloc_chrdev_region = λ w. ((0, 0x0f000000), w);
  cdev_add = λ dev w. (0, w);
  class_create = λ w. (0x1000, w);
  device_create = λ c v w. (0x2000, w);
  is_err = λ a. leb (2 ^ 64 - 4095) a && ltb a (2 ^ 64);
  ptr_err = λ a. a % 2 ^ 32;
}

abbrev unloaded : Driver World
unloaded = record {
  hw = idle;
  bridge_dev = 0;
  dev = 0;
  dev_class = 0;
  dev_device = 0;
  registry = [];
}

unloaded-probed : (nugpgpu_pci_probe unloaded).0 ≡ 0
unfolding nugpgpu_pci_probe struct_allocated device_enabled fops_made nugpgpu_fops_init region_made
    cdev_made class_made device_made
unloaded-probed = refl

pci_probe-IsStarted_example :
    let t = (nugpgpu_pci_probe unloaded).1.hw in
    IsPowered t × ((t.forcewake_count ≡ 0) ⊎ (t.forcewake_count ≡ 1))
pci_probe-IsStarted_example = pci_probe-IsStarted unloaded unloaded-probed

device_registries-IsDocumented : IsDocumented device_registries
device_registries-IsDocumented = record {
  dev_ne = λ w done. omega arith;
  class_ne = λ w. omega arith;
  device_ne = λ c v w. omega arith;
  err_ne = λ a e. ground arith;
}

pci_probe-BoundOrRefused_example :
    BoundOrRefused device_registries.is_err (nugpgpu_pci_probe unloaded)
pci_probe-BoundOrRefused_example =
    pci_probe-BoundOrRefused device_registries-IsDocumented unloaded refl

-- A device that was opened, after its probe.
opened : Reach unloaded bound (on_device nugpgpu_fops_open (nugpgpu_pci_probe unloaded).1)
opened = later (later loaded (probe unloaded unloaded-probed)) (user_open _)

lifecycle-Sound_example : Sound bound (on_device nugpgpu_fops_open (nugpgpu_pci_probe unloaded).1)
lifecycle-Sound_example = lifecycle-Sound device_registries-IsDocumented refl opened
