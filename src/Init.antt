-- ===== src/Init.antt =====
-- nugpgpu_init.c: what the driver does when the PCI core hands it a device, and when it takes it
-- back. A negated error number is its bit pattern.
pub mod Probe
pub mod Registration
pub mod Lifecycle
use nugpgpu.Prelude.{ℕ, ◌+◌, ◌-◌, ◌*◌, ◌%◌, ◌^◌, Bool, true, false, nonzero, ◌==◌, none, List}
use nugpgpu.Platform.{Platform}
use nugpgpu.Services.{Services}
use nugpgpu.Machine.{
  State, MmioFuncs, GpuGtt, M, ◌>>=◌, ◌>>◌, pure, when, trace_in, trace_out, Status, success, eio,
}
use nugpgpu.Regrw.{nugpgpu_read, nugpgpu_write, nugpgpu_regrw_init}
use nugpgpu.Gtt.{nugpgpu_gtt_init}
use nugpgpu.RenderInit.{nugpgpu_ringbuffer_render_init}
use nugpgpu.Fops.{Device, DeviceEvent, Registries, nugpgpu_fops_init, nugpgpu_fops_finish}

-- What nugpgpu_init.c takes from the kernel.
pub record Bus (W : Type 0) : Type 0 where
  pub kzalloc : W → ℕ × W
  pub pci_enable_device : W → ℕ × W
  pub pci_disable_device : W → W
  pub pci_get_bus_and_slot : W → ℕ × W
  pub pci_iomap : ℕ → ℕ → W → ℕ × W
  pub pci_iounmap : ℕ → W → W
  pub pci_set_master : W → W
  pub pci_register_driver : W → ℕ × W
  pub pci_unregister_driver : W → W

-- `struct nugpgpu_private` whole, and the globals; `registry` is the log of the registrations.
pub record Driver (W : Type 0) : Type 0 where
  pub hw : State W
  pub bridge_dev : ℕ
  pub dev : ℕ
  pub dev_class : ℕ
  pub dev_device : ℕ
  pub registry : List DeviceEvent

abbrev pub mi_predicate_result_2 : ℕ
mi_predicate_result_2 = 0x2214

abbrev pub enomem_int : ℕ
enomem_int = 2 ^ 32 - 12

-- `kzalloc` clears the fields of the struct, and leaves the globals.
abbrev pub zero_fields : {W : Type 0} → Driver W → Driver W
zero_fields d = record {
  hw = record (d.hw) {
    regs = 0;
    mmio_funcs = record {
      mmio_readb = none;
      mmio_readw = none;
      mmio_readl = none;
      mmio_readq = none;
      mmio_writeb = none;
      mmio_writew = none;
      mmio_writel = none;
      mmio_writeq = none;
    };
    forcewake_count = 0;
    gtt = record {
      mappable_end = 0;
      mappable = 0;
      mappable_base = 0;
      stolen_size = 0;
      total_size = 0;
      gsm = 0;
      scratch_addr = 0;
      scratch_page = 0;
    };
  };
  bridge_dev = 0;
  dev = 0;
  dev_class = 0;
  dev_device = 0;
  registry = d.registry;
}

-- The fields that the functions of nugpgpu_ioctl.c see, and their return to the struct.
abbrev pub device_of : {W : Type 0} → Driver W → Device W
device_of d = record {
  dev = d.dev;
  dev_class = d.dev_class;
  dev_device = d.dev_device;
  depth = d.hw.depth;
  world = d.hw.world;
  log = d.registry;
}

abbrev pub with_device : {W : Type 0} → Driver W → Device W → Driver W
with_device d v = record {
  hw = record (d.hw) { depth = v.depth; world = v.world };
  bridge_dev = d.bridge_dev;
  dev = v.dev;
  dev_class = v.dev_class;
  dev_device = v.dev_device;
  registry = v.log;
}

-- TRACE_IN and TRACE_OUT
abbrev pub enter : {W : Type 0} → Driver W → Driver W
enter d = record d { hw = (trace_in d.hw).1 }

abbrev pub leave : {W : Type 0} → Driver W → Driver W
leave d = record d { hw = (trace_out d.hw).1 }

module _ {W : Type 0} ⦃p : Platform W⦄ ⦃k : Services W⦄ ⦃b : Bus W⦄ where
  -- A call whose answer is kept, and one without an answer.
  abbrev pub query : (W → ℕ × W) → M W ℕ
  query f s = let r = f s.world in (r.0, record s { world = r.1 })

  abbrev pub perform : (W → W) → M W (Unit {0})
  perform f s = (tt, record s { world = f s.world })

  abbrev pub set_regs : ℕ → M W (Unit {0})
  set_regs a s = (tt, record s { regs = a })

  abbrev pub set_depth : ℕ → M W (Unit {0})
  set_depth n s = (tt, record s { depth = n })

  -- The loading of the module, which begins with TRACE_INIT, and its unloading.
  abbrev pub nugpgpu_init : M W ℕ
  nugpgpu_init = do set_depth 0; trace_in; rc ← query b.pci_register_driver; trace_out; pure rc

  abbrev pub nugpgpu_exit : M W (Unit {0})
  nugpgpu_exit = do trace_in; perform b.pci_unregister_driver; trace_out

  -- What follows `pci_iomap`, by whether it failed: the error return does not pass TRACE_OUT.
  pub mmio_mapped : Bool → M W Status
  mmio_mapped true = pure eio
  mmio_mapped false = do trace_out; pure success

  pub nugpgpu_mmio_map : M W Status
  nugpgpu_mmio_map = do
    trace_in
    regs ← query (b.pci_iomap 0 (2 * 1024 * 1024))
    set_regs regs
    mmio_mapped (regs == 0)

  pub nugpgpu_hw_init : M W (Unit {0})
  nugpgpu_hw_init = do
    trace_in
    _ ← nugpgpu_read mi_predicate_result_2
    nugpgpu_write mi_predicate_result_2 0
    _ ← nugpgpu_read mi_predicate_result_2
    trace_out

  -- The part of the probe that follows the look for the bridge. None of the results is looked at.
  pub start_hardware : M W (Unit {0})
  start_hardware = do
    _ ← nugpgpu_mmio_map
    nugpgpu_regrw_init
    _ ← nugpgpu_gtt_init
    perform b.pci_set_master
    nugpgpu_hw_init
    _ ← nugpgpu_ringbuffer_render_init
    trace_out

  module _ ⦃g : Registries W⦄ where
    -- Each of the following is what comes after one call, by whether that failed; the last first.
    unfoldable pub fops_made : ℕ → Bool → Driver W → ℕ × Driver W
    fops_made ret true d = (ret, leave d)
    fops_made ret false d =
        let (bridge, hw) = query b.pci_get_bus_and_slot d.hw in
        (0, record d { bridge_dev = bridge; hw = (start_hardware hw).1 })

    unfoldable pub device_enabled : ℕ → Bool → Driver W → ℕ × Driver W
    device_enabled ret true d = (ret, leave d)
    device_enabled ret false d =
        let (ret', v) = nugpgpu_fops_init (device_of d) in
        fops_made ret' (nonzero ret') (with_device d v)

    unfoldable pub struct_allocated : Bool → Driver W → ℕ × Driver W
    struct_allocated true d = (enomem_int, leave d)
    struct_allocated false d =
        let (ret, hw) = query b.pci_enable_device (zero_fields d).hw in
        device_enabled ret (nonzero ret) (record (zero_fields d) { hw = hw })

    unfoldable pub nugpgpu_pci_probe : Driver W → ℕ × Driver W
    nugpgpu_pci_probe d =
        let (ptr, hw) = query b.kzalloc (enter d).hw in
        struct_allocated (ptr == 0) (record d { hw = hw })

    pub nugpgpu_pci_remove : Driver W → Driver W
    nugpgpu_pci_remove d =
        let a = with_device (enter d) (nugpgpu_fops_finish (device_of (enter d))) in
        let hw = (when (nonzero a.hw.regs) (perform (b.pci_iounmap a.hw.regs)) a.hw).1 in
        leave (record a { hw = (perform b.pci_disable_device hw).1 })
