-- ===== src/Fops.antt =====
-- nugpgpu_ioctl.c, nugpgpu_ioctl.h and nuioctl.h: the character device, from its registration to its
-- removal. The state is the part of struct nugpgpu_private that these functions use.
pub mod Release
pub mod Init
use nugpgpu.Prelude.{ℕ, ◌+◌, ◌-◌, ◌%◌, ◌^◌, Bool, true, false, leb, nonzero, ◌==◌, List, ◌∷◌}

-- What the kernel was asked for, with its answer, and `user_read`, a load from an address that a user
-- has passed.
pub data DeviceEvent : Type 0 where
  region_allocated : ℕ → DeviceEvent
  region_refused : DeviceEvent
  region_unregistered : ℕ → DeviceEvent
  cdev_inited : DeviceEvent
  cdev_added : ℕ → DeviceEvent
  cdev_deleted : DeviceEvent
  class_created : ℕ → DeviceEvent
  class_destroyed : ℕ → DeviceEvent
  device_created : ℕ → ℕ → DeviceEvent
  device_destroyed : ℕ → ℕ → DeviceEvent
  user_read : ℕ → DeviceEvent

-- `dev` is a device number; `dev_class` and `dev_device` are pointers, 0 for NULL.
pub record Device (W : Type 0) : Type 0 where
  pub dev : ℕ
  pub dev_class : ℕ
  pub dev_device : ℕ
  pub depth : ℕ
  pub world : W
  pub log : List DeviceEvent

-- The kernel's registries. An `int` is its bit pattern. `alloc_chrdev_region` gives its result and
-- the device number that it stores on success; IS_ERR and PTR_ERR read an error out of a pointer.
pub record Registries (W : Type 0) : Type 0 where
  pub alloc_chrdev_region : W → (ℕ × ℕ) × W
  pub cdev_add : ℕ → W → ℕ × W
  pub class_create : W → ℕ × W
  pub device_create : ℕ → ℕ → W → ℕ × W
  pub is_err : ℕ → Bool
  pub ptr_err : ℕ → ℕ

abbrev pub failed_int : ℕ → Bool
failed_int x = leb (2 ^ 31) x

-- `NUIOCTL_EXM_NEW`: `_IOW` of 'N', 0xA0 and the size of a pointer.
abbrev pub nuioctl_exm_new : ℕ
nuioctl_exm_new = 0x40084EA0

abbrev pub deeper : {W : Type 0} → Device W → Device W
deeper d = record d { depth = (d.depth + 1) % 2 ^ 32 }

abbrev pub shallower : {W : Type 0} → Device W → Device W
shallower d = record d { depth = (d.depth + 2 ^ 32 - 1) % 2 ^ 32 }

abbrev pub note : {W : Type 0} → DeviceEvent → Device W → Device W
note e d = record d { log = e ∷ d.log }

-- The three tests of `nugpgpu_fops_finish`, with what is done under each.
pub destroy_device : {W : Type 0} → Bool → Device W → Device W
destroy_device true d = record d {
  dev_device = 0;
  log = device_destroyed d.dev_class d.dev ∷ d.log;
}
destroy_device false d = d

pub destroy_class : {W : Type 0} → Bool → Device W → Device W
destroy_class true d = record d { dev_class = 0; log = class_destroyed d.dev_class ∷ d.log }
destroy_class false d = d

pub unregister_region : {W : Type 0} → Bool → Device W → Device W
unregister_region true d = record d { dev = 0; log = region_unregistered d.dev ∷ d.log }
unregister_region false d = d

pub nugpgpu_fops_finish : {W : Type 0} → Device W → Device W
nugpgpu_fops_finish d =
    let a = destroy_device (nonzero d.dev_device) (deeper d) in
    let b = note cdev_deleted (destroy_class (nonzero a.dev_class) a) in
    shallower (unregister_region (nonzero b.dev) b)

module _ {W : Type 0} ⦃g : Registries W⦄ where
  -- An error return after the first: everything is given back.
  abbrev pub give_back : ℕ → Device W → ℕ × Device W
  give_back ret d = (ret, shallower (nugpgpu_fops_finish d))

  -- Each of the following is what comes after one call, by whether that failed; the last first.
  unfoldable pub device_made : Bool → Device W → ℕ × Device W
  device_made true d = give_back (g.ptr_err d.dev_device) d
  device_made false d = (0, shallower d)

  unfoldable pub class_made : Bool → Device W → ℕ × Device W
  class_made true d = give_back (g.ptr_err d.dev_class) d
  class_made false d =
      let r = g.device_create d.dev_class d.dev d.world in
      device_made (g.is_err r.0)
        (record d { dev_device = r.0; world = r.1; log = device_created d.dev_class r.0 ∷ d.log })

  unfoldable pub cdev_made : ℕ → Bool → Device W → ℕ × Device W
  cdev_made ret true d = give_back ret d
  cdev_made ret false d =
      let r = g.class_create d.world in
      class_made (g.is_err r.0)
        (record d { dev_class = r.0; world = r.1; log = class_created r.0 ∷ d.log })

  unfoldable pub region_made : ℕ → ℕ → Bool → Device W → ℕ × Device W
  region_made ret dev true d = (ret, shallower (note region_refused d))
  region_made ret dev false d =
      let r = g.cdev_add dev d.world in
      cdev_made r.0 (failed_int r.0) (record d {
        dev = dev;
        world = r.1;
        log = cdev_added r.0 ∷ cdev_inited ∷ region_allocated dev ∷ d.log;
      })

  unfoldable pub nugpgpu_fops_init : Device W → ℕ × Device W
  nugpgpu_fops_init d =
      let ((ret, dev), w) = g.alloc_chrdev_region d.world in
      region_made ret dev (failed_int ret) (record (deeper d) { world = w })

abbrev pub nugpgpu_fops_open : {W : Type 0} → Device W → ℕ × Device W
nugpgpu_fops_open d = (0, shallower (deeper d))

-- The only case of the switch: the length is printed, which stands behind the pointer in `struct
-- nuioctl`. It is loaded through the address that the user passes, whatever that is; that the load
-- may fault is not modelled.
abbrev pub exm_new : {W : Type 0} → Bool → ℕ → Device W → Device W
exm_new true ioctl_param d = note (user_read (ioctl_param + 8)) d
exm_new false ioctl_param d = d

-- Every number is answered with 0.
abbrev pub nugpgpu_fops_ioctl : {W : Type 0} → ℕ → ℕ → Device W → ℕ × Device W
nugpgpu_fops_ioctl ioctl_num ioctl_param d =
    (0, shallower (exm_new (ioctl_num == nuioctl_exm_new) ioctl_param (deeper d)))
