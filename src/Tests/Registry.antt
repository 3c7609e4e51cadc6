-- ===== src/Tests/Registry.antt =====
-- The theorems on the character device, on a kernel that registers all but the device.
use nugpgpu.Prelude.{ℕ, ◌-◌, ◌^◌, ◌%◌, ◌≡◌, refl, arith, true, false, leb, ltb, ◌&&◌, [], ◌∷◌}
use nugpgpu.Fops.{
  Device, Registries, nugpgpu_fops_init, nugpgpu_fops_finish, region_allocated, cdev_added,
  class_created,
}
use nugpgpu.Fops.Release.{registered, nothing_registered, fops_finish-releases}
use nugpgpu.Fops.Init.{IsDocumented, AllOrNothing, fops_init-AllOrNothing}

-- The error pointer of ENODEV.
abbrev no_device_error : ℕ
no_device_error = 2 ^ 64 - 19

instance abbrev registries : Registries ℕ
registries = record {
  alloc_chrdev_region = λ w. ((0, 0x0f000000), w);
  cdev_add = λ dev w. (0, w);
  class_create = λ w. (0x1000, w);
  device_create = λ c v w. (no_device_error, w);
  is_err = λ a. leb (2 ^ 64 - 4095) a && ltb a (2 ^ 64);
  ptr_err = λ a. a % 2 ^ 32;
}

abbrev zeroed : Device ℕ
zeroed = record { dev = 0; dev_class = 0; dev_device = 0; depth = 0; world = 0; log = [] }

registries-IsDocumented : IsDocumented registries
registries-IsDocumented = record {
  dev_ne = λ w done. omega arith;
  class_ne = λ w. omega arith;
  device_ne = λ c v w. omega arith;
  err_ne = λ a e. ground arith;
}

fops_init-AllOrNothing_example : AllOrNothing registries.is_err (nugpgpu_fops_init zeroed)
fops_init-AllOrNothing_example =
    fops_init-AllOrNothing registries-IsDocumented zeroed refl refl refl refl

-- Registered up to the class.
abbrev half_registered : Device ℕ
half_registered = record {
  dev = 0x0f000000;
  dev_class = 0x1000;
  dev_device = no_device_error;
  depth = 0;
  world = 0;
  log = class_created 0x1000 ∷ cdev_added 0 ∷ region_allocated 0x0f000000 ∷ [];
}

fops_finish-releases_example :
    let f = nugpgpu_fops_finish half_registered in
    (registered registries.is_err f.log ≡ nothing_registered)
    × (f.dev ≡ 0)
    × (f.dev_class ≡ 0)
    × (f.dev_device ≡ 0)
fops_finish-releases_example =
    fops_finish-releases registries.is_err true true true false half_registered
      (refl, λ q. omega arith, λ q. omega arith, λ q. omega arith)
