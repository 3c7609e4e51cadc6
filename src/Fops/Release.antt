-- ===== src/Fops/Release.antt =====
-- The registration of the character device: all of it, or nothing.
use nugpgpu.Prelude.{
  ℕ, ◌≡◌, ◌≢◌, ◌∙◌, refl, ap, arith, Bool, true, false, nonzero, List, [], ◌∷◌, not, ◌&&◌,
}
use nugpgpu.Fops.{
  DeviceEvent, Device, deeper, note, failed_int, destroy_device, destroy_class, unregister_region,
  nugpgpu_fops_finish, region_allocated, region_refused, region_unregistered, cdev_inited,
  cdev_added, cdev_deleted, class_created, class_destroyed, device_created, device_destroyed,
  user_read,
}

-- What is registered with the kernel; `in_order` fails once a class is destroyed before its device,
-- or a region is given back before the device that uses it is deleted.
pub record Registered : Type 0 where
  pub region : Bool
  pub cdev : Bool
  pub class : Bool
  pub device : Bool
  pub in_order : Bool

abbrev pub nothing_registered : Registered
nothing_registered = record {
  region = false;
  cdev = false;
  class = false;
  device = false;
  in_order = true;
}

abbrev pub all_registered : Registered
all_registered = record { region = true; cdev = true; class = true; device = true; in_order = true }

abbrev pub after_event : (ℕ → Bool) → DeviceEvent → Registered → Registered
after_event is_err (region_allocated dev) r = record r { region = true }
after_event is_err region_refused r = r
after_event is_err (region_unregistered dev) r = record r {
  region = false;
  in_order = r.in_order && not r.cdev;
}
after_event is_err cdev_inited r = r
after_event is_err (cdev_added ret) r = record r { cdev = not (failed_int ret) }
after_event is_err cdev_deleted r = record r { cdev = false }
after_event is_err (class_created c) r = record r { class = not (is_err c) }
after_event is_err (class_destroyed c) r = record r {
  class = false;
  in_order = r.in_order && not r.device;
}
after_event is_err (device_created c v) r = record r { device = not (is_err v) }
after_event is_err (device_destroyed c v) r = record r { device = false }
after_event is_err (user_read a) r = r

abbrev pub registered : (ℕ → Bool) → List DeviceEvent → Registered
registered is_err [] = nothing_registered
registered is_err (e ∷ l) = after_event is_err e (registered is_err l)

-- The device's fields know what is registered.
abbrev pub IsTracked : {W : Type 0} → (ℕ → Bool) → Bool → Bool → Bool → Bool → Device W → Type 0
IsTracked is_err region cdev class device d =
    (registered is_err d.log
      ≡ record { region = region; cdev = cdev; class = class; device = device; in_order = true })
    × (region ≡ true → d.dev ≢ 0)
    × (class ≡ true → d.dev_class ≢ 0)
    × (device ≡ true → d.dev_device ≢ 0)

module _ {W : Type 0} (is_err : ℕ → Bool) where
  destroy_device_lem :
      (has region cdev class device : Bool) (d : Device W)
      → nonzero d.dev_device ≡ has
      → IsTracked is_err region cdev class device d
      → IsTracked is_err region cdev class false (destroy_device has d)
        × ((destroy_device has d).dev_device ≡ 0)
  unfolding destroy_device
  destroy_device_lem true region cdev class device d e (r, dev, cls, here) =
      ((ap (after_event is_err (device_destroyed d.dev_class d.dev)) r, dev, cls, λ q. cc), refl)
  destroy_device_lem false region cdev class true d e (r, dev, cls, here) =
      absurd (here refl (ground arith))
  destroy_device_lem false region cdev class false d e (r, dev, cls, here) =
      ((r, dev, cls, here), ground arith)

  destroy_class_lem :
      (has region cdev class : Bool) (d : Device W)
      → nonzero d.dev_class ≡ has
      → IsTracked is_err region cdev class false d
      → d.dev_device ≡ 0
      → IsTracked is_err region cdev false false (destroy_class has d)
        × ((destroy_class has d).dev_class ≡ 0)
        × ((destroy_class has d).dev_device ≡ 0)
  unfolding destroy_class
  destroy_class_lem true region cdev class d e (r, dev, cls, here) gone =
      ((ap (after_event is_err (class_destroyed d.dev_class)) r, dev, λ q. cc, here), refl, gone)
  destroy_class_lem false region cdev true d e (r, dev, cls, here) gone =
      absurd (cls refl (ground arith))
  destroy_class_lem false region cdev false d e (r, dev, cls, here) gone =
      ((r, dev, cls, here), ground arith, gone)

  unregister_region_lem :
      (has region : Bool) (d : Device W)
      → nonzero d.dev ≡ has
      → IsTracked is_err region false false false d
      → (registered is_err (unregister_region has d).log ≡ nothing_registered)
        × ((unregister_region has d).dev ≡ 0)
        × ((unregister_region has d).dev_class ≡ d.dev_class)
        × ((unregister_region has d).dev_device ≡ d.dev_device)
  unfolding unregister_region
  unregister_region_lem true region d e (r, dev, cls, here) =
      (ap (after_event is_err (region_unregistered d.dev)) r, refl, refl, refl)
  unregister_region_lem false true d e (r, dev, cls, here) = absurd (dev refl (ground arith))
  unregister_region_lem false false d e (r, dev, cls, here) = (r, ground arith, refl, refl)

  -- `nugpgpu_fops_finish` gives back whatever is registered, in an order in which nothing is taken
  -- from under what still uses it, and clears the fields: it asks only that a region, a class and a
  -- device that are registered have their fields set.
  pub fops_finish-releases :
      (region cdev class device : Bool) (d : Device W)
      → IsTracked is_err region cdev class device d
      → let f = nugpgpu_fops_finish d in
        (registered is_err f.log ≡ nothing_registered)
        × (f.dev ≡ 0)
        × (f.dev_class ≡ 0)
        × (f.dev_device ≡ 0)
  unfolding nugpgpu_fops_finish
  fops_finish-releases region cdev class device d tracked =
      let a = destroy_device (nonzero d.dev_device) (deeper d) in
      let (a_tracked, a_gone) =
        destroy_device_lem (nonzero d.dev_device) region cdev class device (deeper d) refl
          tracked in
      let c = destroy_class (nonzero a.dev_class) a in
      let (c_tracked, c_class, c_gone) =
        destroy_class_lem (nonzero a.dev_class) region cdev class a refl a_tracked a_gone in
      let b = note cdev_deleted c in
      let (b_registered, b_dev, b_class, b_device) =
        unregister_region_lem (nonzero b.dev) region b refl (
          ap (after_event is_err cdev_deleted) c_tracked.0,
          c_tracked.1,
          c_tracked.2,
          c_tracked.3,
        ) in
      (b_registered, b_dev, b_class ∙ c_class, b_device ∙ c_gone)
