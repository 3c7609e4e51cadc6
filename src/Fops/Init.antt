-- ===== src/Fops/Init.antt =====
-- `nugpgpu_fops_init`: the registration of the character device is whole, or nothing is left of it.
use nugpgpu.Prelude.{ℕ, ◌≡◌, ◌≢◌, ◌⊎◌, inl, inr, refl, ap, arith, Bool, true, false, not}
use nugpgpu.Fops.{
  Device, Registries, failed_int, device_made, class_made, cdev_made, region_made,
  nugpgpu_fops_init, region_allocated, cdev_inited, cdev_added, class_created, device_created,
}
use nugpgpu.Fops.Release.{
  registered, nothing_registered, after_event, IsTracked, fops_finish-releases,
}

-- What linux/cdev.h, linux/device.h and linux/err.h say: a device number that is given is not 0, a
-- class and a device that are made, and an error pointer, are not NULL, and an error is not 0.
pub record IsDocumented {W : Type 0} (g : Registries W) : Type 0 where
  pub dev_ne :
      (w : W) → failed_int (g.alloc_chrdev_region w).0.0 ≡ false → (g.alloc_chrdev_region w).0.1 ≢ 0
  pub class_ne : (w : W) → (g.class_create w).0 ≢ 0
  pub device_ne : (c v : ℕ) (w : W) → (g.device_create c v w).0 ≢ 0
  pub err_ne : (a : ℕ) → g.is_err a ≡ true → g.ptr_err a ≢ 0

-- The outcomes of a registration that began with nothing.
abbrev pub AllOrNothing : {W : Type 0} → (ℕ → Bool) → ℕ × Device W → Type 0
AllOrNothing is_err r =
    ((r.0 ≡ 0) × IsTracked is_err true true true true r.1)
    ⊎ ((r.0 ≢ 0)
        × (registered is_err r.1.log ≡ nothing_registered)
        × (r.1.dev ≡ 0)
        × (r.1.dev_class ≡ 0)
        × (r.1.dev_device ≡ 0))

module _ {W : Type 0} ⦃g : Registries W⦄ (doc : IsDocumented g) where
  device_made-AllOrNothing :
      (failed : Bool) (d : Device W)
      → g.is_err d.dev_device ≡ failed
      → IsTracked g.is_err true true true (not failed) d
      → d.dev_device ≢ 0
      → AllOrNothing g.is_err (device_made failed d)
  unfolding device_made
  device_made-AllOrNothing true d e tracked ne =
      let (r, a, b, c) = fops_finish-releases g.is_err true true true false d tracked in
      inr (doc.err_ne d.dev_device e, r, a, b, c)
  device_made-AllOrNothing false d e tracked ne = inl (refl, tracked)

  class_made-AllOrNothing :
      (failed : Bool) (d : Device W)
      → g.is_err d.dev_class ≡ failed
      → IsTracked g.is_err true true (not failed) false d
      → d.dev_class ≢ 0
      → AllOrNothing g.is_err (class_made failed d)
  unfolding class_made
  class_made-AllOrNothing true d e tracked ne =
      let (r, a, b, c) = fops_finish-releases g.is_err true true false false d tracked in
      inr (doc.err_ne d.dev_class e, r, a, b, c)
  class_made-AllOrNothing false d e (r, dev, cls, here) ne =
      let (v, w) = g.device_create d.dev_class d.dev d.world in
      device_made-AllOrNothing (g.is_err v) _ refl
        (
          ap (after_event g.is_err (device_created d.dev_class v)) r,
          dev,
          cls,
          λ q. doc.device_ne d.dev_class d.dev d.world,
        )
        (doc.device_ne d.dev_class d.dev d.world)

  cdev_made-AllOrNothing :
      (ret : ℕ) (failed : Bool) (d : Device W)
      → failed_int ret ≡ failed
      → IsTracked g.is_err true (not failed) false false d
      → AllOrNothing g.is_err (cdev_made ret failed d)
  unfolding cdev_made
  cdev_made-AllOrNothing ret true d e tracked =
      let (r, a, b, c) = fops_finish-releases g.is_err true false false false d tracked in
      inr (ground arith, r, a, b, c)
  cdev_made-AllOrNothing ret false d e (r, dev, cls, here) =
      let (c, w) = g.class_create d.world in
      class_made-AllOrNothing (g.is_err c) _ refl
        (ap (after_event g.is_err (class_created c)) r, dev, λ q. doc.class_ne d.world, λ q. cc)
        (doc.class_ne d.world)

  region_made-AllOrNothing :
      (ret dev : ℕ) (failed : Bool) (d : Device W)
      → failed_int ret ≡ failed
      → (failed_int ret ≡ false → dev ≢ 0)
      → registered g.is_err d.log ≡ nothing_registered
      → d.dev ≡ 0
      → d.dev_class ≡ 0
      → d.dev_device ≡ 0
      → AllOrNothing g.is_err (region_made ret dev failed d)
  unfolding region_made
  region_made-AllOrNothing ret dev true d e ne r no_dev no_class no_device =
      inr (ground arith, r, no_dev, no_class, no_device)
  region_made-AllOrNothing ret dev false d e ne r no_dev no_class no_device =
      let (added, w) = g.cdev_add dev d.world in
      cdev_made-AllOrNothing added (failed_int added) _ refl (
        ap
            (λ x.
              after_event g.is_err (cdev_added added)
                (after_event g.is_err cdev_inited (after_event g.is_err (region_allocated dev) x)))
            r,
        λ q. ne e,
        λ q. cc,
        λ q. cc,
      )

  -- If the kernel's registries are as documented, `nugpgpu_fops_init` on a zeroed device with
  -- nothing registered either returns 0, with the region, the device of the region, the class and
  -- the device registered and their fields set, or returns another number, with nothing registered
  -- and its fields cleared.
  pub fops_init-AllOrNothing :
      (d : Device W)
      → registered g.is_err d.log ≡ nothing_registered
      → d.dev ≡ 0
      → d.dev_class ≡ 0
      → d.dev_device ≡ 0
      → AllOrNothing g.is_err (nugpgpu_fops_init d)
  unfolding nugpgpu_fops_init
  fops_init-AllOrNothing d r no_dev no_class no_device =
      let ((ret, dev), w) = g.alloc_chrdev_region d.world in
      region_made-AllOrNothing ret dev (failed_int ret) _ refl (doc.dev_ne d.world) r no_dev
        no_class no_device
