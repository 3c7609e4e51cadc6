-- ===== src/Sdk.antt =====
-- sdk/nugpgpu.h and sdk/tst_bbuf_noop.c, a program that uses the driver, and the struct of nuioctl.h
-- that it passes.
use nugpgpu.Prelude.{ℕ}
use nugpgpu.Fops.{nuioctl_exm_new}

-- `struct nuioctl`
pub record Nuioctl : Type 0 where
  pub address : ℕ
  pub length : ℕ

-- The system calls: `open` of "/dev/nugpgpu" for reading, and `ioctl` with a pointer to the struct.
pub record SystemCalls (W : Type 0) : Type 0 where
  pub open_device : W → ℕ × W
  pub ioctl : ℕ → ℕ → Nuioctl → W → ℕ × W

module _ {W : Type 0} ⦃c : SystemCalls W⦄ where
  abbrev pub nugpgpu_dev_open : W → ℕ × W
  nugpgpu_dev_open = c.open_device

  -- `address` is not initialized: it has some value. What `main` prints is not modelled.
  abbrev pub main : ℕ → W → ℕ × W
  main address w =
      let (fd, opened) = nugpgpu_dev_open w in
      let mynu : Nuioctl = record { address = address; length = 4321 } in
      let (ioresult, called) = c.ioctl fd nuioctl_exm_new mynu opened in (0, called)
