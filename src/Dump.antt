-- ===== src/Dump.antt =====
-- nugpgpu_dbg.c: the dump of the registers. What it prints is not modelled; what it reads is.
pub mod Reads
use nugpgpu.Prelude.{ℕ, List, [], ◌∷◌}
use nugpgpu.Platform.{Platform}
use nugpgpu.Machine.{M, ◌>>=◌, ◌>>◌, pure}
use nugpgpu.Regrw.{nugpgpu_read}

-- GTTMMADR_DPFC_CONTROL to GTTMMADR_MEMRR_BASE
abbrev pub pcie_registers : List ℕ
pcie_registers = 0x100100 ∷ 0x108000 ∷ 0x108040 ∷ 0x108080 ∷ 0x1080c0 ∷ 0x108100 ∷ 0x108340 ∷ []

-- MMIO_GEN6_RC_CONTROL to MMIO_HSW_IDICR, the status page's register, and those of the ring.
abbrev pub mmio_registers : List ℕ
mmio_registers =
    0xA090 ∷ 0xA008 ∷ 0xA168 ∷ 0x4402C ∷ 0x44028 ∷ 0xA180 ∷ 0xA18C ∷ 0xA188 ∷ 0x2214 ∷ 0x9008
    ∷ 0x04080 ∷ 0x02030 ∷ 0x02034 ∷ 0x02038 ∷ 0x0203c ∷ 0x0209c ∷ 0x02074 ∷ 0x0206c ∷ []

module _ {W : Type 0} ⦃p : Platform W⦄ where
  unfoldable pub read_all : List ℕ → M W (Unit {0})
  read_all [] = pure tt
  read_all (reg ∷ rest) = do _ ← nugpgpu_read reg; read_all rest

  unfoldable pub my915_pcie_dump : M W (Unit {0})
  my915_pcie_dump = read_all pcie_registers

  unfoldable pub my915_mmio_dump : M W (Unit {0})
  my915_mmio_dump = read_all mmio_registers

  abbrev pub set_debug : ℕ → M W (Unit {0})
  set_debug n s = (tt, record s { debug = n })

  unfoldable pub nugpgpu_dump : M W (Unit {0})
  nugpgpu_dump = do set_debug 0; my915_pcie_dump; my915_mmio_dump; set_debug 1
