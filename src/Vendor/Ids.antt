-- ===== src/Vendor/Ids.antt =====
-- The table of the devices that the driver is for, as the PCI core reads it, and what the driver's
-- register accesses and page table entries presuppose of them (nugpgpu_vendor.h).
use mathlib.Core.Option
use nugpgpu.Prelude.{
  Option, none, ◌≡◌, ◌≢◌, ◌↔◌, refl, Bool, true, false, List, [], ◌∷◌, ◌++◌, some, nonzero, bit_and,
  ◌||◌, arith, ◌<◌, ◌^◌, length,
}
use nugpgpu.Vendor.{
  IntelRingId, rcs, vcs, bcs, vecs, vcs2, ring_bit, IntelDeviceInfo, intel_haswell_d_info,
  intel_haswell_m_info, PciDeviceId, IdLists, terminator, nugpgpu_pci_idlist, nugpgpu_id_list,
  i915_max_pipes, i915_max_transcoders,
}

-- How the PCI core reads a table: to the first entry with no vendor, subvendor and class. With none
-- such it reads on past the end of the array, which is `none`.
abbrev pub is_entry : PciDeviceId → Bool
is_entry e = nonzero e.vendor || nonzero e.subvendor || nonzero e.class_mask

abbrev pub up_to_end : Bool → PciDeviceId → Option (List PciDeviceId) → Option (List PciDeviceId)
up_to_end true e rest = Option.map (λ ids. e ∷ ids) rest
up_to_end false e rest = some []

abbrev pub ids_read : List PciDeviceId → Option (List PciDeviceId)
ids_read [] = none
ids_read (e ∷ rest) = up_to_end (is_entry e) e (ids_read rest)

-- Every entry of a list is an entry of Intel's with the given info.
abbrev pub Carries : IntelDeviceInfo → List PciDeviceId → Type 0
Carries i [] = Unit {0}
Carries i (e ∷ rest) = (e.vendor ≡ 0x8086) × (e.driver_data ≡ some i) × Carries i rest

-- What drm/i915_pciids.h makes of its lists, whatever the info.
pub record IsDocumented (lists : IdLists) : Type 0 where
  pub d_ids : (i : IntelDeviceInfo) → Carries i (lists.intel_hsw_d_ids (some i))
  pub m_ids : (i : IntelDeviceInfo) → Carries i (lists.intel_hsw_m_ids (some i))

-- What the driver does without a test: it wakes the hardware through FORCEWAKE_MT and reads
-- FPGA_DBG as on Haswell, gives its pages the cacheability of a shared last-level cache, and starts
-- the render ring. The fields fit the widths of their bit fields and arrays.
pub record IsSupported (i : IntelDeviceInfo) : Type 0 where
  pub haswell : i.is_haswell ≡ true
  pub fpga_dbg : i.has_fpga_dbg ≡ true
  pub llc : i.has_llc ≡ true
  pub rings : (r : IntelRingId) → (nonzero (bit_and i.ring_mask (ring_bit r)) ≡ true) ↔ (r ≢ vcs2)
  pub fits : (i.num_pipes < 2 ^ 3) × (i.gen < 2 ^ 8) × (i.ring_mask < 2 ^ 8)
  pub pipes :
      (length i.num_sprites ≡ i915_max_pipes)
      × (length i.palette_offsets ≡ i915_max_pipes)
      × (length i.cursor_offsets ≡ i915_max_pipes)
      × (i.num_pipes ≡ i915_max_pipes)
  pub transcoders :
      (length i.pipe_offsets ≡ i915_max_transcoders)
      × (length i.trans_offsets ≡ i915_max_transcoders)

-- The rings of a mask of four.
ring_cases : (r : IntelRingId) → (nonzero (bit_and 15 (ring_bit r)) ≡ true) ↔ (r ≢ vcs2)
ring_cases rcs = (λ q e. cc, λ n. refl)
ring_cases vcs = (λ q e. cc, λ n. refl)
ring_cases bcs = (λ q e. cc, λ n. refl)
ring_cases vecs = (λ q e. cc, λ n. refl)
ring_cases vcs2 = (λ q. cc, λ n. absurd (n refl))

d_info-IsSupported : IsSupported intel_haswell_d_info
unfolding intel_haswell_d_info
d_info-IsSupported = record {
  haswell = refl;
  fpga_dbg = refl;
  llc = refl;
  rings = ring_cases;
  fits = (omega arith, omega arith, omega arith);
  pipes = (refl, refl, refl, refl);
  transcoders = (refl, refl);
}

m_info-IsSupported : IsSupported intel_haswell_m_info
unfolding intel_haswell_m_info
m_info-IsSupported = record {
  haswell = refl;
  fpga_dbg = refl;
  llc = refl;
  rings = ring_cases;
  fits = (omega arith, omega arith, omega arith);
  pipes = (refl, refl, refl, refl);
  transcoders = (refl, refl);
}

-- Every entry of a list is for a chip of Intel's that the driver supports.
abbrev pub AllSupported : List PciDeviceId → Type 0
AllSupported [] = Unit {0}
AllSupported (e ∷ rest) =
    (e.vendor ≡ 0x8086)
    × ((i : IntelDeviceInfo) × (e.driver_data ≡ some i) × IsSupported i)
    × AllSupported rest

Carries-AllSupported :
    (i : IntelDeviceInfo) (l : List PciDeviceId) → IsSupported i → Carries i l → AllSupported l
Carries-AllSupported i [] sup h = tt
Carries-AllSupported i (e ∷ l) sup (vendor, data_is, h) =
    (vendor, (i, data_is, sup), Carries-AllSupported i l sup h)

AllSupported-append :
    (l m : List PciDeviceId) → AllSupported l → AllSupported m → AllSupported (l ++ m)
AllSupported-append [] m h r = r
AllSupported-append (e ∷ l) m (vendor, info, h) r = (vendor, info, AllSupported-append l m h r)

ids_read_lem : (l : List PciDeviceId) → AllSupported l → ids_read (l ++ terminator ∷ []) ≡ some l
ids_read_lem [] h = refl
ids_read_lem (e ∷ l) (vendor, h, rest) = rw (vendor, ids_read_lem l rest) refl

-- If drm/i915_pciids.h gives each list entries of Intel's with the info that it is given, then the
-- PCI core comes to the end of `nugpgpu_id_list` within the array, having read every entry of both
-- lists and no more, and each is for a
-- Haswell with the FPGA_DBG register, a shared last-level cache and the four rings from the render
-- ring to the video enhancement ring, whose info fits the widths of the struct.
pub id_list-AllSupported :
    (lists : IdLists)
    → IsDocumented lists
    → (ids_read (nugpgpu_id_list lists) ≡ some (nugpgpu_pci_idlist lists))
      × AllSupported (nugpgpu_pci_idlist lists)
unfolding nugpgpu_id_list nugpgpu_pci_idlist
id_list-AllSupported lists doc =
    let d : AllSupported (lists.intel_hsw_d_ids (some intel_haswell_d_info)) =
      Carries-AllSupported _ _ d_info-IsSupported (doc.d_ids _) in
    let m : AllSupported (lists.intel_hsw_m_ids (some intel_haswell_m_info)) =
      Carries-AllSupported _ _ m_info-IsSupported (doc.m_ids _) in
    let all = AllSupported-append _ _ d m in (ids_read_lem _ all, all)
