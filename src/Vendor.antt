-- ===== src/Vendor.antt =====
-- nugpgpu_vendor.h, and the table of nugpgpu_init.c that is made of it: the devices that the PCI core
-- gives to the driver.
pub mod Ids
use nugpgpu.Prelude.{
  ℕ, ◌+◌, ◌-◌, ◌^◌, Bool, true, false, List, [], ◌∷◌, ◌++◌, Option, none, some, bit_or,
}

-- The rings of the hardware.
pub data IntelRingId : Type 0 where
  rcs vcs bcs vecs vcs2 : IntelRingId

abbrev pub ring_number : IntelRingId → ℕ
ring_number rcs = 0
ring_number vcs = 1
ring_number bcs = 2
ring_number vecs = 3
ring_number vcs2 = 4

-- RENDER_RING, BSD_RING, BLT_RING, VEBOX_RING and BSD2_RING
abbrev pub ring_bit : IntelRingId → ℕ
ring_bit r = 2 ^ ring_number r

pub data Pipe : Type 0 where
  invalid_pipe pipe_a pipe_b pipe_c pipe_edp : Pipe

-- The value of an `int`, by its bit pattern.
abbrev pub pipe_number : Pipe → ℕ
pipe_number invalid_pipe = 2 ^ 32 - 1
pipe_number pipe_a = 0
pipe_number pipe_b = 1
pipe_number pipe_c = 2
pipe_number pipe_edp = 3

abbrev pub i915_max_pipes : ℕ
i915_max_pipes = pipe_number pipe_edp

pub data Transcoder : Type 0 where
  transcoder_a transcoder_b transcoder_c transcoder_edp : Transcoder

abbrev pub transcoder_number : Transcoder → ℕ
transcoder_number transcoder_a = 0
transcoder_number transcoder_b = 1
transcoder_number transcoder_c = 2
transcoder_number transcoder_edp = 3

abbrev pub i915_max_transcoders : ℕ
i915_max_transcoders = transcoder_number transcoder_edp + 1

abbrev pub cursor_a_offset : ℕ
cursor_a_offset = 0x70080

abbrev pub ivb_cursor_b_offset : ℕ
ivb_cursor_b_offset = 0x71080

abbrev pub ivb_cursor_c_offset : ℕ
ivb_cursor_c_offset = 0x72080

abbrev pub pipe_a_offset : ℕ
pipe_a_offset = 0x70000

abbrev pub pipe_b_offset : ℕ
pipe_b_offset = 0x71000

abbrev pub pipe_c_offset : ℕ
pipe_c_offset = 0x72000

abbrev pub pipe_edp_offset : ℕ
pipe_edp_offset = 0x7f000

abbrev pub transcoder_a_offset : ℕ
transcoder_a_offset = 0x60000

abbrev pub transcoder_b_offset : ℕ
transcoder_b_offset = 0x61000

abbrev pub transcoder_c_offset : ℕ
transcoder_c_offset = 0x62000

abbrev pub transcoder_edp_offset : ℕ
transcoder_edp_offset = 0x6f000

abbrev pub palette_a_offset : ℕ
palette_a_offset = 0xa000

abbrev pub palette_b_offset : ℕ
palette_b_offset = 0xa800

-- `struct intel_device_info`. A flag is a bit field of one bit.
pub record IntelDeviceInfo : Type 0 where
  pub display_mmio_offset : ℕ
  pub num_pipes : ℕ
  pub num_sprites : List ℕ
  pub gen : ℕ
  pub ring_mask : ℕ
  pub is_mobile : Bool
  pub is_i85x : Bool
  pub is_i915g : Bool
  pub is_i945gm : Bool
  pub is_g33 : Bool
  pub need_gfx_hws : Bool
  pub is_g4x : Bool
  pub is_pineview : Bool
  pub is_broadwater : Bool
  pub is_crestline : Bool
  pub is_ivybridge : Bool
  pub is_valleyview : Bool
  pub is_haswell : Bool
  pub is_preliminary : Bool
  pub has_fbc : Bool
  pub has_pipe_cxsr : Bool
  pub has_hotplug : Bool
  pub cursor_needs_physical : Bool
  pub has_overlay : Bool
  pub overlay_needs_physical : Bool
  pub supports_tv : Bool
  pub has_llc : Bool
  pub has_ddi : Bool
  pub has_fpga_dbg : Bool
  pub pipe_offsets : List ℕ
  pub trans_offsets : List ℕ
  pub palette_offsets : List ℕ
  pub cursor_offsets : List ℕ

-- What an initializer leaves out is zero.
abbrev pub zero_info : IntelDeviceInfo
zero_info = record {
  display_mmio_offset = 0;
  num_pipes = 0;
  num_sprites = 0 ∷ 0 ∷ 0 ∷ [];
  gen = 0;
  ring_mask = 0;
  is_mobile = false;
  is_i85x = false;
  is_i915g = false;
  is_i945gm = false;
  is_g33 = false;
  need_gfx_hws = false;
  is_g4x = false;
  is_pineview = false;
  is_broadwater = false;
  is_crestline = false;
  is_ivybridge = false;
  is_valleyview = false;
  is_haswell = false;
  is_preliminary = false;
  has_fbc = false;
  has_pipe_cxsr = false;
  has_hotplug = false;
  cursor_needs_physical = false;
  has_overlay = false;
  overlay_needs_physical = false;
  supports_tv = false;
  has_llc = false;
  has_ddi = false;
  has_fpga_dbg = false;
  pipe_offsets = 0 ∷ 0 ∷ 0 ∷ 0 ∷ [];
  trans_offsets = 0 ∷ 0 ∷ 0 ∷ 0 ∷ [];
  palette_offsets = 0 ∷ 0 ∷ 0 ∷ [];
  cursor_offsets = 0 ∷ 0 ∷ 0 ∷ [];
}

-- The macros are parts of an initializer: each sets its fields over what is set before it.
abbrev pub gen7_features : IntelDeviceInfo → IntelDeviceInfo
gen7_features i = record i {
  gen = 7;
  num_pipes = 3;
  need_gfx_hws = true;
  has_hotplug = true;
  has_fbc = true;
  ring_mask = bit_or (bit_or (ring_bit rcs) (ring_bit vcs)) (ring_bit bcs);
  has_llc = true;
}

abbrev pub gen_default_pipeoffsets : IntelDeviceInfo → IntelDeviceInfo
gen_default_pipeoffsets i = record i {
  pipe_offsets = pipe_a_offset ∷ pipe_b_offset ∷ pipe_c_offset ∷ pipe_edp_offset ∷ [];
  trans_offsets =
      transcoder_a_offset ∷ transcoder_b_offset ∷ transcoder_c_offset ∷ transcoder_edp_offset ∷ [];
  palette_offsets = palette_a_offset ∷ palette_b_offset ∷ 0 ∷ [];
}

abbrev pub ivb_cursor_offsets : IntelDeviceInfo → IntelDeviceInfo
ivb_cursor_offsets i = record i {
  cursor_offsets = cursor_a_offset ∷ ivb_cursor_b_offset ∷ ivb_cursor_c_offset ∷ [];
}

abbrev pub four_rings : ℕ
four_rings = bit_or (bit_or (bit_or (ring_bit rcs) (ring_bit vcs)) (ring_bit bcs)) (ring_bit vecs)

pub intel_haswell_d_info : IntelDeviceInfo
intel_haswell_d_info = ivb_cursor_offsets (
    gen_default_pipeoffsets (record (gen7_features zero_info) {
      is_haswell = true;
      has_ddi = true;
      has_fpga_dbg = true;
      ring_mask = four_rings;
    }))

pub intel_haswell_m_info : IntelDeviceInfo
intel_haswell_m_info = ivb_cursor_offsets (
    gen_default_pipeoffsets (record (gen7_features zero_info) {
      is_haswell = true;
      is_mobile = true;
      has_ddi = true;
      has_fpga_dbg = true;
      ring_mask = four_rings;
    }))

-- `struct pci_device_id` of the kernel; `driver_data` is a pointer to an info.
pub record PciDeviceId : Type 0 where
  pub vendor : ℕ
  pub device : ℕ
  pub subvendor : ℕ
  pub subdevice : ℕ
  pub class : ℕ
  pub class_mask : ℕ
  pub driver_data : Option IntelDeviceInfo

-- What drm/i915_pciids.h defines: the ids of a kind of chip, all with the info given.
pub record IdLists : Type 0 where
  pub intel_hsw_d_ids : Option IntelDeviceInfo → List PciDeviceId
  pub intel_hsw_m_ids : Option IntelDeviceInfo → List PciDeviceId

abbrev pub terminator : PciDeviceId
terminator = record {
  vendor = 0;
  device = 0;
  subvendor = 0;
  subdevice = 0;
  class = 0;
  class_mask = 0;
  driver_data = none;
}

module _ (lists : IdLists) where
  unfoldable pub nugpgpu_pci_idlist : List PciDeviceId
  nugpgpu_pci_idlist =
      lists.intel_hsw_d_ids (some intel_haswell_d_info)
      ++ lists.intel_hsw_m_ids (some intel_haswell_m_info)

  unfoldable pub nugpgpu_id_list : List PciDeviceId
  nugpgpu_id_list = nugpgpu_pci_idlist ++ terminator ∷ []
