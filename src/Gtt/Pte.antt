-- ===== src/Gtt/Pte.antt =====
-- The page table entry: what `nugpgpu_pte_encode` packs can be read back.
use nugpgpu.Prelude.{
  ℕ, ◌+◌, ◌-◌, ◌*◌, ◌/◌, ◌%◌, ◌^◌, ◌<◌, ◌≡◌, ◌∙◌, sym, ap, Bool, true, false, arith, bit_and,
  bit_or, nonzero, if◌then◌else◌, ◌==◌,
}
use nugpgpu.Prelude.Bits.{or_digit, zero-or, or-zero, or_disjoint, and_mask, and_shifted}
use nugpgpu.Gtt.{nugpgpu_pte_encode, pte_addr_encode}

-- An entry read by the layout of the comment in nugpgpu_gtt.h, and of `HSW_CACHEABILITY_CONTROL`:
-- bit 0 is the valid bit, bits 3:1 the cacheability, bits 10:4 the address bits 38:32 and
-- bits 31:12 the address bits 31:12.
pub record Entry : Type 0 where
  pub valid : Bool
  pub cacheability : ℕ
  pub address : ℕ

abbrev pub read_entry : ℕ → Entry
read_entry pte = record {
  valid = pte % 2 == 1;
  cacheability = pte / 2 % 8;
  address = pte / 2 ^ 12 % 2 ^ 20 * 2 ^ 12 + pte / 2 ^ 4 % 2 ^ 7 * 2 ^ 32;
}

high_bits : (addr : ℕ) → bit_and (addr / 2 ^ 28) 0x7f0 ≡ addr / 2 ^ 32 % 2 ^ 7 * 2 ^ 4
high_bits addr =
    and_shifted 4 (addr / 2 ^ 28) 0x7f
    ∙ ap (λ (t : ℕ). t * 2 ^ 4) (and_mask 7 (addr / 2 ^ 28 / 2 ^ 4))
    ∙ omega arith

or_one : (x : ℕ) → bit_or 1 x ≡ 2 * (x / 2) + 1
or_one x = omega (arith, or_digit 1 x, zero-or (x / 2))

-- Bit 2 of a number in which bits 3:1 are clear.
or_four : (x : ℕ) → x / 2 % 8 ≡ 0 → bit_or x 4 ≡ x + 4
or_four x h =
    omega (arith, or_digit x 4, or_digit (x / 2) 2, or_digit (x / 2 / 2) 1, or-zero (x / 2 / 2 / 2))

address_bits :
    (frame : ℕ)
    → bit_or (frame * 2 ^ 12) (bit_and (frame * 2 ^ 12 / 2 ^ 28) 0x7f0)
      ≡ frame * 2 ^ 12 + frame / 2 ^ 20 % 2 ^ 7 * 2 ^ 4
address_bits frame =
    ap (bit_or (frame * 2 ^ 12)) (high_bits (frame * 2 ^ 12))
    ∙ or_disjoint 12 frame (frame * 2 ^ 12 / 2 ^ 32 % 2 ^ 7 * 2 ^ 4) (omega arith)
    ∙ omega arith

-- The entry without its cacheability.
abbrev plain : ℕ → ℕ
plain frame = frame % 2 ^ 20 * 2 ^ 12 + frame / 2 ^ 20 % 2 ^ 7 * 2 ^ 4 + 1

plain_lem : (frame : ℕ) → bit_or 1 (pte_addr_encode (frame * 2 ^ 12) true) % 2 ^ 32 ≡ plain frame
plain_lem frame = omega (
  arith,
  or_one (pte_addr_encode (frame * 2 ^ 12) true),
  or_one (bit_or (frame * 2 ^ 12) (bit_and (frame * 2 ^ 12 / 2 ^ 28) 0x7f0)),
  address_bits frame,
)

pte_encode_lem :
    (frame level : ℕ)
    → nugpgpu_pte_encode (frame * 2 ^ 12) level true
      ≡ (if nonzero level then plain frame + 4 else plain frame)
unfolding nugpgpu_pte_encode
pte_encode_lem frame level = ground (arith, plain_lem frame, or_four (plain frame))

-- The entry of a page that is not valid.
invalid_lem :
    (frame : ℕ) → bit_or 0 (pte_addr_encode (frame * 2 ^ 12) false) % 2 ^ 32 + 1 ≡ plain frame
invalid_lem frame = omega (
  arith,
  zero-or (pte_addr_encode (frame * 2 ^ 12) false),
  zero-or (bit_or (frame * 2 ^ 12) (bit_and (frame * 2 ^ 12 / 2 ^ 28) 0x7f0)),
  address_bits frame,
)

pte_encode-plain :
    (frame level : ℕ) (valid : Bool)
    → nugpgpu_pte_encode (frame * 2 ^ 12) level valid
      ≡ plain frame + (if nonzero level then 4 else 0) - (if valid then 0 else 1)
unfolding nugpgpu_pte_encode
pte_encode-plain frame level true = ground (arith, plain_lem frame, or_four (plain frame))
pte_encode-plain frame level false =
    let x = bit_or 0 (pte_addr_encode (frame * 2 ^ 12) false) % 2 ^ 32 in
    ground (arith, invalid_lem frame, or_four x)

-- An entry by its fields: bits 31:12 and 38:32 of the address, the cacheability and the valid bit.
abbrev pub layout : ℕ → ℕ → Bool → ℕ
layout addr level valid =
    addr / 2 ^ 12 % 2 ^ 20 * 2 ^ 12
    + addr / 2 ^ 32 % 2 ^ 7 * 2 ^ 4
    + (if nonzero level then 2 else 0) * 2
    + (if valid then 1 else 0)

-- For every page address, level and validity `nugpgpu_pte_encode`, which shifts, masks and ors, is
-- the sum of the fields of the entry, each in its place: the bits 31:12 of the address at 12, its
-- bits 38:32 at 4, the cacheability, 2 if the level is not zero, at 1, and the valid bit.
pub pte_encode-eq-layout :
    (addr level : ℕ) (valid : Bool)
    → addr % 2 ^ 12 ≡ 0
    → nugpgpu_pte_encode addr level valid ≡ layout addr level valid
pte_encode-eq-layout addr level valid aligned =
    let frame = addr / 2 ^ 12 in
    let e : addr ≡ frame * 2 ^ 12 = omega arith in
    rw e (pte_encode-plain frame level valid ∙ ground arith)

read_entry-plain :
    (frame : ℕ)
    → frame < 2 ^ 27
    → (read_entry (plain frame)
        ≡ record { valid = true; cacheability = 0; address = frame * 2 ^ 12 })
      × (read_entry (plain frame + 4)
          ≡ record { valid = true; cacheability = 2; address = frame * 2 ^ 12 })
read_entry-plain frame h = (ground arith, ground arith)

-- An entry encoded as valid from the address of a page below 2 ^ 39 reads back as that address,
-- valid, with cacheability 2 if the level is not zero and 0 if it is.
pub read_entry-pte_encode :
    (addr level : ℕ)
    → addr % 2 ^ 12 ≡ 0
    → addr < 2 ^ 39
    → read_entry (nugpgpu_pte_encode addr level true)
      ≡ record { valid = true; cacheability = if nonzero level then 2 else 0; address = addr }
read_entry-pte_encode addr level aligned small =
    let frame = addr / 2 ^ 12 in
    let e : addr ≡ frame * 2 ^ 12 = omega arith in
    let fits : frame < 2 ^ 27 = omega arith in
    rw e (ap read_entry (pte_encode_lem frame level) ∙ ground (arith, read_entry-plain frame))

-- Two page addresses that differ by 2 ^ 39 alone have one and the same entry.
pub pte_encode-wraps :
    (addr level : ℕ)
    → addr % 2 ^ 12 ≡ 0
    → nugpgpu_pte_encode (addr + 2 ^ 39) level true ≡ nugpgpu_pte_encode addr level true
pte_encode-wraps addr level aligned =
    let frame = addr / 2 ^ 12 in
    let e : addr ≡ frame * 2 ^ 12 = omega arith in
    let e' : addr + 2 ^ 39 ≡ (frame + 2 ^ 27) * 2 ^ 12 = omega arith in
    let same : plain (frame + 2 ^ 27) ≡ plain frame = omega arith in
    ap (λ (a : ℕ). nugpgpu_pte_encode a level true) e'
    ∙ pte_encode_lem (frame + 2 ^ 27) level
    ∙ ap (λ (t : ℕ). if nonzero level then t + 4 else t) same
    ∙ sym (pte_encode_lem frame level)
    ∙ ap (λ (a : ℕ). nugpgpu_pte_encode a level true) (sym e)
