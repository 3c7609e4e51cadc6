-- ===== src/Ring/Space.antt =====
-- `ring_space`: the free bytes of the ring less the reserve.
use nugpgpu.RingRegisters.{ring_free_space, ring_head_addr}
use nugpgpu.Prelude.{
  ltb, if◌then◌else◌, ℕ, ◌+◌, ◌-◌, ◌*◌, ◌/◌, ◌%◌, ◌^◌, ◌<◌, ◌≤◌, ◌≡◌, ◌∙◌, ap, arith, bit_and,
}
use nugpgpu.Prelude.Bits.{and_mask, and_shifted}
use nugpgpu.Machine.{Ring}
use nugpgpu.Ring.{ring_space}

-- The mask of the head register keeps the offset of an aligned dword below 2 MB.
pub and_head_addr : (head : ℕ) → head < 2 ^ 21 → head % 4 ≡ 0 → bit_and head ring_head_addr ≡ head
and_head_addr head small aligned =
    and_shifted 2 head 0x7FFFF
    ∙ ap (λ (t : ℕ). t * 2 ^ 2) (and_mask 19 (head / 2 ^ 2))
    ∙ omega arith

-- The bytes from the tail on to the head, going round; the whole ring if they meet.
abbrev pub free_bytes : Ring → ℕ
free_bytes r = if ltb r.tail r.head then r.head - r.tail else r.head + r.size - r.tail

module _ (r : Ring) (size : r.size ≤ 2 ^ 21) (head_in : r.head < r.size) (tail_in : r.tail < r.size)
    (aligned : r.head % 4 ≡ 0) where
  -- For a head and a tail inside a ring of at most 2 MB, the head at a dword: if at least the
  -- reserve of 64 bytes is free, `ring_space` is what is free beyond the reserve.
  pub ring_space-eq-free :
      ring_free_space ≤ free_bytes r → ring_space r + ring_free_space ≡ free_bytes r
  unfolding ring_space
  ring_space-eq-free room = rw (and_head_addr r.head (omega arith) aligned) (ground arith)

  -- For a head and a tail inside a ring of 64 bytes to 2 MB, the head at a dword: if the head is
  -- ahead of the tail by less than the reserve of 64 bytes, `ring_space` is too large by the size of
  -- the ring.
  pub ring_space-overstates :
      r.tail < r.head
      → r.head - r.tail < ring_free_space
      → 64 ≤ r.size
      → ring_space r + ring_free_space ≡ free_bytes r + r.size
  unfolding ring_space
  ring_space-overstates ahead few big =
      rw (and_head_addr r.head (omega arith) aligned) (ground arith)
