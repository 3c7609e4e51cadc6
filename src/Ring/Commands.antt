-- ===== src/Ring/Commands.antt =====
-- `ring_dispatch`: which words of the ring it writes, and where it leaves the tail.
use mathlib.Core.Path.{subst}
use mathlib.Core.List.{append_assoc}
use nugpgpu.RingRegisters.{ring_tail_reg}
use nugpgpu.Prelude.{
  ℕ, ◌+◌, ◌-◌, ◌%◌, ◌^◌, ◌<◌, ◌≡◌, ◌∙◌, refl, ap, sym, arith, bit_and, Bool, List, [], ◌∷◌, ◌++◌,
}
use nugpgpu.Prelude.Bits.{and_mask}
use nugpgpu.Platform.{Platform, w32}
use nugpgpu.Machine.{State, Ring, Event, store, success}
use nugpgpu.Machine.Log.{free, effects}
use nugpgpu.Machine.Log.Touches.{Touches}
use nugpgpu.Regrw.Access.{locked, write_events, gpu_write-Touches_at}
use nugpgpu.Ring.{
  nugpgpu_ring_begin, ring_emit, nugpgpu_ring_advance, ring_dispatch, mi_batch_buffer_start,
}

-- RING_PAGES pages.
abbrev pub ring_bytes : ℕ
ring_bytes = 2 ^ 17

-- The ring has the size that `nugpgpu_ringbuffer_render_init` gives it, and its tail is a whole
-- number of 8-byte command pairs inside it.
pub record IsReady (r : Ring) : Type 0 where
  pub size : r.size ≡ ring_bytes
  pub tail_in : r.tail < ring_bytes
  pub tail_aligned : r.tail % 8 ≡ 0

-- The ring that `ring_dispatch` leaves.
abbrev pub dispatched : Ring → Ring
dispatched r = record r {
  tail = (r.tail + 8) % ring_bytes;
  space = (r.space + 2 ^ 32 - 8) % 2 ^ 32;
}

-- The two words of a batch, the newer first.
abbrev pub batch_stores : Ring → ℕ → List Event
batch_stores r offset =
    store (r.virtual_start + (r.tail + 4)) offset
    ∷ store (r.virtual_start + r.tail) mi_batch_buffer_start
    ∷ []

advanced_tail :
    (size tail : ℕ)
    → size ≡ ring_bytes
    → tail < ring_bytes
    → bit_and (((tail + 4) % 2 ^ 32 + 4) % 2 ^ 32) ((size + 2 ^ 32 - 1) % 2 ^ 32)
      ≡ (tail + 8) % ring_bytes
advanced_tail size tail e inside =
    let mask : (size + 2 ^ 32 - 1) % 2 ^ 32 ≡ 2 ^ 17 - 1 = omega arith in
    rw (mask, and_mask 17 (((tail + 4) % 2 ^ 32 + 4) % 2 ^ 32)) (omega arith)

pub dispatched-IsReady : (r : Ring) → IsReady r → IsReady (dispatched r)
dispatched-IsReady r h = record {
  size = h.size;
  tail_in = omega arith;
  tail_aligned = omega (arith, h.tail_aligned);
}

module _ {W : Type 0} ⦃p : Platform W⦄ where
  -- The two stores, the newer first, before older events.
  abbrev two_stores : ℕ → State W → List Event → List Event
  two_stores offset s l =
      let r = s.ring in
      store (r.virtual_start + (r.tail + 4) % 2 ^ 32) offset
      ∷ store (r.virtual_start + r.tail) mi_batch_buffer_start
      ∷ l

  -- The state in which `ring_dispatch` writes the register of the tail, which is then `tail`.
  abbrev emitted : ℕ → ℕ → State W → State W
  emitted offset tail s =
      let r = s.ring in
      record s {
        ring = record r { tail = tail; space = (r.space + 2 ^ 32 - 8) % 2 ^ 32 };
        depth = ((s.depth + 1) % 2 ^ 32 + 2 ^ 32 - 1) % 2 ^ 32;
        world =
            p.write w32 (r.virtual_start + (r.tail + 4) % 2 ^ 32) offset
              (p.write w32 (r.virtual_start + r.tail) mi_batch_buffer_start s.world);
        log = two_stores offset s s.log;
      }

  emitted-Touches :
      (offset tail : ℕ) (s : State W)
      → s.ring.tail < ring_bytes
      → tail ≡ (s.ring.tail + 8) % ring_bytes
      → Touches free
          (batch_stores s.ring offset)
          (record s { ring = dispatched s.ring })
          (emitted offset tail s)
  emitted-Touches offset tail s tail_in moved =
      let r = s.ring in
      let next : (r.tail + 4) % 2 ^ 32 ≡ r.tail + 4 = omega arith in
      record {
        regs = refl;
        mmio_funcs = refl;
        forcewake_count = refl;
        gtt = refl;
        gtt_entry = refl;
        debug = refl;
        grows = refl;
        ring = ap (λ (n : ℕ). record r { tail = n; space = (r.space + 2 ^ 32 - 8) % 2 ^ 32 }) moved;
        depth = λ small. omega arith;
        new = two_stores offset s [];
        log =
            ap
              (λ (n : ℕ).
                store (r.virtual_start + n) offset
                ∷ store (r.virtual_start + r.tail) mi_batch_buffer_start
                ∷ effects s.log)
              next;
        lock = λ e. e;
      }

  pub ring_dispatch-Touches :
      (offset : ℕ) (s : State W)
      → s.ring.size ≡ ring_bytes
      → s.ring.tail < ring_bytes
      → (before after : Bool) × Touches free
          (locked (
              write_events s.regs w32
                (ring_tail_reg s.ring.mmio_base)
                ((s.ring.tail + 8) % ring_bytes)
                before
                after)
            ++ batch_stores s.ring offset)
          (record s { ring = dispatched s.ring })
          (ring_dispatch offset s).1
        × ((ring_dispatch offset s).0 ≡ success)
  unfolding ring_dispatch nugpgpu_ring_begin ring_emit nugpgpu_ring_advance
  ring_dispatch-Touches offset s size tail_in =
      let r = s.ring in
      let reg = ring_tail_reg r.mmio_base in
      let tail = bit_and (((r.tail + 4) % 2 ^ 32 + 4) % 2 ^ 32) ((r.size + 2 ^ 32 - 1) % 2 ^ 32) in
      let moved : tail ≡ (r.tail + 8) % ring_bytes = advanced_tail r.size r.tail size tail_in in
      let stored = emitted-Touches offset tail s tail_in moved in
      let (before, after, written) = gpu_write-Touches_at w32 reg tail stored in
      (
        before,
        after,
        subst
            (λ (n : ℕ).
              Touches free
                (locked (write_events s.regs w32 reg n before after) ++ batch_stores r offset)
                (record s { ring = dispatched r }) (ring_dispatch offset s).1)
            moved written,
        refl,
      )

  -- On a ready ring, `ring_dispatch` succeeds and leaves the ring ready, with its tail 8 bytes on,
  -- round the end of the ring, and its space 8 less. It stores the start of a batch at the old tail
  -- and the batch's address in the next word, then writes the new tail, once, to the ring's register,
  -- and has no other effect but the clearing of an unclaimed access.
  pub ring_dispatch_lem :
      (offset : ℕ) (s : State W)
      → IsReady s.ring
      → let (ret, t) = ring_dispatch offset s in
        (ret ≡ success)
        × (t.ring ≡ dispatched s.ring)
        × IsReady t.ring
        × (before after : Bool) × (effects t.log
            ≡ locked (
                write_events s.regs w32
                  (ring_tail_reg s.ring.mmio_base)
                  ((s.ring.tail + 8) % ring_bytes)
                  before
                  after)
              ++ (batch_stores s.ring offset ++ effects s.log))
  ring_dispatch_lem offset s h =
      let (before, after, t, ret) = ring_dispatch-Touches offset s h.size h.tail_in in
      (
        ret,
        t.ring,
        subst IsReady (sym t.ring) (dispatched-IsReady s.ring h),
        before,
        after,
        t.log
            ∙ append_assoc
                (locked (
                  write_events s.regs w32 (ring_tail_reg s.ring.mmio_base)
                    ((s.ring.tail + 8) % ring_bytes) before after))
                (batch_stores s.ring offset) (effects s.log),
      )
