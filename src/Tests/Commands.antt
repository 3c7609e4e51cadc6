-- ===== src/Tests/Commands.antt =====
-- The theorems on the ring, on one whose tail is at its last pair of words.
use nugpgpu.RingRegisters.{ring_tail_reg}
use nugpgpu.Prelude.{◌+◌, ◌*◌, ◌^◌, ◌%◌, ◌≡◌, refl, arith, Bool, [], ◌∷◌, ◌++◌, some}
use nugpgpu.Platform.{w32}
use nugpgpu.Machine.{Ring, success}
use nugpgpu.Machine.Log.{effects}
use nugpgpu.Regrw.Access.{locked, write_events}
use nugpgpu.Gtt.Table.{last_store}
use nugpgpu.Ring.{ring_space, ring_dispatch, mi_batch_buffer_start}
use nugpgpu.Ring.Space.{free_bytes, ring_space-eq-free, ring_space-overstates}
use nugpgpu.Ring.Commands.{IsReady, dispatched, batch_stores, ring_bytes, ring_dispatch_lem}
use nugpgpu.Ring.Batches.{dispatch_all, dispatch_all-batches}
use nugpgpu.Tests.{machine, idle, a_ring}

a_ring-IsReady : IsReady a_ring
a_ring-IsReady = record { size = refl; tail_in = omega arith; tail_aligned = refl }

ring_dispatch_lem_example :
    let (ret, t) = ring_dispatch 0x3000 idle in
    (ret ≡ success)
    × (t.ring ≡ dispatched a_ring)
    × IsReady t.ring
    × (before after : Bool) × (effects t.log
        ≡ locked (
            write_events idle.regs w32
              (ring_tail_reg 0x2000)
              ((a_ring.tail + 8) % ring_bytes)
              before
              after)
          ++ (batch_stores a_ring 0x3000 ++ []))
ring_dispatch_lem_example = ring_dispatch_lem 0x3000 idle a_ring-IsReady

-- The second of three batches begins at the start of the ring.
dispatch_all-batches_example :
    let t = dispatch_all (0x3000 ∷ 0x4000 ∷ 0x5000 ∷ []) idle in
    let at = a_ring.virtual_start + (a_ring.tail + 8 * 1) % ring_bytes in
    (last_store at t.log ≡ some mi_batch_buffer_start)
    × (last_store (at + 4) t.log ≡ some 0x4000)
    × (t.ring.tail ≡ (a_ring.tail + 8 * 3) % ring_bytes)
    × ((t.ring.space + 8 * 3) % 2 ^ 32 ≡ a_ring.space % 2 ^ 32)
dispatch_all-batches_example =
    dispatch_all-batches (0x3000 ∷ 0x4000 ∷ 0x5000 ∷ []) 1 0x4000 idle a_ring-IsReady (omega arith)
      refl

-- 128 bytes from the tail to the head, round the end.
abbrev wrapped_ring : Ring
wrapped_ring = record a_ring { head = 120 }

ring_space-eq-free_example : ring_space wrapped_ring + 64 ≡ free_bytes wrapped_ring
ring_space-eq-free_example =
    ring_space-eq-free wrapped_ring (omega arith) (omega arith) (omega arith) refl (omega arith)

-- 16 bytes from the tail to the head.
abbrev full_ring : Ring
full_ring = record a_ring { head = 32; tail = 16 }

ring_space-overstates_example : ring_space full_ring + 64 ≡ free_bytes full_ring + 2 ^ 17
ring_space-overstates_example =
    ring_space-overstates full_ring (omega arith) (omega arith) (omega arith) refl (omega arith)
      (omega arith) (omega arith)
