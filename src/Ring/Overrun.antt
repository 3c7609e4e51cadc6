-- ===== src/Ring/Overrun.antt =====
-- `ring_dispatch` of nugpgpu_ringbuffer.c on a ring whose tail is at an odd word, as the self-test
-- leaves it.
use nugpgpu.RingRegisters.{ring_tail_reg}
use nugpgpu.Prelude.{ℕ, ◌+◌, ◌*◌, ◌%◌, ◌≡◌, ◌∙◌, ap, sym, arith, List, [], ◌∷◌, ◌++◌, some, length}
use mathlib.Core.Path.{subst}
use mathlib.Core.List.{append_assoc}
use nugpgpu.Platform.{Platform, w32}
use nugpgpu.Regrw.Access.{locked, write_events}
use nugpgpu.Machine.{State, Ring}
use nugpgpu.Gtt.Table.{last_store, last_store-effects}
use nugpgpu.Machine.Log.{effects}
use nugpgpu.Ring.{ring_dispatch}
use nugpgpu.Ring.Commands.{ring_bytes, batch_stores, ring_dispatch-Touches}
use nugpgpu.Ring.Batches.{dispatch_all, last_store-write_events}

module _ {W : Type 0} ⦃p : Platform W⦄ where
  -- With the tail at the last word, the address of the batch goes past the end.
  ring_dispatch-overruns :
      (offset : ℕ) (s : State W)
      → s.ring.size ≡ ring_bytes
      → s.ring.tail + 4 ≡ ring_bytes
      → last_store (s.ring.virtual_start + ring_bytes) (ring_dispatch offset s).1.log ≡ some offset
  ring_dispatch-overruns offset s size last =
      let (before, after, touched, ret) = ring_dispatch-Touches offset s size (omega arith) in
      let a = s.ring.virtual_start + ring_bytes in
      let reg = ring_tail_reg s.ring.mmio_base in
      let moved = (s.ring.tail + 8) % ring_bytes in
      let stores = batch_stores s.ring offset in
      sym (last_store-effects a (ring_dispatch offset s).1.log)
      ∙ ap (last_store a) (
          touched.log
          ∙ append_assoc (locked (write_events s.regs w32 reg moved before after)) stores
              (effects s.log))
      ∙ last_store-write_events a s.regs reg moved before after (stores ++ effects s.log)
      ∙ ground arith

  -- So it does after as many calls as take the tail there.
  pub dispatch_all-overruns :
      (offsets : List ℕ) (offset : ℕ) (s : State W)
      → s.ring.size ≡ ring_bytes
      → s.ring.tail + 4 + 8 * length offsets ≡ ring_bytes
      → last_store (s.ring.virtual_start + ring_bytes) (dispatch_all (offsets ++ offset ∷ []) s).log
        ≡ some offset
  dispatch_all-overruns [] offset s size last = ring_dispatch-overruns offset s size (omega arith)
  dispatch_all-overruns (o ∷ rest) offset s size last =
      let (before, after, touched, ret) = ring_dispatch-Touches o s size (omega arith) in
      let t = (ring_dispatch o s).1 in
      subst
        (λ (v : ℕ).
          last_store (v + ring_bytes) (dispatch_all (rest ++ offset ∷ []) t).log ≡ some offset)
        (ap (λ (r : Ring). r.virtual_start) touched.ring)
        (dispatch_all-overruns rest offset t (ap (λ (r : Ring). r.size) touched.ring ∙ size)
          (omega (arith, ap (λ (r : Ring). r.tail) touched.ring)))
