-- ===== src/Ring/Batches.antt =====
-- Several calls of `ring_dispatch`: the batches that the GPU finds from the first tail on.
use mathlib.Core.Path.{subst}
use nugpgpu.RingRegisters.{ring_tail_reg}
use nugpgpu.Prelude.{
  ℕ, zero, suc, ◌+◌, ◌-◌, ◌*◌, ◌%◌, ◌^◌, ◌<◌, ◌≤◌, ◌≡◌, ◌∙◌, refl, ap, sym, arith, Bool, true,
  false, List, [], ◌∷◌, ◌++◌, some, length, get_elem?,
}
use nugpgpu.Platform.{Platform, w32}
use nugpgpu.Machine.{State, Ring, Event}
use nugpgpu.Machine.Log.{effects}
use nugpgpu.Regrw.Access.{locked, write_events}
use nugpgpu.Gtt.Table.{last_store, last_store-effects, last_store-append}
use nugpgpu.Ring.{ring_dispatch, mi_batch_buffer_start}
use nugpgpu.Ring.Commands.{ring_bytes, IsReady, batch_stores, ring_dispatch_lem}

pub last_store-write_events :
    (a regs reg val : ℕ) (before after : Bool) (l : List Event)
    → last_store a (locked (write_events regs w32 reg val before after) ++ l) ≡ last_store a l
last_store-write_events a regs reg val true true l = refl
last_store-write_events a regs reg val true false l = refl
last_store-write_events a regs reg val false true l = refl
last_store-write_events a regs reg val false false l = refl

module _ {W : Type 0} ⦃p : Platform W⦄ where
  -- One call for each batch buffer.
  abbrev pub dispatch_all : List ℕ → State W → State W
  dispatch_all [] s = s
  dispatch_all (offset ∷ rest) s = dispatch_all rest (ring_dispatch offset s).1

  last_store-dispatch :
      (a offset : ℕ) (s : State W)
      → IsReady s.ring
      → last_store a (ring_dispatch offset s).1.log
        ≡ last_store a (batch_stores s.ring offset ++ s.log)
  last_store-dispatch a offset s h =
      let (ret, ring, ready, before, after, log) = ring_dispatch_lem offset s h in
      let stores = batch_stores s.ring offset in
      sym (last_store-effects a (ring_dispatch offset s).1.log)
      ∙ ap (last_store a) log
      ∙ last_store-write_events a s.regs (ring_tail_reg s.ring.mmio_base)
          ((s.ring.tail + 8) % ring_bytes) before after (stores ++ effects s.log)
      ∙ last_store-append a stores (effects s.log) s.log (last_store-effects a s.log)

  -- The pair of words at `b` is kept by as many calls as there are pairs from the tail to `b`.
  dispatch_all-keeps :
      (offsets : List ℕ) (b c : ℕ) (s : State W)
      → IsReady s.ring
      → b % 8 ≡ 0
      → b < ring_bytes
      → c < 8
      → 8 * length offsets ≤ (b + ring_bytes - s.ring.tail) % ring_bytes
      → last_store (s.ring.virtual_start + (b + c)) (dispatch_all offsets s).log
        ≡ last_store (s.ring.virtual_start + (b + c)) s.log
  dispatch_all-keeps [] b c s h aligned inside low room = refl
  dispatch_all-keeps (o ∷ rest) b c s h aligned inside low room =
      let (ret, ring, ready, before, after, log) = ring_dispatch_lem o s h in
      let t = (ring_dispatch o s).1 in
      let start : t.ring.virtual_start ≡ s.ring.virtual_start =
        ap (λ (r : Ring). r.virtual_start) ring in
      let tail : t.ring.tail ≡ (s.ring.tail + 8) % ring_bytes = ap (λ (r : Ring). r.tail) ring in
      let later =
        subst
          (λ (v : ℕ).
            last_store (v + (b + c)) (dispatch_all rest t).log ≡ last_store (v + (b + c)) t.log)
          start
          (dispatch_all-keeps rest b c t ready aligned inside low
            (omega (arith, tail, h.tail_in, h.tail_aligned))) in
      later
      ∙ last_store-dispatch (s.ring.virtual_start + (b + c)) o s h
      ∙ ground (arith, h.tail_in, h.tail_aligned)

  -- The words of the `n`-th batch.
  dispatch_all-words :
      (offsets : List ℕ) (n offset : ℕ) (s : State W)
      → IsReady s.ring
      → 8 * length offsets ≤ ring_bytes
      → get_elem? offsets n ≡ some offset
      → let l = (dispatch_all offsets s).log in
        let at = s.ring.virtual_start + (s.ring.tail + 8 * n) % ring_bytes in
        (last_store at l ≡ some mi_batch_buffer_start) × (last_store (at + 4) l ≡ some offset)
  dispatch_all-words [] n offset s h room at_n = ground (arith, at_n)
  dispatch_all-words (o ∷ rest) zero offset s h room at_n =
      let (ret, ring, ready, before, after, log) = ring_dispatch_lem o s h in
      let t = (ring_dispatch o s).1 in
      let tail : t.ring.tail ≡ (s.ring.tail + 8) % ring_bytes = ap (λ (r : Ring). r.tail) ring in
      let here : (s.ring.tail + 8 * 0) % ring_bytes ≡ s.ring.tail = omega (arith, h.tail_in) in
      let kept : (c : ℕ)
          → c < 8
          → last_store (s.ring.virtual_start + (s.ring.tail + c)) (dispatch_all rest t).log
            ≡ last_store (s.ring.virtual_start + (s.ring.tail + c)) t.log =
        λ c low.
          subst
            (λ (v : ℕ).
              last_store (v + (s.ring.tail + c)) (dispatch_all rest t).log
              ≡ last_store (v + (s.ring.tail + c)) t.log)
            (ap (λ (r : Ring). r.virtual_start) ring)
            (dispatch_all-keeps rest s.ring.tail c t ready h.tail_aligned h.tail_in low
              (omega (arith, tail, h.tail_in, h.tail_aligned))) in
      let v = s.ring.virtual_start in
      let first : v + (s.ring.tail + 8 * 0) % ring_bytes ≡ v + (s.ring.tail + 0) =
        omega (arith, here) in
      let second : v + (s.ring.tail + 8 * 0) % ring_bytes + 4 ≡ v + (s.ring.tail + 4) =
        omega (arith, here) in
      (
        ap (λ (a : ℕ). last_store a (dispatch_all rest t).log) first
            ∙ kept 0 (omega arith)
            ∙ last_store-dispatch (v + (s.ring.tail + 0)) o s h
            ∙ ground arith,
        ap (λ (a : ℕ). last_store a (dispatch_all rest t).log) second
            ∙ kept 4 (omega arith)
            ∙ last_store-dispatch (v + (s.ring.tail + 4)) o s h
            ∙ ground (arith, at_n),
      )
  dispatch_all-words (o ∷ rest) (suc n) offset s h room at_n =
      let (ret, ring, ready, before, after, log) = ring_dispatch_lem o s h in
      let t = (ring_dispatch o s).1 in
      let l = (dispatch_all rest t).log in
      let tail : t.ring.tail ≡ (s.ring.tail + 8) % ring_bytes = ap (λ (r : Ring). r.tail) ring in
      let same : (t.ring.tail + 8 * n) % ring_bytes ≡ (s.ring.tail + 8 * suc n) % ring_bytes =
        omega (arith, tail) in
      subst
        (λ (b : ℕ).
          (last_store (s.ring.virtual_start + b) l ≡ some mi_batch_buffer_start)
          × (last_store (s.ring.virtual_start + b + 4) l ≡ some offset))
        same
        (subst
          (λ (v : ℕ).
            let at = v + (t.ring.tail + 8 * n) % ring_bytes in
            (last_store at l ≡ some mi_batch_buffer_start) × (last_store (at + 4) l ≡ some offset))
          (ap (λ (r : Ring). r.virtual_start) ring)
          (dispatch_all-words rest n offset t ready (omega arith) at_n))

  -- What the calls leave of the tail and of the space.
  dispatch_all-ring :
      (offsets : List ℕ) (s : State W)
      → IsReady s.ring
      → let t = dispatch_all offsets s in
        (t.ring.tail ≡ (s.ring.tail + 8 * length offsets) % ring_bytes)
        × ((t.ring.space + 8 * length offsets) % 2 ^ 32 ≡ s.ring.space % 2 ^ 32)
  dispatch_all-ring [] s h = (omega (arith, h.tail_in), omega arith)
  dispatch_all-ring (o ∷ rest) s h =
      let (ret, ring, ready, before, after, log) = ring_dispatch_lem o s h in
      let t = (ring_dispatch o s).1 in
      let (tail, space) = dispatch_all-ring rest t ready in
      (
        omega (arith, tail, ap (λ (r : Ring). r.tail) ring),
        omega (arith, space, ap (λ (r : Ring). r.space) ring),
      )

  -- On a ready ring, after calls of `ring_dispatch` for at most as many batch buffers as the ring
  -- has room for pairs of words, the GPU finds the start of the `n`-th batch 8 * n bytes after the
  -- first tail, round the end of the ring, and its address in the next word. The tail is 8 bytes
  -- for each batch further on, and the space is less by as much modulo 2 ^ 32, however little of
  -- it there was.
  pub dispatch_all-batches :
      (offsets : List ℕ) (n offset : ℕ) (s : State W)
      → IsReady s.ring
      → 8 * length offsets ≤ ring_bytes
      → get_elem? offsets n ≡ some offset
      → let t = dispatch_all offsets s in
        let at = s.ring.virtual_start + (s.ring.tail + 8 * n) % ring_bytes in
        (last_store at t.log ≡ some mi_batch_buffer_start)
        × (last_store (at + 4) t.log ≡ some offset)
        × (t.ring.tail ≡ (s.ring.tail + 8 * length offsets) % ring_bytes)
        × ((t.ring.space + 8 * length offsets) % 2 ^ 32 ≡ s.ring.space % 2 ^ 32)
  dispatch_all-batches offsets n offset s h room at_n =
      let (start, address) = dispatch_all-words offsets n offset s h room at_n in
      let (tail, space) = dispatch_all-ring offsets s h in (start, address, tail, space)
