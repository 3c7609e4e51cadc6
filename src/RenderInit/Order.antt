-- ===== src/RenderInit/Order.antt =====
-- The order in which nugpgpu_ringbuffer_render_init writes the registers that start the ring.
use mathlib.Core.Path.{subst}
use mathlib.Core.List.{append_assoc}
use nugpgpu.RingRegisters.{ring_head_addr, ring_nr_pages, ring_valid}
use nugpgpu.Prelude.{
  ℕ, ◌+◌, ◌-◌, ◌^◌, ◌%◌, ◌≡◌, ◌⊎◌, inl, inr, ◌∙◌, refl, ap, Bool, false, List, [], ◌∷◌, ◌++◌,
  bit_and, bit_or, nonzero, if◌then◌else◌,
}
use nugpgpu.Platform.{w32, Platform}
use nugpgpu.Services.{Services}
use nugpgpu.Machine.{State, Status, success, when}
use nugpgpu.Wait.{wait_for, Waited, met, timed_out, unfinished}
use nugpgpu.Regrw.{nugpgpu_write, gpu_read, masked_bit_enable, masked_bit_disable}
use nugpgpu.Regrw.Frame.{place, Place, gpu_read-rel, gpu_write-rel, trace_out-rel}
use nugpgpu.Gtt.{page_size}
use nugpgpu.Ring.{set_ring}
use nugpgpu.Selftest.Frame.{check_dword_temp-rel}
use nugpgpu.RenderInit.{
  ring_is_running, clear_ring, retry_head, settle_ring, ring_started, start_ring,
}
use nugpgpu.RenderInit.Controls.{is_control, control_writes}
use nugpgpu.RenderInit.Grown.{AllOf, Grown, Grown-refl, Grown-trans, Grown-unseen, grown}
use nugpgpu.RenderInit.Steps.{run_wait-rel}
use nugpgpu.RenderInit.Wrote.{
  Wrote, Wrote-then, Wrote-trans, clear_ring-Wrote, ctl, forcewake_put-Grown, head, retry-Wrote,
  start, tail, write-Wrote,
}

-- RING_CTL for a ring of that size.
abbrev pub ctl_value : ℕ → ℕ
ctl_value size = bit_or (bit_and ((size + 2 ^ 32 - page_size) % 2 ^ 32) ring_nr_pages) ring_valid

-- The writes up to the end of the last wait, with the head a second time or not.
abbrev start_writes : Place → Bool → List (ℕ × ℕ)
start_writes x again =
    (ctl, ctl_value (x.size))
    ∷ (start, x.gva_ringbuffer)
    ∷ ((if again then (head, 0) ∷ [] else []) ++ ((tail, 0) ∷ (head, 0) ∷ (ctl, 0) ∷ []))

abbrev pub IsTail : ℕ → Type 0
IsTail reg = reg ≡ tail

module _ {W : Type 0} ⦃p : Platform W⦄ ⦃k : Services W⦄ where
  settle_ring-Grown :
      (base : ℕ) {u q : State W}
      → base ≡ 0x2000
      → u.ring.mmio_base ≡ 0x2000
      → Grown IsTail u q
      → Grown IsTail u (settle_ring base q).1
  unfolding settle_ring
  settle_ring-Grown base {u} {q} at at_u h =
      let f = grown IsTail in
      let free : (offset : ℕ) → is_control (0x2000 + offset) ≡ false → f.allowed (base + offset) =
        λ offset e. inl (rw at e) in
      let z = Grown-trans IsTail h (forcewake_put-Grown IsTail q) in
      let a = gpu_write-rel f z w32 (base + 0x9c) (masked_bit_enable (2 ^ 6)) (free 0x9c refl) in
      let b = gpu_write-rel f a w32 (base + 0x9c) (masked_bit_enable (2 ^ 14)) (free 0x9c refl) in
      let c =
        gpu_write-rel f b w32 (base + 0x29c)
          (bit_or (masked_bit_disable (2 ^ 13)) (masked_bit_enable (2 ^ 11))) (free 0x29c refl) in
      let d = gpu_write-rel f c w32 (base + 0xc0) (masked_bit_enable (2 ^ 7)) (free 0xc0 refl) in
      trace_out-rel f (check_dword_temp-rel f (inl refl) (inr refl) at_u d)

  settle_ring-success : (base : ℕ) (q : State W) → (settle_ring base q).0 ≡ success
  unfolding settle_ring
  settle_ring-success base q = refl

  -- What follows the last wait: writes of the tail, if the ring has started, and else none.
  ring_started-Grown :
      (w : Waited) (u : State W)
      → u.ring.mmio_base ≡ 0x2000
      → let (ret, t) = ring_started w u in (h : Grown IsTail u t) × ((ret ≡ success) ⊎ (h.new ≡ []))
  unfolding ring_started
  ring_started-Grown timed_out u at = (Grown-refl IsTail u, inr refl)
  ring_started-Grown unfinished u at = (Grown-refl IsTail u, inr refl)
  ring_started-Grown met u at =
      let f = grown IsTail in
      let base = u.ring.mmio_base in
      let (top, u1) = gpu_read w32 (base + 0x34) u in
      let u2 = (set_ring (record (u1.ring) { head = top }) u1).1 in
      let a = gpu_read-rel f (f.rel_refl u) w32 (base + 0x34) in
      let b = gpu_read-rel f (Grown-unseen IsTail u2 a refl refl refl) w32 (base + 0x30) in
      (
        settle_ring-Grown base at at (Grown-unseen IsTail _ b refl refl refl),
        inl (settle_ring-success base _),
      )

  -- What is written up to the end of the last wait.
  start_ring-Wrote :
      (s : State W)
      → s.ring.mmio_base ≡ 0x2000
      → (again : Bool) × (w : Waited) × (z : State W) × Wrote
          (start_writes (place s.ring) again)
          s
          z
        × (start_ring s ≡ ring_started w z)
  unfolding start_ring
  start_ring-Wrote s at =
      let f = grown (λ _. ⊥) in
      let u = (clear_ring s).1 in
      let cleared = clear_ring-Wrote s at in
      let base = u.ring.mmio_base in
      let at_u : base ≡ 0x2000 = ap (λ (x : Place). x.mmio_base) cleared.placed ∙ at in
      let (top, v) = gpu_read w32 (base + 0x34) u in
      let again = nonzero (bit_and top ring_head_addr) in
      let a = Wrote-then cleared (gpu_read-rel f (f.rel_refl u) w32 (base + 0x34)) in
      let x = (when again (retry_head base) v).1 in
      let b = Wrote-trans a (retry-Wrote base again v at_u) in
      let c = Wrote-then b (gpu_read-rel f (f.rel_refl x) w32 (base + 0x34)) in
      let d = Wrote-trans c (write-Wrote base 0x38 u.ring.gva_ringbuffer _ at_u refl) in
      let e = Wrote-trans d (write-Wrote base 0x3c (ctl_value u.ring.size) _ at_u refl) in
      let gva = u.ring.gva_ringbuffer in
      let y =
        (nugpgpu_write (base + 0x3c) (ctl_value u.ring.size)
          (nugpgpu_write (base + 0x38) gva (gpu_read w32 (base + 0x34) x).1).1).1 in
      let (waited, z) = wait_for (ring_is_running base gva) 50 y in
      let done = Wrote-then e (run_wait-rel f base gva (f.rel_refl y)) in
      (
        again,
        waited,
        z,
        subst (λ (x : Place). Wrote (start_writes x again) s z) cleared.placed done,
        refl,
      )

  -- On the render ring, from the taking of the hardware on, the registers that start the ring are
  -- written in this order: RING_CTL, RING_HEAD and RING_TAIL are cleared, RING_HEAD perhaps a second
  -- time; RING_START is given the graphics address of the ring; and only then RING_CTL its size and
  -- the valid bit. None of them is written before that or after it, but the tail, which may move once
  -- the start has succeeded.
  pub start_ring-controls :
      (s : State W)
      → s.ring.mmio_base ≡ 0x2000
      → let (ret, t) = start_ring s in
        (again : Bool) × (tails : List (ℕ × ℕ)) × (control_writes s.regs t.log
          ≡ tails
            ++ ((ctl, ctl_value s.ring.size)
                ∷ (start, s.ring.gva_ringbuffer)
                ∷ ((if again then (head, 0) ∷ [] else [])
                    ++ ((tail, 0) ∷ (head, 0) ∷ (ctl, 0) ∷ control_writes s.regs s.log))))
        × AllOf IsTail tails
        × ((ret ≡ success) ⊎ (tails ≡ []))
  start_ring-controls s at =
      let (again, w, z, wrote, is) = start_ring-Wrote s at in
      let (h, outcome) =
        ring_started-Grown w z (ap (λ (x : Place). x.mmio_base) wrote.placed ∙ at) in
      let second : List (ℕ × ℕ) = if again then (head, 0) ∷ [] else [] in
      let first : List (ℕ × ℕ) = (tail, 0) ∷ (head, 0) ∷ (ctl, 0) ∷ [] in
      let grows =
        subst
          (λ (r : ℕ). control_writes r (ring_started w z).1.log ≡ h.new ++ control_writes r z.log)
          wrote.regs h.grows
        ∙ ap (λ l. h.new ++ l)
            (wrote.grows
              ∙ ap (λ l. (ctl, ctl_value s.ring.size) ∷ (start, s.ring.gva_ringbuffer) ∷ l)
                  (append_assoc second first (control_writes s.regs s.log))) in
      (
        again,
        h.new,
        ap (λ (r : Status × State W). control_writes s.regs r.1.log) is ∙ grows,
        h.only,
        elim outcome [
          | inl done ↦ inl (ap (λ (r : Status × State W). r.0) is ∙ done)
          | inr none_new ↦ inr none_new
        ],
      )

  -- The start of the ring leaves it where it is.
  pub start_ring-placed :
      (s : State W) → s.ring.mmio_base ≡ 0x2000 → place (start_ring s).1.ring ≡ place s.ring
  start_ring-placed s at =
      let (again, w, z, wrote, is) = start_ring-Wrote s at in
      let (h, outcome) =
        ring_started-Grown w z (ap (λ (x : Place). x.mmio_base) wrote.placed ∙ at) in
      ap (λ (r : Status × State W). place (r.1).ring) is ∙ h.placed ∙ wrote.placed
