-- ===== src/Regrw/Wake.antt =====
-- What the invariant of the count gives: a register that sleeps is read while the hardware is awake;
-- where the invariant begins, and how a put too many ends it.
use mathlib.Core.List.{append_assoc}
use nugpgpu.Prelude.{
  ℕ, ◌+◌, ◌-◌, ◌%◌, ◌^◌, ◌≡◌, ◌∙◌, refl, ap, sym, true, false, List, [], ◌∷◌, ◌++◌, arith, ◌==◌,
  ltb, some, Bool-cases, inl, inr,
}
use nugpgpu.Platform.{Width, w8, w16, w32, w64, Platform}
use nugpgpu.Machine.{State, Event, rd, acquire, release}
use nugpgpu.Machine.Log.{held, effects, lock_state}
use nugpgpu.Regrw.{
  needs_forcewake, gpu_forcewake_put, gpu_read, nugpgpu_regrw_init, nugpgpu_uncore_early_sanitize,
}
use nugpgpu.Regrw.Access.{
  locked, read_events, counted_down, before_read, before_read-Touches, gpu_read-value, gpu_read-log,
  gpu_read-Touches,
}
use nugpgpu.Regrw.Holds.{gpu_forcewake_put-Touches}
use nugpgpu.Regrw.Power.{IsPowered, awake_wake, is_awake, is_awake-Touches}

module _ {W : Type 0} ⦃p : Platform W⦄ where
  pub awake-before_read :
      (reg : ℕ) (s : State W)
      → needs_forcewake (reg % 2 ^ 32) ≡ true
      → is_awake s ≡ ltb 0 s.forcewake_count
      → is_awake (before_read reg s) ≡ true
  awake-before_read reg s needs counted =
      is_awake-Touches _ (before_read reg s) (before_read-Touches reg s)
      ∙ rw needs (elim (Bool-cases (s.forcewake_count == 0)) [
        | inl e ↦ rw e (awake_wake s.regs (acquire ∷ s.log))
        | inr e ↦ rw e (counted ∙ ground arith)
      ])

  -- If the hardware is awake exactly while the count is above zero and the lock is free, then
  -- `gpu_read` of a register that sleeps reads it in a state `t` in which the hardware is awake and
  -- the lock is held. The log of `t` extends the earlier one, the value returned is the one read
  -- in `t`, and the log of the end extends that of `t` by this read and what follows it.
  pub gpu_read-awake :
      (w : Width) (reg : ℕ) (s : State W)
      → needs_forcewake (reg % 2 ^ 32) ≡ true
      → IsPowered s
      → (t : State W) × (is_awake t ≡ true)
        × (lock_state t.log ≡ held)
        × ((new : List Event) × (t.log ≡ new ++ s.log))
        × ((gpu_read w reg s).0 ≡ (p.read w (s.regs + reg) t.world).0)
        × ((after : List Event) × ((gpu_read w reg s).1.log
              ≡ after ++ (rd w (s.regs + reg) (gpu_read w reg s).0 ∷ t.log)))
  gpu_read-awake w reg s needs v =
      let h = before_read-Touches reg s in
      (
        before_read reg s,
        awake-before_read reg s needs v.counted,
        h.lock (rw (v.unlocked)),
        (h.new ++ (acquire ∷ []), h.grows ∙ sym (append_assoc h.new (acquire ∷ []) s.log)),
        gpu_read-value w reg s
            ∙ ap (λ (r : ℕ). (p.read w (r + reg) (before_read reg s).world).0) h.regs,
        gpu_read-log w reg s,
      )

  -- `nugpgpu_regrw_init` on a zeroed count leaves the hardware asleep, the lock free and every
  -- pointer of `mmio_funcs` at the accessor of its own width.
  pub nugpgpu_regrw_init-IsPowered :
      (s : State W)
      → s.forcewake_count ≡ 0
      → let t = (nugpgpu_regrw_init s).1 in
        IsPowered t
        × (t.forcewake_count ≡ 0)
        × (t.mmio_funcs ≡ record {
          mmio_readb = some w8;
          mmio_readw = some w16;
          mmio_readl = some w32;
          mmio_readq = some w64;
          mmio_writeb = some w8;
          mmio_writew = some w16;
          mmio_writel = some w32;
          mmio_writeq = some w64;
        })
  unfolding nugpgpu_regrw_init nugpgpu_uncore_early_sanitize
  nugpgpu_regrw_init-IsPowered s e =
      (record { counted = ground arith; unlocked = refl; small = omega arith }, e, refl)

  -- `gpu_forcewake_put` with nobody holding the hardware takes the count to 2 ^ 32 - 1 while the
  -- hardware sleeps, and `gpu_read` then has no effect but to take the lock and give it back: it
  -- does not wake the hardware, whatever the register.
  pub gpu_forcewake_put-underflow :
      (s : State W) (w : Width) (reg : ℕ)
      → IsPowered s
      → s.forcewake_count ≡ 0
      → let t = (gpu_forcewake_put s).1 in
        (t.forcewake_count ≡ 2 ^ 32 - 1)
        × (is_awake t ≡ false)
        × (effects (gpu_read w reg t).1.log ≡ release ∷ acquire ∷ effects t.log)
  gpu_forcewake_put-underflow s w reg v e =
      let (error, h) = gpu_forcewake_put-Touches s in
      let t = (gpu_forcewake_put s).1 in
      let count : t.forcewake_count ≡ 2 ^ 32 - 1 = h.forcewake_count ∙ ap counted_down e in
      let nonzero_count : (counted_down s.forcewake_count == 0) ≡ false =
        ap (λ (n : ℕ). counted_down n == 0) e in
      let (err, r) = gpu_read-Touches w reg t in
      (
        count,
        is_awake-Touches _ _ h ∙ rw nonzero_count (v.counted ∙ ground arith),
        r.log
            ∙ ap (λ (n : ℕ). locked (read_events t.regs n (reg % 2 ^ 32) err) ++ effects t.log)
                count,
      )
