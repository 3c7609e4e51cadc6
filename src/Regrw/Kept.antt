-- ===== src/Regrw/Kept.antt =====
-- What the rest of the driver does between taking hold of the hardware and giving it up: `Kept s t`
-- says that from `s` to `t` the invariant of the register functions was kept, and with it the number
-- of holders, and that the ring's registers are where they were.
use nugpgpu.Prelude.{ℕ, ◌+◌, ◌≡◌, ◌≢◌, ◌∙◌, refl, ap, sym, arith, ltb}
use nugpgpu.Platform.{Platform}
use nugpgpu.Machine.{State, Ring}
use nugpgpu.Machine.Log.{lock_state, awake}
use nugpgpu.Regrw.Frame.{Place, Frame, hardware, awake-hardware, lock_state-hardware}
use nugpgpu.Regrw.{forcewake_mt}
use nugpgpu.Regrw.Access.{gpu_read-Touches, gpu_write-Touches}
use nugpgpu.Regrw.Power.{is_awake, IsPowered, gpu_read-IsPowered, gpu_write-IsPowered}

pub record Kept {W : Type 0} (s t : State W) : Type 0 where
  pub powered : IsPowered s → IsPowered t
  pub count : t.forcewake_count ≡ s.forcewake_count
  pub base : t.ring.mmio_base ≡ s.ring.mmio_base

module _ {W : Type 0} where
  pub Kept-refl : (s : State W) → Kept s s
  Kept-refl s = record { powered = λ v. v; count = refl; base = refl }

  pub Kept-trans : {s t u : State W} → Kept s t → Kept t u → Kept s u
  Kept-trans x y = record {
    powered = λ v. y.powered (x.powered v);
    count = y.count ∙ x.count;
    base = y.base ∙ x.base;
  }

  -- A step that the invariant does not see.
  pub Kept-unseen :
      {s t : State W} (u : State W)
      → Kept s t
      → is_awake u ≡ is_awake t
      → lock_state u.log ≡ lock_state t.log
      → u.forcewake_count ≡ t.forcewake_count
      → u.ring.mmio_base ≡ t.ring.mmio_base
      → Kept s u
  Kept-unseen {s} {t} u h awake lock count base = record {
    powered = λ v.
        let v' = h.powered v in
        record {
          counted = awake ∙ v'.counted ∙ ap (ltb 0) (sym count);
          unlocked = lock ∙ v'.unlocked;
          small = omega (arith, count, v'.small);
        };
    count = count ∙ h.count;
    base = base ∙ h.base;
  }

-- What the rest of the driver keeps, if it does not write FORCEWAKE_MT.
abbrev pub kept : {W : Type 0} → ⦃p : Platform W⦄ → Frame W
kept {W} = record {
  rel = Kept;
  allowed = λ reg. reg ≢ forcewake_mt;
  rel_refl = Kept-refl;
  rel_trans = Kept-trans;
  unseen = λ {s} {t} u h regs log count ring.
      Kept-unseen u h
        (sym (awake-hardware (u.regs + forcewake_mt) u.log)
          ∙ ap (λ (r : ℕ). awake (r + forcewake_mt) (hardware u.log)) regs
          ∙ ap (awake (t.regs + forcewake_mt)) log
          ∙ awake-hardware (t.regs + forcewake_mt) t.log)
        (sym (lock_state-hardware u.log) ∙ ap lock_state log ∙ lock_state-hardware t.log) count
        (ap (λ (x : Place). x.mmio_base) ring);
  based = λ h. h.base;
  read_keeps = λ w reg t.
      let (error, touched) = gpu_read-Touches w reg t in
      record {
        powered = gpu_read-IsPowered w reg t;
        count = touched.forcewake_count;
        base = ap (λ (r : Ring). r.mmio_base) touched.ring;
      };
  write_keeps = λ w reg val t ne.
      let (before, after, touched) = gpu_write-Touches w reg val t in
      record {
        powered = gpu_write-IsPowered w reg val t ne;
        count = touched.forcewake_count;
        base = ap (λ (r : Ring). r.mmio_base) touched.ring;
      };
}
