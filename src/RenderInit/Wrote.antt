-- ===== src/RenderInit/Wrote.antt =====
-- The registers that start a ring, and which of them each stage of the start of the ring writes, in
-- which order.
use mathlib.Core.Path.{subst}
use mathlib.Core.List.{append_assoc}
use nugpgpu.RingRegisters.{render_hws_pga_gen7}
use nugpgpu.Prelude.{
  ℕ, ◌+◌, ◌≡◌, inl, ◌∙◌, refl, ap, sym, Bool, true, false, List, [], ◌∷◌, ◌++◌, if◌then◌else◌, ◌==◌,
}
use nugpgpu.Platform.{w32, Platform}
use nugpgpu.Machine.{State, when}
use nugpgpu.Regrw.{nugpgpu_write, gpu_forcewake_get, gpu_forcewake_put}
use nugpgpu.Regrw.Effects.{wake_events, sleep_events}
use nugpgpu.Regrw.Access.{counted_down, gpu_write-Touches}
use nugpgpu.Regrw.Holds.{gpu_forcewake_get-Touches, gpu_forcewake_put-Touches}
use nugpgpu.Regrw.Frame.{Place, place, when-rel, gpu_read-rel, gpu_write-rel}
use nugpgpu.Ring.Frame.{flushtlb-rel}
use nugpgpu.RenderInit.{clear_ring, report_head, retry_head}
use nugpgpu.RenderInit.Controls.{
  is_control, control_writes, locked-silent, if-IsSilent, control_writes-wake, control_writes-sleep,
  gpu_write-controls,
}
use nugpgpu.RenderInit.Grown.{AllOf, Grown, Grown-refl, grown}
use nugpgpu.RenderInit.Steps.{report_head-rel}

abbrev pub ctl : ℕ
ctl = 0x203c

abbrev pub head : ℕ
head = 0x2034

abbrev pub tail : ℕ
tail = 0x2030

abbrev pub start : ℕ
start = 0x2038

-- From `s` to `t` these writes were made of the registers that start a ring.
pub record Wrote {W : Type 0} (new : List (ℕ × ℕ)) (s t : State W) : Type 0 where
  pub regs : t.regs ≡ s.regs
  pub placed : place t.ring ≡ place s.ring
  pub grows : control_writes s.regs t.log ≡ new ++ control_writes s.regs s.log

nothing_of : (l : List (ℕ × ℕ)) → AllOf (λ _. ⊥) l → l ≡ []
nothing_of [] h = refl
nothing_of ((reg, v) ∷ l) (first, h) = elim first [ ]

module _ {W : Type 0} where
  pub Wrote-trans :
      {a b : List (ℕ × ℕ)} {s t u : State W} → Wrote a s t → Wrote b t u → Wrote (b ++ a) s u
  Wrote-trans {a} {b} {s} {t} {u} x y = record {
    regs = y.regs ∙ x.regs;
    placed = y.placed ∙ x.placed;
    grows =
        subst (λ r. control_writes r u.log ≡ b ++ control_writes r t.log) x.regs y.grows
        ∙ ap (λ l. b ++ l) x.grows
        ∙ sym (append_assoc b a (control_writes s.regs s.log));
  }

  -- Steps that may write none of the registers.
  pub quiet : {s t : State W} → Grown (λ _. ⊥) s t → Wrote [] s t
  quiet {s} h = record {
    regs = h.regs;
    placed = h.placed;
    grows = h.grows ∙ ap (λ l. l ++ control_writes s.regs s.log) (nothing_of h.new h.only);
  }

  -- After which steps nothing was added.
  pub Wrote-then :
      {a : List (ℕ × ℕ)} {s t u : State W} → Wrote a s t → Grown (λ _. ⊥) t u → Wrote a s u
  Wrote-then x y = Wrote-trans x (quiet y)

module _ {W : Type 0} ⦃p : Platform W⦄ where
  pub write-Wrote :
      (base offset val : ℕ) (t : State W)
      → base ≡ 0x2000
      → is_control (0x2000 + offset) ≡ true
      → Wrote ((0x2000 + offset, val) ∷ []) t (nugpgpu_write (base + offset) val t).1
  write-Wrote base offset val t at is =
      subst (λ (b : ℕ). Wrote ((0x2000 + offset, val) ∷ []) t (nugpgpu_write (b + offset) val t).1)
        (sym at)
        (let (before, after, touched) = gpu_write-Touches w32 (0x2000 + offset) val t in
          record {
            regs = touched.regs;
            placed = ap place touched.ring;
            grows =
                gpu_write-controls w32 (0x2000 + offset) val t
                ∙ ap
                    (λ b.
                      if b
                      then (0x2000 + offset, val) ∷ control_writes t.regs t.log
                      else control_writes t.regs t.log)
                    is;
          })

  forcewake_get-Wrote : (t : State W) → Wrote [] t (gpu_forcewake_get t).1
  forcewake_get-Wrote t =
      let touched = gpu_forcewake_get-Touches t in
      record {
        regs = touched.regs;
        placed = ap place touched.ring;
        grows =
            locked-silent t.regs (if t.forcewake_count == 0 then wake_events t.regs else []) t.log
              (gpu_forcewake_get t).1.log touched.log
              (if-IsSilent t.regs (t.forcewake_count == 0) (wake_events t.regs)
                (control_writes-wake t.regs));
      }

  pub forcewake_put-Grown : (P : ℕ → Type 0) (t : State W) → Grown P t (gpu_forcewake_put t).1
  forcewake_put-Grown P t =
      let (error, touched) = gpu_forcewake_put-Touches t in
      record {
        regs = touched.regs;
        placed = ap place touched.ring;
        new = [];
        grows =
            locked-silent t.regs
              (if counted_down t.forcewake_count == 0 then sleep_events t.regs error else []) t.log
              (gpu_forcewake_put t).1.log touched.log
              (if-IsSilent t.regs (counted_down t.forcewake_count == 0) (sleep_events t.regs error)
                (control_writes-sleep t.regs error));
        only = tt;
      }

  -- The clearing, after the taking of the hardware.
  pub clear_ring-Wrote :
      (t : State W)
      → t.ring.mmio_base ≡ 0x2000
      → Wrote ((tail, 0) ∷ (head, 0) ∷ (ctl, 0) ∷ []) t (clear_ring t).1
  unfolding clear_ring
  clear_ring-Wrote t at =
      let f = grown (λ _. ⊥) in
      let g = (gpu_forcewake_get t).1 in
      let taken = forcewake_get-Wrote t in
      let base = g.ring.mmio_base in
      let at_g : base ≡ 0x2000 = ap (λ (x : Place). x.mmio_base) taken.placed ∙ at in
      let a = gpu_write-rel f (f.rel_refl g) w32 render_hws_pga_gen7 g.ring.gva_status (inl refl) in
      let b = flushtlb-rel f (inl refl) at_g (gpu_read-rel f a w32 render_hws_pga_gen7) in
      let flushed = Wrote-then taken b in
      let c = Wrote-trans flushed (write-Wrote base 0x3c 0 _ at_g refl) in
      let d = Wrote-trans c (write-Wrote base 0x34 0 _ at_g refl) in
      Wrote-trans d (write-Wrote base 0x30 0 _ at_g refl)

  -- The second attempt at the head, if it is made.
  pub retry-Wrote :
      (base : ℕ) (again : Bool) (t : State W)
      → base ≡ 0x2000
      → Wrote (if again then (head, 0) ∷ [] else []) t (when again (retry_head base) t).1
  unfolding retry_head
  retry-Wrote base false t at = quiet (Grown-refl (λ _. ⊥) t)
  retry-Wrote base true t at =
      let f = grown (λ _. ⊥) in
      let u = (nugpgpu_write (base + 0x34) 0 t).1 in
      let a = gpu_read-rel f (f.rel_refl u) w32 (base + 0x34) in
      Wrote-then (write-Wrote base 0x34 0 t at refl)
        (when-rel f a _ (report_head base) (report_head-rel f base a))
