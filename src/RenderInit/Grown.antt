-- ===== src/RenderInit/Grown.antt =====
-- What the driver does between two writes of the registers that start a ring, as a `Frame`.
use mathlib.Core.Path.{subst}
use mathlib.Core.List.{append_assoc}
use nugpgpu.Prelude.{
  ℕ, ◌≡◌, ◌⊎◌, inl, inr, ◌∙◌, refl, ap, sym, Bool, false, List, [], ◌∷◌, ◌++◌, Bool-cases,
  if◌then◌else◌,
}
use nugpgpu.Platform.{Width, Platform}
use nugpgpu.Machine.{State}
use nugpgpu.Regrw.{gpu_write}
use nugpgpu.Regrw.Access.{gpu_read-Touches, gpu_write-Touches}
use nugpgpu.Regrw.Frame.{Place, Frame, hardware, place}
use nugpgpu.RenderInit.Controls.{
  is_control, control_writes, control_writes-hardware, gpu_read-controls, gpu_write-controls,
}

-- Every write of a list is of a register with the property.
abbrev pub AllOf : (ℕ → Type 0) → List (ℕ × ℕ) → Type 0
AllOf P [] = Unit {0}
AllOf P ((reg, v) ∷ l) = P reg × AllOf P l

AllOf-append : (P : ℕ → Type 0) (l m : List (ℕ × ℕ)) → AllOf P l → AllOf P m → AllOf P (l ++ m)
AllOf-append P [] m x y = y
AllOf-append P ((reg, v) ∷ l) m (first, x) y = (first, AllOf-append P l m x y)

-- From `s` to `t` only registers with the property were written, among those that start a ring.
pub record Grown {W : Type 0} (P : ℕ → Type 0) (s t : State W) : Type 0 where
  pub regs : t.regs ≡ s.regs
  pub placed : place t.ring ≡ place s.ring
  pub new : List (ℕ × ℕ)
  pub grows : control_writes s.regs t.log ≡ new ++ control_writes s.regs s.log
  pub only : AllOf P new

module _ {W : Type 0} (P : ℕ → Type 0) where
  abbrev pub Grown-refl : (s : State W) → Grown P s s
  Grown-refl s = record { regs = refl; placed = refl; new = []; grows = refl; only = tt }

  pub Grown-trans : {s t u : State W} → Grown P s t → Grown P t u → Grown P s u
  Grown-trans {s} {t} {u} x y = record {
    regs = y.regs ∙ x.regs;
    placed = y.placed ∙ x.placed;
    new = y.new ++ x.new;
    grows =
        subst (λ r. control_writes r u.log ≡ y.new ++ control_writes r t.log) x.regs y.grows
        ∙ ap (λ l. y.new ++ l) x.grows
        ∙ sym (append_assoc y.new x.new (control_writes s.regs s.log));
    only = AllOf-append P y.new x.new y.only x.only;
  }

  pub Grown-unseen :
      {s t : State W} (u : State W)
      → Grown P s t
      → u.regs ≡ t.regs
      → hardware u.log ≡ hardware t.log
      → place u.ring ≡ place t.ring
      → Grown P s u
  Grown-unseen {s} {t} u h regs log ring = record {
    regs = regs ∙ h.regs;
    placed = ring ∙ h.placed;
    new = h.new;
    grows =
        sym (control_writes-hardware s.regs u.log)
        ∙ ap (control_writes s.regs) log
        ∙ control_writes-hardware s.regs t.log
        ∙ h.grows;
    only = h.only;
  }

  pub gpu_write-Grown :
      ⦃p : Platform W⦄ (w : Width) (reg val : ℕ) (t : State W)
      → (is_control reg ≡ false) ⊎ P reg
      → Grown P t (gpu_write w reg val t).1
  gpu_write-Grown w reg val t ok =
      let (before, after, touched) = gpu_write-Touches w reg val t in
      let old = control_writes t.regs t.log in
      let seen = gpu_write-controls w reg val t in
      let pick : Bool → List (ℕ × ℕ) = λ b. if b then (reg, val) ∷ old else old in
      elim (Bool-cases (is_control reg)) [
        | inl e ↦ record {
          regs = touched.regs;
          placed = ap place touched.ring;
          new = (reg, val) ∷ [];
          grows = seen ∙ ap pick e;
          only = (elim ok [ inl other ↦ absurd cc | inr within ↦ within ], tt);
        }
        | inr e ↦ record {
          regs = touched.regs;
          placed = ap place touched.ring;
          new = [];
          grows = seen ∙ ap pick e;
          only = tt;
        }
      ]

-- The driver, while it writes none of the registers that start a ring but those of the property.
abbrev pub grown : {W : Type 0} → ⦃p : Platform W⦄ → (ℕ → Type 0) → Frame W
grown P = record {
  rel = Grown P;
  allowed = λ reg. (is_control reg ≡ false) ⊎ P reg;
  rel_refl = Grown-refl P;
  rel_trans = Grown-trans P;
  unseen = λ u h regs log count ring. Grown-unseen P u h regs log ring;
  based = λ h. ap (λ (x : Place). x.mmio_base) h.placed;
  read_keeps = λ w reg t.
      let (error, touched) = gpu_read-Touches w reg t in
      record {
        regs = touched.regs;
        placed = ap place touched.ring;
        new = [];
        grows = gpu_read-controls w reg t;
        only = tt;
      };
  write_keeps = λ w reg val t ok. gpu_write-Grown P w reg val t ok;
}
