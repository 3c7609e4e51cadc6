-- ===== src/Processors/Rules.antt =====
-- One processor set among the others, and what a processor has and does without the lock.
use nugpgpu.Prelude.{
  ℕ, ◌≡◌, ◌≢◌, refl, sym, ap, arith, true, false, List, ◌∷◌, Option, none, some, ◌==◌, ==_iff,
  Bool-cases, inl, inr,
}
use mathlib.Core.Path.{subst}
use nugpgpu.Platform.{Platform}
use nugpgpu.Machine.{State, spin_unlock}
use nugpgpu.Regrw.Clients.{Call}
use nugpgpu.Processors.{Point, idle, entering, spinning, inside, leaving, left, Cpu, update}
use nugpgpu.Processors.Alike.{Alike, finish-Alike}
use nugpgpu.Processors.Bodies.{returned}
use nugpgpu.Processors.History.{
  calls_of, owns, is_inside, rest, promised, PointIsBlind, replay, answers,
}

pub owns_lem : (i : ℕ) (o : Option ℕ) → owns i o ≡ true → o ≡ some i
owns_lem i none e = cc
owns_lem i (some j) e = ap some (sym ((==_iff i j).0 e))

pub owns-other : (i j : ℕ) → j ≢ i → owns j (some i) ≡ false
owns-other i j ne = ground arith

pub calls_of_self :
    (i : ℕ) (c : Call) (h : List (ℕ × Call)) → calls_of i ((i, c) ∷ h) ≡ c ∷ calls_of i h
calls_of_self i c h = ground arith

pub calls_of_other :
    (i j : ℕ) (c : Call) (h : List (ℕ × Call)) → j ≢ i → calls_of j ((i, c) ∷ h) ≡ calls_of j h
calls_of_other i j c h ne = ground arith

module _ {W : Type 0} ⦃p : Platform W⦄ where
  pub answers_self :
      (i : ℕ) (c : Call) (h : List (ℕ × Call)) (s : State W)
      → answers i ((i, c) ∷ h) s ≡ returned c (replay h s) ∷ answers i h s
  answers_self i c h s = ground arith

  pub answers_other :
      (i j : ℕ) (c : Call) (h : List (ℕ × Call)) (s : State W)
      → j ≢ i
      → answers j ((i, c) ∷ h) s ≡ answers j h s
  answers_other i j c h s ne = ground arith

  -- What holds of the processor that is set and of each other one holds of each.
  pub update_rule :
      (P : ℕ → Cpu W → Type 0) (i : ℕ) (c : Cpu W) (cpus : ℕ → Cpu W)
      → P i c
      → ((j : ℕ) → j ≢ i → P j (cpus j))
      → (j : ℕ) → P j (update i c cpus j)
  update_rule P i c cpus here others j = elim (Bool-cases (j == i)) [
    | inl e ↦ rw e (subst (λ n. P n c) (sym ((==_iff j i).0 e)) here)
    | inr e ↦ rw e (others j (ground arith))
  ]

  pub update_self : (i : ℕ) (c : Cpu W) (cpus : ℕ → Cpu W) → update i c cpus i ≡ c
  update_self i c cpus = ground arith

  pub promised-outside :
      (at : Point W) (vs : List ℕ) (s : State W) → is_inside at ≡ false → promised at vs s ≡ vs
  promised-outside idle vs s e = refl
  promised-outside (entering d) vs s e = refl
  promised-outside spinning vs s e = refl
  promised-outside (inside c b) vs s e = cc
  promised-outside leaving vs s e = refl
  promised-outside (left d) vs s e = refl

  pub PointIsBlind-outside : (at : Point W) → is_inside at ≡ false → PointIsBlind at
  PointIsBlind-outside idle e = tt
  PointIsBlind-outside (entering d) e = tt
  PointIsBlind-outside spinning e = tt
  PointIsBlind-outside (inside c b) e = cc
  PointIsBlind-outside leaving e = tt
  PointIsBlind-outside (left d) e = tt

  pub rest-outside : (at : Point W) (s : State W) → is_inside at ≡ false → rest at s ≡ s
  rest-outside idle s e = refl
  rest-outside (entering d) s e = refl
  rest-outside spinning s e = refl
  rest-outside (inside c b) s e = cc
  rest-outside leaving s e = refl
  rest-outside (left d) s e = refl

  -- Whoever is inside does not mind another depth.
  pub rest-Alike :
      (at : Point W) (vs : List ℕ) (s t : State W)
      → PointIsBlind at
      → Alike s t
      → Alike (rest at s) (rest at t) × (promised at vs s ≡ promised at vs t)
  rest-Alike idle vs s t blind e = (e, refl)
  rest-Alike (entering d) vs s t blind e = (e, refl)
  rest-Alike spinning vs s t blind e = (e, refl)
  rest-Alike (inside c b) vs s t blind e =
      let (value, after) = finish-Alike b s t blind e in
      (ap (λ (u : State W). (spin_unlock u).1) after, ap (λ v. v ∷ vs) value)
  rest-Alike leaving vs s t blind e = (e, refl)
  rest-Alike (left d) vs s t blind e = (e, refl)
