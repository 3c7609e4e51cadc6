-- ===== src/Processors/Ends.antt =====
-- While the clock runs, no wait behind the lock runs out of fuel, whatever the other processors do to
-- `depth` meanwhile: so the code of a processor comes to its end.
use nugpgpu.Prelude.{
  ℕ, zero, suc, ◌+◌, ◌%◌, ◌^◌, ◌<◌, ◌≡◌, ◌∙◌, refl, ap, arith, Bool, true, false, ◌||◌, nonzero,
  bit_and, List, [], ◌∷◌, Option, none, some, if◌then◌else◌, Bool-cases, inl, inr,
}
use mathlib.Core.Path.{subst}
use nugpgpu.Platform.{Platform, ClockRuns, Width, w32}
use nugpgpu.Machine.{State, M, spin_lock}
use nugpgpu.Wait.{pause}
use nugpgpu.Regrw.{raw_gpu_read, needs_forcewake, gt_fifo_cpu_error_mask, fpga_dbg_rm_noclaim}
use nugpgpu.Regrw.Clients.{Call}
use nugpgpu.Processors.{
  Code, done, access, bump, store_depth, spent, poll_steps, wait_steps, forcewake_get_now_steps,
  forcewake_get_steps, forcewake_put_now_steps, forcewake_put_steps, unclaimed_steps, get_steps,
  put_steps, work_steps, awake_steps, read_steps, write_steps, body, Point, idle, entering,
  spinning, inside, leaving, left, System, move, take, give, traced, turn_at, turn, run,
}
use nugpgpu.Processors.Alike.{Alike, IsBlind, IsQuiet-Alike}
use nugpgpu.Processors.History.{is_inside, owns, PointIsBlind, IsLinear}
use nugpgpu.Processors.Rules.{update_rule}
use nugpgpu.Processors.Linear.{others-outside, give-outside, turn-IsLinear}

-- The code comes to its end with no wait out of fuel.
abbrev pub Ends : {W : Type 0} → Code W → State W → Type 0
Ends (done v) s = Unit {0}
Ends (access m k) s = Ends (k (m s).0) (m s).1
Ends (bump f c) s = Ends c (record s { depth = f s.depth })
Ends (store_depth d c) s = Ends c (record s { depth = d })
Ends (spent c) s = ⊥

abbrev pub PointEnds : {W : Type 0} → Point W → State W → Type 0
PointEnds idle s = Unit {0}
PointEnds (entering d) s = Unit {0}
PointEnds spinning s = Unit {0}
PointEnds (inside c b) s = Ends b s
PointEnds leaving s = Unit {0}
PointEnds (left d) s = Unit {0}

-- Wherever a processor stands behind the lock, its code comes to its end.
abbrev pub AllEnd : {W : Type 0} → System W → Type 0
AllEnd k = (j : ℕ) → PointEnds (k.cpus j).point k.state

module _ {W : Type 0} where
  Ends-Alike : (c : Code W) (s t : State W) → IsBlind c → Alike s t → Ends c s → Ends c t
  Ends-Alike (done v) s t blind e h = tt
  Ends-Alike (access m k) s t (quiet, blind) e h =
      let (value, after) = IsQuiet-Alike m s t quiet e in
      subst (λ (v : ℕ). Ends (k v) (m t).1) value
        (Ends-Alike (k (m s).0) (m s).1 (m t).1 (blind (m s).0) after h)
  Ends-Alike (bump f c) s t blind e h = Ends-Alike c _ _ blind e h
  Ends-Alike (store_depth d c) s t blind e h = Ends-Alike c _ _ blind e h
  Ends-Alike (spent c) s t blind e h = elim h [ ]

  PointEnds-Alike :
      (at : Point W) (s t : State W) → PointIsBlind at → Alike s t → PointEnds at s → PointEnds at t
  PointEnds-Alike idle s t blind e h = tt
  PointEnds-Alike (entering d) s t blind e h = tt
  PointEnds-Alike spinning s t blind e h = tt
  PointEnds-Alike (inside c b) s t blind e h = Ends-Alike b s t blind e h
  PointEnds-Alike leaving s t blind e h = tt
  PointEnds-Alike (left d) s t blind e h = tt

  PointEnds-outside : (at : Point W) (s : State W) → is_inside at ≡ false → PointEnds at s
  PointEnds-outside idle s e = tt
  PointEnds-outside (entering d) s e = tt
  PointEnds-outside spinning s e = tt
  PointEnds-outside (inside c b) s e = cc
  PointEnds-outside leaving s e = tt
  PointEnds-outside (left d) s e = tt

-- It does so from whatever state it is run.
record Always {W : Type 0} (c : Code W) : Type 0 where
  pub ends : (s : State W) → Ends c s

module _ {W : Type 0} where
  done-Always : {v : ℕ} → Always {W = W} (done v)
  done-Always = record { ends = λ s. tt }

  access-Always : {m : M W ℕ} {k : ℕ → Code W} → ((v : ℕ) → Always (k v)) → Always (access m k)
  access-Always {m} h = record { ends = λ s. (h (m s).0).ends (m s).1 }

  bump-Always : {f : ℕ → ℕ} {c : Code W} → Always c → Always (bump f c)
  bump-Always {f} h = record { ends = λ s. h.ends (record s { depth = f s.depth }) }

  if-Always : (b : Bool) {c d : Code W} → Always c → Always d → Always (if b then c else d)
  if-Always true h g = h
  if-Always false h g = g

module _ {W : Type 0} ⦃p : Platform W⦄ (runs : ClockRuns p) where
  poll_steps-Ends :
      (fuel reg : ℕ) (good : ℕ → Bool) (timeout : ℕ) (k : Code W) (s : State W)
      → Always k
      → p.patience timeout s.world < fuel
      → Ends (poll_steps fuel reg good timeout k) s
  unfolding poll_steps pause
  poll_steps-Ends zero reg good timeout k s always h = absurd (omega arith)
  poll_steps-Ends (suc fuel) reg good timeout k s always h =
      let r = raw_gpu_read w32 reg s in
      let same = runs.read_keeps timeout w32 (s.regs + reg) s.world in
      elim (Bool-cases (good r.0)) [
        | inl e ↦ rw (e, poll_steps, Ends) (always.ends r.1)
        | inr e ↦
            rw (e, poll_steps, Ends)
              (elim (Bool-cases (p.time_after (p.jiffies r.1.world) timeout)) [
                | inl l ↦ rw (l, Ends) (always.ends (raw_gpu_read w32 reg r.1).1)
                | inr l ↦
                    let nearer = runs.cpu_relax_nearer timeout r.1.world l in
                    rw (l, Ends)
                      (poll_steps-Ends fuel reg good timeout k (pause 0 r.1).1 always (omega arith))
              ])
      ]

  wait_steps-Always :
      (reg : ℕ) (good : ℕ → Bool) (ms : ℕ) {k : Code W}
      → Always k
      → Always (wait_steps reg good ms k)
  unfolding wait_steps
  wait_steps-Always reg good ms {k} always = record {
    ends = λ s. poll_steps-Ends _ reg good _ k s always (omega arith);
  }

  forcewake_get_steps-Always :
      (reg : ℕ) (force : Bool) {k : Code W} → Always k → Always (forcewake_get_steps reg force k)
  unfolding forcewake_get_steps forcewake_get_now_steps
  forcewake_get_steps-Always reg force always =
      let last = bump-Always always in
      bump-Always (
        if-Always (force || needs_forcewake reg)
          (wait_steps-Always _ _ _ (
            access-Always
              (λ _. access-Always (λ _. wait_steps-Always _ _ _ (wait_steps-Always _ _ _ last)))))
          last)

  forcewake_put_steps-Always :
      (reg : ℕ) (force : Bool) {k : Code W} → Always k → Always (forcewake_put_steps reg force k)
  unfolding forcewake_put_steps forcewake_put_now_steps
  forcewake_put_steps-Always reg force always =
      let last = bump-Always always in
      bump-Always (
        if-Always (force || needs_forcewake reg)
          (access-Always (λ _. access-Always (λ _. access-Always (λ dbg.
            if-Always (nonzero (bit_and dbg gt_fifo_cpu_error_mask)) (access-Always (λ _. last))
              last))))
          last)

  unclaimed_steps-Always : {k : Code W} → Always k → Always (unclaimed_steps k)
  unfolding unclaimed_steps
  unclaimed_steps-Always always = access-Always (λ v.
      if-Always (nonzero (bit_and v fpga_dbg_rm_noclaim)) (access-Always (λ _. always)) always)

  awake_steps-Always : (w : Width) (reg : ℕ) → Always {W = W} (awake_steps w reg)
  unfolding awake_steps
  awake_steps-Always w reg = access-Always (λ val. access-Always (λ v.
      if-Always (nonzero v) (forcewake_put_steps-Always (reg % 2 ^ 32) false done-Always)
        done-Always))

  -- What a call does behind the lock comes to its end.
  body-Always : (c : Call) → Always {W = W} (body c)
  unfolding get_steps put_steps work_steps read_steps write_steps
  body-Always Call.get =
      access-Always
        (λ v. if-Always (nonzero v) (forcewake_get_steps-Always 0 true done-Always) done-Always)
  body-Always Call.put =
      access-Always
        (λ v. if-Always (nonzero v) (forcewake_put_steps-Always 0 true done-Always) done-Always)
  body-Always Call.work =
      access-Always
        (λ v. if-Always (nonzero v) (forcewake_put_steps-Always 0 true done-Always) done-Always)
  body-Always (Call.read w reg) = access-Always (λ v.
      if-Always (nonzero v)
        (forcewake_get_steps-Always (reg % 2 ^ 32) false (awake_steps-Always w reg))
        (awake_steps-Always w reg))
  body-Always (Call.write w reg val) =
      unclaimed_steps-Always (access-Always (λ _. unclaimed_steps-Always done-Always))

  pub body-Ends : (c : Call) (s : State W) → Ends (body c) s
  body-Ends c s = (body-Always c).ends s

  module _ (programs : ℕ → List Call) (s0 : State W) (i : ℕ) (k : System W)
      (lin : IsLinear programs s0 k) (all : AllEnd k) where
    -- A step without the lock, which changes no more of the state than `depth`.
    outside-AllEnd :
        (at : Point W) (s : State W)
        → is_inside at ≡ false
        → Alike k.state s
        → AllEnd (move i at s k)
    outside-AllEnd at s outside e =
        update_rule (λ j d. PointEnds d.point s) i (record (k.cpus i) { point = at }) k.cpus
          (PointEnds-outside at s outside)
          (λ j ne. PointEnds-Alike (k.cpus j).point k.state s (lin.blind j) e (all j))

    -- A step behind the lock.
    inside-AllEnd :
        (c : Call) (b b' : Code W) (s : State W)
        → (k.cpus i).point ≡ inside c b
        → Ends b' s
        → AllEnd (move i (inside c b') s k)
    inside-AllEnd c b b' s e ends =
        update_rule (λ j d. PointEnds d.point s) i (record (k.cpus i) { point = inside c b' })
          k.cpus ends
          (λ j ne. PointEnds-outside (k.cpus j).point s (others-outside programs s0 i k lin e j ne))

    here : (at : Point W) → (k.cpus i).point ≡ at → PointEnds at k.state
    here at e = subst (λ x. PointEnds x k.state) e (all i)

    take-AllEnd :
        (c : Call) (cs : List Call) (o : Option ℕ) → k.owner ≡ o → AllEnd (take i c cs o k)
    take-AllEnd c cs (some j) e = all
    take-AllEnd c cs none e =
        let s = (spin_lock k.state).1 in
        update_rule (λ j d. PointEnds d.point s) i
          (record (k.cpus i) { calls = cs; point = inside c (body c) }) k.cpus (body-Ends c s)
          (λ j ne. PointEnds-outside (k.cpus j).point s (lin.exclusive j ∙ ap (owns j) e))

    give-AllEnd : (c : Call) (v : ℕ) → (k.cpus i).point ≡ inside c (done v) → AllEnd (give i c v k)
    give-AllEnd c v e =
        let at : Point W = if traced c then leaving else idle in
        update_rule (λ j d. PointEnds d.point (give i c v k).state) i
          (record (k.cpus i) { point = at; results = v ∷ (k.cpus i).results }) k.cpus
          (PointEnds-outside at _ (give-outside programs s0 i k lin c))
          (λ j ne. PointEnds-outside (k.cpus j).point _ (others-outside programs s0 i k lin e j ne))

    entering-outside :
        (b : Bool) (d : ℕ) → is_inside {W = W} (if b then entering d else spinning) ≡ false
    entering-outside true d = refl
    entering-outside false d = refl

    turn_at-AllEnd :
        (at : Point W) (cs : List Call) → (k.cpus i).point ≡ at → AllEnd (turn_at i at cs k)
    unfolding turn_at
    turn_at-AllEnd idle [] e = all
    turn_at-AllEnd idle (c ∷ cs) e =
        outside-AllEnd _ k.state (entering-outside (traced c) k.state.depth) refl
    turn_at-AllEnd (entering d) cs e = outside-AllEnd spinning _ refl refl
    turn_at-AllEnd spinning [] e = all
    turn_at-AllEnd spinning (c ∷ cs) e = take-AllEnd c cs k.owner refl
    turn_at-AllEnd (inside c (done v)) cs e = give-AllEnd c v e
    turn_at-AllEnd (inside c (access m f)) cs e = inside-AllEnd c (access m f) _ _ e (here _ e)
    turn_at-AllEnd (inside c (bump f b)) cs e = inside-AllEnd c (bump f b) _ _ e (here _ e)
    turn_at-AllEnd (inside c (store_depth d b)) cs e =
        inside-AllEnd c (store_depth d b) _ _ e (here _ e)
    turn_at-AllEnd (inside c (spent b)) cs e = all
    turn_at-AllEnd leaving cs e = outside-AllEnd (left k.state.depth) k.state refl refl
    turn_at-AllEnd (left d) cs e = outside-AllEnd idle _ refl refl

  pub run-AllEnd :
      (programs : ℕ → List Call) (s0 : State W) (schedule : List ℕ) (k : System W)
      → IsLinear programs s0 k
      → AllEnd k
      → AllEnd (run schedule k)
  run-AllEnd programs s0 [] k lin all = all
  run-AllEnd programs s0 (i ∷ is) k lin all =
      run-AllEnd programs s0 is (turn i k) (turn-IsLinear programs s0 i k lin)
        (turn_at-AllEnd programs s0 i k lin all (k.cpus i).point (k.cpus i).calls refl)
