-- ===== src/Processors/Alike.antt =====
-- `depth` is for the messages only: what the code of a processor does to the rest of the state, and
-- what it returns, is the same at every depth.
use nugpgpu.Prelude.{
  ℕ, zero, suc, ◌%◌, ◌^◌, ◌||◌, nonzero, bit_and, ◌≡◌, ◌∙◌, refl, sym, ap, Bool, true, false,
  if◌then◌else◌,
}
use mathlib.Core.Path.{subst}
use nugpgpu.Platform.{Width, Platform}
use nugpgpu.Machine.{State, M}
use nugpgpu.Wait.{pause}
use nugpgpu.Regrw.{needs_forcewake, gt_fifo_cpu_error_mask, fpga_dbg_rm_noclaim}
use nugpgpu.Regrw.Clients.{Call}
use nugpgpu.Processors.{
  Code, done, access, bump, store_depth, spent, finish, poll_steps, wait_steps,
  forcewake_get_now_steps, forcewake_get_steps, forcewake_put_now_steps, forcewake_put_steps,
  unclaimed_steps, get_steps, put_steps, work_steps, awake_steps, read_steps, write_steps, body,
}

-- The same but for `depth`.
abbrev pub core : {W : Type 0} → State W → State W
core s = record s { depth = 0 }

abbrev pub Alike : {W : Type 0} → State W → State W → Type 0
Alike s t = core s ≡ core t

-- An access that has nothing to do with `depth`.
abbrev pub IsQuiet : {W : Type 0} → M W ℕ → Type 0
IsQuiet {W} m = (s : State W) → m (core s) ≡ ((m s).0, core (m s).1)

abbrev pub IsBlind : {W : Type 0} → Code W → Type 0
IsBlind (done v) = Unit {0}
IsBlind (access m k) = IsQuiet m × ((v : ℕ) → IsBlind (k v))
IsBlind (bump f c) = IsBlind c
IsBlind (store_depth d c) = IsBlind c
IsBlind (spent c) = IsBlind c

module _ {W : Type 0} where
  pub IsQuiet-Alike :
      (m : M W ℕ) (s t : State W)
      → IsQuiet m
      → Alike s t
      → ((m s).0 ≡ (m t).0) × Alike (m s).1 (m t).1
  IsQuiet-Alike m s t quiet e =
      let q = sym (quiet s) ∙ ap m e ∙ quiet t in (ap (λ r. r.0) q, ap (λ r. r.1) q)

  pub finish-Alike :
      (c : Code W) (s t : State W)
      → IsBlind c
      → Alike s t
      → ((finish c s).0 ≡ (finish c t).0) × Alike (finish c s).1 (finish c t).1
  unfolding finish
  finish-Alike (done v) s t blind e = (refl, e)
  finish-Alike (access m k) s t (quiet, blind) e =
      let (value, after) = IsQuiet-Alike m s t quiet e in
      subst
        (λ (v : ℕ).
          ((finish (k (m s).0) (m s).1).0 ≡ (finish (k v) (m t).1).0)
          × Alike (finish (k (m s).0) (m s).1).1 (finish (k v) (m t).1).1)
        value (finish-Alike (k (m s).0) (m s).1 (m t).1 (blind (m s).0) after)
  finish-Alike (bump f c) s t blind e = finish-Alike c _ _ blind e
  finish-Alike (store_depth d c) s t blind e = finish-Alike c _ _ blind e
  finish-Alike (spent c) s t blind e = finish-Alike c s t blind e

  if-IsBlind : (b : Bool) (c d : Code W) → IsBlind c → IsBlind d → IsBlind (if b then c else d)
  if-IsBlind true c d h g = h
  if-IsBlind false c d h g = g

module _ {W : Type 0} ⦃p : Platform W⦄ where
  poll_steps-IsBlind :
      (fuel reg : ℕ) (good : ℕ → Bool) (timeout : ℕ) (k : Code W)
      → IsBlind k
      → IsBlind (poll_steps fuel reg good timeout k)
  unfolding poll_steps pause
  poll_steps-IsBlind zero reg good timeout k blind = blind
  poll_steps-IsBlind (suc fuel) reg good timeout k blind =
      let later = poll_steps-IsBlind fuel reg good timeout k blind in
      (
        λ s. refl,
        λ v. if-IsBlind (good v) _ _ blind (
          λ s. refl,
          λ now.
              if-IsBlind (p.time_after now timeout) _ _ (λ s. refl, λ _. blind)
                (λ s. refl, λ _. later),
        ),
      )

  wait_steps-IsBlind :
      (reg : ℕ) (good : ℕ → Bool) (ms : ℕ) (k : Code W)
      → IsBlind k
      → IsBlind (wait_steps reg good ms k)
  unfolding wait_steps
  wait_steps-IsBlind reg good ms k blind =
      (λ s. refl, λ timeout. (λ s. refl, λ fuel. poll_steps-IsBlind fuel reg good timeout k blind))

  forcewake_get_steps-IsBlind :
      (reg : ℕ) (force : Bool) (k : Code W) → IsBlind k → IsBlind (forcewake_get_steps reg force k)
  unfolding forcewake_get_steps forcewake_get_now_steps
  forcewake_get_steps-IsBlind reg force k blind =
      if-IsBlind (force || needs_forcewake reg) _ _
        (wait_steps-IsBlind _ _ _ _ (
          λ s. refl,
          λ _. (λ s. refl, λ _. wait_steps-IsBlind _ _ _ _ (wait_steps-IsBlind _ _ _ _ blind)),
        ))
        blind

  forcewake_put_steps-IsBlind :
      (reg : ℕ) (force : Bool) (k : Code W) → IsBlind k → IsBlind (forcewake_put_steps reg force k)
  unfolding forcewake_put_steps forcewake_put_now_steps
  forcewake_put_steps-IsBlind reg force k blind =
      if-IsBlind (force || needs_forcewake reg) _ _
        (
          λ s. refl,
          λ _. (
            λ s. refl,
            λ _. (
              λ s. refl,
              λ dbg.
                  if-IsBlind (nonzero (bit_and dbg gt_fifo_cpu_error_mask)) _ _
                    (λ s. refl, λ _. blind) blind,
            ),
          ),
        )
        blind

  unclaimed_steps-IsBlind : (k : Code W) → IsBlind k → IsBlind (unclaimed_steps k)
  unfolding unclaimed_steps
  unclaimed_steps-IsBlind k blind = (
    λ s. refl,
    λ v. if-IsBlind (nonzero (bit_and v fpga_dbg_rm_noclaim)) _ _ (λ s. refl, λ _. blind) blind,
  )

module _ (W : Type 0) ⦃p : Platform W⦄ where
  awake_steps-IsBlind : (w : Width) (reg : ℕ) → IsBlind {W = W} (awake_steps w reg)
  unfolding awake_steps
  awake_steps-IsBlind w reg = (
    λ s. refl,
    λ val. (
      λ s. refl,
      λ v. if-IsBlind (nonzero v) _ _ (forcewake_put_steps-IsBlind (reg % 2 ^ 32) false _ tt) tt,
    ),
  )

  pub body-IsBlind : (c : Call) → IsBlind {W = W} (body c)
  unfolding get_steps put_steps work_steps read_steps write_steps
  body-IsBlind Call.get =
      (λ s. refl, λ v. if-IsBlind (nonzero v) _ _ (forcewake_get_steps-IsBlind 0 true _ tt) tt)
  body-IsBlind Call.put =
      (λ s. refl, λ v. if-IsBlind (nonzero v) _ _ (forcewake_put_steps-IsBlind 0 true _ tt) tt)
  body-IsBlind Call.work =
      (λ s. refl, λ v. if-IsBlind (nonzero v) _ _ (forcewake_put_steps-IsBlind 0 true _ tt) tt)
  body-IsBlind (Call.read w reg) = (
    λ s. refl,
    λ v.
        if-IsBlind (nonzero v) _ _
          (forcewake_get_steps-IsBlind (reg % 2 ^ 32) false _ (awake_steps-IsBlind w reg))
          (awake_steps-IsBlind w reg),
  )
  body-IsBlind (Call.write w reg val) =
      unclaimed_steps-IsBlind _ (λ s. refl, λ _. unclaimed_steps-IsBlind _ tt)
