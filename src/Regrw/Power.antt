-- ===== src/Regrw/Power.antt =====
-- The hardware is awake exactly while the reference count says so, and a register that sleeps is
-- read while the hardware is awake and the lock is held.
use mathlib.Core.List.{append_assoc}
use nugpgpu.Prelude.{
  ℕ, ◌+◌, ◌%◌, ◌^◌, ◌<◌, ◌≡◌, ◌≢◌, ◌∙◌, refl, ap, sym, Bool, true, false, List, [], ◌∷◌, ◌++◌,
  arith, if◌then◌else◌, ◌==◌, ◌&&◌, ltb, Bool-cases, inl, inr,
}
use nugpgpu.Platform.{Width, Platform}
use nugpgpu.Machine.{State, Event, wr, acquire}
use nugpgpu.Machine.Log.{LockState, free, effects, awake, awake-effects, awake-append, lock_state}
use nugpgpu.Machine.Log.Touches.{Touches}
use nugpgpu.Regrw.{
  forcewake_mt, needs_forcewake, forcewake_work, gpu_forcewake_get, gpu_forcewake_put, gpu_read,
  gpu_write,
}
use nugpgpu.Regrw.Effects.{wake_events, sleep_events, claim_events}
use nugpgpu.Regrw.Access.{
  locked, read_events, write_events, counted_down, gpu_read-Touches, gpu_write-Touches,
}
use nugpgpu.Regrw.Holds.{
  gpu_forcewake_get-Touches, gpu_forcewake_put-Touches, forcewake_work-Touches,
}

-- Whether the driver's last word to FORCEWAKE_MT was to stay awake.
abbrev pub is_awake : {W : Type 0} → State W → Bool
is_awake s = awake (s.regs + forcewake_mt) s.log

-- Between two calls: the hardware is awake if and only if someone holds it, and nobody holds the
-- lock.
pub record IsPowered {W : Type 0} (s : State W) : Type 0 where
  pub counted : is_awake s ≡ ltb 0 s.forcewake_count
  pub unlocked : lock_state s.log ≡ free
  pub small : s.forcewake_count < 2 ^ 32

module _ {W : Type 0} where
  pub is_awake-Touches :
      {l : LockState} {evs : List Event} (s t : State W)
      → Touches l evs s t
      → is_awake t ≡ awake (s.regs + forcewake_mt) (evs ++ s.log)
  is_awake-Touches {evs = evs} s t h =
      ap (λ (r : ℕ). awake (r + forcewake_mt) t.log) h.regs
      ∙ sym (awake-effects (s.regs + forcewake_mt) t.log)
      ∙ ap (λ l. awake (s.regs + forcewake_mt) l) h.log
      ∙ awake-append (s.regs + forcewake_mt) evs (effects s.log) s.log
          (awake-effects (s.regs + forcewake_mt) s.log)

  IsPowered-Touches :
      {evs : List Event} (s t : State W)
      → Touches free evs s t
      → awake (s.regs + forcewake_mt) (evs ++ s.log) ≡ ltb 0 s.forcewake_count
      → lock_state s.log ≡ free
      → s.forcewake_count < 2 ^ 32
      → IsPowered t
  IsPowered-Touches s t h e u small = record {
    counted = is_awake-Touches s t h ∙ e ∙ ap (ltb 0) (sym h.forcewake_count);
    unlocked = h.lock u;
    small = omega (arith, h.forcewake_count);
  }

module _ (regs : ℕ) (l : List Event) where
  awake-locked :
      (evs : List Event)
      → awake (regs + forcewake_mt) (locked evs ++ l) ≡ awake (regs + forcewake_mt) (evs ++ l)
  awake-locked evs =
      ap (λ r. awake (regs + forcewake_mt) r) (append_assoc evs (acquire ∷ []) l)
      ∙ awake-append (regs + forcewake_mt) evs (acquire ∷ l) l refl

  pub awake_wake : awake (regs + forcewake_mt) (wake_events regs ++ l) ≡ true
  awake_wake = ground arith

  awake_sleep : (error : Bool) → awake (regs + forcewake_mt) (sleep_events regs error ++ l) ≡ false
  awake_sleep true = ground arith
  awake_sleep false = ground arith

  awake_claim :
      (unclaimed : Bool)
      → awake (regs + forcewake_mt) (claim_events regs unclaimed ++ l)
        ≡ awake (regs + forcewake_mt) l
  awake_claim true = ground arith
  awake_claim false = refl

  awake_wr :
      (w : Width) (reg val : ℕ)
      → reg ≢ forcewake_mt
      → awake (regs + forcewake_mt) (wr w (regs + reg) val ∷ l) ≡ awake (regs + forcewake_mt) l
  awake_wr w reg val ne = ground arith

module _ (regs count : ℕ) (l : List Event)
    (counted : awake (regs + forcewake_mt) l ≡ ltb 0 count) where
  read_events-counted :
      (reg : ℕ) (error : Bool)
      → awake (regs + forcewake_mt) (locked (read_events regs count reg error) ++ l) ≡ ltb 0 count
  read_events-counted reg error = elim (Bool-cases ((count == 0) && needs_forcewake reg)) [
    | inl e ↦
        awake-locked regs l (read_events regs count reg error)
        ∙ rw e (
            ap (λ r. awake (regs + forcewake_mt) r)
              (append_assoc (sleep_events regs error) (wake_events regs) l)
            ∙ awake_sleep regs (wake_events regs ++ l) error
            ∙ ground arith)
    | inr e ↦ awake-locked regs l (read_events regs count reg error) ∙ rw e counted
  ]

  write_events-counted :
      (w : Width) (reg val : ℕ) (before after : Bool)
      → reg ≢ forcewake_mt
      → awake (regs + forcewake_mt) (locked (write_events regs w reg val before after) ++ l)
        ≡ ltb 0 count
  write_events-counted w reg val before after ne =
      awake-locked regs l (write_events regs w reg val before after)
      ∙ ap (λ r. awake (regs + forcewake_mt) r)
          (append_assoc (claim_events regs after) (wr w (regs + reg) val ∷ claim_events regs before)
            l)
      ∙ awake_claim regs (wr w (regs + reg) val ∷ (claim_events regs before ++ l)) after
      ∙ awake_wr regs (claim_events regs before ++ l) w reg val ne
      ∙ awake_claim regs l before
      ∙ counted

  wake_events-counted :
      awake (regs + forcewake_mt) (locked (if count == 0 then wake_events regs else []) ++ l) ≡ true
  wake_events-counted = elim (Bool-cases (count == 0)) [
    | inl e ↦
        awake-locked regs l (if count == 0 then wake_events regs else []) ∙ rw e (awake_wake regs l)
    | inr e ↦
        awake-locked regs l (if count == 0 then wake_events regs else [])
        ∙ rw e (counted ∙ ground arith)
  ]

  sleep_events-counted :
      (error : Bool)
      → 0 < count
      → count < 2 ^ 32
      → awake
          (regs + forcewake_mt)
          (locked (if counted_down count == 0 then sleep_events regs error else []) ++ l)
        ≡ ltb 0 (counted_down count)
  sleep_events-counted error pos small = elim (Bool-cases (counted_down count == 0)) [
    | inl e ↦
        awake-locked regs l (if counted_down count == 0 then sleep_events regs error else [])
        ∙ rw e (awake_sleep regs l error ∙ ground arith)
    | inr e ↦
        awake-locked regs l (if counted_down count == 0 then sleep_events regs error else [])
        ∙ rw e (counted ∙ ground arith)
  ]

module _ {W : Type 0} ⦃p : Platform W⦄ where
  pub gpu_read-IsPowered :
      (w : Width) (reg : ℕ) (s : State W) → IsPowered s → IsPowered (gpu_read w reg s).1
  gpu_read-IsPowered w reg s v =
      let (error, h) = gpu_read-Touches w reg s in
      IsPowered-Touches s _ h
        (read_events-counted s.regs s.forcewake_count s.log v.counted (reg % 2 ^ 32) error)
        v.unlocked v.small

  pub gpu_write-IsPowered :
      (w : Width) (reg val : ℕ) (s : State W)
      → reg ≢ forcewake_mt
      → IsPowered s
      → IsPowered (gpu_write w reg val s).1
  gpu_write-IsPowered w reg val s ne v =
      let (before, after, h) = gpu_write-Touches w reg val s in
      IsPowered-Touches s _ h
        (write_events-counted s.regs s.forcewake_count s.log v.counted w reg val before after ne)
        v.unlocked v.small

  pub gpu_forcewake_get-IsPowered :
      (s : State W)
      → s.forcewake_count + 1 < 2 ^ 32
      → IsPowered s
      → IsPowered (gpu_forcewake_get s).1
  gpu_forcewake_get-IsPowered s room v =
      IsPowered-Touches _ _ (gpu_forcewake_get-Touches s)
        (wake_events-counted s.regs s.forcewake_count s.log v.counted ∙ ground arith) v.unlocked
        (omega arith)

  pub gpu_forcewake_put-IsPowered :
      (s : State W) → 0 < s.forcewake_count → IsPowered s → IsPowered (gpu_forcewake_put s).1
  gpu_forcewake_put-IsPowered s pos v =
      let (error, h) = gpu_forcewake_put-Touches s in
      IsPowered-Touches _ _ h
        (sleep_events-counted s.regs s.forcewake_count s.log v.counted error pos v.small) v.unlocked
        (omega arith)

  pub forcewake_work-IsPowered :
      (s : State W) → 0 < s.forcewake_count → IsPowered s → IsPowered (forcewake_work s).1
  forcewake_work-IsPowered s pos v =
      let (error, h) = forcewake_work-Touches s in
      IsPowered-Touches _ _ h
        (sleep_events-counted s.regs s.forcewake_count s.log v.counted error pos v.small) v.unlocked
        (omega arith)
