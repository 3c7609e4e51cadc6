-- ===== src/RenderInit/Controls.antt =====
-- The writes of the registers that start a ring: RING_CTL, RING_HEAD, RING_TAIL and RING_START of the
-- render ring (nugpgpu_ringbuffer.h), as the log shows them.
use mathlib.Core.List.{append_assoc}
use nugpgpu.Prelude.{
  ℕ, ◌+◌, ◌-◌, ◌%◌, ◌^◌, ◌≡◌, inl, inr, ◌∙◌, refl, ap, sym, arith, Bool, true, false, ◌||◌, ◌&&◌,
  List, [], ◌∷◌, ◌++◌, if◌then◌else◌, ◌==◌, Bool-cases,
}
use nugpgpu.Platform.{Width, w32, Platform}
use nugpgpu.Machine.{State, Event, rd, wr, load, store, acquire, release, lock_init, call}
use nugpgpu.Machine.Log.{effects}
use nugpgpu.Regrw.{
  gpu_read, gpu_write, needs_forcewake, fpga_dbg, gtfifodbg, forcewake_mt, gt_fifo_cpu_error_mask,
  masked_bit_disable, forcewake_kernel,
}
use nugpgpu.Regrw.Effects.{wake_events, sleep_events, claim_events}
use nugpgpu.Regrw.Access.{locked, read_events, write_events, gpu_read-Touches, gpu_write-Touches}
use nugpgpu.Regrw.Frame.{hardware}

abbrev pub is_control : ℕ → Bool
is_control reg = (reg == 0x203c) || (reg == 0x2034) || (reg == 0x2030) || (reg == 0x2038)

-- Such a register and the value that it was given, the newest first.
abbrev pub control_writes : ℕ → List Event → List (ℕ × ℕ)
control_writes regs [] = []
control_writes regs (wr w a v ∷ l) =
    let before = control_writes regs l in
    if is_control (a - regs) then (a - regs, v) ∷ before else before
control_writes regs (rd w a v ∷ l) = control_writes regs l
control_writes regs (acquire ∷ l) = control_writes regs l
control_writes regs (release ∷ l) = control_writes regs l
control_writes regs (lock_init ∷ l) = control_writes regs l
control_writes regs (load a v ∷ l) = control_writes regs l
control_writes regs (store a v ∷ l) = control_writes regs l
control_writes regs (call c ∷ l) = control_writes regs l

on_write : ℕ → ℕ → ℕ → List (ℕ × ℕ) → List (ℕ × ℕ)
on_write regs a v before = if is_control (a - regs) then (a - regs, v) ∷ before else before

pub control_writes-effects :
    (regs : ℕ) (l : List Event) → control_writes regs (effects l) ≡ control_writes regs l
unfolding on_write
control_writes-effects regs [] = refl
control_writes-effects regs (wr w a v ∷ l) = ap (on_write regs a v) (control_writes-effects regs l)
control_writes-effects regs (rd w a v ∷ l) = control_writes-effects regs l
control_writes-effects regs (acquire ∷ l) = control_writes-effects regs l
control_writes-effects regs (release ∷ l) = control_writes-effects regs l
control_writes-effects regs (lock_init ∷ l) = control_writes-effects regs l
control_writes-effects regs (load a v ∷ l) = control_writes-effects regs l
control_writes-effects regs (store a v ∷ l) = control_writes-effects regs l
control_writes-effects regs (call c ∷ l) = control_writes-effects regs l

pub control_writes-hardware :
    (regs : ℕ) (l : List Event) → control_writes regs (hardware l) ≡ control_writes regs l
unfolding on_write
control_writes-hardware regs [] = refl
control_writes-hardware regs (wr w a v ∷ l) =
    ap (on_write regs a v) (control_writes-hardware regs l)
control_writes-hardware regs (rd w a v ∷ l) = control_writes-hardware regs l
control_writes-hardware regs (acquire ∷ l) = control_writes-hardware regs l
control_writes-hardware regs (release ∷ l) = control_writes-hardware regs l
control_writes-hardware regs (lock_init ∷ l) = control_writes-hardware regs l
control_writes-hardware regs (load a v ∷ l) = control_writes-hardware regs l
control_writes-hardware regs (store a v ∷ l) = control_writes-hardware regs l
control_writes-hardware regs (call c ∷ l) = control_writes-hardware regs l

-- A write of a register at `regs + reg`.
control_writes-wr :
    (regs reg v : ℕ) (w : Width) (l : List Event)
    → control_writes regs (wr w (regs + reg) v ∷ l)
      ≡ (if is_control reg then (reg, v) ∷ control_writes regs l else control_writes regs l)
control_writes-wr regs reg v w l =
    let off : regs + reg - regs ≡ reg = omega arith in
    ap (λ (r : ℕ). if is_control r then (r, v) ∷ control_writes regs l else control_writes regs l)
      off

pub control_writes-wake :
    (regs : ℕ) (l : List Event)
    → control_writes regs (wake_events regs ++ l) ≡ control_writes regs l
control_writes-wake regs l = control_writes-wr regs forcewake_mt _ w32 l

pub control_writes-sleep :
    (regs : ℕ) (error : Bool) (l : List Event)
    → control_writes regs (sleep_events regs error ++ l) ≡ control_writes regs l
control_writes-sleep regs true l =
    control_writes-wr regs gtfifodbg gt_fifo_cpu_error_mask w32 (sleep_events regs false ++ l)
    ∙ control_writes-wr regs forcewake_mt (masked_bit_disable forcewake_kernel) w32 l
control_writes-sleep regs false l = control_writes-wr regs forcewake_mt _ w32 l

control_writes-claim :
    (regs : ℕ) (unclaimed : Bool) (l : List Event)
    → control_writes regs (claim_events regs unclaimed ++ l) ≡ control_writes regs l
control_writes-claim regs true l = control_writes-wr regs fpga_dbg _ w32 l
control_writes-claim regs false l = refl

control_writes-locked :
    (regs : ℕ) (evs l : List Event)
    → control_writes regs (locked evs ++ l) ≡ control_writes regs (evs ++ (acquire ∷ l))
control_writes-locked regs evs l = ap (control_writes regs) (append_assoc evs (acquire ∷ []) l)

-- Events that add no such write to any log.
abbrev pub IsSilent : ℕ → List Event → Type 0
IsSilent regs evs = (l : List Event) → control_writes regs (evs ++ l) ≡ control_writes regs l

pub if-IsSilent :
    (regs : ℕ) (b : Bool) (evs : List Event)
    → IsSilent regs evs
    → IsSilent regs (if b then evs else [])
if-IsSilent regs true evs silent l = silent l
if-IsSilent regs false evs silent l = refl

-- A log that has grown by silent effects under the lock.
pub locked-silent :
    (regs : ℕ) (evs before after : List Event)
    → effects after ≡ locked evs ++ effects before
    → IsSilent regs evs
    → control_writes regs after ≡ control_writes regs before
locked-silent regs evs before after e silent =
    sym (control_writes-effects regs after)
    ∙ ap (control_writes regs) e
    ∙ control_writes-locked regs evs (effects before)
    ∙ silent (acquire ∷ effects before)
    ∙ control_writes-effects regs before

control_writes-read :
    (regs count reg : ℕ) (error : Bool) (l : List Event)
    → control_writes regs (read_events regs count reg error ++ l) ≡ control_writes regs l
control_writes-read regs count reg error l =
    elim (Bool-cases ((count == 0) && needs_forcewake reg)) [
      | inl e ↦ rw e (
          ap (control_writes regs) (append_assoc (sleep_events regs error) (wake_events regs) l)
          ∙ control_writes-sleep regs error (wake_events regs ++ l)
          ∙ control_writes-wake regs l)
      | inr e ↦ rw e refl
    ]

control_writes-write :
    (regs reg val : ℕ) (w : Width) (before after : Bool) (l : List Event)
    → control_writes regs (write_events regs w reg val before after ++ l)
      ≡ (if is_control reg then (reg, val) ∷ control_writes regs l else control_writes regs l)
control_writes-write regs reg val w before after l =
    ap (control_writes regs)
      (append_assoc (claim_events regs after) (wr w (regs + reg) val ∷ claim_events regs before) l)
    ∙ control_writes-claim regs after (wr w (regs + reg) val ∷ (claim_events regs before ++ l))
    ∙ control_writes-wr regs reg val w (claim_events regs before ++ l)
    ∙ ap (λ x. if is_control reg then (reg, val) ∷ x else x) (control_writes-claim regs before l)

module _ {W : Type 0} ⦃p : Platform W⦄ where
  pub gpu_read-controls :
      (w : Width) (reg : ℕ) (s : State W)
      → control_writes s.regs (gpu_read w reg s).1.log ≡ control_writes s.regs s.log
  gpu_read-controls w reg s =
      let (error, touched) = gpu_read-Touches w reg s in
      locked-silent s.regs (read_events s.regs s.forcewake_count (reg % 2 ^ 32) error) s.log
        (gpu_read w reg s).1.log touched.log
        (control_writes-read s.regs s.forcewake_count (reg % 2 ^ 32) error)

  pub gpu_write-controls :
      (w : Width) (reg val : ℕ) (s : State W)
      → control_writes s.regs (gpu_write w reg val s).1.log ≡ (
          if is_control reg
          then (reg, val) ∷ control_writes s.regs s.log
          else control_writes s.regs s.log)
  gpu_write-controls w reg val s =
      let (before, after, touched) = gpu_write-Touches w reg val s in
      let evs = write_events s.regs w reg val before after in
      sym (control_writes-effects s.regs (gpu_write w reg val s).1.log)
      ∙ ap (control_writes s.regs) touched.log
      ∙ control_writes-locked s.regs evs (effects s.log)
      ∙ control_writes-write s.regs reg val w before after (acquire ∷ effects s.log)
      ∙ ap (λ x. if is_control reg then (reg, val) ∷ x else x) (control_writes-effects s.regs s.log)
