-- ===== src/Regrw/Frame.antt =====
-- What the rest of the driver needs of a relation between two states in order to keep it: an
-- interface, `Frame`, which the modules named Frame of the other components take as a parameter.
use nugpgpu.Prelude.{ℕ, ◌≡◌, refl, ap, Bool, true, false, List, [], ◌∷◌, if◌then◌else◌, ◌==◌}
use nugpgpu.Platform.{Width, Platform}
use nugpgpu.Machine.{
  State, Ring, Event, rd, wr, load, store, acquire, release, lock_init, call, M, when, trace_in,
  trace_out, mem_read, mem_write,
}
use nugpgpu.Machine.Log.{on_access, on_acquire, on_release, lock_state, bit, awake}
use nugpgpu.Wait.{pause, wait_until}
use nugpgpu.Wait.Rules.{wait_until_rel}
use nugpgpu.Regrw.{gpu_read, gpu_write}

-- The log without the accesses of memory and the calls of the kernel.
abbrev pub hardware : List Event → List Event
hardware [] = []
hardware (rd w a v ∷ l) = rd w a v ∷ hardware l
hardware (wr w a v ∷ l) = wr w a v ∷ hardware l
hardware (acquire ∷ l) = acquire ∷ hardware l
hardware (release ∷ l) = release ∷ hardware l
hardware (lock_init ∷ l) = lock_init ∷ hardware l
hardware (load a v ∷ l) = hardware l
hardware (store a v ∷ l) = hardware l
hardware (call c ∷ l) = hardware l

pub awake-hardware : (mt : ℕ) (l : List Event) → awake mt (hardware l) ≡ awake mt l
awake-hardware mt [] = refl
awake-hardware mt (rd w a v ∷ l) = awake-hardware mt l
awake-hardware mt (wr w a v ∷ l) =
    ap (λ b. if a == mt then (if bit v 16 then bit v 0 else b) else b) (awake-hardware mt l)
awake-hardware mt (acquire ∷ l) = awake-hardware mt l
awake-hardware mt (release ∷ l) = awake-hardware mt l
awake-hardware mt (lock_init ∷ l) = awake-hardware mt l
awake-hardware mt (load a v ∷ l) = awake-hardware mt l
awake-hardware mt (store a v ∷ l) = awake-hardware mt l
awake-hardware mt (call c ∷ l) = awake-hardware mt l

pub lock_state-hardware : (l : List Event) → lock_state (hardware l) ≡ lock_state l
lock_state-hardware [] = refl
lock_state-hardware (rd w a v ∷ l) = ap on_access (lock_state-hardware l)
lock_state-hardware (wr w a v ∷ l) = ap on_access (lock_state-hardware l)
lock_state-hardware (acquire ∷ l) = ap on_acquire (lock_state-hardware l)
lock_state-hardware (release ∷ l) = ap on_release (lock_state-hardware l)
lock_state-hardware (lock_init ∷ l) = refl
lock_state-hardware (load a v ∷ l) = lock_state-hardware l
lock_state-hardware (store a v ∷ l) = lock_state-hardware l
lock_state-hardware (call c ∷ l) = lock_state-hardware l

-- Where a ring is: what only its start sets.
pub record Place : Type 0 where
  pub mmio_base : ℕ
  pub size : ℕ
  pub virtual_start : ℕ
  pub gva_ringbuffer : ℕ
  pub gva_status : ℕ

abbrev pub place : Ring → Place
place r = record {
  mmio_base = r.mmio_base;
  size = r.size;
  virtual_start = r.virtual_start;
  gva_ringbuffer = r.gva_ringbuffer;
  gva_status = r.gva_status;
}

-- A relation that the driver keeps while it accesses memory, calls the kernel, reads registers, and
-- writes the registers that are allowed.
pub record Frame (W : Type 0) ⦃p : Platform W⦄ : Type 1 where
  pub rel : State W → State W → Type 0
  pub allowed : ℕ → Type 0
  pub rel_refl : (s : State W) → rel s s
  pub rel_trans : {s t u : State W} → rel s t → rel t u → rel s u
  pub unseen :
      {s t : State W} (u : State W)
      → rel s t
      → u.regs ≡ t.regs
      → hardware u.log ≡ hardware t.log
      → u.forcewake_count ≡ t.forcewake_count
      → place u.ring ≡ place t.ring
      → rel s u
  pub based : {s t : State W} → rel s t → t.ring.mmio_base ≡ s.ring.mmio_base
  pub read_keeps : (w : Width) (reg : ℕ) (t : State W) → rel t (gpu_read w reg t).1
  pub write_keeps :
      (w : Width) (reg val : ℕ) (t : State W) → allowed reg → rel t (gpu_write w reg val t).1

module _ {W : Type 0} ⦃p : Platform W⦄ (f : Frame W) {s t : State W} (h : f.rel s t) where
  pub trace_in-rel : f.rel s (trace_in t).1
  trace_in-rel = f.unseen (trace_in t).1 h refl refl refl refl

  pub trace_out-rel : f.rel s (trace_out t).1
  trace_out-rel = f.unseen (trace_out t).1 h refl refl refl refl

  pub mem_read-rel : (a : ℕ) → f.rel s (mem_read a t).1
  mem_read-rel a = f.unseen (mem_read a t).1 h refl refl refl refl

  pub mem_write-rel : (a v : ℕ) → f.rel s (mem_write a v t).1
  mem_write-rel a v = f.unseen (mem_write a v t).1 h refl refl refl refl

  pub gpu_read-rel : (w : Width) (reg : ℕ) → f.rel s (gpu_read w reg t).1
  gpu_read-rel w reg = f.rel_trans h (f.read_keeps w reg t)

  pub gpu_write-rel : (w : Width) (reg val : ℕ) → f.allowed reg → f.rel s (gpu_write w reg val t).1
  gpu_write-rel w reg val ok = f.rel_trans h (f.write_keeps w reg val t ok)

  pub wait_until-rel :
      (cond : M W Bool)
      → ((u : State W) → f.rel u (cond u).1)
      → (ms w : ℕ) → f.rel s (wait_until cond ms w t).1
  unfolding pause
  wait_until-rel cond cond-rel ms w = f.rel_trans h (
      wait_until_rel f.rel f.rel_refl (λ a b c x y. f.rel_trans x y)
        (λ ms' u. f.unseen (pause ms' u).1 (f.rel_refl u) refl refl refl refl) cond cond-rel ms w t)

  pub when-rel : (b : Bool) (m : M W (Unit {0})) → f.rel s (m t).1 → f.rel s (when b m t).1
  when-rel true m done = done
  when-rel false m done = h
