-- ===== src/Machine/Log/Touches.antt =====
-- What a function of the driver may change: `Touches l evs s t` says that from `s` to `t` only the
-- world and the log changed, that the log has grown by the effects `evs` and by reads, and that the
-- lock is as it was, if it was in the state `l`.
use nugpgpu.Prelude.{ℕ, ◌<◌, ◌^◌, ◌≡◌, refl, ◌∙◌, ap, List, [], ◌∷◌, ◌++◌, arith, sym}
use mathlib.Core.Path.{subst}
use mathlib.Core.List.{append_assoc, append-nil}
use nugpgpu.Platform.{Width, w32, Platform}
use nugpgpu.Machine.{
  State, Event, rd, wr, io_read, io_write, mem_read, mem_write, load, store, trace_in, trace_out,
}
use nugpgpu.Machine.Log.{LockState, held, effects, lock_state}

pub record Touches {W : Type 0} (l : LockState) (evs : List Event) (s t : State W) : Type 0 where
  pub regs : t.regs ≡ s.regs
  pub mmio_funcs : t.mmio_funcs ≡ s.mmio_funcs
  pub forcewake_count : t.forcewake_count ≡ s.forcewake_count
  pub gtt : t.gtt ≡ s.gtt
  pub ring : t.ring ≡ s.ring
  pub gtt_entry : t.gtt_entry ≡ s.gtt_entry
  pub debug : t.debug ≡ s.debug
  pub depth : s.depth < 2 ^ 32 → t.depth ≡ s.depth
  pub new : List Event
  pub grows : t.log ≡ new ++ s.log
  pub log : effects t.log ≡ evs ++ effects s.log
  pub lock : lock_state s.log ≡ l → lock_state t.log ≡ l

module _ {W : Type 0} {l : LockState} where
  pub Touches-refl : (s : State W) → Touches l [] s s
  Touches-refl s = record {
    regs = refl;
    mmio_funcs = refl;
    forcewake_count = refl;
    gtt = refl;
    ring = refl;
    gtt_entry = refl;
    debug = refl;
    depth = λ _. refl;
    new = [];
    grows = refl;
    log = refl;
    lock = λ e. e;
  }

  pub Touches-trans :
      {a b : List Event} {s t u : State W}
      → Touches l a s t
      → Touches l b t u
      → Touches l (b ++ a) s u
  Touches-trans {a} {b} {s} {t} {u} x y = record {
    regs = y.regs ∙ x.regs;
    mmio_funcs = y.mmio_funcs ∙ x.mmio_funcs;
    forcewake_count = y.forcewake_count ∙ x.forcewake_count;
    gtt = y.gtt ∙ x.gtt;
    ring = y.ring ∙ x.ring;
    gtt_entry = y.gtt_entry ∙ x.gtt_entry;
    debug = y.debug ∙ x.debug;
    depth = λ h. y.depth (rw (x.depth h) h) ∙ x.depth h;
    new = y.new ++ x.new;
    grows = y.grows ∙ ap (λ r. y.new ++ r) x.grows ∙ sym (append_assoc y.new x.new s.log);
    log = y.log ∙ ap (λ r. b ++ r) x.log ∙ sym (append_assoc b a (effects s.log));
    lock = λ e. y.lock (x.lock e);
  }

  -- After reads.
  pub Touches-after :
      {b : List Event} {s t u : State W} → Touches l [] s t → Touches l b t u → Touches l b s u
  Touches-after {b} {s} {u = u} x y =
      subst (λ r. Touches l r s u) (append-nil b) (Touches-trans x y)

module _ {W : Type 0} ⦃p : Platform W⦄ where
  pub io_read-Touches : (w : Width) (a : ℕ) (s : State W) → Touches held [] s (io_read w a s).1
  io_read-Touches w a s = record {
    regs = refl;
    mmio_funcs = refl;
    forcewake_count = refl;
    gtt = refl;
    ring = refl;
    gtt_entry = refl;
    debug = refl;
    depth = λ _. refl;
    new = rd w a (p.read w a s.world).0 ∷ [];
    grows = refl;
    log = refl;
    lock = λ e. rw e;
  }

  pub io_write-Touches :
      (w : Width) (a v : ℕ) (s : State W) → Touches held (wr w a v ∷ []) s (io_write w a v s).1
  io_write-Touches w a v s = record {
    regs = refl;
    mmio_funcs = refl;
    forcewake_count = refl;
    gtt = refl;
    ring = refl;
    gtt_entry = refl;
    debug = refl;
    depth = λ _. refl;
    new = wr w a v ∷ [];
    grows = refl;
    log = refl;
    lock = λ e. rw e;
  }

  pub mem_read-Touches : {l : LockState} (a : ℕ) (s : State W) → Touches l [] s (mem_read a s).1
  mem_read-Touches a s = record {
    regs = refl;
    mmio_funcs = refl;
    forcewake_count = refl;
    gtt = refl;
    ring = refl;
    gtt_entry = refl;
    debug = refl;
    depth = λ _. refl;
    new = load a (p.read w32 a s.world).0 ∷ [];
    grows = refl;
    log = refl;
    lock = λ e. e;
  }

  pub mem_write-Touches :
      {l : LockState} (a v : ℕ) (s : State W) → Touches l (store a v ∷ []) s (mem_write a v s).1
  mem_write-Touches a v s = record {
    regs = refl;
    mmio_funcs = refl;
    forcewake_count = refl;
    gtt = refl;
    ring = refl;
    gtt_entry = refl;
    debug = refl;
    depth = λ _. refl;
    new = store a v ∷ [];
    grows = refl;
    log = refl;
    lock = λ e. e;
  }

module _ {W : Type 0} {l : LockState} {evs : List Event} where
  -- TRACE_IN and TRACE_OUT around a body.
  pub traced-Touches :
      (s t : State W) → Touches l evs (trace_in s).1 t → Touches l evs s (trace_out t).1
  traced-Touches s t h = record {
    regs = h.regs;
    mmio_funcs = h.mmio_funcs;
    forcewake_count = h.forcewake_count;
    gtt = h.gtt;
    ring = h.ring;
    gtt_entry = h.gtt_entry;
    debug = h.debug;
    depth = λ small. omega (arith, h.depth);
    new = h.new;
    grows = h.grows;
    log = h.log;
    lock = h.lock;
  }
