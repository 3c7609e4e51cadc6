-- ===== src/Regrw/Access.antt =====
-- The functions that the rest of the driver calls: `gpu_read`, `gpu_write`, and the reference count.
use mathlib.Core.List.{append_assoc}
use mathlib.Core.Path.{subst}
use nugpgpu.Prelude.{
  ℕ, ◌+◌, ◌-◌, ◌%◌, ◌^◌, ◌≡◌, ◌∙◌, refl, ap, sym, Bool, true, false, List, [], ◌∷◌, ◌++◌,
  if◌then◌else◌, ◌==◌, ◌&&◌,
}
use nugpgpu.Platform.{Width, Platform}
use nugpgpu.Machine.{State, Event, rd, wr, acquire, release, when, trace_in, spin_lock, spin_unlock}
use nugpgpu.Machine.Log.{held, free, effects}
use nugpgpu.Machine.Log.Touches.{Touches, Touches-refl, Touches-trans, traced-Touches}
use nugpgpu.Regrw.{needs_forcewake, raw_gpu_read, forcewake_get, forcewake_put, gpu_read, gpu_write}
use nugpgpu.Regrw.Effects.{
  wake_events, sleep_events, claim_events, raw_gpu_read-Touches, raw_gpu_write-Touches,
  gpu_unclaimed_reg_debug-Touches, forcewake_get-Touches, forcewake_put-Touches,
}

-- The effects `evs` between taking the lock and giving it back.
abbrev pub locked : List Event → List Event
locked evs = release ∷ (evs ++ (acquire ∷ []))

-- Around a read with the count at zero, of a register that sleeps: wake, and let sleep again.
abbrev pub read_events : ℕ → ℕ → ℕ → Bool → List Event
read_events regs count reg error =
    if (count == 0) && needs_forcewake reg then sleep_events regs error ++ wake_events regs else []

-- A write, and the clearing of an unclaimed access found before and after it.
abbrev pub write_events : ℕ → Width → ℕ → ℕ → Bool → Bool → List Event
write_events regs w reg val before after =
    claim_events regs after ++ (wr w (regs + reg) val ∷ claim_events regs before)

-- The count after `--`, as an `unsigned`.
abbrev pub counted_down : ℕ → ℕ
counted_down n = (n + 2 ^ 32 - 1) % 2 ^ 32

read_events-append :
    (b : Bool) (x y : List Event)
    → (if b then x else []) ++ (if b then y else []) ≡ (if b then x ++ y else [])
read_events-append true x y = refl
read_events-append false x y = refl

module _ {W : Type 0} ⦃p : Platform W⦄ where
  pub locked-Touches :
      {evs : List Event} (s t : State W)
      → Touches held evs (spin_lock s).1 t
      → Touches free (locked evs) s (spin_unlock t).1
  locked-Touches {evs} s t h = record {
    regs = h.regs;
    mmio_funcs = h.mmio_funcs;
    forcewake_count = h.forcewake_count;
    gtt = h.gtt;
    ring = h.ring;
    gtt_entry = h.gtt_entry;
    debug = h.debug;
    depth = h.depth;
    new = release ∷ (h.new ++ (acquire ∷ []));
    grows = ap (λ l. release ∷ l) (h.grows ∙ sym (append_assoc h.new (acquire ∷ []) s.log));
    log = ap (λ l. release ∷ l) (h.log ∙ sym (append_assoc evs (acquire ∷ []) (effects s.log)));
    lock = λ e. rw (h.lock (rw e));
  }

  when_get-Touches :
      (b : Bool) (reg : ℕ) (s : State W)
      → Touches held
          (if b && needs_forcewake reg then wake_events s.regs else [])
          s
          (when b (forcewake_get reg false) s).1
  when_get-Touches true reg s = forcewake_get-Touches reg false s
  when_get-Touches false reg s = Touches-refl s

  when_put-Touches :
      (b : Bool) (reg : ℕ) (s : State W) {regs : ℕ}
      → s.regs ≡ regs
      → (error : Bool) × Touches held
          (if b && needs_forcewake reg then sleep_events regs error else [])
          s
          (when b (forcewake_put reg false) s).1
  when_put-Touches true reg s e = rw (← e) (forcewake_put-Touches reg false s)
  when_put-Touches false reg s e = (false, Touches-refl s)

  -- The state in which `gpu_read` reads the register.
  abbrev pub before_read : ℕ → State W → State W
  before_read reg s =
      (when (s.forcewake_count == 0) (forcewake_get (reg % 2 ^ 32) false)
        (spin_lock (trace_in s).1).1).1

  pub before_read-Touches :
      (reg : ℕ) (s : State W)
      → Touches held
          (if (s.forcewake_count == 0) && needs_forcewake (reg % 2 ^ 32)
            then wake_events s.regs
            else [])
          (spin_lock (trace_in s).1).1
          (before_read reg s)
  before_read-Touches reg s =
      when_get-Touches (s.forcewake_count == 0) (reg % 2 ^ 32) (spin_lock (trace_in s).1).1

  -- `gpu_read` returns what the register held when it was read.
  pub gpu_read-value :
      (w : Width) (reg : ℕ) (s : State W)
      → (gpu_read w reg s).0 ≡ (raw_gpu_read w reg (before_read reg s)).0
  unfolding gpu_read
  gpu_read-value w reg s = refl

  -- The read of the register stands in the log right after the past of that state.
  pub gpu_read-log :
      (w : Width) (reg : ℕ) (s : State W)
      → (after : List Event) × ((gpu_read w reg s).1.log
          ≡ after ++ (rd w (s.regs + reg) (gpu_read w reg s).0 ∷ (before_read reg s).log))
  unfolding gpu_read
  gpu_read-log w reg s =
      let t = (raw_gpu_read w reg (before_read reg s)).1 in
      let (error, put) = when_put-Touches (t.forcewake_count == 0) (reg % 2 ^ 32) t refl in
      (
        release ∷ put.new,
        ap (λ l. release ∷ l) put.grows
            ∙ ap
                (λ (r : ℕ).
                  release
                  ∷ (put.new
                      ++ (rd w (r + reg) (raw_gpu_read w reg (before_read reg s)).0
                          ∷ (before_read reg s).log)))
                (before_read-Touches reg s).regs,
      )

  pub gpu_read-Touches :
      (w : Width) (reg : ℕ) (s : State W)
      → (error : Bool) × Touches free
          (locked (read_events s.regs s.forcewake_count (reg % 2 ^ 32) error))
          s
          (gpu_read w reg s).1
  unfolding gpu_read
  gpu_read-Touches w reg s =
      let a = before_read-Touches reg s in
      let b = Touches-trans a (raw_gpu_read-Touches w reg (before_read reg s)) in
      let (error, put) =
        when_put-Touches ((raw_gpu_read w reg (before_read reg s)).1.forcewake_count == 0)
          (reg % 2 ^ 32) (raw_gpu_read w reg (before_read reg s)).1 b.regs in
      let c =
        subst
          (λ (n : ℕ).
            Touches held
              (if (n == 0) && needs_forcewake (reg % 2 ^ 32) then sleep_events s.regs error else [])
              (raw_gpu_read w reg (before_read reg s)).1
              (when ((raw_gpu_read w reg (before_read reg s)).1.forcewake_count == 0)
                (forcewake_put (reg % 2 ^ 32) false) (raw_gpu_read w reg (before_read reg s)).1).1)
          b.forcewake_count put in
      (
        error,
        subst (λ evs. Touches free (locked evs) s (gpu_read w reg s).1)
            (read_events-append ((s.forcewake_count == 0) && needs_forcewake (reg % 2 ^ 32))
              (sleep_events s.regs error) (wake_events s.regs))
            (traced-Touches s _ (locked-Touches (trace_in s).1 _ (Touches-trans b c))),
      )

  -- `gpu_write` writes the value once, between two looks for an unclaimed access.
  pub gpu_write-Touches :
      (w : Width) (reg val : ℕ) (s : State W)
      → (before after : Bool) × Touches free
          (locked (write_events s.regs w reg val before after))
          s
          (gpu_write w reg val s).1
  unfolding gpu_write
  gpu_write-Touches w reg val s =
      let (before, a) = gpu_unclaimed_reg_debug-Touches (spin_lock (trace_in s).1).1 refl in
      let b = Touches-trans a (raw_gpu_write-Touches w reg val _ a.regs) in
      let (after, c) = gpu_unclaimed_reg_debug-Touches _ b.regs in
      (before, after, traced-Touches s _ (locked-Touches (trace_in s).1 _ (Touches-trans b c)))

  -- The same after calls that left the registers where they were.
  pub gpu_read-Touches_at :
      (w : Width) (reg : ℕ) {evs : List Event} {r s : State W}
      → Touches free evs r s
      → (error : Bool) × Touches free
          (locked (read_events r.regs r.forcewake_count (reg % 2 ^ 32) error) ++ evs)
          r
          (gpu_read w reg s).1
  gpu_read-Touches_at w reg {r = r} {s = s} h =
      let (error, t) = gpu_read-Touches w reg s in
      let at_regs =
        subst
          (λ (n : ℕ).
            Touches free (locked (read_events n s.forcewake_count (reg % 2 ^ 32) error)) s
              (gpu_read w reg s).1)
          h.regs t in
      let at_count =
        subst
          (λ (n : ℕ).
            Touches free (locked (read_events r.regs n (reg % 2 ^ 32) error)) s
              (gpu_read w reg s).1)
          h.forcewake_count at_regs in
      (error, Touches-trans h at_count)

  pub gpu_write-Touches_at :
      (w : Width) (reg val : ℕ) {evs : List Event} {r s : State W}
      → Touches free evs r s
      → (before after : Bool) × Touches free
          (locked (write_events r.regs w reg val before after) ++ evs)
          r
          (gpu_write w reg val s).1
  gpu_write-Touches_at w reg val {r = r} {s = s} h =
      let (before, after, t) = gpu_write-Touches w reg val s in
      (
        before,
        after,
        Touches-trans h (
            subst
              (λ (n : ℕ).
                Touches free (locked (write_events n w reg val before after)) s
                  (gpu_write w reg val s).1)
              h.regs t),
      )
