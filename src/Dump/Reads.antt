-- ===== src/Dump/Reads.antt =====
-- `nugpgpu_dump` of nugpgpu_dbg.c: the registers that it reads, and what it leaves.
use mathlib.Core.List.{append_assoc}
use nugpgpu.Prelude.{
  ℕ, ◌+◌, ◌%◌, ◌^◌, ◌<◌, ◌≡◌, ◌∙◌, refl, sym, ap, true, not, ◌||◌, List, [], ◌∷◌, ◌++◌, Bool-cases,
  inl, inr, arith,
}
use mathlib.Core.Path.{subst}
use nugpgpu.Platform.{Platform, w32}
use nugpgpu.Machine.{State, Event, rd, acquire}
use nugpgpu.Machine.Log.{held, lock_state, awake}
use nugpgpu.Regrw.{needs_forcewake, forcewake_mt, gpu_read}
use nugpgpu.Regrw.Access.{before_read, before_read-Touches, gpu_read-log, gpu_read-Touches}
use nugpgpu.Regrw.Power.{IsPowered, gpu_read-IsPowered}
use nugpgpu.Regrw.Wake.{awake-before_read}
use nugpgpu.Dump.{
  read_all, nugpgpu_dump, my915_pcie_dump, my915_mmio_dump, pcie_registers, mmio_registers,
}

-- From the log `l` on, to the log `m`, the registers were read in their order, each with the lock held
-- and, if it is one that sleeps, with the hardware awake.
abbrev pub ReadsInTurn : List ℕ → ℕ → List Event → List Event → Type 0
ReadsInTurn [] regs l m = m ≡ l
ReadsInTurn (reg ∷ rest) regs l m =
    (new after : List Event) × (v : ℕ) × (lock_state (new ++ l) ≡ held)
    × ((not (needs_forcewake reg) || awake (regs + forcewake_mt) (new ++ l)) ≡ true)
    × ReadsInTurn rest regs (after ++ (rd w32 (regs + reg) v ∷ (new ++ l))) m

-- The registers are offsets of 32 bits.
abbrev pub AreShort : List ℕ → Type 0
AreShort [] = Unit {0}
AreShort (reg ∷ rest) = (reg < 2 ^ 32) × AreShort rest

ReadsInTurn-append :
    (x y : List ℕ) (regs : ℕ) (l m n : List Event)
    → ReadsInTurn x regs l m
    → ReadsInTurn y regs m n
    → ReadsInTurn (x ++ y) regs l n
ReadsInTurn-append [] y regs l m n e h = subst (λ k. ReadsInTurn y regs k n) e h
ReadsInTurn-append (reg ∷ x) y regs l m n (new, after, v, lock, up, rest) h =
    (new, after, v, lock, up, ReadsInTurn-append x y regs _ m n rest h)

module _ {W : Type 0} ⦃p : Platform W⦄ where
  -- What a run of reads leaves of the state.
  abbrev Leaves : State W → State W → Type 0
  Leaves s t =
      IsPowered t
      × (t.forcewake_count ≡ s.forcewake_count)
      × (t.regs ≡ s.regs)
      × (t.gtt ≡ s.gtt)
      × (t.gtt_entry ≡ s.gtt_entry)
      × (t.ring ≡ s.ring)

  awake_if_needed :
      (reg : ℕ) (s : State W)
      → reg < 2 ^ 32
      → IsPowered s
      → (not (needs_forcewake reg) || awake (s.regs + forcewake_mt) (before_read reg s).log) ≡ true
  awake_if_needed reg s short v = elim (Bool-cases (needs_forcewake reg)) [
    | inl e ↦
        let same : reg % 2 ^ 32 ≡ reg = omega arith in
        let up = awake-before_read reg s (ap needs_forcewake same ∙ e) v.counted in
        rw e (
          ap (λ r. awake (r + forcewake_mt) (before_read reg s).log)
            (sym (before_read-Touches reg s).regs)
          ∙ up)
    | inr e ↦ rw e refl
  ]

  read_all-ReadsInTurn :
      (registers : List ℕ) (s : State W)
      → AreShort registers
      → IsPowered s
      → let t = (read_all registers s).1 in ReadsInTurn registers s.regs s.log t.log × Leaves s t
  unfolding read_all
  read_all-ReadsInTurn [] s short v = (refl, (v, refl, refl, refl, refl, refl))
  read_all-ReadsInTurn (reg ∷ rest) s (low, short) v =
      let u = (gpu_read w32 reg s).1 in
      let h = before_read-Touches reg s in
      let new = h.new ++ (acquire ∷ []) in
      let grows : (before_read reg s).log ≡ new ++ s.log =
        h.grows ∙ sym (append_assoc h.new (acquire ∷ []) s.log) in
      let (after, log) = gpu_read-log w32 reg s in
      let (error, touched) = gpu_read-Touches w32 reg s in
      let (reads, (v', count, regs, gtt, cursor, ring)) =
        read_all-ReadsInTurn rest u short (gpu_read-IsPowered w32 reg s v) in
      (
        (
          new,
          after,
          (gpu_read w32 reg s).0,
          ap lock_state (sym grows) ∙ h.lock (rw (v.unlocked)),
          ap (λ l. not (needs_forcewake reg) || awake (s.regs + forcewake_mt) l) (sym grows)
              ∙ awake_if_needed reg s low v,
          subst (λ l. ReadsInTurn rest s.regs l (read_all rest u).1.log)
              (log ∙ ap (λ l. after ++ (rd w32 (s.regs + reg) (gpu_read w32 reg s).0 ∷ l)) grows)
              (subst (λ r. ReadsInTurn rest r u.log (read_all rest u).1.log) touched.regs reads),
        ),
        (
          v',
          count ∙ touched.forcewake_count,
          regs ∙ touched.regs,
          gtt ∙ touched.gtt,
          cursor ∙ touched.gtt_entry,
          ring ∙ touched.ring,
        ),
      )

  -- From a state in which the hardware is awake exactly while the count is above zero and the lock
  -- is free, `nugpgpu_dump` reads the registers that it prints in their order, each with the lock held
  -- and, if it sleeps, with the hardware awake. It leaves such a state, with the same count, page
  -- table and ring, and with `debug` on.
  pub nugpgpu_dump-reads :
      (s : State W)
      → IsPowered s
      → let t = (nugpgpu_dump s).1 in
        ReadsInTurn (pcie_registers ++ mmio_registers) s.regs s.log t.log
        × IsPowered t
        × (t.forcewake_count ≡ s.forcewake_count)
        × (t.gtt ≡ s.gtt)
        × (t.gtt_entry ≡ s.gtt_entry)
        × (t.ring ≡ s.ring)
        × (t.debug ≡ 1)
  unfolding nugpgpu_dump my915_pcie_dump my915_mmio_dump
  nugpgpu_dump-reads s v =
      let q : State W = record s { debug = 0 } in
      let at_q : IsPowered q = record {
        counted = v.counted;
        unlocked = v.unlocked;
        small = v.small;
      } in
      let (first, (v', count, regs, gtt, cursor, ring)) =
        read_all-ReadsInTurn pcie_registers q (omega arith) at_q in
      let t = (read_all pcie_registers q).1 in
      let (second, (v'', count', regs', gtt', cursor', ring')) =
        read_all-ReadsInTurn mmio_registers t (omega arith) v' in
      let u = (read_all mmio_registers t).1 in
      (
        ReadsInTurn-append pcie_registers mmio_registers s.regs s.log t.log u.log first
            (subst (λ r. ReadsInTurn mmio_registers r t.log u.log) regs second),
        record { counted = v''.counted; unlocked = v''.unlocked; small = v''.small },
        count' ∙ count,
        gtt' ∙ gtt,
        cursor' ∙ cursor,
        ring' ∙ ring,
        refl,
      )
