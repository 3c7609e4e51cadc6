-- ===== src/RenderInit/Storeless.antt =====
-- nugpgpu_ringbuffer_render_init from the taking of the hardware to the end of its last wait: the
-- registers are written and read, but nothing is stored, and the ring and the page table stay as they
-- were.
use nugpgpu.RingRegisters.{render_hws_pga_gen7}
use nugpgpu.Prelude.{
  ℕ, ◌+◌, ◌%◌, ◌^◌, ◌≡◌, ◌∙◌, refl, sym, ap, Bool, true, false, List, [], ◌++◌, if◌then◌else◌, ◌==◌,
  ◌&&◌,
}
use nugpgpu.Platform.{Platform, Width, w32}
use nugpgpu.Services.{Services}
use nugpgpu.Machine.{State, Event, M, when}
use nugpgpu.Machine.Log.{LockState, effects}
use nugpgpu.Machine.Log.Touches.{Touches}
use nugpgpu.Wait.{Waited, pause, wait_until, wait_for}
use nugpgpu.Wait.Rules.{wait_until_rel}
use nugpgpu.Regrw.{nugpgpu_read, nugpgpu_write, gpu_forcewake_get, needs_forcewake}
use nugpgpu.Regrw.Effects.{wake_events, sleep_events}
use nugpgpu.Regrw.Access.{locked, write_events, gpu_read-Touches, gpu_write-Touches}
use nugpgpu.Regrw.Holds.{gpu_forcewake_get-Touches}
use nugpgpu.Gtt.Table.{last_store, last_store-effects}
use nugpgpu.Memmgr.Fields.{SameFields}
use nugpgpu.Ring.{flushtlb}
use nugpgpu.RenderInit.{
  clear_ring, report_head, retry_head, head_is_zero, start_is_set, ctl_is_valid, ring_is_running,
  ring_started, start_ring,
}

-- Of these events none is a store.
abbrev Storeless : List Event → Type 0
Storeless evs = (a : ℕ) (l : List Event) → last_store a (evs ++ l) ≡ last_store a l

read-Storeless :
    (regs : ℕ) (b error : Bool)
    → Storeless (locked (if b then sleep_events regs error ++ wake_events regs else []))
read-Storeless regs true true a l = refl
read-Storeless regs true false a l = refl
read-Storeless regs false error a l = refl

write-Storeless :
    (regs : ℕ) (w : Width) (reg val : ℕ) (before after : Bool)
    → Storeless (locked (write_events regs w reg val before after))
write-Storeless regs w reg val true true a l = refl
write-Storeless regs w reg val true false a l = refl
write-Storeless regs w reg val false true a l = refl
write-Storeless regs w reg val false false a l = refl

wake-Storeless : (regs : ℕ) (b : Bool) → Storeless (locked (if b then wake_events regs else []))
wake-Storeless regs true a l = refl
wake-Storeless regs false a l = refl

-- `SameFields`, as a record, whose two states a proof of it determines.
record Quiet {W : Type 0} (s t : State W) : Type 0 where
  pub same : SameFields s t

module _ {W : Type 0} where
  Quiet-refl : (s : State W) → Quiet s s
  Quiet-refl s = record { same = (refl, refl, refl, λ a. refl) }

  Quiet-trans : {s t u : State W} → Quiet s t → Quiet t u → Quiet s u
  Quiet-trans x y =
      let (gtt, entry, ring, stored) = x.same in
      let (gtt', entry', ring', stored') = y.same in
      record { same = (gtt' ∙ gtt, entry' ∙ entry, ring' ∙ ring, λ a. stored' a ∙ stored a) }

  -- A step whose events are no stores.
  Touches-Quiet :
      {l : LockState} {evs : List Event} {s t : State W}
      → Touches l evs s t
      → Storeless evs
      → Quiet s t
  Touches-Quiet {s = s} {t} h none_stored = record {
    same = (
      h.gtt,
      h.gtt_entry,
      h.ring,
      λ a.
          sym (last_store-effects a t.log)
          ∙ ap (last_store a) h.log
          ∙ none_stored a (effects s.log)
          ∙ last_store-effects a s.log,
    );
  }

module _ {W : Type 0} ⦃p : Platform W⦄ {s : State W} where
  read-Quiet : (reg : ℕ) {t : State W} → Quiet s t → Quiet s (nugpgpu_read reg t).1
  read-Quiet reg {t} h =
      let (error, touched) = gpu_read-Touches w32 reg t in
      Quiet-trans h (
        Touches-Quiet touched (
          read-Storeless t.regs ((t.forcewake_count == 0) && needs_forcewake (reg % 2 ^ 32)) error))

  write-Quiet : (reg val : ℕ) {t : State W} → Quiet s t → Quiet s (nugpgpu_write reg val t).1
  write-Quiet reg val {t} h =
      let (before, after, touched) = gpu_write-Touches w32 reg val t in
      Quiet-trans h (Touches-Quiet touched (write-Storeless t.regs w32 reg val before after))

  wait_until-Quiet :
      (cond : M W Bool)
      → ((u : State W) → Quiet u (cond u).1)
      → (ms w : ℕ) {t : State W} → Quiet s t
      → Quiet s (wait_until cond ms w t).1
  unfolding pause
  wait_until-Quiet cond kept ms w {t} h = Quiet-trans h (
      wait_until_rel Quiet Quiet-refl (λ a b c x y. Quiet-trans x y)
        (λ ms' u. record { same = (refl, refl, refl, λ a. refl) }) cond kept ms w t)

  report_head-Quiet : (base : ℕ) {t : State W} → Quiet s t → Quiet s (report_head base t).1
  unfolding report_head
  report_head-Quiet base h =
      let a = read-Quiet (base + 0x34) (read-Quiet (base + 0x3c) h) in
      read-Quiet (base + 0x38) (read-Quiet (base + 0x30) a)

  when_report-Quiet :
      (b : Bool) (base : ℕ) {t : State W} → Quiet s t → Quiet s (when b (report_head base) t).1
  when_report-Quiet true base h = report_head-Quiet base h
  when_report-Quiet false base h = h

  retry-Quiet :
      (again : Bool) (base : ℕ) {t : State W}
      → Quiet s t
      → Quiet s (when again (retry_head base) t).1
  unfolding retry_head
  retry-Quiet true base h =
      when_report-Quiet _ base (read-Quiet (base + 0x34) (write-Quiet (base + 0x34) 0 h))
  retry-Quiet false base h = h

  start_is_set-Quiet :
      (base gva : ℕ) (b : Bool) {t : State W} → Quiet s t → Quiet s (start_is_set base gva b t).1
  unfolding start_is_set head_is_zero
  start_is_set-Quiet base gva true h = read-Quiet (base + 0x34) h
  start_is_set-Quiet base gva false h = h

  ctl_is_valid-Quiet :
      (base gva : ℕ) (b : Bool) {t : State W} → Quiet s t → Quiet s (ctl_is_valid base gva b t).1
  unfolding ctl_is_valid
  ctl_is_valid-Quiet base gva true h = start_is_set-Quiet base gva _ (read-Quiet (base + 0x38) h)
  ctl_is_valid-Quiet base gva false h = h

  ring_is_running-Quiet :
      (base gva : ℕ) {t : State W} → Quiet s t → Quiet s (ring_is_running base gva t).1
  unfolding ring_is_running
  ring_is_running-Quiet base gva h = ctl_is_valid-Quiet base gva _ (read-Quiet (base + 0x3c) h)

module _ {W : Type 0} ⦃p : Platform W⦄ where
  flushtlb-Quiet : {s t : State W} → Quiet s t → Quiet s (flushtlb t).1
  unfolding flushtlb wait_for
  flushtlb-Quiet {s} {t} h =
      let reg = t.ring.mmio_base + 0xc0 in
      wait_until-Quiet _ (λ u. read-Quiet reg (Quiet-refl u)) 1000 1 (write-Quiet reg _ h)

  clear_ring-Quiet : (s : State W) → Quiet s (clear_ring s).1
  unfolding clear_ring
  clear_ring-Quiet s =
      let g = (gpu_forcewake_get s).1 in
      let base = g.ring.mmio_base in
      let counted =
        Touches-Quiet (gpu_forcewake_get-Touches s)
          (wake-Storeless s.regs (s.forcewake_count == 0)) in
      let awake : Quiet s g = record { same = counted.same } in
      let status = write-Quiet render_hws_pga_gen7 g.ring.gva_status awake in
      let flushed = flushtlb-Quiet (read-Quiet render_hws_pga_gen7 status) in
      let stopped = write-Quiet (base + 0x34) 0 (write-Quiet (base + 0x3c) 0 flushed) in
      write-Quiet (base + 0x30) 0 stopped

module _ {W : Type 0} ⦃p : Platform W⦄ ⦃k : Services W⦄ where
  -- The state at the end of the last wait.
  pub start_ring-SameFields :
      (s : State W)
      → (w : Waited) × (v : State W) × (start_ring s ≡ ring_started w v) × SameFields s v
  unfolding start_ring wait_for
  start_ring-SameFields s =
      let u = (clear_ring s).1 in
      let base = u.ring.mmio_base in
      let a = read-Quiet (base + 0x34) (clear_ring-Quiet s) in
      let b = read-Quiet (base + 0x34) (retry-Quiet _ base a) in
      let c = write-Quiet (base + 0x38) u.ring.gva_ringbuffer b in
      let d = write-Quiet (base + 0x3c) _ c in
      let gva = u.ring.gva_ringbuffer in
      let e =
        wait_until-Quiet (ring_is_running base gva)
          (λ x. ring_is_running-Quiet base gva (Quiet-refl x)) 50 1 d in
      (_, _, refl, e.same)
